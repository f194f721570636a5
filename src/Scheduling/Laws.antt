-- ===== src/Scheduling/Laws.antt =====
-- What RR, PRIORITY, SD and FEEDBACK of kernal/include/ProcessSchedulingAlgorithms.h do with the queues.
use mathlib.Core.Path.{subst}
use she_x_mini_operating_sys.Base.{
  ℕ, ◌/◌, ◌≡◌, refl, sym, ap, ◌∙◌, true, false, some, List, [], ◌∷◌, ◌++◌, length, get_elem?, set,
}
use she_x_mini_operating_sys.Base.Int.{ℤ, pos, ltb_ℤ}
use she_x_mini_operating_sys.Base.Splits.{get_elem?-split, set-split, erase-split}
use she_x_mini_operating_sys.Scheduling.{
  Process, Queues, Scheduled, Algorithm, use_rr, use_priority, use_feedback, use_sd, started,
  dispatch, max_int, priority_scheduling, rr, sd, feedback_loop, feedback_quantum, feedback_run,
  feedback, increment_times_executed, schedule,
}
use she_x_mini_operating_sys.Scheduling.Choice.{Each, priority_loop-Best, feedback_loop-Best}

-- Which of the ready processes an algorithm chooses: the first one, the first with the highest priority,
-- the first with the lowest.
abbrev pub IsChosen : Algorithm → List Process → Process → List Process → Type 0
IsChosen use_rr front p back = front ≡ []
IsChosen (use_sd n) front p back = front ≡ []
IsChosen use_priority front p back =
    Each (λ x. ltb_ℤ x.priority p.priority ≡ true) front
    × Each (λ x. ltb_ℤ p.priority x.priority ≡ false) back
IsChosen use_feedback front p back =
    Each (λ x. ltb_ℤ p.priority x.priority ≡ true) front
    × Each (λ x. ltb_ℤ x.priority p.priority ≡ false) back

-- How long it may run, and what is counted on it.
abbrev pub quantum_of : Algorithm → Process → Queues → ℤ
quantum_of use_rr p q = pos 2
quantum_of (use_sd n) p q = pos (n / length q.ready)
quantum_of use_priority p q = max_int
quantum_of use_feedback p q = feedback_quantum p.priority q.quantum

abbrev pub counted : Algorithm → Process → Process
counted use_rr p = p
counted (use_sd n) p = p
counted use_priority p = p
counted use_feedback p = increment_times_executed p

pub data Dispatches (algorithm : Algorithm) (elapsed_time : ℤ) (q : Queues) (r : Scheduled)
    : Type 0 where
  none_ready : q.ready ≡ [] → r ≡ some (false, q) → Dispatches algorithm elapsed_time q r
  dispatched :
      (front : List Process) (p : Process) (back : List Process)
      → q.ready ≡ front ++ p ∷ back
      → IsChosen algorithm front p back
      → r
        ≡ some (
          true,
          record {
            ready = front ++ back;
            running = started elapsed_time (counted algorithm p) ∷ [];
            quantum = quantum_of algorithm p q;
          },
        )
      → Dispatches algorithm elapsed_time q r

get_elem?-whole :
    (ps front : List Process) (i : ℕ) (p : Process) (back : List Process)
    → ps ≡ front ++ p ∷ back
    → i ≡ length front
    → get_elem? ps i ≡ some p
get_elem?-whole ps front i p back whole e = rw (whole, e) (get_elem?-split front back p)

dispatch-split :
    (elapsed_time : ℤ) (i : ℕ) (ps front : List Process) (p : Process) (back : List Process)
    (quantum : ℤ)
    → ps ≡ front ++ p ∷ back
    → i ≡ length front
    → dispatch elapsed_time i (record { ready = ps; running = []; quantum = quantum })
      ≡ some (
        true,
        record { ready = front ++ back; running = started elapsed_time p ∷ []; quantum = quantum },
      )
dispatch-split elapsed_time i ps front p back quantum whole e =
    rw (whole, e) (rw (dispatch, get_elem?-split front back p, erase-split front back p) refl)

module _ (elapsed_time quantum : ℤ) (first : Process) (rest : List Process) where
  abbrev some_ready : Queues
  some_ready = record { ready = first ∷ rest; running = []; quantum = quantum }

  priority-Dispatches :
      Dispatches use_priority elapsed_time some_ready (priority_scheduling elapsed_time some_ready)
  unfolding priority_scheduling
  priority-Dispatches =
      let (priority, b) = priority_loop-Best first rest in
      dispatched b.front b.chosen b.back b.whole
        (subst
          (λ n.
            Each (λ x. ltb_ℤ x.priority n ≡ true) b.front
            × Each (λ x. ltb_ℤ n x.priority ≡ false) b.back)
          (sym b.priority_eq) (b.over_front, b.over_back))
        (dispatch-split elapsed_time _ (first ∷ rest) b.front b.chosen b.back max_int b.whole
          b.index)

  feedback-Dispatches :
      Dispatches use_feedback elapsed_time some_ready (feedback elapsed_time some_ready)
  unfolding feedback
  feedback-Dispatches =
      let found = feedback_loop (first ∷ rest) first.priority 0 0 in
      let b = feedback_loop-Best first rest in
      let p = increment_times_executed b.chosen in
      let counted_ready : set (first ∷ rest) found.1 p ≡ b.front ++ p ∷ b.back =
        ap (λ ps. set ps found.1 p) b.whole
        ∙ ap (λ i. set (b.front ++ b.chosen ∷ b.back) i p) b.index
        ∙ set-split b.front b.back b.chosen p in
      dispatched b.front b.chosen b.back b.whole
        (subst
          (λ n.
            Each (λ x. ltb_ℤ n x.priority ≡ true) b.front
            × Each (λ x. ltb_ℤ x.priority n ≡ false) b.back)
          (sym b.priority_eq) (b.over_front, b.over_back))
        (ap (feedback_run elapsed_time found some_ready)
            (get_elem?-whole (first ∷ rest) b.front found.1 b.chosen b.back b.whole b.index)
          ∙ dispatch-split elapsed_time found.1 _ b.front p b.back
              (feedback_quantum found.0 quantum) counted_ready b.index
          ∙ ap
              (λ n. some (
                true,
                record {
                  ready = b.front ++ b.back;
                  running = started elapsed_time p ∷ [];
                  quantum = feedback_quantum n quantum;
                },
              ))
              (sym b.priority_eq))

  schedule-some :
      (algorithm : Algorithm)
      → Dispatches algorithm elapsed_time some_ready (schedule algorithm elapsed_time some_ready)
  unfolding schedule rr sd
  schedule-some use_rr = dispatched [] first rest refl refl refl
  schedule-some (use_sd n) = dispatched [] first rest refl refl refl
  schedule-some use_priority = priority-Dispatches
  schedule-some use_feedback = feedback-Dispatches

schedule-none :
    (algorithm : Algorithm) (elapsed_time quantum : ℤ)
    → let q : Queues = record { ready = []; running = []; quantum = quantum } in
      schedule algorithm elapsed_time q ≡ some (false, q)
unfolding schedule rr sd priority_scheduling feedback
schedule-none use_rr elapsed_time quantum = refl
schedule-none (use_sd n) elapsed_time quantum = refl
schedule-none use_priority elapsed_time quantum = refl
schedule-none use_feedback elapsed_time quantum = refl

-- Where no process runs, RR, PRIORITY, SD and FEEDBACK return false and change nothing with an empty
-- ready queue, and otherwise return true and move one process from the ready queue to the running list,
-- the others keeping their order: RR and SD the first, PRIORITY the first of those with the highest
-- priority, FEEDBACK the first of those with the lowest. The quantum is 2, SD's share, the largest int,
-- or FEEDBACK's for the priority of that process.
pub schedule-Dispatches :
    (algorithm : Algorithm) (elapsed_time : ℤ) (q : Queues)
    → q.running ≡ []
    → Dispatches algorithm elapsed_time q (schedule algorithm elapsed_time q)
schedule-Dispatches algorithm elapsed_time q idle = by_ready q.ready q.running refl idle
  where
    no_cons : {r : Process} {rs : List Process} → r ∷ rs ≡ [] → ⊥
    no_cons e = cc

    by_ready :
        (ready running : List Process)
        → ready ≡ q.ready
        → running ≡ []
        → Dispatches algorithm elapsed_time
            (record q { ready = ready; running = running })
            (schedule algorithm elapsed_time (record q { ready = ready; running = running }))
    by_ready [] [] e f = none_ready refl (schedule-none algorithm elapsed_time q.quantum)
    by_ready (first ∷ rest) [] e f = schedule-some elapsed_time q.quantum first rest algorithm
    by_ready ready (r ∷ rs) e f = absurd (no_cons f)
