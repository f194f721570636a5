-- ===== src/Simulator/Parts.antt =====
-- The parts of a round of kernal/Process_scheduling/Simulate.cpp that lose no process, and the checks
-- together.
use mathlib.Core.Path.{subst}
use she_x_mini_operating_sys.Base.{
  ltb, ◌<◌, ◌^◌, ◌≡◌, refl, sym, ap, ◌∙◌, Bool, true, false, Bool-cases, inl, inr, List, [], ◌∷◌,
  ◌==◌, length, arith,
}
use she_x_mini_operating_sys.Base.Int.{ℤ, pos, ◌-ℤ◌, ltb_ℤ}
use she_x_mini_operating_sys.Scheduling.{Process}
use she_x_mini_operating_sys.Simulator.{
  Simulator, check_blocked_queue, check_ready_suspensed_queue, check_running_process,
}
use she_x_mini_operating_sys.Simulator.Counts.{
  headcount, headcount-cons, Accounts, nobody, Accounts-self, Accounts-trans, one_if-same,
}
use she_x_mini_operating_sys.Replacement.{find_page, Page, Policy}
use she_x_mini_operating_sys.Scheduling.{
  Algorithm, use_rr, use_priority, use_feedback, use_sd, Queues, Scheduled, started,
  set_response_time, increment_times_executed, get_page, current_page, second_page, is_alive,
}
use she_x_mini_operating_sys.Scheduling.Laws.{
  Dispatches, none_ready, dispatched, counted, schedule-Dispatches,
}
use she_x_mini_operating_sys.Base.Int.{negsuc, eqb_ℤ}
use she_x_mini_operating_sys.Simulator.Counts.{headcount-middle, length-middle}
use she_x_mini_operating_sys.Simulator.Checks.{
  check_blocked_queue-Accounts, check_ready_suspensed_queue-Accounts,
}
use she_x_mini_operating_sys.Simulator.Running.{ending, ending_of, check_running_process-Accounts}
use she_x_mini_operating_sys.Simulator.Kept.{
  Ran, Ran-map, replaced-Ran, check_blocked_queue_kept, check_ready_suspensed_queue_kept,
}
use she_x_mini_operating_sys.Simulator.Rounds.{
  in_memory, run_step, touch_page, look_up, page_in_memory, scheduled, request_page, bring_missing,
  bring_running, bring_page, end_round, checks,
}

started-pid : (elapsed_time : ℤ) (p : Process) → (started elapsed_time p).pid ≡ p.pid
unfolding set_response_time
started-pid elapsed_time p = elim (Bool-cases (eqb_ℤ p.response_time (negsuc 0))) [
  | inl on ↦ rw on refl
  | inr off ↦ rw off refl
]

counted-pid : (algorithm : Algorithm) (p : Process) → (counted algorithm p).pid ≡ p.pid
unfolding increment_times_executed
counted-pid use_rr p = refl
counted-pid (use_sd n) p = refl
counted-pid use_priority p = refl
counted-pid use_feedback p = refl

current_page-pid : (p : Process) (pages : List Page) → (current_page p pages).1.pid ≡ p.pid
current_page-pid p [] = refl
current_page-pid p (page ∷ rest) =
    elim (Bool-cases
      (ltb_ℤ (p.total_executation_time -ℤ p.remains_execution_time) (pos page.first_use))) [
        | inl later ↦ rw later refl
        | inr now ↦ rw now (elim (Bool-cases (is_alive page)) [
          | inl on ↦ rw on refl
          | inr off ↦ rw off (second rest)
        ])
      ]
  where
    second : (rest : List Page) → (second_page p rest).1.pid ≡ p.pid
    second [] = refl
    second (page ∷ rest) = refl

get_page-pid : (p : Process) → (get_page p).1.pid ≡ p.pid
unfolding get_page
get_page-pid p = current_page-pid p p.pages

module _ (s : Simulator) (idle : s.running_process ≡ []) where
  scheduled-Ran :
      (algorithm : Algorithm) (q : Queues) (r : Scheduled)
      → q.ready ≡ s.ready_queue
      → q.running ≡ []
      → Dispatches algorithm (pos s.elapsed_time) q r
      → Ran (λ t. Accounts s t nobody) (scheduled s r)
  scheduled-Ran algorithm q r e f (none_ready none_there g) =
      subst (λ x. Ran (λ t. Accounts s t nobody) (scheduled s x)) (sym g)
        (record {
          everyone = λ pid.
              omega (arith, ap (headcount pid) idle, ap (headcount pid) e, ap (headcount pid) f);
          limit = refl;
          bounded = λ h. omega (arith, ap length idle, ap length e, ap length f);
        })
  scheduled-Ran algorithm q r e f (dispatched front p back whole chosen g) =
      let p' = started (pos s.elapsed_time) (counted algorithm p) in
      let same : p'.pid ≡ p.pid =
        started-pid (pos s.elapsed_time) (counted algorithm p) ∙ counted-pid algorithm p in
      let ready = sym e ∙ whole in
      subst (λ x. Ran (λ t. Accounts s t nobody) (scheduled s x)) (sym g)
        (record {
          everyone = λ pid. omega (
            arith,
            ap (headcount pid) idle,
            ap (headcount pid) ready,
            headcount-middle pid front back p,
            headcount-cons pid p' [],
            one_if-same pid p p' same,
          );
          limit = refl;
          bounded = λ h. omega (arith, ap length idle, ap length ready, length-middle front back p);
        })

-- The parts that lose no process.
abbrev pub Same : Simulator → Simulator → Type 0
Same s t = Accounts s t nobody

pub run_step-Ran :
    (algorithm : Algorithm) (ps : List Process) (s : Simulator)
    → s.running_process ≡ ps
    → Ran (Same s) (run_step algorithm ps s)
run_step-Ran algorithm [] s e =
    let q : Queues = record { ready = s.ready_queue; running = []; quantum = s.quantum } in
    scheduled-Ran s e algorithm q _ refl refl
      (schedule-Dispatches algorithm (pos s.elapsed_time) q refl)
run_step-Ran algorithm (p ∷ rest) s e = Accounts-self s

-- The running process has lost a page at most.
running_page :
    (s : Simulator) (p p' : Process) (rest : List Process)
    → s.running_process ≡ p ∷ rest
    → p'.pid ≡ p.pid
    → Same s (record s { running_process = p' ∷ rest })
running_page s p p' rest e same = record {
  everyone = λ pid. omega (
    arith,
    ap (headcount pid) e,
    headcount-cons pid p rest,
    headcount-cons pid p' rest,
    one_if-same pid p p' same,
  );
  limit = refl;
  bounded = λ h. omega (arith, ap length e);
}

touch_page-Same : (page : Page) (s : Simulator) → Same s (touch_page page s).1
touch_page-Same page s =
    elim (Bool-cases (ltb (find_page page s.frames.memory) (length s.frames.memory))) [
      | inl hit ↦ rw hit (record { everyone = λ pid. omega arith; limit = refl; bounded = λ h. h })
      | inr missed ↦
          rw missed (record { everyone = λ pid. omega arith; limit = refl; bounded = λ h. h })
    ]

look_up-Same :
    (page : Page) (p p' : Process) (rest : List Process) (s : Simulator)
    → s.running_process ≡ p ∷ rest
    → p'.pid ≡ p.pid
    → Same s (look_up (page, p') rest s).1
look_up-Same page p p' rest s e same = elim (Bool-cases (page.life_time == 0)) [
  | inl gone ↦ rw gone (running_page s p p' rest e same)
  | inr here ↦
      let s' = record s { running_process = p' ∷ rest } in
      rw here (
        Accounts-trans s s' _ nobody (running_page s p p' rest e same)
          (touch_page-Same (get_page p').0 s'))
]

in_memory-Same :
    (ps : List Process) (s : Simulator) → s.running_process ≡ ps → Same s (in_memory ps s).1
in_memory-Same [] s e = Accounts-self s
in_memory-Same (p ∷ rest) s e =
    look_up-Same (get_page p).0 p (get_page p).1 rest s e (get_page-pid p)

request_page-Ran :
    (policy : Policy) (ps : List Process) (s : Simulator)
    → s.running_process ≡ ps
    → Ran (Same s) (request_page policy ps s)
request_page-Ran policy [] s e = tt
request_page-Ran policy (p ∷ rest) s e =
    let p' = (get_page p).1 in
    let a = running_page s p p' rest e (get_page-pid p) in
    replaced-Ran (Same s) (record s { running_process = p' ∷ rest }) _
      (λ frames. record { everyone = a.everyone; limit = a.limit; bounded = a.bounded })

bring_missing-Ran :
    (policy : Policy) (s : Simulator) (found : Bool) (t : Simulator)
    → Same s t
    → Ran (Same s) (bring_missing policy (found, t))
bring_missing-Ran policy s true t a = a
bring_missing-Ran policy s false t a =
    Ran-map (Same t) (Same s) _ (λ u b. Accounts-trans s t u nobody a b)
      (request_page-Ran policy t.running_process t refl)

bring_running-Ran :
    (policy : Policy) (ps : List Process) (s : Simulator) → Ran (Same s) (bring_running policy ps s)
unfolding page_in_memory
bring_running-Ran policy [] s = tt
bring_running-Ran policy (p ∷ rest) s = elim (Bool-cases (ltb_ℤ (pos 0) p.remains_execution_time)) [
  | inl on ↦ rw on (
      bring_missing-Ran policy s (page_in_memory s).0 (page_in_memory s).1
        (in_memory-Same s.running_process s refl))
  | inr off ↦ rw off (Accounts-self s)
]

pub bring_page-Ran : (policy : Policy) (s : Simulator) → Ran (Same s) (bring_page policy s)
unfolding bring_page
bring_page-Ran policy s = elim (Bool-cases s.cpu_idle) [
  | inl on ↦ rw on (Accounts-self (record s { cpu_idle = true }))
  | inr off ↦ rw off (bring_running-Ran policy s.running_process (record s { cpu_idle = false }))
]

pub checks-Accounts :
    (s : Simulator) → s.max_process_multiprogramming < 2 ^ 31 → Accounts s (checks s) (ending s)
checks-Accounts s small =
    let b = check_blocked_queue s in
    let r = check_ready_suspensed_queue b in
    let to_b = check_blocked_queue-Accounts s in
    let kept = check_ready_suspensed_queue_kept b ∙ check_blocked_queue_kept s in
    Accounts-trans s b _ (ending s) to_b (
      Accounts-trans b r _ (ending s)
        (check_ready_suspensed_queue-Accounts b (subst (λ n. n < 2 ^ 31) (sym to_b.limit) small))
        (subst (λ ps. Accounts r (check_running_process r) (ending_of ps)) kept
          (check_running_process-Accounts r)))

pub end_round-Same : (s : Simulator) → Same s (end_round s)
unfolding end_round
end_round-Same s = record { everyone = λ pid. omega arith; limit = refl; bounded = λ h. h }
