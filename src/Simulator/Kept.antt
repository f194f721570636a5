-- ===== src/Simulator/Kept.antt =====
-- The checks of kernal/Process_scheduling/Simulate.cpp that leave the running process alone.
use mathlib.Core.Path.{subst}
use she_x_mini_operating_sys.Base.{
  ℕ, zero, suc, ◌<◌, ◌^◌, ◌≡◌, refl, sym, ap, ◌∙◌, Bool, true, false, Bool-cases, inl, inr, Option,
  none, some, List, [], ◌∷◌, ◌++◌, if◌then◌else◌, length, length-append, get_elem?, arith,
}
use she_x_mini_operating_sys.Base.Int.{pos}
use she_x_mini_operating_sys.Scheduling.{Process, update_submission_time, fcfs}
use she_x_mini_operating_sys.Simulator.{
  Simulator, is_sys_full, incoming_step, incoming_loop, check_incoming_queue, blocked_step,
  blocked_loop, suspensed_step, suspensed_loop, check_blocked_queue, ready_suspensed_loop,
  check_ready_suspensed_queue,
}
use she_x_mini_operating_sys.Simulator.Counts.{
  headcount, headcount-push, headcount-cons, Accounts, nobody, Accounts-self, Accounts-trans,
  is_sys_full-room,
}
use she_x_mini_operating_sys.Simulator.{
  Round, exited, undefined, ran, and_then, replaced, admit_loop, admit_with,
}
use she_x_mini_operating_sys.Replacement.{Page, Pages, Outcome, Policy, replace}

if_kept :
    (b : Bool) (x y s : Simulator)
    → x.running_process ≡ s.running_process
    → y.running_process ≡ s.running_process
    → (if b then x else y).running_process ≡ s.running_process
if_kept true x y s e f = e
if_kept false x y s e f = f

incoming_loop_kept :
    (i : ℕ) (s : Simulator) → (incoming_loop i s).running_process ≡ s.running_process
unfolding incoming_loop
incoming_loop_kept zero s = refl
incoming_loop_kept (suc i) s = incoming_loop_kept i _ ∙ step (get_elem? s.incoming_queue i)
  where
    step : (x : Option Process) → (incoming_step i s x).running_process ≡ s.running_process
    step none = refl
    step (some p) = if_kept _ _ _ s refl refl

blocked_loop_kept : (i : ℕ) (s : Simulator) → (blocked_loop i s).running_process ≡ s.running_process
unfolding blocked_loop
blocked_loop_kept zero s = refl
blocked_loop_kept (suc i) s = blocked_loop_kept i _ ∙ step (get_elem? s.blocked_queue i)
  where
    step : (x : Option Process) → (blocked_step i s x).running_process ≡ s.running_process
    step none = refl
    step (some p) = if_kept _ _ _ s refl refl

suspensed_loop_kept :
    (i : ℕ) (s : Simulator) → (suspensed_loop i s).running_process ≡ s.running_process
unfolding suspensed_loop
suspensed_loop_kept zero s = refl
suspensed_loop_kept (suc i) s =
    suspensed_loop_kept i _ ∙ step (get_elem? s.blocked_suspensed_queue i)
  where
    step : (x : Option Process) → (suspensed_step i s x).running_process ≡ s.running_process
    step none = refl
    step (some p) = if_kept _ _ _ s refl refl

ready_suspensed_loop_kept :
    (ps : List Process) (s : Simulator)
    → (ready_suspensed_loop ps s).running_process ≡ s.running_process
unfolding ready_suspensed_loop fcfs
ready_suspensed_loop_kept [] s = refl
ready_suspensed_loop_kept (p ∷ ps) s = if_kept _ _ _ s (ready_suspensed_loop_kept ps _) refl

pub check_incoming_queue_kept :
    (s : Simulator) → (check_incoming_queue s).running_process ≡ s.running_process
unfolding check_incoming_queue
check_incoming_queue_kept s = incoming_loop_kept (length s.incoming_queue) s

pub check_blocked_queue_kept :
    (s : Simulator) → (check_blocked_queue s).running_process ≡ s.running_process
unfolding check_blocked_queue
check_blocked_queue_kept s =
    suspensed_loop_kept _ (blocked_loop (length s.blocked_queue) s)
    ∙ blocked_loop_kept (length s.blocked_queue) s

pub check_ready_suspensed_queue_kept :
    (s : Simulator) → (check_ready_suspensed_queue s).running_process ≡ s.running_process
unfolding check_ready_suspensed_queue
check_ready_suspensed_queue_kept s = ready_suspensed_loop_kept s.ready_suspensed_queue s

-- What holds of the state that a part of the round ends with, if it does.
abbrev pub Ran : (Simulator → Type 0) → Round → Type 0
Ran P exited = Unit {0}
Ran P undefined = Unit {0}
Ran P (ran s) = P s

pub and_then-Ran :
    (P Q : Simulator → Type 0) (r : Round) (f : Simulator → Round)
    → Ran P r
    → ((s : Simulator) → P s → Ran Q (f s))
    → Ran Q (and_then r f)
and_then-Ran P Q exited f h k = tt
and_then-Ran P Q undefined f h k = tt
and_then-Ran P Q (ran s) f h k = k s h

pub replaced-Ran :
    (P : Simulator → Type 0) (s : Simulator) (r : Outcome)
    → ((frames : Pages) → P (record s { frames = frames }))
    → Ran P (replaced s r)
replaced-Ran P s Outcome.exited h = tt
replaced-Ran P s Outcome.undefined h = tt
replaced-Ran P s (Outcome.returned done frames) h = h frames

-- Nothing is gone, and the running process is as it was.
abbrev pub Waits : Simulator → Simulator → Type 0
Waits s s' = Accounts s s' nobody × (s'.running_process ≡ s.running_process)

Waits-trans : (s t u : Simulator) → Waits s t → Waits t u → Waits s u
Waits-trans s t u (a, e) (b, f) = (Accounts-trans s t u nobody a b, f ∙ e)

pub Ran-map :
    (P Q : Simulator → Type 0) (r : Round) → ((s : Simulator) → P s → Q s) → Ran P r → Ran Q r
Ran-map P Q exited f h = tt
Ran-map P Q undefined f h = tt
Ran-map P Q (ran s) f h = f s h

admit_with-Ran :
    (policy : Policy) (P Q : Simulator → Type 0) (pages : List Page) (s : Simulator)
    (f : Simulator → Round)
    → ((frames : Pages) → P (record s { frames = frames }))
    → ((t : Simulator) → P t → Ran Q (f t))
    → Ran Q (admit_with policy pages s f)
admit_with-Ran policy P Q [] s f h k = tt
admit_with-Ran policy P Q (page ∷ pages) s f h k =
    and_then-Ran P Q (replaced s (replace policy page s.elapsed_time s.frames)) f
      (replaced-Ran P s _ h) k

pub admit_loop-Ran :
    (policy : Policy) (ps : List Process) (s : Simulator)
    → s.max_process_multiprogramming < 2 ^ 31
    → s.waiting_queue ≡ ps
    → Ran (Waits s) (admit_loop policy ps s)
unfolding admit_loop fcfs update_submission_time
admit_loop-Ran policy [] s small e = (Accounts-self s, refl)
admit_loop-Ran policy (p ∷ ps) s small e = elim (Bool-cases (is_sys_full s)) [
  | inl full ↦ rw full (Accounts-self s, refl)
  | inr room ↦
      let p' = update_submission_time (pos s.elapsed_time) p in
      let s' = record s { waiting_queue = ps; ready_queue = s.ready_queue ++ p' ∷ [] } in
      rw room (
        admit_with-Ran policy (λ t. Waits s t × (t.waiting_queue ≡ ps)) (Waits s) p.pages s'
          (admit_loop policy ps)
          (λ frames. (
            (
              record {
                everyone = λ pid. omega (
                  arith,
                  headcount-push pid s.ready_queue p',
                  headcount-cons pid p ps,
                  ap (headcount pid) e,
                );
                limit = refl;
                bounded = λ h.
                    omega (
                      arith,
                      is_sys_full-room s small room h,
                      length-append s.ready_queue (p' ∷ []),
                    );
              },
              refl,
            ),
            refl,
          ))
          (λ t (w, left).
            Ran-map (Waits t) (Waits s) _ (λ u. Waits-trans s t u w)
              (admit_loop-Ran policy ps t (subst (λ n. n < 2 ^ 31) (sym w.0.limit) small) left)))
]
