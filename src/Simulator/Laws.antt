-- ===== src/Simulator/Laws.antt =====
-- What one round of the loop of `StartSimulation` in kernal/Process_scheduling/Simulate.cpp does with the
-- processes.
use mathlib.Core.Path.{subst}
use she_x_mini_operating_sys.Base.{ℕ, ◌<◌, ◌^◌, refl, sym, ◌∙◌, arith}
use she_x_mini_operating_sys.Simulator.{Simulator, check_incoming_queue}
use she_x_mini_operating_sys.Simulator.Counts.{Accounts, nobody, Accounts-trans}
use she_x_mini_operating_sys.Simulator.{ran, and_then, admit_loop}
use she_x_mini_operating_sys.Replacement.{Policy}
use she_x_mini_operating_sys.Scheduling.{Algorithm}
use she_x_mini_operating_sys.Simulator.Checks.{check_incoming_queue-Accounts}
use she_x_mini_operating_sys.Simulator.Running.{ending, ending_of}
use she_x_mini_operating_sys.Simulator.Kept.{
  Ran, Ran-map, and_then-Ran, Waits, admit_loop-Ran, check_incoming_queue_kept,
}
use she_x_mini_operating_sys.Simulator.Rounds.{run_next, bring_page, end_round, checks, round}
use she_x_mini_operating_sys.Simulator.Parts.{
  Same, run_step-Ran, bring_page-Ran, checks-Accounts, end_round-Same,
}

Accounts-then :
    (s t u : Simulator) (gone : ℕ → ℕ) → Accounts s t gone → Same t u → Accounts s u gone
Accounts-then s t u gone a b = record {
  everyone = λ pid. omega (arith, a.everyone pid, b.everyone pid);
  limit = b.limit ∙ a.limit;
  bounded = λ h. b.bounded (a.bounded h);
}

-- What follows the admission, from a state in which nothing is gone.
rest-Ran :
    (policy : Policy) (algorithm : Algorithm) (s t : Simulator)
    → s.max_process_multiprogramming < 2 ^ 31
    → Waits s t
    → Ran
        (λ u. Accounts s u (ending s))
        (and_then
          (run_next algorithm (checks t))
          (λ u. and_then (bring_page policy u) (λ v. ran (end_round v))))
unfolding run_next
rest-Ran policy algorithm s t small (a, kept) =
    let Q = λ (u : Simulator). Accounts s u (ending s) in
    let checked : Accounts s (checks t) (ending s) =
      subst (λ ps. Accounts s (checks t) (ending_of ps)) kept
        (Accounts-trans s t (checks t) (ending t) a
          (checks-Accounts t (subst (λ n. n < 2 ^ 31) (sym a.limit) small))) in
    and_then-Ran Q Q (run_next algorithm (checks t)) _
      (Ran-map (Same (checks t)) Q _ (λ u b. Accounts-then s (checks t) u (ending s) checked b)
        (run_step-Ran algorithm (checks t).running_process (checks t) refl))
      (λ u b.
        and_then-Ran Q Q (bring_page policy u) _
          (Ran-map (Same u) Q _ (λ v c. Accounts-then s u v (ending s) b c)
            (bring_page-Ran policy u))
          (λ v c. Accounts-then s v (end_round v) (ending s) c (end_round-Same v)))

-- Where the limit of the multiprogramming is an int, a round that neither exits nor reads out of a vector
-- ends with every process in the queues as often as before, but for the running one where its time is
-- used up and it does not block, which is gone. Where at most as many processes as the limit were
-- running, ready or blocked, they still are.
pub round-Accounts :
    (policy : Policy) (algorithm : Algorithm) (s : Simulator)
    → s.max_process_multiprogramming < 2 ^ 31
    → Ran (λ t. Accounts s t (ending s)) (round policy algorithm s)
unfolding round
round-Accounts policy algorithm s small =
    let i = check_incoming_queue s in
    let a = check_incoming_queue-Accounts s in
    let kept = check_incoming_queue_kept s in
    and_then-Ran (Waits i) (λ t. Accounts s t (ending s)) (admit_loop policy i.waiting_queue i) _
      (admit_loop-Ran policy i.waiting_queue i (subst (λ n. n < 2 ^ 31) (sym a.limit) small) refl)
      (λ t (b, e). rest-Ran policy algorithm s t small (Accounts-trans s i t nobody a b, e ∙ kept))
