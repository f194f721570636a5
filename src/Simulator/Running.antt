-- ===== src/Simulator/Running.antt =====
-- `CheckRunningProcess` of kernal/Process_scheduling/Simulate.cpp loses the running process only where it
-- has ended.
use she_x_mini_operating_sys.Base.{
  ltb, ℕ, ◌+◌, ◌≡◌, refl, ap, ◌∙◌, true, false, not, ◌&&◌, Bool-cases, inl, inr, List, [], ◌∷◌,
  if◌then◌else◌, length, length-append, arith,
}
use she_x_mini_operating_sys.Base.Int.{pos, ltb_ℤ}
use she_x_mini_operating_sys.Scheduling.{
  life_step, Process, decrement_execution_time, decrement_page_life_time,
}
use she_x_mini_operating_sys.Replacement.{Page}
use she_x_mini_operating_sys.Simulator.{
  Simulator, is_sys_full, is_empty_queue, running_step, check_running_process, terminate_process,
}
use she_x_mini_operating_sys.Simulator.Counts.{
  one_if, headcount, headcount-push, headcount-cons, Accounts, Accounts-trans, one_if-same,
}

-- The running process of this number, counted down, where it is at its end: its time is used up, and it
-- does not block.
abbrev pub ended : Process → ℕ → ℕ
ended p pid =
    if ltb_ℤ p.remains_execution_time (pos 1) && not (ltb_ℤ (pos 0) p.block_time)
    then one_if pid p
    else 0

abbrev pub ending_of : List Process → ℕ → ℕ
ending_of [] pid = 0
ending_of (p ∷ rest) pid = ended (decrement_page_life_time (decrement_execution_time p)) pid

abbrev pub ending : Simulator → ℕ → ℕ
ending s = ending_of s.running_process

life_step-pid : (p : Process) (pages : List Page) → (life_step p pages).pid ≡ p.pid
life_step-pid p [] = refl
life_step-pid p (page ∷ rest) = elim (Bool-cases (ltb 0 page.life_time)) [
  | inl on ↦ rw on refl
  | inr off ↦ rw off refl
]

decrement_execution_time-pid : (p : Process) → (decrement_execution_time p).pid ≡ p.pid
unfolding decrement_execution_time
decrement_execution_time-pid p = elim (Bool-cases (ltb_ℤ (pos 0) p.remains_execution_time)) [
  | inl on ↦ rw on refl
  | inr off ↦ rw off refl
]

counted_down : (p : Process) → (decrement_page_life_time (decrement_execution_time p)).pid ≡ p.pid
unfolding decrement_page_life_time
counted_down p =
    let q = decrement_execution_time p in life_step-pid q q.pages ∙ decrement_execution_time-pid p

module _ (p : Process) (rest : List Process) (s : Simulator)
    (runs : s.running_process ≡ p ∷ rest) where
  seen : (pid : ℕ) → headcount pid s.running_process ≡ one_if pid p + headcount pid rest
  seen pid = ap (headcount pid) runs ∙ headcount-cons pid p rest

  ended_0 :
      (pid : ℕ)
      → (ltb_ℤ p.remains_execution_time (pos 1) && not (ltb_ℤ (pos 0) p.block_time)) ≡ false
      → ended p pid ≡ 0
  ended_0 pid e = rw e refl

  ended_1 :
      (pid : ℕ)
      → (ltb_ℤ p.remains_execution_time (pos 1) && not (ltb_ℤ (pos 0) p.block_time)) ≡ true
      → ended p pid ≡ one_if pid p
  ended_1 pid e = rw e refl

  running_step-Accounts : Accounts s (running_step p rest s) (ended p)
  unfolding terminate_process
  running_step-Accounts = elim (Bool-cases (ltb_ℤ p.remains_execution_time (pos 1))) [
    | inl over ↦ rw over (elim (Bool-cases (ltb_ℤ (pos 0) p.block_time)) [
      | inl blocks ↦
          rw blocks (elim (Bool-cases (not (is_empty_queue s.waiting_queue) && is_sys_full s)) [
            | inl suspend ↦ rw suspend (record {
              everyone = λ pid. omega (
                arith,
                seen pid,
                ended_0 pid (rw over (rw blocks refl)),
                headcount-push pid s.blocked_suspensed_queue p,
              );
              limit = refl;
              bounded = λ h. omega (arith, ap length runs);
            })
            | inr keep ↦ rw keep (record {
              everyone = λ pid. omega (
                arith,
                seen pid,
                ended_0 pid (rw over (rw blocks refl)),
                headcount-push pid s.blocked_queue p,
              );
              limit = refl;
              bounded = λ h. omega (arith, ap length runs, length-append s.blocked_queue (p ∷ []));
            })
          ])
      | inr done ↦ rw done (record {
        everyone = λ pid. omega (arith, seen pid, ended_1 pid (rw over (rw done refl)));
        limit = refl;
        bounded = λ h. omega (arith, ap length runs);
      })
    ])
    | inr goes_on ↦ rw goes_on (elim (Bool-cases (ltb_ℤ s.quantum (pos 1))) [
      | inl preempted ↦ rw preempted (record {
        everyone = λ pid.
            omega
              (arith, seen pid, ended_0 pid (rw goes_on refl), headcount-push pid s.ready_queue p);
        limit = refl;
        bounded = λ h. omega (arith, ap length runs, length-append s.ready_queue (p ∷ []));
      })
      | inr stays ↦ rw stays (record {
        everyone = λ pid.
            omega (arith, seen pid, ended_0 pid (rw goes_on refl), headcount-cons pid p rest);
        limit = refl;
        bounded = λ h. omega (arith, ap length runs);
      })
    ])
  ]

pub check_running_process-Accounts :
    (s : Simulator) → Accounts s (check_running_process s) (ending s)
unfolding check_running_process
check_running_process-Accounts s = go s.running_process refl
  where
    go :
        (ps : List Process)
        → s.running_process ≡ ps
        → Accounts s (check_running_process (record s { running_process = ps })) (ending_of ps)
    go [] e = record {
      everyone = λ pid. omega (arith, ap (headcount pid) e);
      limit = refl;
      bounded = λ h. omega (arith, ap length e);
    }
    go (p ∷ rest) e =
        let p' = decrement_page_life_time (decrement_execution_time p) in
        let s' = record s { running_process = p' ∷ rest } in
        Accounts-trans s s' _ (ended p')
          (record {
            everyone = λ pid. omega (
              arith,
              ap (headcount pid) e,
              headcount-cons pid p rest,
              headcount-cons pid p' rest,
              one_if-same pid p p' (counted_down p),
            );
            limit = refl;
            bounded = λ h. omega (arith, ap length e);
          })
          (running_step-Accounts p' rest s' refl)
