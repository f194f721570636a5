-- ===== src/Simulator/Checks.antt =====
-- The checks of kernal/Process_scheduling/Simulate.cpp neither lose nor double a process.
use she_x_mini_operating_sys.Base.{
  ℕ, zero, suc, ◌<◌, ◌^◌, ◌≡◌, refl, ap, Bool, true, false, not, ◌&&◌, Bool-cases, inl, inr, Option,
  none, some, List, [], ◌∷◌, ◌++◌, length, length-append, length-set, get_elem?, arith,
}
use she_x_mini_operating_sys.Base.Int.{pos, ◌-ℤ◌, ltb_ℤ}
use she_x_mini_operating_sys.Scheduling.{
  Process, decrement_block_time, update_submission_time, fcfs,
}
use she_x_mini_operating_sys.Simulator.{
  Simulator, is_sys_full, is_empty_queue, incoming_step, incoming_loop, check_incoming_queue,
  blocked_step, blocked_loop, suspensed_step, suspensed_loop, check_blocked_queue,
  ready_suspensed_loop, check_ready_suspensed_queue,
}
use she_x_mini_operating_sys.Simulator.Counts.{
  headcount, headcount-push, headcount-cons, headcount-erase, headcount-set, length-erase, Accounts,
  nobody, Accounts-self, Accounts-trans, is_sys_full-room, one_if-same,
}

incoming_step-Accounts :
    (i : ℕ) (s : Simulator) (x : Option Process)
    → get_elem? s.incoming_queue i ≡ x
    → Accounts s (incoming_step i s x) nobody
incoming_step-Accounts i s none e = Accounts-self s
incoming_step-Accounts i s (some p) e =
    elim (Bool-cases (ltb_ℤ (pos 0) (p.submission_time -ℤ pos s.elapsed_time))) [
      | inl later ↦ rw later (Accounts-self s)
      | inr now ↦ rw now (record {
        everyone = λ pid. omega (
          arith,
          headcount-push pid s.waiting_queue p,
          headcount-erase pid s.incoming_queue i p e,
        );
        limit = refl;
        bounded = λ h. h;
      })
    ]

incoming_loop-Accounts : (i : ℕ) (s : Simulator) → Accounts s (incoming_loop i s) nobody
unfolding incoming_loop
incoming_loop-Accounts zero s = Accounts-self s
incoming_loop-Accounts (suc i) s =
    let s' = incoming_step i s (get_elem? s.incoming_queue i) in
    Accounts-trans s s' _ nobody (incoming_step-Accounts i s _ refl) (incoming_loop-Accounts i s')

decrement_block_time-pid : (p : Process) → (decrement_block_time p).pid ≡ p.pid
unfolding decrement_block_time
decrement_block_time-pid p = elim (Bool-cases (ltb_ℤ (pos 0) p.block_time)) [
  | inl on ↦ rw on refl
  | inr off ↦ rw off refl
]

blocked_step-Accounts :
    (i : ℕ) (s : Simulator) (x : Option Process)
    → get_elem? s.blocked_queue i ≡ x
    → Accounts s (blocked_step i s x) nobody
blocked_step-Accounts i s none e = Accounts-self s
blocked_step-Accounts i s (some p) e =
    let p' = decrement_block_time p in
    let same = decrement_block_time-pid p in
    elim (Bool-cases (not (ltb_ℤ (pos 0) p'.block_time) && is_empty_queue s.waiting_queue)) [
      | inl on ↦ rw on (record {
        everyone = λ pid. omega (
          arith,
          headcount-push pid s.ready_queue p',
          headcount-erase pid s.blocked_queue i p e,
          one_if-same pid p p' same,
        );
        limit = refl;
        bounded = λ h.
            omega
              (arith, length-append s.ready_queue (p' ∷ []), length-erase s.blocked_queue i p e);
      })
      | inr off ↦ rw off (record {
        everyone = λ pid. omega (arith, headcount-set pid s.blocked_queue i p p' e same);
        limit = refl;
        bounded = λ h. omega (arith, length-set s.blocked_queue i p');
      })
    ]

blocked_loop-Accounts : (i : ℕ) (s : Simulator) → Accounts s (blocked_loop i s) nobody
unfolding blocked_loop
blocked_loop-Accounts zero s = Accounts-self s
blocked_loop-Accounts (suc i) s =
    let s' = blocked_step i s (get_elem? s.blocked_queue i) in
    Accounts-trans s s' _ nobody (blocked_step-Accounts i s _ refl) (blocked_loop-Accounts i s')

suspensed_step-Accounts :
    (i : ℕ) (s : Simulator) (x : Option Process)
    → get_elem? s.blocked_suspensed_queue i ≡ x
    → Accounts s (suspensed_step i s x) nobody
suspensed_step-Accounts i s none e = Accounts-self s
suspensed_step-Accounts i s (some p) e =
    let p' = decrement_block_time p in
    let same = decrement_block_time-pid p in
    elim (Bool-cases (ltb_ℤ (pos 0) p'.block_time)) [
      | inl on ↦ rw on (record {
        everyone = λ pid. omega (arith, headcount-set pid s.blocked_suspensed_queue i p p' e same);
        limit = refl;
        bounded = λ h. h;
      })
      | inr off ↦ rw off (record {
        everyone = λ pid. omega (
          arith,
          headcount-push pid s.ready_suspensed_queue p',
          headcount-erase pid s.blocked_suspensed_queue i p e,
          one_if-same pid p p' same,
        );
        limit = refl;
        bounded = λ h. h;
      })
    ]

suspensed_loop-Accounts : (i : ℕ) (s : Simulator) → Accounts s (suspensed_loop i s) nobody
unfolding suspensed_loop
suspensed_loop-Accounts zero s = Accounts-self s
suspensed_loop-Accounts (suc i) s =
    let s' = suspensed_step i s (get_elem? s.blocked_suspensed_queue i) in
    Accounts-trans s s' _ nobody (suspensed_step-Accounts i s _ refl) (suspensed_loop-Accounts i s')

pub check_incoming_queue-Accounts : (s : Simulator) → Accounts s (check_incoming_queue s) nobody
unfolding check_incoming_queue
check_incoming_queue-Accounts s = incoming_loop-Accounts (length s.incoming_queue) s

pub check_blocked_queue-Accounts : (s : Simulator) → Accounts s (check_blocked_queue s) nobody
unfolding check_blocked_queue
check_blocked_queue-Accounts s =
    let s' = blocked_loop (length s.blocked_queue) s in
    Accounts-trans s s' _ nobody (blocked_loop-Accounts (length s.blocked_queue) s)
      (suspensed_loop-Accounts (length s'.blocked_suspensed_queue) s')

ready_suspensed_loop-Accounts :
    (ps : List Process) (s : Simulator)
    → s.max_process_multiprogramming < 2 ^ 31
    → s.ready_suspensed_queue ≡ ps
    → Accounts s (ready_suspensed_loop ps s) nobody
unfolding ready_suspensed_loop fcfs update_submission_time
ready_suspensed_loop-Accounts [] s small e = Accounts-self s
ready_suspensed_loop-Accounts (p ∷ ps) s small e =
    let p' = update_submission_time (pos s.elapsed_time) p in
    let s' = record s { ready_suspensed_queue = ps; ready_queue = s.ready_queue ++ p' ∷ [] } in
    elim (Bool-cases (is_empty_queue s.waiting_queue && not (is_sys_full s))) [
      | inr off ↦ rw off (Accounts-self s)
      | inl on ↦
          let free : is_sys_full s ≡ false =
            right_false (is_empty_queue s.waiting_queue) (is_sys_full s) on in
          let more = ready_suspensed_loop-Accounts ps s' small refl in
          rw on (record {
            everyone = λ pid. omega (
              arith,
              more.everyone pid,
              headcount-push pid s.ready_queue p',
              headcount-cons pid p ps,
              ap (headcount pid) e,
            );
            limit = more.limit;
            bounded = λ h. more.bounded (
                omega
                  (arith, is_sys_full-room s small free h, length-append s.ready_queue (p' ∷ [])));
          })
    ]
  where
    right_false : (a b : Bool) → (a && not b) ≡ true → b ≡ false
    right_false true false e = refl
    right_false true true e = cc
    right_false false false e = refl
    right_false false true e = cc

pub check_ready_suspensed_queue-Accounts :
    (s : Simulator)
    → s.max_process_multiprogramming < 2 ^ 31
    → Accounts s (check_ready_suspensed_queue s) nobody
unfolding check_ready_suspensed_queue
check_ready_suspensed_queue-Accounts s small =
    ready_suspensed_loop-Accounts s.ready_suspensed_queue s small refl
