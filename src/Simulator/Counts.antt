-- ===== src/Simulator/Counts.antt =====
-- How often a process stands in the queues of kernal/Process_scheduling/Simulate.cpp.
use she_x_mini_operating_sys.Base.{
  ℕ, zero, suc, ◌+◌, ◌<◌, ◌≤◌, ◌^◌, ◌≡◌, refl, ap, ◌∙◌, false, none, some, List, [], ◌∷◌, ◌++◌,
  ◌==◌, if◌then◌else◌, length, get_elem?, set, erase, arith,
}
use she_x_mini_operating_sys.Scheduling.{Process}
use she_x_mini_operating_sys.Simulator.{Simulator, active, is_sys_full}

abbrev pub one_if : ℕ → Process → ℕ
one_if pid p = if p.pid == pid then 1 else 0

pub headcount : ℕ → List Process → ℕ
headcount pid [] = 0
headcount pid (p ∷ ps) = one_if pid p + headcount pid ps

-- In all the queues.
abbrev pub population : ℕ → Simulator → ℕ
population pid s =
    headcount pid s.incoming_queue
    + headcount pid s.waiting_queue
    + headcount pid s.ready_suspensed_queue
    + headcount pid s.ready_queue
    + headcount pid s.running_process
    + headcount pid s.blocked_queue
    + headcount pid s.blocked_suspensed_queue

module _ (pid : ℕ) where
  pub headcount-push :
      (ps : List Process) (p : Process)
      → headcount pid (ps ++ p ∷ []) ≡ headcount pid ps + one_if pid p
  unfolding headcount
  headcount-push [] p = omega arith
  headcount-push (q ∷ ps) p = omega (arith, headcount-push ps p)

  pub headcount-cons :
      (p : Process) (ps : List Process) → headcount pid (p ∷ ps) ≡ one_if pid p + headcount pid ps
  unfolding headcount
  headcount-cons p ps = refl

  pub headcount-erase :
      (ps : List Process) (i : ℕ) (p : Process)
      → get_elem? ps i ≡ some p
      → headcount pid (erase ps i) + one_if pid p ≡ headcount pid ps
  unfolding headcount
  headcount-erase [] i p e = absurd (clash e)
    where
      clash : none ≡ some p → ⊥
      clash e = cc
  headcount-erase (q ∷ ps) zero p e = let same : q ≡ p = cc in omega (arith, ap (one_if pid) same)
  headcount-erase (q ∷ ps) (suc i) p e = omega (arith, headcount-erase ps i p e)

  pub headcount-set :
      (ps : List Process) (i : ℕ) (p p' : Process)
      → get_elem? ps i ≡ some p
      → p'.pid ≡ p.pid
      → headcount pid (set ps i p') ≡ headcount pid ps
  unfolding headcount
  headcount-set [] i p p' e same = refl
  headcount-set (q ∷ ps) zero p p' e same =
      let here : q ≡ p = cc in
      omega (arith, ap (one_if pid) here, ap {B = ℕ} (λ n. if n == pid then 1 else 0) same)
  headcount-set (q ∷ ps) (suc i) p p' e same = omega (arith, headcount-set ps i p p' e same)

pub headcount-middle :
    (pid : ℕ) (front back : List Process) (p : Process)
    → headcount pid (front ++ p ∷ back) ≡ headcount pid (front ++ back) + one_if pid p
unfolding headcount
headcount-middle pid [] back p = omega arith
headcount-middle pid (q ∷ front) back p = omega (arith, headcount-middle pid front back p)

pub length-middle :
    (front back : List Process) (p : Process)
    → length (front ++ p ∷ back) ≡ suc (length (front ++ back))
length-middle [] back p = refl
length-middle (q ∷ front) back p = ap suc (length-middle front back p)

pub length-erase :
    (ps : List Process) (i : ℕ) (p : Process)
    → get_elem? ps i ≡ some p
    → suc (length (erase ps i)) ≡ length ps
length-erase [] i p e = absurd (clash e)
  where
    clash : none ≡ some p → ⊥
    clash e = cc
length-erase (q ∷ ps) zero p e = refl
length-erase (q ∷ ps) (suc i) p e = ap suc (length-erase ps i p e)

-- Every process of `s` stands in a queue of `s'`, as often as before, and at most as many of them
-- compete for the processor and the memory as may.
pub record Accounts (s s' : Simulator) (gone : ℕ → ℕ) : Type 0 where
  pub everyone : (pid : ℕ) → population pid s' + gone pid ≡ population pid s
  pub limit : s'.max_process_multiprogramming ≡ s.max_process_multiprogramming
  pub bounded :
      active s ≤ s.max_process_multiprogramming → active s' ≤ s'.max_process_multiprogramming

abbrev pub nobody : ℕ → ℕ
nobody pid = 0

pub Accounts-self : (s : Simulator) → Accounts s s nobody
Accounts-self s = record { everyone = λ pid. omega arith; limit = refl; bounded = λ h. h }

pub Accounts-trans :
    (s t u : Simulator) (gone : ℕ → ℕ) → Accounts s t nobody → Accounts t u gone → Accounts s u gone
Accounts-trans s t u gone a b = record {
  everyone = λ pid. omega (arith, a.everyone pid, b.everyone pid);
  limit = b.limit ∙ a.limit;
  bounded = λ h. b.bounded (a.bounded h);
}

-- Below the limit, which is an int, there is room for one more.
pub is_sys_full-room :
    (s : Simulator)
    → s.max_process_multiprogramming < 2 ^ 31
    → is_sys_full s ≡ false
    → active s ≤ s.max_process_multiprogramming
    → active s < s.max_process_multiprogramming
unfolding is_sys_full
is_sys_full-room s small room h = ground arith

pub one_if-same : (pid : ℕ) (p p' : Process) → p'.pid ≡ p.pid → one_if pid p' ≡ one_if pid p
one_if-same pid p p' e = ap {B = ℕ} (λ n. if n == pid then 1 else 0) e
