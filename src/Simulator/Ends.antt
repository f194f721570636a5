-- ===== src/Simulator/Ends.antt =====
-- The rounds of a simulation of kernal/Process_scheduling/Simulate.cpp, from the first to the last.
use she_x_mini_operating_sys.Base.{
  ℕ, zero, suc, ◌^◌, ◌<◌, ◌≤◌, ◌≡◌, refl, sym, ◌∙◌, Bool, true, false, ◌&&◌, Bool-cases, inl, inr,
  List, [], ◌∷◌, arith,
}
use mathlib.Core.Path.{subst}
use she_x_mini_operating_sys.Replacement.{Policy}
use she_x_mini_operating_sys.Scheduling.{Process, Algorithm}
use she_x_mini_operating_sys.Simulator.{
  Simulator, Round, exited, undefined, ran, is_empty_queue, active,
}
use she_x_mini_operating_sys.Simulator.Rounds.{round}
use she_x_mini_operating_sys.Simulator.Counts.{population, Accounts}
use she_x_mini_operating_sys.Simulator.Kept.{Ran}
use she_x_mini_operating_sys.Simulator.Running.{ending}
use she_x_mini_operating_sys.Simulator.Laws.{round-Accounts}
use she_x_mini_operating_sys.Simulator.Whole.{
  new_simulator, clear_simulator, empty_queue, Simulation, finished, still_going, failed,
  after_round, simulate_loop,
}

-- The pages and the counts are those of the simulation before; all else is as in a new simulator.
pub clear_simulator_lem :
    (max_multiprogramming : ℕ) (s : Simulator)
    → clear_simulator max_multiprogramming s ≡ record (new_simulator max_multiprogramming) {
      frames = s.frames;
      hits = s.hits;
      miss = s.miss;
    }
clear_simulator_lem max_multiprogramming s = refl

-- No process comes up in the queues more often than before, and the limit of the multiprogramming is
-- the same and still kept, if it was.
pub record Shrunk (s t : Simulator) : Type 0 where
  pub fewer : (pid : ℕ) → population pid t ≤ population pid s
  pub limit : t.max_process_multiprogramming ≡ s.max_process_multiprogramming
  pub kept : active s ≤ s.max_process_multiprogramming → active t ≤ t.max_process_multiprogramming

Shrunk-self : (s : Simulator) → Shrunk s s
Shrunk-self s = record { fewer = λ pid. omega arith; limit = refl; kept = λ h. h }

Shrunk-after : (s t u : Simulator) (gone : ℕ → ℕ) → Accounts s t gone → Shrunk t u → Shrunk s u
Shrunk-after s t u gone a b = record {
  fewer = λ pid. omega (arith, a.everyone pid, b.fewer pid);
  limit = b.limit ∙ a.limit;
  kept = λ h. b.kept (a.bounded h);
}

-- All that `EmptyQueue` looks at is empty.
pub record Emptied (s : Simulator) : Type 0 where
  pub incoming : s.incoming_queue ≡ []
  pub waiting : s.waiting_queue ≡ []
  pub ready_suspensed : s.ready_suspensed_queue ≡ []
  pub ready : s.ready_queue ≡ []
  pub blocked : s.blocked_queue ≡ []
  pub blocked_suspensed : s.blocked_suspensed_queue ≡ []
  pub idle : s.cpu_idle ≡ true

-- How the loop may end from a state.
abbrev pub Ends : Simulator → Simulation → Type 0
Ends s (finished t) = Shrunk s t × Emptied t
Ends s (still_going t) = Shrunk s t
Ends s (failed r) = Unit {0}

both_true : (a b : Bool) → (a && b) ≡ true → (a ≡ true) × (b ≡ true)
both_true true b h = (refl, h)
both_true false b h = absurd (cc)

empty_of : (ps : List Process) → is_empty_queue ps ≡ true → ps ≡ []
empty_of [] h = refl
empty_of (p ∷ ps) h = absurd (cc)

empty_queue-Emptied : (s : Simulator) → empty_queue s ≡ true → Emptied s
empty_queue-Emptied s h =
    let (a, h1) = both_true _ _ h in
    let (b, h2) = both_true _ _ h1 in
    let (c, h3) = both_true _ _ h2 in
    let (d, h4) = both_true _ _ h3 in
    let (e, h5) = both_true _ _ h4 in
    let (f, g) = both_true _ _ h5 in
    record {
      incoming = empty_of s.incoming_queue a;
      waiting = empty_of s.waiting_queue b;
      ready_suspensed = empty_of s.ready_suspensed_queue c;
      ready = empty_of s.ready_queue d;
      blocked = empty_of s.blocked_queue e;
      blocked_suspensed = empty_of s.blocked_suspensed_queue f;
      idle = g;
    }

Ends-after :
    (s t : Simulator) (gone : ℕ → ℕ) (r : Simulation) → Accounts s t gone → Ends t r → Ends s r
Ends-after s t gone (finished u) a (b, e) = (Shrunk-after s t u gone a b, e)
Ends-after s t gone (still_going u) a b = Shrunk-after s t u gone a b
Ends-after s t gone (failed r) a b = tt

after_round-Ends :
    (s : Simulator) (gone : ℕ → ℕ) (next : Simulator → Simulation) (r : Round)
    → Ran (λ t. Accounts s t gone) r
    → ((t : Simulator)
        → t.max_process_multiprogramming ≡ s.max_process_multiprogramming
        → Ends t (next t))
    → Ends s (after_round next r)
after_round-Ends s gone next exited a rest = tt
after_round-Ends s gone next undefined a rest = tt
after_round-Ends s gone next (ran t) a rest = Ends-after s t gone (next t) a (rest t a.limit)

-- However many rounds a simulation runs, no process comes up in the queues more often than at its start,
-- and where at most as many processes as the limit of the multiprogramming were running, ready or
-- blocked, they always are. When the loop ends, the six queues that it tests are empty and the processor
-- is idle. A round may exit or read out of a vector. The limit is an int.
pub simulate_loop-Ends :
    (policy : Policy) (algorithm : Algorithm) (fuel : ℕ) (s : Simulator)
    → s.max_process_multiprogramming < 2 ^ 31
    → Ends s (simulate_loop policy algorithm fuel s)
unfolding simulate_loop
simulate_loop-Ends policy algorithm zero s small = elim (Bool-cases (empty_queue s)) [
  | inl done ↦ rw done (Shrunk-self s, empty_queue-Emptied s done)
  | inr more ↦ rw more (Shrunk-self s)
]
simulate_loop-Ends policy algorithm (suc fuel) s small = elim (Bool-cases (empty_queue s)) [
  | inl done ↦ rw done (Shrunk-self s, empty_queue-Emptied s done)
  | inr more ↦ rw more (
      after_round-Ends s (ending s) (simulate_loop policy algorithm fuel) (round policy algorithm s)
        (round-Accounts policy algorithm s small)
        (λ t same.
          simulate_loop-Ends policy algorithm fuel t
            (subst (λ (n : ℕ). n < 2 ^ 31) (sym same) small)))
]
