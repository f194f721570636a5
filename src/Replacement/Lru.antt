-- ===== src/Replacement/Lru.antt =====
-- The choice of LRU in kernal/include/PageReplacementAlgorithms.h.
use native.Mathlib.Decide.{ℕ_discrete}
use she_x_mini_operating_sys.Base.{
  ℕ, zero, suc, ◌<◌, ◌≤◌, Bool-cases, inl, inr, List, ltb, length, arith,
}
use she_x_mini_operating_sys.Replacement.{Page, last_used, lru_loop, lru}

-- The loop ends at an index of the memory, none of the pages it passed was used before that page.
pub lru_loop_lem :
    (memory : List Page) (n lru : ℕ)
    → n ≤ length memory
    → lru < length memory
    → (lru_loop memory n lru < length memory)
      × (last_used memory (lru_loop memory n lru) ≤ last_used memory lru)
      × ((j : ℕ) → j < n → last_used memory (lru_loop memory n lru) ≤ last_used memory j)
unfolding lru_loop
lru_loop_lem memory zero lru h l = (l, omega arith, λ j q. absurd (omega arith))
lru_loop_lem memory (suc n) lru h l =
    elim (Bool-cases (ltb (last_used memory n) (last_used memory lru))) [
      | inl less ↦
          let (fits, below, all) = lru_loop_lem memory n n (omega arith) (omega arith) in
          let lt : last_used memory n < last_used memory lru = ground arith in
          rw less (fits, omega arith, λ j q. last_or j q below (all j))
      | inr more ↦
          let (fits, below, all) = lru_loop_lem memory n lru (omega arith) l in
          let le : last_used memory lru ≤ last_used memory n = ground arith in
          rw more (fits, below, λ j q. last_or j q (omega arith) (all j))
    ]
  where
    last_or :
        {k : ℕ} (j : ℕ)
        → j < suc n
        → k ≤ last_used memory n
        → (j < n → k ≤ last_used memory j)
        → k ≤ last_used memory j
    last_or {k} j q at_n below = elim (ℕ_discrete j n) [
      | yes e ↦ rw e at_n
      | no ne ↦ below (omega (arith, ne))
    ]
