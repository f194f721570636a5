-- ===== src/WorstFit/Laws.antt =====
-- What kernal/memory_management/worst_fit.c gives to all the files together.
use mathlib.Core.Path.{subst}
use she_x_mini_operating_sys.Base.{ℕ, zero, suc, ◌+◌, ◌≤◌, ◌≡◌, refl, true, some, arith, leb}
use she_x_mini_operating_sys.WorstFit.{
  Arrays, file_step, file_loop, cleared, worst_fit_allocation, max_entries,
}
use she_x_mini_operating_sys.WorstFit.Step.{IsAllocation, Marked, file_step_both}

file_loop_both :
    (nb : ℕ) (b f : ℕ → ℕ) (left i n : ℕ) (s : Arrays)
    → n ≡ i + left
    → Marked i s
    → IsAllocation nb b f i s
    → IsAllocation nb b f n (file_loop b f nb left i s)
unfolding file_loop
file_loop_both nb b f zero i n s e m a =
    let end : i ≡ n = omega arith in subst (λ n. IsAllocation nb b f n s) end a
file_loop_both nb b f (suc left) i n s e m a =
    let (m', a') = file_step_both nb b f i s m a in
    file_loop_both nb b f left (i + 1) n (file_step b f nb i s) (omega arith) m' a'

cleared-Marked : Marked 0 cleared
cleared-Marked = record {
  taken = λ i j h e. absurd (omega arith);
  given = λ j used. absurd (used refl);
}

cleared-IsAllocation : (nb : ℕ) (b f : ℕ → ℕ) → IsAllocation nb b f 0 cleared
cleared-IsAllocation nb b f = record {
  fits = λ i j h e. absurd (omega arith);
  alone = λ i k j hi hk ei ek. absurd (omega arith);
  left_out = λ i j h e hj large. absurd (omega arith);
}

-- With at most 50 blocks and 50 files the allocation gives an array of results in which every block
-- that a file has exists and holds the file and the rest, no two files share a block, and a file is
-- left out only if every block that holds it went to an earlier file.
pub worst_fit_allocation-IsAllocation :
    (nb nf : ℕ) (b f : ℕ → ℕ)
    → nb ≤ 50
    → nf ≤ 50
    → (s : Arrays) × (worst_fit_allocation nb nf b f ≡ some s) × IsAllocation nb b f nf s
unfolding worst_fit_allocation
worst_fit_allocation-IsAllocation nb nf b f hb hf =
    let blocks : leb nb max_entries ≡ true = ground arith in
    let files : leb nf max_entries ≡ true = ground arith in
    (
      file_loop b f nb nf 0 cleared,
      rw (blocks, files),
      file_loop_both nb b f nf 0 nf cleared (omega arith) cleared-Marked
          (cleared-IsAllocation nb b f),
    )
