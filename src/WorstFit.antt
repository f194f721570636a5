-- ===== src/WorstFit.antt =====
-- kernal/memory_management/worst_fit.c: each file in turn goes to the free block that leaves the
-- largest rest. The numbers that the user types are arguments, sizes that are not negative.
pub mod Choice
pub mod Step
pub mod Laws
mod Tests
use she_x_mini_operating_sys.Base.{
  ℕ, zero, suc, ◌+◌, ◌-◌, ◌&&◌, Bool, true, Option, none, some, ltb, leb, ◌==◌, if◌then◌else◌,
  update,
}

-- The length of every array.
abbrev pub max_entries : ℕ
max_entries = 50

-- The arrays that the allocation writes: `bf[j]` is 1 once block `j` is taken, `ff[i]` is the block of
-- file `i`, `none` for the -1, and `frag[i]` is what it leaves of that block.
pub record Arrays : Type 0 where
  pub bf : ℕ → ℕ
  pub ff : ℕ → Option ℕ
  pub frag : ℕ → ℕ

-- `temp > highest`, where `none` is the -1 that `highest` starts with.
abbrev pub is_higher : ℕ → Option (ℕ × ℕ) → Bool
is_higher temp none = true
is_higher temp (some (highest, j)) = ltb highest temp

-- The inner loop at block `j`. The last argument is `highest` with `ff[i]`, which change together.
pub choose_loop : (ℕ → ℕ) → (ℕ → ℕ) → ℕ → ℕ → ℕ → Option (ℕ × ℕ) → Option (ℕ × ℕ)
choose_loop b bf size zero j best = best
choose_loop b bf size (suc left) j best =
    let taken : Option (ℕ × ℕ) = some (b j - size, j) in
    let next =
      if (bf j == 0) && (leb size (b j) && is_higher (b j - size) best) then taken else best in
    choose_loop b bf size left (j + 1) next

-- What file `i` gets once its inner loop is over.
abbrev pub assign_block : ℕ → Arrays → Option (ℕ × ℕ) → Arrays
assign_block i s none = record s { ff = update s.ff i none }
assign_block i s (some (highest, j)) = record {
  bf = update s.bf j 1;
  ff = update s.ff i (some j);
  frag = update s.frag i highest;
}

-- One round of the outer loop.
pub file_step : (ℕ → ℕ) → (ℕ → ℕ) → ℕ → ℕ → Arrays → Arrays
unfolding choose_loop
file_step b f nb i s = assign_block i s (choose_loop b s.bf (f i) nb 0 none)

-- The rounds from file `i` on.
pub file_loop : (ℕ → ℕ) → (ℕ → ℕ) → ℕ → ℕ → ℕ → Arrays → Arrays
file_loop b f nb zero i s = s
file_loop b f nb (suc left) i s = file_loop b f nb left (i + 1) (file_step b f nb i s)

-- The arrays after the loop that clears them.
abbrev pub cleared : Arrays
cleared = record { bf = λ j. 0; ff = λ i. some 0; frag = λ i. 0 }

-- With more than 50 blocks or files the source writes past its arrays, here `none`.
pub worst_fit_allocation : ℕ → ℕ → (ℕ → ℕ) → (ℕ → ℕ) → Option Arrays
unfolding file_loop
worst_fit_allocation nb nf b f =
    if leb nb max_entries && leb nf max_entries then some (file_loop b f nb nf 0 cleared) else none
