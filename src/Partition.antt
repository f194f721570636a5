-- ===== src/Partition.antt =====
-- kernal/memory_management/memory_alloc.c: memory cut into blocks of one size, a block for each process
-- that fits. The numbers that the user types are arguments, sizes that are not negative.
pub mod Laws
mod Tests
use she_x_mini_operating_sys.Base.{
  ℕ, zero, suc, ◌+◌, ◌-◌, ◌*◌, ◌/◌, Bool, Option, none, some, ltb, leb, ◌==◌, if◌then◌else◌, ◌||◌,
}

-- The length of `mp`.
abbrev pub max_processes : ℕ
max_processes = 10

-- What is printed at the end.
pub record Report : Type 0 where
  pub tif : ℕ
  pub eif : ℕ
  pub is_full : Bool
  pub p : ℕ
  pub unused : ℕ

-- `i`, `p` and `tif` when the loop ends.
pub record Totals : Type 0 where
  pub i : ℕ
  pub p : ℕ
  pub tif : ℕ

-- The loop over the processes; `left` is `n - i`.
pub process_loop : (ℕ → ℕ) → ℕ → ℕ → ℕ → Totals → Totals
process_loop mp bs nob zero t = t
process_loop mp bs nob (suc left) t =
    let too_large = process_loop mp bs nob left (record { i = suc t.i; p = t.p; tif = t.tif }) in
    let placed =
      process_loop mp bs nob left
        (record { i = suc t.i; p = suc t.p; tif = t.tif + (bs - mp t.i) }) in
    if ltb t.p nob then (if ltb bs (mp t.i) then too_large else placed) else t

-- `none` where the source divides by 0 or writes past `mp`.
pub calculate_internal_fragmentation : ℕ → ℕ → ℕ → (ℕ → ℕ) → Option Report
unfolding process_loop
calculate_internal_fragmentation ms bs n mp =
    let nob = ms / bs in
    let t : Totals = process_loop mp bs nob n (record { i = 0; p = 0; tif = 0 }) in
    let report : Report = record {
      tif = t.tif;
      eif = if t.p == n then 0 else ms - nob * bs;
      is_full = ltb t.i n;
      p = t.p;
      unused = nob - t.p;
    } in
    if (bs == 0) || ltb max_processes n then none else some report
