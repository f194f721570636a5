-- ===== src/Partition/Tests.antt =====
-- kernal/memory_management/memory_alloc.c on a small memory.
use she_x_mini_operating_sys.Base.{ℕ, ◌≡◌, refl, some, true, [], ◌∷◌, get_or, arith}
use she_x_mini_operating_sys.Partition.{Report, process_loop, calculate_internal_fragmentation}
use she_x_mini_operating_sys.Partition.Laws.{IsAccount, calculate_internal_fragmentation-IsAccount}

-- The third process is too large for a block, and the fifth is not looked at.
abbrev processes : ℕ → ℕ
processes i = get_or (275 ∷ 300 ∷ 400 ∷ 290 ∷ 100 ∷ []) i 0

three_blocks :
    calculate_internal_fragmentation 1000 300 5 processes
    ≡ some (record { tif = 35; eif = 100; is_full = true; p = 3; unused = 0 })
unfolding calculate_internal_fragmentation process_loop
three_blocks = refl

calculate_internal_fragmentation-IsAccount_example :
    (r : Report) × (seen : ℕ) × (calculate_internal_fragmentation 1000 300 5 processes ≡ some r)
    × IsAccount 1000 300 5 processes seen r
calculate_internal_fragmentation-IsAccount_example =
    calculate_internal_fragmentation-IsAccount 1000 300 5 processes (omega arith) (omega arith)
