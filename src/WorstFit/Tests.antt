-- ===== src/WorstFit/Tests.antt =====
-- kernal/memory_management/worst_fit.c on four blocks and four files, and its theorems there.
use she_x_mini_operating_sys.Base.{ℕ, ◌≡◌, refl, none, some, arith, [], ◌∷◌, get_or}
use she_x_mini_operating_sys.WorstFit.{
  Arrays, choose_loop, file_step, file_loop, cleared, worst_fit_allocation,
}
use she_x_mini_operating_sys.WorstFit.Step.{IsAllocation}
use she_x_mini_operating_sys.WorstFit.Laws.{worst_fit_allocation-IsAllocation}

abbrev blocks : ℕ → ℕ
blocks j = get_or (100 ∷ 500 ∷ 200 ∷ 600 ∷ []) j 0

abbrev files : ℕ → ℕ
files i = get_or (212 ∷ 417 ∷ 112 ∷ 426 ∷ []) i 0

abbrev free : ℕ → ℕ
free j = 0

first_choice : choose_loop blocks free 212 4 0 none ≡ some (388, 3)
unfolding choose_loop
first_choice = refl

-- The second file takes block 1 and the third block 2; the last is left out.
second_file : (file_loop blocks files 4 4 0 cleared).ff 1 ≡ some 1
unfolding file_loop file_step choose_loop
second_file = refl

last_file : (file_loop blocks files 4 4 0 cleared).ff 3 ≡ none
unfolding file_loop file_step choose_loop
last_file = refl

worst_fit_allocation-IsAllocation_example :
    (s : Arrays) × (worst_fit_allocation 4 4 blocks files ≡ some s)
    × IsAllocation 4 blocks files 4 s
worst_fit_allocation-IsAllocation_example =
    worst_fit_allocation-IsAllocation 4 4 blocks files (omega arith) (omega arith)
