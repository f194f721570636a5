-- ===== src/Pmm/Tests.antt =====
-- Runs of kernal/mem/phymem.c on small inputs, and its theorems at such inputs.
use she_x_mini_operating_sys.Base.{
  ℕ, ◌+◌, ◌*◌, ◌/◌, ◌<◌, ◌≡◌, ◌≢◌, refl, true, false, not, Option, some, none, arith, ◌==◌,
  if◌then◌else◌, inr,
}
use she_x_mini_operating_sys.Pmm.{
  Bitmap, MmapEntry, is_usable, get_lowest_bit, toggle_block, allocate_block, allocate_from,
  free_block, pmmngr_init, toggle_range, toggle_loop,
}
use she_x_mini_operating_sys.Pmm.Bitmap.{used, IsWords}
use she_x_mini_operating_sys.Pmm.Range.{
  toggle_range_exact, toggle_range_misaligned, range_blocks, in_range,
}
use she_x_mini_operating_sys.Pmm.Alloc.{FirstFree, allocate_block-FirstFree}
use she_x_mini_operating_sys.Pmm.Free.{free-allocate, FreeOutcome, free_block-FreeOutcome}
use she_x_mini_operating_sys.Pmm.Init.{Fits, Initialised, pmmngr_init-Initialised}

-- Blocks 0 to 31 and 33 are in use.
abbrev some_used : Bitmap
some_used i = if i == 0 then 0xffff_ffff else (if i == 1 then 2 else 0)

some_used-IsWords : IsWords some_used
some_used-IsWords i = ground arith

abbrev no_words : Bitmap
no_words i = 0

no_words-IsWords : IsWords no_words
no_words-IsWords i = omega arith

lowest_bits : (get_lowest_bit 0b1011 ≡ 2) × (get_lowest_bit 0xffff_ffff ≡ 0xff)
unfolding get_lowest_bit
lowest_bits = (refl, refl)

allocates_block_32 : (allocate_block some_used).1 ≡ 32 * 4096
unfolding allocate_block allocate_from get_lowest_bit toggle_block
allocates_block_32 = refl

-- The word of blocks 32 to 63, and then block 64, in two rounds and one to end.
abbrev first_word : Option Bitmap → Option ℕ
first_word none = none
first_word (some m) = some (m 1 + m 2)

toggles_a_word_and_a_block :
    first_word (toggle_loop 3 no_words 0x20000 0x41000) ≡ some (0xffff_ffff + 1)
unfolding toggle_loop toggle_block
toggles_a_word_and_a_block = refl

-- A region of 16 MiB at 1 MiB, after one that is reserved.
abbrev memory_map : ℕ → MmapEntry
memory_map i = record {
  start_low = 0x100000;
  start_high = 0;
  size_low = 0x1000000;
  size_high = 0;
  type = if i == 1 then 1 else 2;
  acpi_3_0 = 1;
}

allocate_block-FirstFree_example : FirstFree some_used (allocate_block some_used)
allocate_block-FirstFree_example = allocate_block-FirstFree some_used some_used-IsWords

allocates : (allocate_block some_used).1 ≢ 0
unfolding allocate_block allocate_from get_lowest_bit toggle_block
allocates = omega arith

free-allocate_example :
    free_block (allocate_block some_used).0 (allocate_block some_used).1 ≡ (some_used, true)
free-allocate_example = free-allocate some_used some_used-IsWords allocates

frees_block_33 : free_block some_used 0x21000 ≡ (toggle_block some_used 33, true)
unfolding free_block
frees_block_33 = refl

free_block-FreeOutcome_example : FreeOutcome some_used 0x21000 (free_block some_used 0x21000)
free_block-FreeOutcome_example = free_block-FreeOutcome some_used 0x21000

toggle_range_exact_example :
    (m' : Bitmap) × (toggle_range no_words 0x120000 0x150000 ≡ some m')
    × ((b : ℕ)
        → used m' b ≡ (
            if in_range (0x120000 / 4096) (range_blocks 0x120000 0x150000) b
            then not (used no_words b)
            else used no_words b))
toggle_range_exact_example =
    toggle_range_exact no_words 0x120000 0x150000 (omega arith) (omega arith) (omega arith)
      (omega arith) (inr refl)

toggle_range_misaligned_example :
    (m' : Bitmap) × (before inside : ℕ) × (toggle_range no_words 0x121000 0x150000 ≡ some m')
    × (in_range (0x121000 / 4096) (range_blocks 0x121000 0x150000) before ≡ false)
    × (used m' before ≡ not (used no_words before))
    × (in_range (0x121000 / 4096) (range_blocks 0x121000 0x150000) inside ≡ true)
    × (used m' inside ≡ used no_words inside)
toggle_range_misaligned_example =
    toggle_range_misaligned no_words 0x121000 0x150000 (omega arith) (omega arith) (omega arith)
      (omega arith) (omega arith) (omega arith)

memory_map-Fits : (k : ℕ) → k < 2 → Fits (memory_map k)
memory_map-Fits k h u = (omega arith, omega arith)

pmmngr_init-Initialised_example : Initialised memory_map 2 (pmmngr_init memory_map 2 no_words)
pmmngr_init-Initialised_example =
    pmmngr_init-Initialised memory_map 2 no_words no_words-IsWords memory_map-Fits

reserved : (j : ℕ) → j ≢ 1 → is_usable (memory_map j) ≡ false
reserved j ne = ground arith
