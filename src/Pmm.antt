-- ===== src/Pmm.antt =====
-- kernal/mem/phymem.c: the physical memory manager. A bitmap of 0x8000 words has one bit for each
-- 4 KiB block of the 4 GiB address space; a bit is set when its block is in use.
pub mod Bitmap
pub mod Toggle
pub mod Range
mod Lowest
pub mod Alloc
pub mod Free
pub mod Init
pub mod Regions
mod Tests
use she_x_mini_operating_sys.Base.{
  ℕ, zero, suc, ◌+◌, ◌-◌, ◌*◌, ◌/◌, ◌%◌, ◌^◌, Bool, true, false, not, ◌&&◌, Option, none, some, ltb,
  leb, ◌==◌, if◌then◌else◌, update, u32, ◌<<<◌, ◌>>>◌, add32, sub32, bit_and, bit_xor,
}

abbrev pub kernel_p : ℕ
kernel_p = 0x100000

abbrev pub block_size : ℕ
block_size = 4096

abbrev pub block_size_b : ℕ
block_size_b = 12

abbrev pub kernel_mapped_size : ℕ
kernel_mapped_size = 0x400000

-- `physical_memory_bitmap[0x8000]`, as the word at each index.
abbrev pub Bitmap : Type 0
Bitmap = ℕ → ℕ

abbrev pub bitmap_words : ℕ
bitmap_words = 0x8000

-- An entry of the E820 map that the boot loader leaves at address 0x1000.
pub record MmapEntry : Type 0 where
  pub start_low : ℕ
  pub start_high : ℕ
  pub size_low : ℕ
  pub size_high : ℕ
  pub type : ℕ
  pub acpi_3_0 : ℕ

-- The loop of `get_lowest_bit`: the rounds left, `i` and what is left of `hexinp`.
pub lowest_from : ℕ → ℕ → ℕ → ℕ
lowest_from zero i hexinp = 0xff
lowest_from (suc left) i hexinp =
    let rest = lowest_from left (i + 1) (hexinp >>> 1) in if hexinp % 2 == 0 then i else rest

pub get_lowest_bit : ℕ → ℕ
unfolding lowest_from
get_lowest_bit hexinp = lowest_from 32 0 hexinp

abbrev pub extract_bit : ℕ → ℕ → ℕ
extract_bit hexinp bitnumber = bit_and (hexinp >>> bitnumber) 1

abbrev pub block_number : ℕ → ℕ
block_number address = address >>> block_size_b

pub toggle_block : Bitmap → ℕ → Bitmap
toggle_block m block =
    let word = block >>> 5 in update m word (bit_xor (m word) (1 <<< bit_and block 31))

-- The `while` loop of `pmmngr_toggle_range` on fuel; `none` when the fuel runs out.
pub toggle_loop : ℕ → Bitmap → ℕ → ℕ → Option Bitmap
toggle_loop zero m start end = none
toggle_loop (suc fuel) m start end =
    let left = sub32 end start in
    let word = block_number start >>> 5 in
    let whole =
      toggle_loop fuel (update m word (bit_xor (m word) 0xffff_ffff))
        (add32 start (block_size <<< 5)) end in
    let single =
      toggle_loop fuel (toggle_block m (block_number start)) (add32 start block_size) end in
    if ltb 0 left then (if leb (32 * block_size) left then whole else single) else some m

abbrev pub round_down : ℕ → ℕ
round_down start = if start % block_size == 0 then start else sub32 start (start % block_size)

abbrev pub round_up : ℕ → ℕ
round_up end = if end % block_size == 0 then end else add32 end (block_size - end % block_size)

-- Each round covers a block at least, so there are fewer than `2 ^ 20 + 1` rounds.
abbrev pub range_fuel : ℕ
range_fuel = 2 ^ 20 + 1

pub toggle_range : Bitmap → ℕ → ℕ → Option Bitmap
toggle_range m start end = toggle_loop range_fuel m (round_down start) (round_up end)

-- The loop that sets words `i` to `i + left - 1` to all ones.
pub fill_loop : ℕ → ℕ → Bitmap → Bitmap
fill_loop zero i m = m
fill_loop (suc left) i m = fill_loop left (i + 1) (update m i 0xffff_ffff)

abbrev pub is_usable : MmapEntry → Bool
is_usable e = (e.type == 1) && leb kernel_p e.start_low && (e.start_high == 0)

infixl 5 ◌>>=◌
abbrev ◌>>=◌ : Option Bitmap → (Bitmap → Option Bitmap) → Option Bitmap
none >>= k = none
some m >>= k = k m

abbrev pub entry_step : MmapEntry → Bitmap → Option Bitmap
entry_step e m =
    if is_usable e then toggle_range m e.start_low (add32 e.start_low e.size_low) else some m

-- The loop over the entries of the map, `mmap i` being the entry that `map_ptr` meets in round `i`.
pub map_loop : (ℕ → MmapEntry) → ℕ → ℕ → Bitmap → Option Bitmap
map_loop mmap zero i m = some m
map_loop mmap (suc left) i m = do m' ← entry_step (mmap i) m; map_loop mmap left (i + 1) m'

pub pmmngr_init : (ℕ → MmapEntry) → ℕ → Bitmap → Option Bitmap
pmmngr_init mmap mapentrycount m = do
  m' ← map_loop mmap mapentrycount 0 (fill_loop bitmap_words 0 m)
  toggle_range m' kernel_p (kernel_p + kernel_mapped_size)

-- The loop of `pmmngr_allocate_block` at index `i`; an address 0 stands for failure.
pub allocate_from : ℕ → ℕ → Bitmap → Bitmap × ℕ
allocate_from zero i m = (m, 0)
allocate_from (suc left) i m =
    let rest = allocate_from left (i + 1) m in
    let bit = get_lowest_bit (m i) in
    let address = u32 (u32 (i <<< 17) + (bit <<< 12)) in
    let found : Bitmap × ℕ = (toggle_block m (block_number address), address) in
    if ltb (m i) 0xffff_ffff then (if bit == 0xff then (m, 0) else found) else rest

pub allocate_block : Bitmap → Bitmap × ℕ
allocate_block m = allocate_from bitmap_words 0 m

pub free_block : Bitmap → ℕ → Bitmap × Bool
free_block m address =
    let block = block_number address in
    let dword = block >>> 5 in
    let offset = block % 32 in
    let freed : Bitmap × Bool = (toggle_block m block, true) in
    if address % block_size == 0
    then (if extract_bit (m dword) offset == 0 then (m, false) else freed)
    else (m, false)
