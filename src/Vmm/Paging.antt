-- ===== src/Vmm/Paging.antt =====
-- kernal/mem/virtmem.c: mapping, allocating and freeing pages.
use she_x_mini_operating_sys.Base.{
  ℕ, ◌+◌, ◌-◌, ◌*◌, ◌%◌, Bool, true, false, some, ◌==◌, ltb, if◌then◌else◌, ◌>>>◌, ◌<<<◌, sub32,
  bit_and, bit_or,
}
use she_x_mini_operating_sys.Pmm.{allocate_block, free_block}
use she_x_mini_operating_sys.Vmm.{
  pte_present, pte_writable, entry_set_attrib, entry_clear_attrib, entry_set_frame,
  entry_is_present, entry_is_writable, entry_physical,
}
use she_x_mini_operating_sys.Vmm.Memory.{Machine, M, ◌>>=◌, ◌>>◌, pure, load, store}

abbrev pub page_table : ℕ
page_table = 0xffc0_0000

abbrev pub page_directory_address : ℕ
page_directory_address = 0xffff_f000

abbrev pub block_size : ℕ
block_size = 4096

-- The inline setters on `*entry`.
unfoldable pub set_attrib : ℕ → ℕ → M (Unit {0})
set_attrib entry attrib = do e ← load entry; store entry (entry_set_attrib e attrib)

unfoldable pub clear_attrib : ℕ → ℕ → M (Unit {0})
clear_attrib entry attrib = do e ← load entry; store entry (entry_clear_attrib e attrib)

unfoldable pub set_frame : ℕ → ℕ → M (Unit {0})
set_frame entry physical_address = do
  e ← load entry
  store entry (entry_set_frame e physical_address)

-- `if (!entry_is_present(*entry)) entry_set_attrib(entry, attrib)`, and the same for the writable bit.
unfoldable pub unless_present : ℕ → ℕ → M (Unit {0})
unless_present entry attrib = do
  e ← load entry
  if entry_is_present e then pure tt else set_attrib entry attrib

unfoldable pub unless_writable : ℕ → ℕ → M (Unit {0})
unless_writable entry attrib = do
  e ← load entry
  if entry_is_writable e then pure tt else set_attrib entry attrib

-- The call of the block allocator.
unfoldable pub allocate : M ℕ
allocate m =
    let (bitmap, address) = allocate_block m.bitmap in some (address, record m { bitmap = bitmap })

unfoldable pub alloc_page : ℕ → M Bool
alloc_page table_entry = do
  physical_address ← allocate
  if physical_address == 0 then pure false else (do
    set_frame table_entry physical_address
    unless_present table_entry pte_present
    pure true)

unfoldable pub free : ℕ → M (Unit {0})
free address m = some (tt, record m { bitmap = (free_block m.bitmap address).0 })

unfoldable pub free_page : ℕ → M (Unit {0})
free_page table_entry = do
  e ← load table_entry
  if entry_is_present e
      then (do free (entry_physical e); clear_attrib table_entry pte_present)
      else pure tt

abbrev pub round_down : ℕ → ℕ
round_down address = if address % block_size == 0 then address else address - address % block_size

-- The part of `map_page` that fills the entry of the page table.
unfoldable pub fill_entry : ℕ → ℕ → M Bool
fill_entry entry physical_address = do
  set_frame entry physical_address
  unless_present entry pte_present
  unless_writable entry pte_writable
  pure true

-- The pointer `page_table + pt_idx`, of 4-byte entries, for a virtual address.
abbrev pub table_slot : ℕ → ℕ
table_slot virtual_address =
    bit_or page_table ((virtual_address >>> 22) <<< 12) + 4 * bit_and (virtual_address >>> 12) 0x3ff

abbrev pub directory_slot : Machine → ℕ → ℕ
directory_slot m pd_idx = m.page_directory + 4 * pd_idx

-- `map_page` past the rounding of its arguments.
unfoldable pub map_aligned : ℕ → ℕ → M Bool
map_aligned virtual physical m =
    let slot = directory_slot m (virtual >>> 22) in
    (do
      pde ← load slot
      if entry_is_present pde then fill_entry (table_slot virtual) physical else (do
        done ← alloc_page slot
        if done
            then (do unless_present slot pte_writable; fill_entry (table_slot virtual) physical)
            else pure false))
      m

unfoldable pub map_page : ℕ → ℕ → M Bool
map_page virtual_address physical_address =
    map_aligned (round_down virtual_address) (round_down physical_address)

-- `get_pdbr` reads the register.
unfoldable pub set_recursive_map : M (Unit {0})
set_recursive_map m =
    let slot = directory_slot m 1023 in
    (do
      set_frame slot m.pdbr
      unless_present slot pte_present
      unless_writable slot pte_writable
      λ m'. some (tt, record m' { page_directory = page_directory_address }))
      m

-- The flush of the TLB leaves memory as it is.
unfoldable pub remove_identity_map : M (Unit {0})
remove_identity_map m =
    let slot = directory_slot m 0 in
    (do e ← load slot; if entry_is_present e then store slot 0 else pure tt) m

abbrev pub vga_text : ℕ
vga_text = 0xb8000

abbrev pub stack : ℕ
stack = 0xffc0_0000

abbrev pub stack_phy : ℕ
stack_phy = 0x90000

abbrev pub page_size : ℕ
page_size = 4096

-- The ways in which `vmmngr_init` ends: in one of its `for (;;)`, or at its closing brace, with or
-- without the message on the stack.
pub data InitEnd : Type 0 where
  no_text_map kernel_too_large : InitEnd
  initialised : (stack_mapped : Bool) → InitEnd

-- The addresses are the linker's.
unfoldable pub vmmngr_init : ℕ → ℕ → ℕ → M InitEnd
vmmngr_init vga_text_memory begin end = do
  set_recursive_map
  text ← map_page vga_text_memory vga_text
  if text
      then (do
        stack_mapped ← map_page (stack - page_size) (stack_phy - page_size)
        if ltb (2 <<< 22) (sub32 end begin)
            then pure kernel_too_large
            else pure (initialised stack_mapped))
      else pure no_text_map
