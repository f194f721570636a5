-- ===== src/Vmm.antt =====
-- kernal/mem/virtmem.c: the entries of page tables and of the page directory, 32-bit words that hold a
-- frame's address and attribute bits. The functions on pointers to them are in the child Paging.
pub mod Entries
pub mod Memory
pub mod Paging
pub mod Slot
pub mod Walks
pub mod Filled
pub mod Map
pub mod Fresh
pub mod Tables
pub mod Outcome
pub mod Recursive
pub mod Free
mod Tests
use she_x_mini_operating_sys.Base.{ℕ, ◌-◌, Bool, not, ◌==◌, bit_and, bit_or}

abbrev pub pte_present : ℕ
pte_present = 1

abbrev pub pte_writable : ℕ
pte_writable = 2

abbrev pub pte_frame : ℕ
pte_frame = 0xffff_f000

-- `~` on 32 bits.
abbrev complement : ℕ → ℕ
complement w = 0xffff_ffff - w

-- Each returns what it stores in `*entry`.
pub entry_set_attrib : ℕ → ℕ → ℕ
entry_set_attrib entry attrib = bit_or entry attrib

pub entry_clear_attrib : ℕ → ℕ → ℕ
entry_clear_attrib entry attrib = bit_and entry (complement attrib)

pub entry_set_frame : ℕ → ℕ → ℕ
entry_set_frame entry physical_address =
    bit_or (bit_and physical_address pte_frame) (bit_and entry (complement pte_frame))

pub entry_is_present : ℕ → Bool
entry_is_present entry = not (bit_and entry pte_present == 0)

pub entry_is_writable : ℕ → Bool
entry_is_writable entry = not (bit_and entry pte_writable == 0)

pub entry_physical : ℕ → ℕ
entry_physical entry = bit_and entry pte_frame
