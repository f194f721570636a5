-- ===== src/Gdt.antt =====
-- kernal/hal/gdt.c: the five segment descriptors and the register that points at them.
pub mod Laws
mod Tests
use she_x_mini_operating_sys.Base.{
  ℕ, ◌*◌, ◌/◌, ◌%◌, ◌^◌, ◌-◌, Bool, Option, none, some, List, ltb, if◌then◌else◌, length, set, u8,
  u16, ◌>>>◌, bit_and, bit_or,
}

abbrev pub gdt_descriptor_count : ℕ
gdt_descriptor_count = 5

-- The access bits of a descriptor, and the bits of its granularity byte.
abbrev pub desc_readwrite : ℕ
desc_readwrite = 0x0002

abbrev pub desc_exec_code : ℕ
desc_exec_code = 0x0008

abbrev pub desc_codedata : ℕ
desc_codedata = 0x0010

abbrev pub desc_dpl : ℕ
desc_dpl = 0x0060

abbrev pub desc_memory : ℕ
desc_memory = 0x0080

abbrev pub grand_limithi_mask : ℕ
grand_limithi_mask = 0x0f

abbrev pub grand_32bit : ℕ
grand_32bit = 0x40

abbrev pub grand_4k : ℕ
grand_4k = 0x80

pub record GdtDescriptor : Type 0 where
  pub limit : ℕ
  pub base_low : ℕ
  pub base_middle : ℕ
  pub flags : ℕ
  pub grand : ℕ
  pub base_high : ℕ

pub record Gdtr : Type 0 where
  pub limit : ℕ
  pub base : ℕ

-- The descriptor that the assignments of `gdt_set_descriptor` build.
pub descriptor : ℕ → ℕ → ℕ → ℕ → GdtDescriptor
descriptor base limit access grand = record {
  limit = u16 (bit_and limit 0xffff);
  base_low = u16 (bit_and base 0xffff);
  base_middle = u8 (bit_and (base >>> 16) 0xff);
  flags = access;
  grand = bit_or (u8 (bit_and (limit >>> 16) 0x0f)) (bit_and grand 0xf0);
  base_high = u8 (bit_and (base >>> 24) 0xff);
}

-- `none` is a write past the end of the array, which C leaves undefined.
pub gdt_set_descriptor : List GdtDescriptor → ℕ → ℕ → ℕ → ℕ → ℕ → Option (List GdtDescriptor)
gdt_set_descriptor gdt i base limit access grand =
    if ltb gdt_descriptor_count i
    then some gdt
    else (if ltb i (length gdt)
        then some (set gdt i (descriptor base limit access grand))
        else none)

-- What `gdt_init` leaves: the table, the register's image, and the address given to `install_gdt`.
pub record GdtState : Type 0 where
  pub gdt : List GdtDescriptor
  pub gdtr : Gdtr
  pub installed : ℕ

infixl 5 ◌>>=◌
abbrev ◌>>=◌ {ℓ} : {A B : Type ℓ} → Option A → (A → Option B) → Option B
none >>= k = none
some x >>= k = k x

abbrev flat_grand : ℕ
flat_grand = bit_or (bit_or grand_4k grand_32bit) grand_limithi_mask

abbrev data_access : ℕ
data_access = bit_or (bit_or desc_readwrite desc_codedata) desc_memory

abbrev code_access : ℕ
code_access = bit_or (bit_or (bit_or desc_readwrite desc_exec_code) desc_codedata) desc_memory

-- The addresses of `_gdt` and `_gdtr` are the linker's.
pub gdt_init : ℕ → ℕ → List GdtDescriptor → Option GdtState
unfolding gdt_set_descriptor descriptor
gdt_init gdt_address gdtr_address t = do
  t0 ← gdt_set_descriptor t 0 0 0 0 0
  t1 ← gdt_set_descriptor t0 1 0 0xffff_ffff code_access flat_grand
  t2 ← gdt_set_descriptor t1 2 0 0xffff_ffff data_access flat_grand
  t3 ← gdt_set_descriptor t2 3 0 0xffff_ffff (bit_or code_access desc_dpl) flat_grand
  t4 ← gdt_set_descriptor t3 4 0 0xffff_ffff (bit_or data_access desc_dpl) flat_grand
  some (record {
    gdt = t4;
    gdtr = record { limit = 8 * gdt_descriptor_count - 1; base = gdt_address };
    installed = gdtr_address;
  })
