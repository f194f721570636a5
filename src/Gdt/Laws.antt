-- ===== src/Gdt/Laws.antt =====
-- What the processor reads back from a descriptor, and the table that `gdt_init` builds.
use native.Mathlib.Decide.{dec_lt}
use she_x_mini_operating_sys.Base.{
  ℕ, ◌+◌, ◌*◌, ◌/◌, ◌%◌, ◌^◌, ◌<◌, ◌≡◌, refl, sym, true, false, Option, none, some, List, [], ◌∷◌,
  arith, ltb, length, set, get_or, length-set, get_or-set_self, get_or-set_ne, ◌≢◌, bit_and, bit_or,
  u8, ◌>>>◌,
}
use she_x_mini_operating_sys.Base.Masks.{bit_and_low, bit_and_high, bit_or_sum_right}
use she_x_mini_operating_sys.Gdt.{GdtDescriptor, descriptor, gdt_set_descriptor, gdt_init, GdtState}

-- The fields as the processor puts them together.
abbrev pub base_of : GdtDescriptor → ℕ
base_of d = d.base_low + d.base_middle * 2 ^ 16 + d.base_high * 2 ^ 24

abbrev pub limit_of : GdtDescriptor → ℕ
limit_of d = d.limit + d.grand % 16 * 2 ^ 16

abbrev pub attributes_of : GdtDescriptor → ℕ
attributes_of d = d.grand / 16

-- The granularity byte: the high half of `grand` above the top four bits of the limit.
grand_sum :
    (limit grand : ℕ)
    → grand < 256
    → bit_or (u8 (bit_and (limit >>> 16) 0x0f)) (bit_and grand 0xf0)
      ≡ grand / 16 * 16 + limit / 2 ^ 16 % 16
grand_sum limit grand h =
    rw (bit_and_low 4 (limit / 2 ^ 16), bit_and_high 4 4 grand (omega arith))
      (let small : limit / 2 ^ 16 % 16 % 256 ≡ limit / 2 ^ 16 % 16 = omega arith in
        rw small (bit_or_sum_right 4 (grand / 16) (limit / 2 ^ 16 % 16) (omega arith)))

-- A descriptor gives back the base address, the low 20 bits of the limit, the access byte and the
-- high half of the granularity byte.
pub descriptor_fields :
    (base limit access grand : ℕ)
    → base < 2 ^ 32
    → grand < 256
    → (base_of (descriptor base limit access grand) ≡ base)
      × (limit_of (descriptor base limit access grand) ≡ limit % 2 ^ 20)
      × ((descriptor base limit access grand).flags ≡ access)
      × (attributes_of (descriptor base limit access grand) ≡ grand / 16)
unfolding descriptor
descriptor_fields base limit access grand hb hg = (
  omega (arith, bit_and_low 16 base, bit_and_low 8 (base / 2 ^ 16), bit_and_low 8 (base / 2 ^ 24)),
  omega (arith, bit_and_low 16 limit, grand_sum limit grand hg),
  refl,
  omega (arith, grand_sum limit grand hg),
)

-- What the processor reads from the table after a descriptor was stored at index `i`.
pub record Stores (gdt gdt' : List GdtDescriptor) (i base limit access grand : ℕ) : Type 0 where
  pub entry : GdtDescriptor
  pub stored : (d : GdtDescriptor) → get_or gdt' i d ≡ entry
  pub entry_base : base_of entry ≡ base
  pub entry_limit : limit_of entry ≡ limit % 2 ^ 20
  pub entry_access : entry.flags ≡ access
  pub entry_attributes : attributes_of entry ≡ grand / 16
  pub others : (j : ℕ) (d : GdtDescriptor) → j ≢ i → get_or gdt' j d ≡ get_or gdt j d
  pub size : length gdt' ≡ length gdt

pub data SetOutcome (gdt : List GdtDescriptor) (i base limit access grand : ℕ)
    (r : Option (List GdtDescriptor)) : Type 0 where
  stores :
      (gdt' : List GdtDescriptor)
      → i < 5
      → r ≡ some gdt'
      → Stores gdt gdt' i base limit access grand
      → SetOutcome gdt i base limit access grand r
  ignored : 5 < i → r ≡ some gdt → SetOutcome gdt i base limit access grand r
  out_of_bounds : i ≡ 5 → r ≡ none → SetOutcome gdt i base limit access grand r

set-Stores :
    (gdt : List GdtDescriptor) (i base limit access grand : ℕ)
    → length gdt ≡ 5
    → i < 5
    → base < 2 ^ 32
    → grand < 256
    → Stores gdt (set gdt i (descriptor base limit access grand)) i base limit access grand
set-Stores gdt i base limit access grand e h hb hg =
    let (same_base, same_limit, same_access, same_attributes) =
      descriptor_fields base limit access grand hb hg in
    record {
      entry = descriptor base limit access grand;
      stored = λ d. get_or-set_self gdt i (descriptor base limit access grand) d (omega arith);
      entry_base = same_base;
      entry_limit = same_limit;
      entry_access = same_access;
      entry_attributes = same_attributes;
      others = λ j d ne.
          get_or-set_ne gdt i j (descriptor base limit access grand) d (λ same. ne (sym same));
      size = length-set gdt i (descriptor base limit access grand);
    }

-- `gdt_set_descriptor` on a table of five entries, with a 32-bit base and a granularity byte. At an index
-- below 5 the processor then reads the base, the low 20 bits of the limit, the access byte and the
-- granularity bits there, and the other entries as before; above 5 nothing changes; and the index 5,
-- which the guard lets through, is written out of bounds.
pub gdt_set_descriptor-SetOutcome :
    (gdt : List GdtDescriptor) (i base limit access grand : ℕ)
    → length gdt ≡ 5
    → base < 2 ^ 32
    → grand < 256
    → SetOutcome gdt i base limit access grand (gdt_set_descriptor gdt i base limit access grand)
unfolding gdt_set_descriptor
gdt_set_descriptor-SetOutcome gdt i base limit access grand e hb hg = elim (dec_lt i 5) [
  | yes below ↦
      let first : ltb 5 i ≡ false = ground arith in
      let second : ltb i (length gdt) ≡ true = ground arith in
      SetOutcome.stores (set gdt i (descriptor base limit access grand)) below
        (rw (first, second) refl) (set-Stores gdt i base limit access grand e below hb hg)
  | no high ↦ elim (dec_lt 5 i) [
    | yes above ↦
        let first : ltb 5 i ≡ true = ground arith in SetOutcome.ignored above (rw first refl)
    | no low ↦
        let first : ltb 5 i ≡ false = ground arith in
        let second : ltb i (length gdt) ≡ false = ground arith in
        SetOutcome.out_of_bounds (omega (arith, high, low)) (rw (first, second) refl)
  ]
]

-- A descriptor for the segment with base 0 and the limit 0xfffff in 4 KiB units: all 4 GiB.
abbrev pub IsFlat : ℕ → GdtDescriptor → Type 0
IsFlat access d =
    (base_of d ≡ 0) × (limit_of d ≡ 0xfffff) × (d.flags ≡ access) × (attributes_of d ≡ 0xc)

-- What the processor needs of the table: a null descriptor, then code and data for ring 0 and for
-- ring 3, each flat, and a register image that covers the 40 bytes of the five.
pub record IsFlatTable (gdt_address gdtr_address : ℕ) (result : Option GdtState) : Type 0 where
  pub null_entry : GdtDescriptor
  pub kernel_code : GdtDescriptor
  pub kernel_data : GdtDescriptor
  pub user_code : GdtDescriptor
  pub user_data : GdtDescriptor
  pub state : GdtState
  pub ends : result ≡ some state
  pub table : state.gdt ≡ null_entry ∷ kernel_code ∷ kernel_data ∷ user_code ∷ user_data ∷ []
  pub null_base : base_of null_entry ≡ 0
  pub null_flags : null_entry.flags ≡ 0
  pub ring_0_code : IsFlat 0x9a kernel_code
  pub ring_0_data : IsFlat 0x92 kernel_data
  pub ring_3_code : IsFlat 0xfa user_code
  pub ring_3_data : IsFlat 0xf2 user_data
  pub limit : state.gdtr.limit ≡ 39
  pub base : state.gdtr.base ≡ gdt_address
  pub installed : state.installed ≡ gdtr_address

-- Whatever the table held, `gdt_init` builds the flat table, and never writes out of bounds.
pub gdt_init-IsFlatTable :
    (gdt_address gdtr_address : ℕ) (a b c d e : GdtDescriptor)
    → IsFlatTable gdt_address gdtr_address
        (gdt_init gdt_address gdtr_address (a ∷ b ∷ c ∷ d ∷ e ∷ []))
unfolding gdt_init
gdt_init-IsFlatTable gdt_address gdtr_address a b c d e = record {
  null_entry = descriptor 0 0 0 0;
  kernel_code = descriptor 0 0xffff_ffff 0x9a 0xcf;
  kernel_data = descriptor 0 0xffff_ffff 0x92 0xcf;
  user_code = descriptor 0 0xffff_ffff 0xfa 0xcf;
  user_data = descriptor 0 0xffff_ffff 0xf2 0xcf;
  state = record {
    gdt =
        descriptor 0 0 0 0
        ∷ descriptor 0 0xffff_ffff 0x9a 0xcf
        ∷ descriptor 0 0xffff_ffff 0x92 0xcf
        ∷ descriptor 0 0xffff_ffff 0xfa 0xcf
        ∷ descriptor 0 0xffff_ffff 0xf2 0xcf
        ∷ [];
    gdtr = record { limit = 39; base = gdt_address };
    installed = gdtr_address;
  };
  ends = refl;
  table = refl;
  null_base = refl;
  null_flags = refl;
  ring_0_code = (refl, refl, refl, refl);
  ring_0_data = (refl, refl, refl, refl);
  ring_3_code = (refl, refl, refl, refl);
  ring_3_data = (refl, refl, refl, refl);
  limit = refl;
  base = refl;
  installed = refl;
}
