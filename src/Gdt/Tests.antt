-- ===== src/Gdt/Tests.antt =====
-- The theorems about kernal/hal/gdt.c at concrete inputs.
use she_x_mini_operating_sys.Base.{◌≡◌, refl, none, List, [], ◌∷◌, arith}
use she_x_mini_operating_sys.Gdt.{GdtDescriptor, gdt_set_descriptor, gdt_init}
use she_x_mini_operating_sys.Gdt.Laws.{
  gdt_set_descriptor-SetOutcome, SetOutcome, IsFlatTable, gdt_init-IsFlatTable,
}

abbrev blank : GdtDescriptor
blank = record { limit = 0; base_low = 0; base_middle = 0; flags = 0; grand = 0; base_high = 0 }

abbrev blank_table : List GdtDescriptor
blank_table = blank ∷ blank ∷ blank ∷ blank ∷ blank ∷ []

-- The index 5 passes the guard.
index_five : gdt_set_descriptor blank_table 5 0 0 0 0 ≡ none
unfolding gdt_set_descriptor
index_five = refl

gdt_set_descriptor-SetOutcome_example :
    SetOutcome blank_table 3 0x1234_5678 0xf_4321 0xfa 0xcf
      (gdt_set_descriptor blank_table 3 0x1234_5678 0xf_4321 0xfa 0xcf)
gdt_set_descriptor-SetOutcome_example =
    gdt_set_descriptor-SetOutcome blank_table 3 0x1234_5678 0xf_4321 0xfa 0xcf refl (omega arith)
      (omega arith)

gdt_init-IsFlatTable_example :
    IsFlatTable 0xc000_4000 0xc000_4030 (gdt_init 0xc000_4000 0xc000_4030 blank_table)
gdt_init-IsFlatTable_example =
    gdt_init-IsFlatTable 0xc000_4000 0xc000_4030 blank blank blank blank blank
