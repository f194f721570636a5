-- ===== src/Vmm/Tests.antt =====
-- The theorems about kernal/mem/virtmem.c at concrete directories.
use native.Mathlib.Decide.{ℕ_discrete}
use she_x_mini_operating_sys.Base.{
  ℕ, ◌+◌, ◌%◌, ◌<◌, ◌≡◌, ◌≢◌, ◌∙◌, ap, sym, refl, ltb, ◌==◌, if◌then◌else◌, some, true, arith,
}
use she_x_mini_operating_sys.Vmm.Memory.{Machine, frame, walk}
use she_x_mini_operating_sys.Vmm.Paging.{
  page_directory_address, directory_slot, table_slot, map_page, free_page, set_recursive_map,
  remove_identity_map,
}
use she_x_mini_operating_sys.Vmm.Slot.{LeadsTo}
use she_x_mini_operating_sys.Vmm.Walks.{IsSelfMapped}
use she_x_mini_operating_sys.Vmm.Map.{HasTable, Maps, map_page-Maps}
use she_x_mini_operating_sys.Vmm.Fresh.{TablesUsed}
use she_x_mini_operating_sys.Vmm.Outcome.{FreshOutcome, map_page-FreshOutcome}
use she_x_mini_operating_sys.Vmm.Recursive.{
  NoTableIsDirectory, RecursiveMap, IdentityRemoved, set_recursive_map-RecursiveMap,
  remove_identity_map-IdentityRemoved,
}
use she_x_mini_operating_sys.Vmm.Free.{Unmaps, free_page-Unmaps}

-- The directory at 0x9c000, with its own last entry and a table at 0x9d000 for the first 4 MiB, of
-- which only the page of the directory is mapped.
abbrev words : ℕ → ℕ
words i =
    if i == 0x27000
    then 0x9d003
    else if i == 0x273ff
    then 0x9c003
    else if i == 0x2749c
    then 0x9c003
    else 0

abbrev low_used : ℕ → ℕ
low_used i = if ltb i 5 then 0xffff_ffff else 0

abbrev booted : Machine
booted = record {
  memory = words;
  pdbr = 0x9c000;
  page_directory = page_directory_address;
  bitmap = low_used;
}

-- The same before `set_recursive_map`.
abbrev starting : Machine
starting = record {
  memory = λ i. if i == 0x27000 then 0x9d003 else if i == 0x2749c then 0x9c003 else 0;
  pdbr = 0x9c000;
  page_directory = 0x9c000;
  bitmap = low_used;
}

booted-IsSelfMapped : IsSelfMapped booted
booted-IsSelfMapped = record {
  aligned = refl;
  self_present = refl;
  self_frame = refl;
  pointer = refl;
}

entry_0 : (j : ℕ) → j < 1024 → j ≢ 0 → j ≢ 1023 → words (0x27000 + j) ≡ 0
entry_0 j h ne ne' = ground arith

booted-HasTable : HasTable booted 0
booted-HasTable = record {
  present = refl;
  alone = λ j h ne on e. elim (ℕ_discrete j 1023) [
    | yes last ↦ omega (arith, sym (ap (λ k. frame (words (0x27000 + k))) last) ∙ e)
    | no other ↦ omega (arith, on, ap (λ w. w % 2) (entry_0 j h ne other))
  ];
}

booted-directory : HasTable booted 1023
booted-directory = record {
  present = refl;
  alone = λ j h ne on e. elim (ℕ_discrete j 0) [
    | yes first ↦ omega (arith, sym (ap (λ k. frame (words (0x27000 + k))) first) ∙ e)
    | no other ↦ omega (arith, on, ap (λ w. w % 2) (entry_0 j h other ne))
  ];
}

booted-TablesUsed : TablesUsed booted
booted-TablesUsed = record {
  words = λ i. ground arith;
  block_0 = refl;
  tables = λ j h on. elim (ℕ_discrete j 0) [
    | yes first ↦ rw first refl
    | no ne ↦ elim (ℕ_discrete j 1023) [
      | yes last ↦ rw last refl
      | no other ↦ absurd (odd_zero (ap (λ w. w % 2) (entry_0 j h ne other)) on)
    ]
  ];
}
  where
    odd_zero : {n : ℕ} → n ≡ 0 → n ≡ 1 → ⊥
    odd_zero a b = omega arith

starting-NoTableIsDirectory : NoTableIsDirectory starting
starting-NoTableIsDirectory j h on e = elim (ℕ_discrete j 0) [
  | yes first ↦ omega (arith, sym (ap (λ k. frame (starting.memory (0x27000 + k))) first) ∙ e)
  | no ne ↦ omega (arith, on, ap (λ w. w % 2) (rest j h ne))
]
  where
    rest : (j : ℕ) → j < 1023 → j ≢ 0 → starting.memory (0x27000 + j) ≡ 0
    rest j h ne = ground arith

starting-LeadsTo : LeadsTo starting (directory_slot starting 1023) 0x273ff
unfolding walk
starting-LeadsTo x = refl

map_page-Maps_example :
    (m' : Machine) × (map_page 0xb8123 0xb8000 booted ≡ some (true, m'))
    × (m'.bitmap ≡ low_used)
    × Maps booted m' 0xb8123 0xb8000
map_page-Maps_example =
    map_page-Maps booted 0xb8123 0xb8000 (omega arith) (omega arith) booted-IsSelfMapped
      booted-HasTable

map_page-FreshOutcome_example :
    FreshOutcome booted 0xffbf_f000 0x8f000 (map_page 0xffbf_f000 0x8f000 booted)
map_page-FreshOutcome_example =
    map_page-FreshOutcome booted 0xffbf_f000 0x8f000 (omega arith) (omega arith) booted-IsSelfMapped
      booted-directory booted-TablesUsed refl

free_page-Unmaps_example :
    (m' : Machine) × (free_page (table_slot 0x9c000) booted ≡ some (tt, m'))
    × Unmaps booted m' 0x9c000 0x9c003
free_page-Unmaps_example =
    free_page-Unmaps booted 0x9c000 0x9c003 (omega arith) booted-IsSelfMapped booted-HasTable refl
      refl (omega arith)

set_recursive_map-RecursiveMap_example :
    (m' : Machine) × (set_recursive_map starting ≡ some (tt, m')) × RecursiveMap starting m'
set_recursive_map-RecursiveMap_example =
    set_recursive_map-RecursiveMap starting refl (omega arith) starting-NoTableIsDirectory
      starting-LeadsTo

remove_identity_map-IdentityRemoved_example :
    (m' : Machine) × (remove_identity_map booted ≡ some (tt, m')) × IdentityRemoved booted m'
remove_identity_map-IdentityRemoved_example =
    remove_identity_map-IdentityRemoved booted
      (record { self_mapped = booted-IsSelfMapped; alone = booted-directory })
