-- ===== src/Vmm/Walks.antt =====
-- Pointers into the directory that maps itself, and the words that an address's translation depends on.
use she_x_mini_operating_sys.Base.{
  refl, ℕ, ◌+◌, ◌*◌, ◌/◌, ◌%◌, ◌^◌, ◌<◌, ◌≡◌, ap, ◌∙◌, false, none, some, true, ◌==◌, if◌then◌else◌,
  Bool-cases, inl, inr, arith,
}
use she_x_mini_operating_sys.Base.Masks.{bit_and_low, bit_or_sum}
use she_x_mini_operating_sys.Vmm.Memory.{Machine, walk, walk_table, frame}
use she_x_mini_operating_sys.Vmm.Paging.{table_slot, page_directory_address, page_table}

-- The last entry of the directory names the directory itself, and the source's pointer is the address
-- at which the directory then appears.
pub record IsSelfMapped (m : Machine) : Type 0 where
  pub aligned : m.pdbr % 4096 ≡ 0
  pub self_present : m.memory (m.pdbr / 4 + 1023) % 2 ≡ 1
  pub self_frame : frame (m.memory (m.pdbr / 4 + 1023)) ≡ m.pdbr
  pub pointer : m.page_directory ≡ page_directory_address

-- The cells of the directory's and of the table's entry for an address.
abbrev pub directory_cell : ℕ → ℕ → ℕ
directory_cell pdbr virtual = pdbr / 4 + virtual / 2 ^ 22

abbrev pub table_cell : ℕ → ℕ → ℕ
table_cell pde virtual = frame pde / 4 + virtual / 4096 % 1024

-- Both entries present, the translation is the frame and the place in the page.
pub walk_present :
    (memory : ℕ → ℕ) (pdbr virtual pde pte : ℕ)
    → memory (directory_cell pdbr virtual) ≡ pde
    → pde % 2 ≡ 1
    → memory (table_cell pde virtual) ≡ pte
    → pte % 2 ≡ 1
    → walk memory pdbr virtual ≡ some (frame pte + virtual % 4096)
unfolding walk
walk_present memory pdbr virtual pde pte e p f q =
    let on : (pde % 2 == 0) ≡ false = ground arith in
    let on' : (pte % 2 == 0) ≡ false = ground arith in rw e (rw on (rw f (rw on')))

-- A pointer to entry `i` of the directory.
pub walk_directory :
    (memory : ℕ → ℕ) (pdbr i : ℕ)
    → pdbr % 4096 ≡ 0
    → memory (pdbr / 4 + 1023) % 2 ≡ 1
    → frame (memory (pdbr / 4 + 1023)) ≡ pdbr
    → i < 1024
    → walk memory pdbr (page_directory_address + 4 * i) ≡ some (4 * (pdbr / 4 + i))
walk_directory memory pdbr i al on self h =
    let v = page_directory_address + 4 * i in
    let self_entry = memory (pdbr / 4 + 1023) in
    let first : v / 2 ^ 22 ≡ 1023 = omega arith in
    let second : frame self_entry / 4 + v / 4096 % 1024 ≡ pdbr / 4 + 1023 = omega arith in
    walk_present memory pdbr v self_entry self_entry (ap (λ n. memory (pdbr / 4 + n)) first) on
      (ap memory second) on
    ∙ ap some (omega arith)

slot_value :
    (virtual : ℕ)
    → virtual < 2 ^ 32
    → table_slot virtual ≡ page_table + virtual / 2 ^ 22 * 4096 + 4 * (virtual / 4096 % 1024)
slot_value virtual h = omega (
  arith,
  bit_or_sum 22 1023 (virtual / 2 ^ 22 * 2 ^ 12) (omega arith),
  bit_and_low 10 (virtual / 4096),
)

-- The pointer to the table's entry for an address below the tables themselves.
pub walk_slot :
    (memory : ℕ → ℕ) (pdbr virtual : ℕ)
    → pdbr % 4096 ≡ 0
    → memory (pdbr / 4 + 1023) % 2 ≡ 1
    → frame (memory (pdbr / 4 + 1023)) ≡ pdbr
    → virtual < page_table
    → memory (directory_cell pdbr virtual) % 2 ≡ 1
    → walk memory pdbr (table_slot virtual)
      ≡ some (4 * table_cell (memory (directory_cell pdbr virtual)) virtual)
walk_slot memory pdbr virtual al on self h present =
    let v = table_slot virtual in
    let value = slot_value virtual (omega arith) in
    let self_entry = memory (pdbr / 4 + 1023) in
    let pde = memory (directory_cell pdbr virtual) in
    let first : v / 2 ^ 22 ≡ 1023 = omega (arith, value) in
    let second : frame self_entry / 4 + v / 4096 % 1024 ≡ directory_cell pdbr virtual =
      omega (arith, value) in
    walk_present memory pdbr v self_entry pde (ap (λ n. memory (pdbr / 4 + n)) first) on
      (ap memory second) present
    ∙ ap some (omega (arith, value))

-- The translation reads two cells, the second only if the first is present.
pub walk_same :
    (f g : ℕ → ℕ) (pdbr virtual : ℕ)
    → f (directory_cell pdbr virtual) ≡ g (directory_cell pdbr virtual)
    → (g (directory_cell pdbr virtual) % 2 ≡ 1
        → f (table_cell (g (directory_cell pdbr virtual)) virtual)
          ≡ g (table_cell (g (directory_cell pdbr virtual)) virtual))
    → walk f pdbr virtual ≡ walk g pdbr virtual
unfolding walk
walk_same f g pdbr virtual e h = elim (Bool-cases (g (directory_cell pdbr virtual) % 2 == 0)) [
  | inl absent ↦ rw e (rw absent)
  | inr present ↦ rw e (rw (h (ground arith)))
]

-- The second step depends on the frame of the first entry, and on one cell.
pub walk_through :
    (f g : ℕ → ℕ) (pdbr virtual pde base : ℕ)
    → f (directory_cell pdbr virtual) ≡ pde
    → pde % 2 ≡ 1
    → frame pde ≡ frame base
    → f (table_cell base virtual) ≡ g (table_cell base virtual)
    → walk f pdbr virtual ≡ walk_table g base virtual
unfolding walk
walk_through f g pdbr virtual pde base e p same kept =
    let on : (pde % 2 == 0) ≡ false = ground arith in
    rw e (
      rw on (
        ap
          (λ a.
            let pte = f (a / 4 + virtual / 4096 % 1024) in
            if pte % 2 == 0 then none else some (frame pte + virtual % 4096))
          same
        ∙ ap (λ (pte : ℕ). if pte % 2 == 0 then none else some (frame pte + virtual % 4096)) kept))

pub walk_absent :
    (memory : ℕ → ℕ) (pdbr virtual : ℕ)
    → memory (directory_cell pdbr virtual) % 2 ≡ 0
    → walk memory pdbr virtual ≡ none
unfolding walk
walk_absent memory pdbr virtual e =
    let off : (memory (directory_cell pdbr virtual) % 2 == 0) ≡ true = ground arith in rw off

pub walk_unmapped :
    (memory : ℕ → ℕ) (pdbr virtual pde : ℕ)
    → memory (directory_cell pdbr virtual) ≡ pde
    → pde % 2 ≡ 1
    → memory (table_cell pde virtual) % 2 ≡ 0
    → walk memory pdbr virtual ≡ none
walk_unmapped memory pdbr virtual pde e p off =
    let absent : (memory (table_cell pde virtual) % 2 == 0) ≡ true = ground arith in
    walk_through memory memory pdbr virtual pde pde e p refl refl ∙ rw absent
