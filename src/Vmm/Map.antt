-- ===== src/Vmm/Map.antt =====
-- What `map_page` of kernal/mem/virtmem.c does to the translation of addresses.
use she_x_mini_operating_sys.Base.{
  ℕ, ◌+◌, ◌*◌, ◌/◌, ◌%◌, ◌^◌, ◌<◌, ◌≡◌, ◌≢◌, refl, sym, ap, ◌∙◌, true, not, some, ◌==◌, update,
  update_ne, update_self, arith, ◌>>>◌,
}
use mathlib.Core.Path.{subst}
use native.Mathlib.Decide.{ℕ_discrete}
use she_x_mini_operating_sys.Vmm.{entry_is_present}
use she_x_mini_operating_sys.Vmm.Entries.{present_value}
use she_x_mini_operating_sys.Vmm.Memory.{Machine, walk, frame, load, bind-some}
use she_x_mini_operating_sys.Vmm.Paging.{
  table_slot, directory_slot, page_table, map_aligned, map_page, round_down,
}
use she_x_mini_operating_sys.Vmm.Slot.{at, LeadsTo, filled, load_self, fill_entry_self}
use she_x_mini_operating_sys.Vmm.Walks.{
  IsSelfMapped, directory_cell, table_cell, walk_present, walk_directory, walk_slot, walk_same,
}
use she_x_mini_operating_sys.Vmm.Filled.{filled_value}

-- The page of `virtual` is mapped to the frame of `physical`, and no other page's translation has
-- changed.
pub record Maps (m m' : Machine) (virtual physical : ℕ) : Type 0 where
  pub there :
      (o : ℕ) → o < 4096 → walk m'.memory m'.pdbr (frame virtual + o) ≡ some (frame physical + o)
  pub others :
      (v : ℕ)
      → v < 2 ^ 32
      → frame v ≢ frame virtual
      → walk m'.memory m'.pdbr v ≡ walk m.memory m.pdbr v
  pub self_mapped : IsSelfMapped m'

-- The table behind entry `i` of the directory is there, and no other entry of the directory leads to it.
pub record HasTable (m : Machine) (i : ℕ) : Type 0 where
  pub present : m.memory (m.pdbr / 4 + i) % 2 ≡ 1
  pub alone :
      (j : ℕ)
      → j < 1024
      → j ≢ i
      → m.memory (m.pdbr / 4 + j) % 2 ≡ 1
      → frame (m.memory (m.pdbr / 4 + j)) ≢ frame (m.memory (m.pdbr / 4 + i))

-- A cell of one frame is not a cell of another.
pub apart :
    (a b i k : ℕ)
    → a % 4096 ≡ 0
    → b % 4096 ≡ 0
    → a ≢ b
    → i < 1024
    → k < 1024
    → a / 4 + i ≢ b / 4 + k
apart a b i k p q ne hi hk e = ne (omega arith)

-- A pointer to the directory's entry for an address below the tables.
pub directory-LeadsTo :
    (m : Machine) (virtual : ℕ)
    → virtual < page_table
    → IsSelfMapped m
    → LeadsTo m (directory_slot m (virtual >>> 22)) (directory_cell m.pdbr virtual)
directory-LeadsTo m virtual low s x =
    let cells = update m.memory (directory_cell m.pdbr virtual) x in
    let own : cells (m.pdbr / 4 + 1023) ≡ m.memory (m.pdbr / 4 + 1023) =
      update_ne m.memory (directory_cell m.pdbr virtual) (m.pdbr / 4 + 1023) x (omega arith) in
    ap (λ p. walk cells m.pdbr (p + 4 * (virtual / 2 ^ 22))) s.pointer
    ∙ walk_directory cells m.pdbr (virtual / 2 ^ 22) s.aligned
        (ap (λ w. w % 2) own ∙ s.self_present) (ap frame own ∙ s.self_frame) (omega arith)

module _ (m : Machine) (virtual : ℕ) (low : virtual < page_table) (s : IsSelfMapped m)
    (t : HasTable m (virtual / 2 ^ 22)) where
  abbrev pub pde : ℕ
  pde = m.memory (directory_cell m.pdbr virtual)

  abbrev pub cell : ℕ
  cell = table_cell pde virtual

  -- The table is not the directory.
  table-ne-directory : frame pde ≢ m.pdbr
  table-ne-directory e =
      t.alone 1023 (omega arith) (omega arith) s.self_present (s.self_frame ∙ sym e)

  pub kept :
      (x i : ℕ) → i < 1024 → update m.memory cell x (m.pdbr / 4 + i) ≡ m.memory (m.pdbr / 4 + i)
  kept x i h = update_ne m.memory cell _ x (
      apart (frame pde) m.pdbr (virtual / 4096 % 1024) i (omega arith) s.aligned table-ne-directory
        (omega arith) h)

  pub slot-LeadsTo : LeadsTo m (table_slot virtual) cell
  slot-LeadsTo x =
      let index : virtual / 2 ^ 22 < 1024 = omega arith in
      let own = kept x 1023 (omega arith) in
      let same = kept x (virtual / 2 ^ 22) index in
      walk_slot (update m.memory cell x) m.pdbr virtual s.aligned
        (ap (λ w. w % 2) own ∙ s.self_present) (ap frame own ∙ s.self_frame) low
        (ap (λ w. w % 2) same ∙ t.present)
      ∙ ap (λ w. some (4 * table_cell w virtual)) same

  -- No address outside the page is translated through the page's cell.
  other_cell :
      (v : ℕ)
      → v < 2 ^ 32
      → frame v ≢ frame virtual
      → m.memory (directory_cell m.pdbr v) % 2 ≡ 1
      → cell ≢ table_cell (m.memory (directory_cell m.pdbr v)) v
  other_cell v hv ne present = elim (ℕ_discrete (v / 2 ^ 22) (virtual / 2 ^ 22)) [
    | yes same ↦
        let one_table : m.memory (directory_cell m.pdbr v) ≡ pde =
          ap (λ i. m.memory (m.pdbr / 4 + i)) same in
        λ e. ne (omega (arith, same, ap frame one_table))
    | no differ ↦
        apart (frame pde) (frame (m.memory (directory_cell m.pdbr v))) (virtual / 4096 % 1024)
          (v / 4096 % 1024) (omega arith) (omega arith)
          (λ e. t.alone (v / 2 ^ 22) (omega arith) differ present (sym e)) (omega arith)
          (omega arith)
  ]

  -- A write to the page's entry.
  pub written_others :
      (x v : ℕ)
      → v < 2 ^ 32
      → frame v ≢ frame virtual
      → walk (update m.memory cell x) m.pdbr v ≡ walk m.memory m.pdbr v
  written_others x v hv ne =
      walk_same (update m.memory cell x) m.memory m.pdbr v (kept x (v / 2 ^ 22) (omega arith))
        (λ present. update_ne m.memory cell _ x (other_cell v hv ne present))

  pub written-IsSelfMapped : (x : ℕ) → IsSelfMapped (at m cell x)
  written-IsSelfMapped x = record {
    aligned = s.aligned;
    self_present = ap (λ w. w % 2) (kept x 1023 (omega arith)) ∙ s.self_present;
    self_frame = ap frame (kept x 1023 (omega arith)) ∙ s.self_frame;
    pointer = s.pointer;
  }

  pub filled-Maps :
      (physical : ℕ)
      → physical < 2 ^ 32
      → Maps m (at m cell (filled (m.memory cell) physical)) virtual physical
  filled-Maps physical h =
      let pte = filled (m.memory cell) physical in
      let cells = update m.memory cell pte in
      let (on, writable, value) = filled_value (m.memory cell) physical h in
      record {
        there = λ o ho.
            let first : directory_cell m.pdbr (frame virtual + o) ≡ directory_cell m.pdbr virtual =
              omega arith in
            let second : table_cell pde (frame virtual + o) ≡ cell = omega arith in
            walk_present cells m.pdbr (frame virtual + o) pde pte
              (ap cells first ∙ kept pte (virtual / 2 ^ 22) (omega arith)) t.present
              (ap cells second ∙ update_self m.memory cell pte) on
            ∙ ap some (omega (arith, value));
        others = written_others pte;
        self_mapped = written-IsSelfMapped pte;
      }

  pub map_aligned-present :
      (physical : ℕ)
      → map_aligned virtual physical m ≡ some (true, at m cell (filled (m.memory cell) physical))
  unfolding map_aligned
  map_aligned-present physical =
      let slot = directory_slot m (virtual >>> 22) in
      let on : entry_is_present pde ≡ true = present_value pde ∙ ap (λ b. not (b == 0)) t.present in
      bind-some (load slot) _ m m pde
        (load_self m slot (directory_cell m.pdbr virtual) (directory-LeadsTo m virtual low s))
      ∙ rw on (fill_entry_self m (table_slot virtual) cell slot-LeadsTo physical)

-- The rounding of the arguments.
pub round_down-eq-frame : (address : ℕ) → round_down address ≡ frame address
round_down-eq-frame address = ground arith

pub Maps-frame :
    (m m' : Machine) (virtual physical : ℕ)
    → Maps m m' (frame virtual) (frame physical)
    → Maps m m' virtual physical
Maps-frame m m' virtual physical maps =
    let page : frame (frame virtual) ≡ frame virtual = omega arith in
    let block : frame (frame physical) ≡ frame physical = omega arith in
    record {
      there = λ o h.
          subst (λ a. walk m'.memory m'.pdbr (a + o) ≡ some (frame physical + o)) page
            (maps.there o h ∙ ap (λ a. some (a + o)) block);
      others = λ v h ne. maps.others v h (λ e. ne (e ∙ page));
      self_mapped = maps.self_mapped;
    }

-- Where the directory maps itself, the page's table is there and no other entry of the directory leads
-- to it, `map_page` maps the page below the tables to the frame of the 32-bit physical address, changes
-- the translation of no other page, takes no block from the allocator and returns true.
pub map_page-Maps :
    (m : Machine) (virtual physical : ℕ)
    → virtual < page_table
    → physical < 2 ^ 32
    → IsSelfMapped m
    → HasTable m (virtual / 2 ^ 22)
    → (m' : Machine) × (map_page virtual physical m ≡ some (true, m'))
      × (m'.bitmap ≡ m.bitmap)
      × Maps m m' virtual physical
unfolding map_page
map_page-Maps m virtual physical low fits s t =
    let below : frame virtual < page_table = omega arith in
    let index : virtual / 2 ^ 22 ≡ frame virtual / 2 ^ 22 = omega arith in
    let table : HasTable m (frame virtual / 2 ^ 22) = subst (HasTable m) index t in
    (
      at m (cell m (frame virtual) below s table)
          (filled (m.memory (cell m (frame virtual) below s table)) (frame physical)),
      rw (round_down-eq-frame virtual, round_down-eq-frame physical)
          (map_aligned-present m (frame virtual) below s table (frame physical)),
      refl,
      Maps-frame m _ virtual physical
          (filled-Maps m (frame virtual) below s table (frame physical) (omega arith)),
    )
