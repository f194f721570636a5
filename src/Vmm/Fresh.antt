-- ===== src/Vmm/Fresh.antt =====
-- `map_page` of kernal/mem/virtmem.c where the page's table is not there: it takes a block for one.
use she_x_mini_operating_sys.Base.{
  ℕ, ◌+◌, ◌*◌, ◌/◌, ◌%◌, ◌^◌, ◌<◌, ◌≡◌, ◌≢◌, sym, ap, ◌∙◌, true, false, not, some, ◌==◌,
  if◌then◌else◌, update_ne, update_self, arith, ◌>>>◌,
}
use she_x_mini_operating_sys.Pmm.{allocate_block, toggle_block}
use she_x_mini_operating_sys.Pmm.Bitmap.{used, IsWords}
use she_x_mini_operating_sys.Vmm.{entry_is_present, entry_set_frame, pte_present, pte_writable}
use she_x_mini_operating_sys.Vmm.Entries.{present_value, set_frame_value}
use she_x_mini_operating_sys.Vmm.Memory.{Machine, pure, ◌>>◌, frame, load, bind-some, then-some}
use she_x_mini_operating_sys.Vmm.Paging.{
  allocate, alloc_page, set_frame, unless_present, table_slot, directory_slot, page_table,
  map_aligned, fill_entry,
}
use she_x_mini_operating_sys.Vmm.Slot.{
  at, filled, made_present, load_self, set_frame_self, unless_present-at, fill_entry_self,
}
use she_x_mini_operating_sys.Vmm.Walks.{IsSelfMapped, directory_cell, table_cell}
use she_x_mini_operating_sys.Vmm.Filled.{made_present_value}
use she_x_mini_operating_sys.Vmm.Map.{HasTable, directory-LeadsTo, slot-LeadsTo}

-- The blocks behind the directory's entries are marked as used, and so is block 0.
pub record TablesUsed (m : Machine) : Type 0 where
  pub words : IsWords m.bitmap
  pub block_0 : used m.bitmap 0 ≡ true
  pub tables :
      (j : ℕ)
      → j < 1024
      → m.memory (m.pdbr / 4 + j) % 2 ≡ 1
      → used m.bitmap (m.memory (m.pdbr / 4 + j) / 4096) ≡ true

module _ (m : Machine) (virtual b : ℕ) (low : virtual < page_table) (s : IsSelfMapped m)
    (absent : m.memory (directory_cell m.pdbr virtual) % 2 ≡ 0) (tables : TablesUsed m)
    (small : b < 2 ^ 20) (positive : 0 < b) (free : used m.bitmap b ≡ false)
    (allocated : allocate_block m.bitmap ≡ (toggle_block m.bitmap b, 4096 * b)) where
  abbrev pub directory : ℕ
  directory = directory_cell m.pdbr virtual

  abbrev slot : ℕ
  slot = directory_slot m (virtual >>> 22)

  -- The machine after the block is taken, the new entry of the directory, and the machine with it.
  abbrev pub taken_block : Machine
  taken_block = record m { bitmap = toggle_block m.bitmap b }

  abbrev pub entry : ℕ
  entry = made_present pte_present (entry_set_frame (m.memory directory) (4096 * b))

  abbrev pub tabled : Machine
  tabled = at taken_block directory entry

  pub entry_value : (frame entry ≡ 4096 * b) × (entry % 2 ≡ 1)
  entry_value =
      let framed = entry_set_frame (m.memory directory) (4096 * b) in
      let e = set_frame_value (m.memory directory) (4096 * b) (omega arith) in
      let p = made_present_value framed in (omega (arith, e, p), omega (arith, e, p))

  taken-IsSelfMapped : IsSelfMapped taken_block
  taken-IsSelfMapped = record {
    aligned = s.aligned;
    self_present = s.self_present;
    self_frame = s.self_frame;
    pointer = s.pointer;
  }

  pub entry_kept :
      (j : ℕ) → j ≢ virtual / 2 ^ 22 → tabled.memory (m.pdbr / 4 + j) ≡ m.memory (m.pdbr / 4 + j)
  entry_kept j ne = update_ne m.memory directory (m.pdbr / 4 + j) entry (λ e. ne (omega (arith, e)))

  pub tabled-IsSelfMapped : IsSelfMapped tabled
  tabled-IsSelfMapped =
      let own = entry_kept 1023 (omega arith) in
      record {
        aligned = s.aligned;
        self_present = ap (λ w. w % 2) own ∙ s.self_present;
        self_frame = ap frame own ∙ s.self_frame;
        pointer = s.pointer;
      }

  -- No other entry leads to the block, which was free.
  pub table-ne-block :
      (j : ℕ)
      → j < 1024
      → m.memory (m.pdbr / 4 + j) % 2 ≡ 1
      → frame (m.memory (m.pdbr / 4 + j)) ≢ 4096 * b
  table-ne-block j h on e =
      let same : m.memory (m.pdbr / 4 + j) / 4096 ≡ b = omega (arith, e) in
      absurd (true_false (sym (tables.tables j h on) ∙ ap (used m.bitmap) same ∙ free))
    where
      true_false : true ≡ false → ⊥
      true_false e = cc

  pub tabled-HasTable : HasTable tabled (virtual / 2 ^ 22)
  tabled-HasTable =
      let own : tabled.memory directory ≡ entry = update_self m.memory directory entry in
      record {
        present = ap (λ w. w % 2) own ∙ entry_value.1;
        alone = λ j h ne on e.
            let same = entry_kept j ne in
            table-ne-block j h (sym (ap (λ w. w % 2) same) ∙ on)
              (sym (ap frame same) ∙ e ∙ ap frame own ∙ entry_value.0);
      }

  allocate-taken : allocate m ≡ some (4096 * b, taken_block)
  unfolding allocate
  allocate-taken = rw allocated

  alloc_page-taken : alloc_page slot m ≡ some (true, tabled)
  unfolding alloc_page
  alloc_page-taken =
      let nonzero : (4096 * b == 0) ≡ false = ground arith in
      let leads = directory-LeadsTo taken_block virtual low taken-IsSelfMapped in
      let framed = entry_set_frame (m.memory directory) (4096 * b) in
      bind-some allocate _ m taken_block (4096 * b) allocate-taken
      ∙ rw nonzero (
          then-some (set_frame slot (4096 * b)) (unless_present slot pte_present >> pure true)
            taken_block (at taken_block directory framed) tt
            (set_frame_self taken_block slot directory leads (4096 * b))
          ∙ then-some (unless_present slot pte_present) (pure true)
              (at taken_block directory framed) tabled tt
              (unless_present-at taken_block slot directory leads framed pte_present))

  abbrev pub page_cell : ℕ
  page_cell = table_cell (tabled.memory directory) virtual

  abbrev pub final : ℕ → Machine
  final physical = at tabled page_cell (filled (tabled.memory page_cell) physical)

  -- The entry is present by then, so the branch that would make it writable is not taken.
  unless_present-tabled : unless_present slot pte_writable tabled ≡ some (tt, tabled)
  unless_present-tabled =
      let leads = directory-LeadsTo taken_block virtual low taken-IsSelfMapped in
      let on : entry_is_present entry ≡ true =
        present_value entry ∙ ap (λ w. not (w == 0)) entry_value.1 in
      let same : made_present pte_writable entry ≡ entry = rw on in
      unless_present-at taken_block slot directory leads entry pte_writable
      ∙ ap (λ w. some (tt, at taken_block directory w)) same

  pub map_aligned-fresh :
      (physical : ℕ) → map_aligned virtual physical m ≡ some (true, final physical)
  unfolding map_aligned
  map_aligned-fresh physical =
      let off : entry_is_present (m.memory directory) ≡ false =
        present_value (m.memory directory) ∙ ap (λ w. not (w == 0)) absent in
      let rest = unless_present slot pte_writable >> fill_entry (table_slot virtual) physical in
      bind-some (load slot) _ m m (m.memory directory)
        (load_self m slot directory (directory-LeadsTo m virtual low s))
      ∙ rw off (
          bind-some (alloc_page slot) (λ done. if done then rest else pure false) m tabled true
            alloc_page-taken
          ∙ then-some (unless_present slot pte_writable) (fill_entry (table_slot virtual) physical)
              tabled tabled tt unless_present-tabled
          ∙ fill_entry_self tabled (table_slot virtual) page_cell
              (slot-LeadsTo tabled virtual low tabled-IsSelfMapped tabled-HasTable) physical)
