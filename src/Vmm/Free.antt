-- ===== src/Vmm/Free.antt =====
-- `free_page` of kernal/mem/virtmem.c on the entry of a mapped page.
use mathlib.Core.Path.{subst}
use she_x_mini_operating_sys.Base.{
  ℕ, ◌+◌, ◌/◌, ◌%◌, ◌^◌, ◌<◌, ◌≡◌, ◌≢◌, sym, ap, ◌∙◌, true, not, ◌&&◌, none, some, ◌==◌,
  update_self, arith,
}
use she_x_mini_operating_sys.Pmm.{free_block}
use she_x_mini_operating_sys.Pmm.Bitmap.{used}
use she_x_mini_operating_sys.Pmm.Free.{used-free_block}
use she_x_mini_operating_sys.Vmm.{entry_is_present, entry_clear_attrib, entry_physical, pte_present}
use she_x_mini_operating_sys.Vmm.Entries.{present_value, clear_present_value, physical_value}
use she_x_mini_operating_sys.Vmm.Memory.{Machine, walk, frame, load, bind-some}
use she_x_mini_operating_sys.Vmm.Paging.{clear_attrib, free, free_page, table_slot, page_table}
use she_x_mini_operating_sys.Vmm.Slot.{at, at_self, load_self, clear_attrib-at}
use she_x_mini_operating_sys.Vmm.Walks.{walk_unmapped, IsSelfMapped, directory_cell, table_cell}
use she_x_mini_operating_sys.Vmm.Map.{
  cell, pde, kept, written_others, written-IsSelfMapped, HasTable, slot-LeadsTo,
}

-- The page of `virtual` is not mapped any more, the block of the frame in `entry` is free, and no other
-- page or block has changed.
pub record Unmaps (m m' : Machine) (virtual entry : ℕ) : Type 0 where
  pub faults : (o : ℕ) → o < 4096 → walk m'.memory m'.pdbr (frame virtual + o) ≡ none
  pub others :
      (v : ℕ)
      → v < 2 ^ 32
      → frame v ≢ frame virtual
      → walk m'.memory m'.pdbr v ≡ walk m.memory m.pdbr v
  pub given_back : (b : ℕ) → used m'.bitmap b ≡ (used m.bitmap b && not (b == entry / 4096))
  pub self_mapped : IsSelfMapped m'

module _ (m : Machine) (virtual : ℕ) (low : virtual < page_table) (s : IsSelfMapped m)
    (t : HasTable m (virtual / 2 ^ 22)) where
  abbrev page_cell : ℕ
  page_cell = cell m virtual low s t

  abbrev pte : ℕ
  pte = m.memory page_cell

  abbrev freed_block : Machine
  freed_block = record m { bitmap = (free_block m.bitmap (entry_physical pte)).0 }

  abbrev unmapped : Machine
  unmapped = at freed_block page_cell (entry_clear_attrib pte pte_present)

  clear_self : clear_attrib (table_slot virtual) pte_present freed_block ≡ some (tt, unmapped)
  clear_self =
      subst (λ k. clear_attrib (table_slot virtual) pte_present k ≡ some (tt, unmapped))
        (at_self freed_block page_cell)
        (clear_attrib-at freed_block (table_slot virtual) page_cell (slot-LeadsTo m virtual low s t)
          pte pte_present)

  free_page-unmapped : pte % 2 ≡ 1 → free_page (table_slot virtual) m ≡ some (tt, unmapped)
  unfolding free_page free
  free_page-unmapped present =
      let slot = table_slot virtual in
      let on : entry_is_present pte ≡ true = present_value pte ∙ ap (λ b. not (b == 0)) present in
      bind-some (load slot) _ m m pte (load_self m slot page_cell (slot-LeadsTo m virtual low s t))
      ∙ rw on clear_self

  unmapped-Unmaps : pte < 2 ^ 32 → Unmaps m unmapped virtual pte
  unmapped-Unmaps fits =
      let cells = unmapped.memory in
      let x = entry_clear_attrib pte pte_present in
      let aligned : entry_physical pte % 4096 ≡ 0 = omega (arith, physical_value pte fits) in
      let block : entry_physical pte / 4096 ≡ pte / 4096 = omega (arith, physical_value pte fits) in
      let off : x % 2 ≡ 0 = omega (arith, clear_present_value pte fits) in
      let self = written-IsSelfMapped m virtual low s t x in
      record {
        faults = λ o ho.
            let first : directory_cell m.pdbr (frame virtual + o) ≡ directory_cell m.pdbr virtual =
              omega arith in
            let second : table_cell (pde m virtual low s t) (frame virtual + o) ≡ page_cell =
              omega arith in
            walk_unmapped cells m.pdbr (frame virtual + o) (pde m virtual low s t)
              (ap cells first ∙ kept m virtual low s t x (virtual / 2 ^ 22) (omega arith)) t.present
              (ap (λ c. cells c % 2) second
                ∙ ap (λ w. w % 2) (update_self m.memory page_cell x)
                ∙ off);
        others = written_others m virtual low s t x;
        given_back = λ b.
            used-free_block m.bitmap (entry_physical pte) b aligned
            ∙ ap (λ (c : ℕ). used m.bitmap b && not (b == c)) block;
        self_mapped = record {
          aligned = self.aligned;
          self_present = self.self_present;
          self_frame = self.self_frame;
          pointer = self.pointer;
        };
      }

-- Where the directory maps itself, the table of a page below the tables is there, no other entry of the
-- directory leads to it, and the page's entry is a present 32-bit word, `free_page` of that entry leaves
-- the page unmapped and every other page as it was; the block that the upper 20 bits of the entry number
-- is free afterwards, and whether any other block is in use has not changed.
pub free_page-Unmaps :
    (m : Machine) (virtual entry : ℕ)
    → virtual < page_table
    → IsSelfMapped m
    → HasTable m (virtual / 2 ^ 22)
    → m.memory (table_cell (m.memory (directory_cell m.pdbr virtual)) virtual) ≡ entry
    → entry % 2 ≡ 1
    → entry < 2 ^ 32
    → (m' : Machine) × (free_page (table_slot virtual) m ≡ some (tt, m'))
      × Unmaps m m' virtual entry
free_page-Unmaps m virtual entry low s t e present fits =
    subst
      (λ w.
        (m' : Machine) × (free_page (table_slot virtual) m ≡ some (tt, m')) × Unmaps m m' virtual w)
      e
      (
        unmapped m virtual low s t,
        free_page-unmapped m virtual low s t (ap (λ w. w % 2) e ∙ present),
        unmapped-Unmaps m virtual low s t (subst (λ w. w < 2 ^ 32) (sym e) fits),
      )
