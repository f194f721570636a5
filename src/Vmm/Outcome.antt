-- ===== src/Vmm/Outcome.antt =====
-- The two ways in which `map_page` of kernal/mem/virtmem.c ends where the page's table is not there.
use native.Mathlib.Decide.{ℕ_discrete}
use she_x_mini_operating_sys.Base.{
  ℕ, ◌%◌, ◌^◌, ◌<◌, ◌≡◌, sym, ap, ◌∙◌, Bool, true, false, not, Option, some, ◌==◌, if◌then◌else◌,
  arith, ◌>>>◌,
}
use she_x_mini_operating_sys.Pmm.{allocate_block}
use she_x_mini_operating_sys.Pmm.Bitmap.{used}
use she_x_mini_operating_sys.Pmm.Alloc.{FirstFree, taken, none_free, allocate_block-FirstFree}
use she_x_mini_operating_sys.Vmm.{entry_is_present, pte_writable}
use she_x_mini_operating_sys.Vmm.Entries.{present_value}
use she_x_mini_operating_sys.Vmm.Slot.{load_self}
use she_x_mini_operating_sys.Vmm.Memory.{bind-some, load, ◌>>◌, pure, Machine, frame}
use she_x_mini_operating_sys.Vmm.Paging.{
  fill_entry, unless_present, alloc_page, allocate, table_slot, directory_slot, page_table,
  map_aligned, map_page,
}
use she_x_mini_operating_sys.Vmm.Walks.{IsSelfMapped, directory_cell}
use she_x_mini_operating_sys.Vmm.Map.{directory-LeadsTo, HasTable, round_down-eq-frame}
use she_x_mini_operating_sys.Vmm.Fresh.{TablesUsed, final, map_aligned-fresh}
use she_x_mini_operating_sys.Vmm.Tables.{MapsFresh, MapsFresh-frame, fresh_final}

-- What `map_page` may return where the table is not there: a block was taken for it, or none was free.
pub data FreshOutcome (m : Machine) (virtual physical : ℕ) (r : Option (Bool × Machine))
    : Type 0 where
  table_taken :
      (b : ℕ) (m' : Machine)
      → r ≡ some (true, m')
      → MapsFresh m m' virtual physical b
      → FreshOutcome m virtual physical r
  blocks_exhausted :
      ((c : ℕ) → c < 2 ^ 20 → used m.bitmap c ≡ true)
      → r ≡ some (false, m)
      → FreshOutcome m virtual physical r

module _ (m : Machine) (virtual : ℕ) (low : virtual < page_table) (s : IsSelfMapped m)
    (absent : m.memory (directory_cell m.pdbr virtual) % 2 ≡ 0) where
  alloc_page-exhausted :
      (slot : ℕ) → allocate_block m.bitmap ≡ (m.bitmap, 0) → alloc_page slot m ≡ some (false, m)
  unfolding alloc_page allocate
  alloc_page-exhausted slot e = rw e

  map_aligned-exhausted :
      (physical : ℕ)
      → allocate_block m.bitmap ≡ (m.bitmap, 0)
      → map_aligned virtual physical m ≡ some (false, m)
  unfolding map_aligned
  map_aligned-exhausted physical e =
      let slot = directory_slot m (virtual >>> 22) in
      let word = m.memory (directory_cell m.pdbr virtual) in
      let off : entry_is_present word ≡ false =
        present_value word ∙ ap (λ w. not (w == 0)) absent in
      let rest = unless_present slot pte_writable >> fill_entry (table_slot virtual) physical in
      bind-some (load slot) _ m m word
        (load_self m slot (directory_cell m.pdbr virtual) (directory-LeadsTo m virtual low s))
      ∙ rw off (
          bind-some (alloc_page slot) (λ done. if done then rest else pure false) m m false
            (alloc_page-exhausted slot e))

  map_aligned-FreshOutcome :
      (physical : ℕ)
      → physical < 2 ^ 32
      → TablesUsed m
      → HasTable m 1023
      → FirstFree m.bitmap (allocate_block m.bitmap)
      → FreshOutcome m virtual physical (map_aligned virtual physical m)
  map_aligned-FreshOutcome physical fits tables alone (none_free all e) =
      blocks_exhausted all (map_aligned-exhausted physical e)
  map_aligned-FreshOutcome physical fits tables alone (taken b small free below e after) =
      let positive : 0 < b = not_block_0 b free in
      table_taken b (final m virtual b low s absent tables small positive free e physical)
        (map_aligned-fresh m virtual b low s absent tables small positive free e physical)
        (fresh_final m virtual b low s absent tables small positive free e alone physical fits)
    where
      clash : false ≡ true → ⊥
      clash e = cc

      not_block_0 : (b : ℕ) → used m.bitmap b ≡ false → 0 < b
      not_block_0 b free = elim (ℕ_discrete b 0) [
        | yes zero_b ↦ absurd (clash (sym free ∙ ap (used m.bitmap) zero_b ∙ tables.block_0))
        | no ne ↦ omega (arith, ne)
      ]

FreshOutcome-frame :
    (m : Machine) (virtual physical : ℕ) (r : Option (Bool × Machine))
    → FreshOutcome m (frame virtual) (frame physical) r
    → FreshOutcome m virtual physical r
FreshOutcome-frame m virtual physical r (blocks_exhausted all e) = blocks_exhausted all e
FreshOutcome-frame m virtual physical r (table_taken b m' e maps) =
    table_taken b m' e (MapsFresh-frame m m' virtual physical b maps)

-- Where the directory maps itself by its last entry alone, the page's table is not there, and the
-- allocator's bitmap of 32-bit words has block 0 and the blocks of all present tables as used,
-- `map_page` of a page below the tables to a 32-bit physical address has one of two outcomes. Either all
-- 2 ^ 20 blocks are in use, and it returns false and changes nothing; or it returns true, takes a free
-- block for the table, maps the page to the frame and changes no page of another table below the tables.
-- The other pages of the new table are then mapped by whatever the block held.
pub map_page-FreshOutcome :
    (m : Machine) (virtual physical : ℕ)
    → virtual < page_table
    → physical < 2 ^ 32
    → IsSelfMapped m
    → HasTable m 1023
    → TablesUsed m
    → m.memory (directory_cell m.pdbr virtual) % 2 ≡ 0
    → FreshOutcome m virtual physical (map_page virtual physical m)
unfolding map_page
map_page-FreshOutcome m virtual physical low fits s alone tables absent =
    let index : directory_cell m.pdbr virtual ≡ directory_cell m.pdbr (frame virtual) =
      omega arith in
    FreshOutcome-frame m virtual physical _ (
      rw (round_down-eq-frame virtual, round_down-eq-frame physical)
        (map_aligned-FreshOutcome m (frame virtual) (omega arith) s
          (sym (ap (λ c. m.memory c % 2) index) ∙ absent) (frame physical) (omega arith) tables
          alone (allocate_block-FirstFree m.bitmap tables.words)))
