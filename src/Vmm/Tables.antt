-- ===== src/Vmm/Tables.antt =====
-- What `map_page` of kernal/mem/virtmem.c does to the translation where it takes a block for a table.
use mathlib.Core.Path.{subst}
use she_x_mini_operating_sys.Base.{
  ℕ, ◌+◌, ◌*◌, ◌/◌, ◌%◌, ◌^◌, ◌<◌, ◌≡◌, ◌≢◌, refl, sym, ap, ◌∙◌, false, some, update_ne,
  update_self, arith,
}
use she_x_mini_operating_sys.Pmm.{allocate_block, toggle_block}
use she_x_mini_operating_sys.Pmm.Bitmap.{used}
use she_x_mini_operating_sys.Vmm.Memory.{Machine, walk, walk_table, frame}
use she_x_mini_operating_sys.Vmm.Paging.{page_table}
use she_x_mini_operating_sys.Vmm.Walks.{IsSelfMapped, directory_cell, walk_same, walk_through}
use she_x_mini_operating_sys.Vmm.Map.{HasTable, Maps, filled-Maps, apart}
use she_x_mini_operating_sys.Vmm.Fresh.{
  TablesUsed, tabled, entry, final, entry_value, entry_kept, tabled-IsSelfMapped, tabled-HasTable,
  table-ne-block,
}

-- The page of `virtual` is mapped to the frame of `physical` through a new table in block `b`. No page
-- of another table has changed; the other pages of the new table are mapped by what the block held
-- before, since the source does not clear it.
pub record MapsFresh (m m' : Machine) (virtual physical b : ℕ) : Type 0 where
  pub there :
      (o : ℕ) → o < 4096 → walk m'.memory m'.pdbr (frame virtual + o) ≡ some (frame physical + o)
  pub others :
      (v : ℕ)
      → v < page_table
      → v / 2 ^ 22 ≢ virtual / 2 ^ 22
      → walk m'.memory m'.pdbr v ≡ walk m.memory m.pdbr v
  pub stale :
      (v : ℕ)
      → v / 2 ^ 22 ≡ virtual / 2 ^ 22
      → frame v ≢ frame virtual
      → walk m'.memory m'.pdbr v ≡ walk_table m.memory (4096 * b) v
  pub self_mapped : IsSelfMapped m'
  pub block_free : used m.bitmap b ≡ false
  pub block_taken : m'.bitmap ≡ toggle_block m.bitmap b

module _ (m : Machine) (virtual b : ℕ) (low : virtual < page_table) (s : IsSelfMapped m)
    (absent : m.memory (directory_cell m.pdbr virtual) % 2 ≡ 0) (tables : TablesUsed m)
    (small : b < 2 ^ 20) (positive : 0 < b) (free : used m.bitmap b ≡ false)
    (allocated : allocate_block m.bitmap ≡ (toggle_block m.bitmap b, 4096 * b))
    (alone : HasTable m 1023) where
  abbrev with_table : Machine
  with_table = tabled m virtual b low s absent tables small positive free allocated

  kept_at :
      (j : ℕ)
      → j ≢ virtual / 2 ^ 22
      → with_table.memory (m.pdbr / 4 + j) ≡ m.memory (m.pdbr / 4 + j)
  kept_at = entry_kept m virtual b low s absent tables small positive free allocated

  other_tables :
      (v : ℕ)
      → v < page_table
      → v / 2 ^ 22 ≢ virtual / 2 ^ 22
      → walk with_table.memory m.pdbr v ≡ walk m.memory m.pdbr v
  other_tables v h ne =
      walk_same with_table.memory m.memory m.pdbr v (kept_at (v / 2 ^ 22) ne) (λ present.
        let differ : frame (m.memory (directory_cell m.pdbr v)) ≢ m.pdbr = (λ e.
          alone.alone (v / 2 ^ 22) (omega arith) (omega arith) present (e ∙ sym s.self_frame)) in
        update_ne m.memory (directory_cell m.pdbr virtual) _ _ (λ e.
          apart (frame (m.memory (directory_cell m.pdbr v))) m.pdbr (v / 4096 % 1024)
            (virtual / 2 ^ 22) (omega arith) s.aligned differ (omega arith) (omega arith) (sym e)))

  new_table :
      (v : ℕ)
      → v / 2 ^ 22 ≡ virtual / 2 ^ 22
      → walk with_table.memory m.pdbr v ≡ walk_table m.memory (4096 * b) v
  new_table v same =
      let e = entry_value m virtual b low s absent tables small positive free allocated in
      let first : directory_cell m.pdbr v ≡ directory_cell m.pdbr virtual =
        ap (λ i. m.pdbr / 4 + i) same in
      let apart_from_directory : 4096 * b ≢ m.pdbr = (λ q.
        table-ne-block m virtual b low s absent tables small positive free allocated 1023
          (omega arith) s.self_present (s.self_frame ∙ sym q)) in
      walk_through with_table.memory m.memory m.pdbr v
        (entry m virtual b low s absent tables small positive free allocated) (4096 * b)
        (ap with_table.memory first ∙ update_self m.memory (directory_cell m.pdbr virtual) _) e.1
        (e.0 ∙ omega arith)
        (update_ne m.memory (directory_cell m.pdbr virtual) _ _ (λ q.
          apart (frame (4096 * b)) m.pdbr (v / 4096 % 1024) (virtual / 2 ^ 22) (omega arith)
            s.aligned (λ r. apart_from_directory (omega arith)) (omega arith) (omega arith)
            (sym q)))

  pub fresh_final :
      (physical : ℕ)
      → physical < 2 ^ 32
      → MapsFresh m
          (final m virtual b low s absent tables small positive free allocated physical)
          virtual
          physical
          b
  fresh_final physical fits =
      let after = final m virtual b low s absent tables small positive free allocated physical in
      let maps : Maps with_table after virtual physical =
        filled-Maps with_table virtual low
          (tabled-IsSelfMapped m virtual b low s absent tables small positive free allocated)
          (tabled-HasTable m virtual b low s absent tables small positive free allocated) physical
          fits in
      record {
        there = maps.there;
        others =
            λ v h ne. maps.others v (omega arith) (λ e. ne (omega arith)) ∙ other_tables v h ne;
        stale = λ v same ne. maps.others v (omega arith) ne ∙ new_table v same;
        self_mapped = maps.self_mapped;
        block_free = free;
        block_taken = refl;
      }

pub MapsFresh-frame :
    (m m' : Machine) (virtual physical b : ℕ)
    → MapsFresh m m' (frame virtual) (frame physical) b
    → MapsFresh m m' virtual physical b
MapsFresh-frame m m' virtual physical b maps =
    let page : frame (frame virtual) ≡ frame virtual = omega arith in
    let block : frame (frame physical) ≡ frame physical = omega arith in
    record {
      there = λ o h.
          subst (λ a. walk m'.memory m'.pdbr (a + o) ≡ some (frame physical + o)) page
            (maps.there o h ∙ ap (λ a. some (a + o)) block);
      others = λ v h ne. maps.others v h (λ e. ne (omega arith));
      stale = λ v same ne. maps.stale v (omega arith) (λ e. ne (e ∙ page));
      self_mapped = maps.self_mapped;
      block_free = maps.block_free;
      block_taken = maps.block_taken;
    }
