-- ===== src/Vmm/Recursive.antt =====
-- The directory as `set_recursive_map` and `remove_identity_map` of kernal/mem/virtmem.c leave it.
use mathlib.Core.Path.{subst}
use she_x_mini_operating_sys.Base.{
  ℕ, ◌+◌, ◌/◌, ◌%◌, ◌^◌, ◌≤◌, ◌<◌, ◌≡◌, ◌≢◌, refl, sym, ap, ◌∙◌, Bool, true, false, none, some,
  if◌then◌else◌, update, update_ne, update_self, arith,
}
use she_x_mini_operating_sys.Vmm.{entry_is_present, entry_set_frame, pte_present, pte_writable}
use she_x_mini_operating_sys.Vmm.Entries.{present_value}
use she_x_mini_operating_sys.Vmm.Memory.{
  Machine, pure, walk, frame, load, store, bind-some, then-some,
}
use she_x_mini_operating_sys.Vmm.Paging.{
  set_frame, unless_present, unless_writable, directory_slot, page_table, page_directory_address,
  set_recursive_map, remove_identity_map,
}
use she_x_mini_operating_sys.Vmm.Slot.{
  at, at_self, LeadsTo, filled, made_present, made_writable, store-at, load_self, set_frame_self,
  unless_present-at, unless_writable-at,
}
use she_x_mini_operating_sys.Vmm.Walks.{IsSelfMapped, directory_cell, walk_same, walk_absent}
use she_x_mini_operating_sys.Vmm.Filled.{filled_value}
use she_x_mini_operating_sys.Vmm.Map.{HasTable, apart, directory-LeadsTo}

-- No entry of the directory but the last leads to the directory.
abbrev pub NoTableIsDirectory : Machine → Type 0
NoTableIsDirectory m =
    (j : ℕ)
    → j < 1023
    → m.memory (m.pdbr / 4 + j) % 2 ≡ 1
    → frame (m.memory (m.pdbr / 4 + j)) ≢ m.pdbr

-- A write to one entry of the directory changes the translation of no page of another table.
other_entry :
    (m : Machine) (i x : ℕ)
    → m.pdbr % 4096 ≡ 0
    → i < 1024
    → NoTableIsDirectory m
    → (v : ℕ) → v < page_table
    → v / 2 ^ 22 ≢ i
    → walk (update m.memory (m.pdbr / 4 + i) x) m.pdbr v ≡ walk m.memory m.pdbr v
other_entry m i x al hi alone v hv ne =
    walk_same _ m.memory m.pdbr v
      (update_ne m.memory (m.pdbr / 4 + i) _ x (λ e. ne (omega (arith, e))))
      (λ present. update_ne m.memory (m.pdbr / 4 + i) _ x (λ e.
        apart (frame (m.memory (directory_cell m.pdbr v))) m.pdbr (v / 4096 % 1024) i (omega arith)
          al (alone (v / 2 ^ 22) (omega arith) present) (omega arith) hi (sym e)))

-- The directory maps itself by its last entry alone.
pub record MapsItself (m : Machine) : Type 0 where
  pub self_mapped : IsSelfMapped m
  pub alone : HasTable m 1023

pub record RecursiveMap (m m' : Machine) : Type 0 where
  pub maps_itself : MapsItself m'
  pub writable : m'.memory (m'.pdbr / 4 + 1023) / 2 % 2 ≡ 1
  pub others : (v : ℕ) → v < page_table → walk m'.memory m'.pdbr v ≡ walk m.memory m.pdbr v
  pub same_bitmap : m'.bitmap ≡ m.bitmap

module _ (m : Machine) (al : m.pdbr % 4096 ≡ 0) (fits : m.pdbr < 2 ^ 32)
    (none_other : NoTableIsDirectory m) where
  abbrev cell : ℕ
  cell = m.pdbr / 4 + 1023

  abbrev word : ℕ
  word = filled (m.memory cell) m.pdbr

  abbrev after : Machine
  after = record (at m cell word) { page_directory = page_directory_address }

  kept_entry : (j : ℕ) → j < 1023 → after.memory (m.pdbr / 4 + j) ≡ m.memory (m.pdbr / 4 + j)
  kept_entry j h = update_ne m.memory cell (m.pdbr / 4 + j) word (omega arith)

  after-RecursiveMap : RecursiveMap m after
  after-RecursiveMap =
      let (on, writable, value) = filled_value (m.memory cell) m.pdbr fits in
      let own : after.memory cell ≡ word = update_self m.memory cell word in
      let self : frame word ≡ m.pdbr = omega (arith, value) in
      record {
        maps_itself = record {
          self_mapped = record {
            aligned = al;
            self_present = ap (λ w. w % 2) own ∙ on;
            self_frame = ap frame own ∙ self;
            pointer = refl;
          };
          alone = record {
            present = ap (λ w. w % 2) own ∙ on;
            alone = λ j h ne present e.
                let same = kept_entry j (omega arith) in
                none_other j (omega arith) (sym (ap (λ w. w % 2) same) ∙ present)
                  (sym (ap frame same) ∙ e ∙ ap frame own ∙ self);
          };
        };
        writable = ap (λ w. w / 2 % 2) own ∙ writable;
        others = λ v h. other_entry m 1023 word al (omega arith) none_other v h (omega arith);
        same_bitmap = refl;
      }

-- Where the directory stands at a 32-bit address that is aligned to 4 KiB, the pointer to its last entry
-- leads to that entry, and no other entry leads to the directory, `set_recursive_map` ends with a directory that maps itself by its last entry alone,
-- writable, and changes the translation of no page below the tables.
pub set_recursive_map-RecursiveMap :
    (m : Machine)
    → m.pdbr % 4096 ≡ 0
    → m.pdbr < 2 ^ 32
    → NoTableIsDirectory m
    → LeadsTo m (directory_slot m 1023) (m.pdbr / 4 + 1023)
    → (m' : Machine) × (set_recursive_map m ≡ some (tt, m')) × RecursiveMap m m'
unfolding set_recursive_map
set_recursive_map-RecursiveMap m al fits none_other leads =
    let slot = directory_slot m 1023 in
    let c = cell m al fits none_other in
    let framed = entry_set_frame (m.memory c) m.pdbr in
    let present = made_present pte_present framed in
    (
      after m al fits none_other,
      then-some (set_frame slot m.pdbr) _ m (at m c framed) tt
            (set_frame_self m slot c leads m.pdbr)
          ∙ then-some (unless_present slot pte_present) _ (at m c framed) (at m c present) tt
              (unless_present-at m slot c leads framed pte_present)
          ∙ then-some (unless_writable slot pte_writable) _ (at m c present)
              (at m c (made_writable present)) tt (unless_writable-at m slot c leads present),
      after-RecursiveMap m al fits none_other,
    )

-- The first 4 MiB are not mapped any more, and the other pages are as they were.
pub record IdentityRemoved (m m' : Machine) : Type 0 where
  pub faults : (v : ℕ) → v < 2 ^ 22 → walk m'.memory m'.pdbr v ≡ none
  pub others :
      (v : ℕ) → 2 ^ 22 ≤ v → v < page_table → walk m'.memory m'.pdbr v ≡ walk m.memory m.pdbr v
  pub self_mapped : IsSelfMapped m'

-- What the source leaves of the first entry.
abbrev dropped : ℕ → ℕ
dropped w = if entry_is_present w then 0 else w

dropped_absent : (w : ℕ) → dropped w % 2 ≡ 0
dropped_absent w = rw (present_value w) (ground arith)

module _ (m : Machine) (s : MapsItself m) where
  abbrev first : ℕ
  first = directory_cell m.pdbr 0

  first-LeadsTo : LeadsTo m (directory_slot m 0) first
  first-LeadsTo = directory-LeadsTo m 0 (omega arith) s.self_mapped

  abbrev without : Machine
  without = at m first (dropped (m.memory first))

  drop_at :
      (b : Bool)
      → (if b then store (directory_slot m 0) 0 else pure tt) (at m first (m.memory first))
        ≡ some (tt, at m first (if b then 0 else m.memory first))
  drop_at true = store-at m (directory_slot m 0) first first-LeadsTo (m.memory first) 0
  drop_at false = refl

  remove_identity_map-without : remove_identity_map m ≡ some (tt, without)
  unfolding remove_identity_map
  remove_identity_map-without =
      let slot = directory_slot m 0 in
      bind-some (load slot) _ m m (m.memory first) (load_self m slot first first-LeadsTo)
      ∙ subst
          (λ k.
            (if entry_is_present (m.memory first) then store slot 0 else pure tt) k
            ≡ some (tt, without))
          (at_self m first) (drop_at (entry_is_present (m.memory first)))

  none_other : NoTableIsDirectory m
  none_other j h present e =
      s.alone.alone j (omega arith) (omega arith) present (e ∙ sym s.self_mapped.self_frame)

  without-IdentityRemoved : IdentityRemoved m without
  without-IdentityRemoved =
      let al = s.self_mapped.aligned in
      let own : without.memory (m.pdbr / 4 + 1023) ≡ m.memory (m.pdbr / 4 + 1023) =
        update_ne m.memory first _ _ (omega arith) in
      record {
        faults = λ v h.
            let same : directory_cell m.pdbr v ≡ first = omega arith in
            walk_absent without.memory m.pdbr v (
              ap (λ w. w % 2) (ap without.memory same ∙ update_self m.memory first _)
              ∙ dropped_absent (m.memory first));
        others = λ v lo hi.
            other_entry m 0 (dropped (m.memory first)) al (omega arith) none_other v hi
              (omega arith);
        self_mapped = record {
          aligned = al;
          self_present = ap (λ w. w % 2) own ∙ s.self_mapped.self_present;
          self_frame = ap frame own ∙ s.self_mapped.self_frame;
          pointer = s.self_mapped.pointer;
        };
      }

-- Where the directory maps itself by its last entry alone, `remove_identity_map` ends in a translation
-- without the first 4 MiB, and changes that of no page from there to the tables.
pub remove_identity_map-IdentityRemoved :
    (m : Machine)
    → MapsItself m
    → (m' : Machine) × (remove_identity_map m ≡ some (tt, m')) × IdentityRemoved m m'
remove_identity_map-IdentityRemoved m s =
    (without m s, remove_identity_map-without m s, without-IdentityRemoved m s)
