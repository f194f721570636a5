-- ===== src/Replacement/Service.antt =====
-- What a page replacement of kernal/include/PageReplacementAlgorithms.h is to do.
use she_x_mini_operating_sys.Base.{
  ℕ, suc, ◌<◌, ◌≤◌, ◌≡◌, ◌⊎◌, true, false, List, [], ◌∷◌, ◌++◌, length,
}
use she_x_mini_operating_sys.Replacement.{
  Page, Pages, Outcome, exited, returned, Policy, fifo_policy, lru_policy, clock_policy, is_same,
  last_used, number_of_memory_frames, set_last_time_used, set_reference, reset_reference,
}
use she_x_mini_operating_sys.Replacement.Search.{NotAmong}

-- What a policy sets on the page that it brings.
abbrev pub mark : Policy → ℕ → Page → Page
mark fifo_policy elapsed_time q = q
mark lru_policy elapsed_time q = set_last_time_used elapsed_time q
mark clock_policy elapsed_time q = set_reference q

-- The second list is the first with some of the reference bits reset.
abbrev pub Cleared : List Page → List Page → Type 0
Cleared [] [] = Unit {0}
Cleared [] (q ∷ qs) = ⊥
Cleared (p ∷ ps) [] = ⊥
Cleared (p ∷ ps) (q ∷ qs) =
    ((q ≡ p) ⊎ ((p.referenced ≡ true) × (q ≡ reset_reference p))) × Cleared ps qs

-- How a policy puts `q` in the place of a page `v` of the memory, and where the hand of the clock is
-- then. The first to come is the first to go; the least recently used goes; the page under the hand goes
-- whose reference bit is not set, or has been reset by the hand.
abbrev pub Swapped : Policy → Pages → Page → Page → List Page → ℕ → Type 0
Swapped fifo_policy s q v memory hand =
    (rest : List Page) × (s.memory ≡ v ∷ rest) × (memory ≡ rest ++ q ∷ []) × (hand ≡ s.clock_p)
Swapped lru_policy s q v memory hand =
    (front : List Page) × (back : List Page) × (s.memory ≡ front ++ v ∷ back)
    × (memory ≡ front ++ q ∷ back)
    × ((j : ℕ) → j < length s.memory → v.last_time_used ≤ last_used s.memory j)
    × (hand ≡ s.clock_p)
Swapped clock_policy s q v memory hand =
    (front : List Page) × (back : List Page) × Cleared s.memory (front ++ v ∷ back)
    × (memory ≡ front ++ q ∷ back)
    × (v.referenced ≡ false)
    × (hand ≡ suc (length front))

-- The outcomes of a request of a page: nothing to do, a page that is not on the disk, a page brought to
-- a free frame, a page brought in the place of another.
pub data Serves (policy : Policy) (page : Page) (elapsed_time : ℕ) (s : Pages) (r : Outcome)
    : Type 0 where
  idle :
      (s.disk ≡ []) ⊎ (page.life_time ≡ 0)
      → r ≡ returned false s
      → Serves policy page elapsed_time s r
  not_on_disk : NotAmong page s.disk → r ≡ exited → Serves policy page elapsed_time s r
  loaded :
      (before : List Page) (q : Page) (after : List Page)
      → s.disk ≡ before ++ q ∷ after
      → is_same page q ≡ true
      → NotAmong page before
      → length s.memory < number_of_memory_frames
      → r
        ≡ returned true (record s {
          memory = s.memory ++ mark policy elapsed_time q ∷ [];
          disk = before ++ after;
        })
      → Serves policy page elapsed_time s r
  swapped :
      (before : List Page) (q : Page) (after : List Page) (v : Page) (memory : List Page) (hand : ℕ)
      → s.disk ≡ before ++ q ∷ after
      → is_same page q ≡ true
      → NotAmong page before
      → number_of_memory_frames ≤ length s.memory
      → Swapped policy s (mark policy elapsed_time q) v memory hand
      → r
        ≡ returned true
            (record { memory = memory; disk = before ++ (after ++ v ∷ []); clock_p = hand })
      → Serves policy page elapsed_time s r
