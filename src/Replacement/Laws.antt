-- ===== src/Replacement/Laws.antt =====
-- What FIFO, LRU and CLOCK of kernal/include/PageReplacementAlgorithms.h do with a request.
use mathlib.Core.Path.{subst}
use she_x_mini_operating_sys.Base.{
  ℕ, suc, ◌+◌, ◌<◌, ◌≤◌, ◌≡◌, refl, sym, ap, ◌∙◌, true, false, Bool-cases, inl, inr, none, some,
  List, [], ◌∷◌, ◌++◌, ltb, leb, length, get_or, length-append, arith,
}
use she_x_mini_operating_sys.Base.Splits.{Split-get_or, append_assoc}
use she_x_mini_operating_sys.Replacement.{
  Page, Pages, Outcome, undefined, Policy, fifo_policy, lru_policy, clock_policy, blank, is_same,
  find_page, is_full, load_page, evict_first, fifo_bring, lru_loop, lru_bring, clock_bring, request,
  fifo, lru, clock, replace, number_of_memory_frames, set_last_time_used, set_reference,
}
use she_x_mini_operating_sys.Replacement.Search.{NotAmong, found, missing, find_page-Search}
use she_x_mini_operating_sys.Replacement.{is_empty}
use she_x_mini_operating_sys.Replacement.Service.{
  Cleared, Serves, mark, idle, not_on_disk, loaded, swapped,
}
use she_x_mini_operating_sys.Replacement.Moves.{load_page-split, swap_page-split}
use she_x_mini_operating_sys.Replacement.Lru.{lru_loop_lem}
use she_x_mini_operating_sys.Replacement.Clock.{references-le, turn_clock_lem}

-- The part of a policy serves the request of a page that stands on the disk.
abbrev Brings : Policy → (ℕ → Pages → Outcome) → Page → ℕ → Pages → Type 0
Brings policy bring page elapsed_time s =
    (before : List Page) (q : Page) (after : List Page)
    → s.disk ≡ before ++ q ∷ after
    → is_same page q ≡ true
    → NotAmong page before
    → Serves policy page elapsed_time s (bring (length before) s)

is_empty_nil : (ps : List Page) → is_empty ps ≡ true → ps ≡ []
is_empty_nil [] e = refl
is_empty_nil (p ∷ ps) e = absurd (clash e)
  where
    clash : false ≡ true → ⊥
    clash e = cc

request-Serves :
    (policy : Policy) (bring : ℕ → Pages → Outcome) (page : Page) (elapsed_time : ℕ) (s : Pages)
    → Brings policy bring page elapsed_time s
    → Serves policy page elapsed_time s (request bring page s)
request-Serves policy bring page elapsed_time s brings = elim (Bool-cases (is_empty s.disk)) [
  | inl none_there ↦ rw none_there (idle (inl (is_empty_nil s.disk none_there)) refl)
  | inr some_there ↦ rw some_there (elim (Bool-cases (ltb 0 page.life_time)) [
    | inr dead ↦ rw dead (idle (inr (ground arith)) refl)
    | inl alive ↦ rw alive (elim (find_page-Search page s.disk) [
      | missing all beyond ↦
          let out : leb (length s.disk) (find_page page s.disk) ≡ true = ground arith in
          rw out (not_on_disk all refl)
      | found before q after whole same none_before index ↦
          let size : length s.disk ≡ length before + suc (length after) =
            ap length whole ∙ length-append before (q ∷ after) in
          let inside : leb (length s.disk) (length before) ≡ false = ground arith in
          rw index (rw inside (brings before q after whole same none_before))
    ])
  ])
]

load-Serves :
    (policy : Policy) (page : Page) (elapsed_time : ℕ) (s : Pages)
    → length s.memory < number_of_memory_frames
    → Brings policy (load_page (mark policy elapsed_time)) page elapsed_time s
load-Serves policy page elapsed_time s room before q after whole same none_before =
    loaded before q after whole same none_before room
      (load_page-split (mark policy elapsed_time) (length before) s before q after whole refl)

fifo-Serves :
    (page : Page) (elapsed_time : ℕ) (s : Pages) → Brings fifo_policy fifo_bring page elapsed_time s
fifo-Serves page elapsed_time s before q after whole same none_before =
    elim (Bool-cases (is_full s)) [
      | inr room ↦ rw room (
          load-Serves fifo_policy page elapsed_time s (ground arith) before q after whole same
            none_before)
      | inl full ↦ rw full (first s.memory refl (ground arith))
    ]
  where
    first :
        (memory : List Page)
        → s.memory ≡ memory
        → number_of_memory_frames ≤ length s.memory
        → Serves fifo_policy page elapsed_time s (elim (evict_first s) [
          | none ↦ undefined
          | some s' ↦ load_page (λ q. q) (length before) s'
        ])
    first [] e full = absurd (omega (arith, ap length e))
    first (v ∷ rest) e full =
        let frames : number_of_memory_frames ≤ suc (length rest) =
          omega (arith, full, ap length e) in
        rw e (
          swapped before q after v (rest ++ q ∷ []) s.clock_p whole same none_before frames
            (rest, refl, refl, refl)
            (load_page-split (λ p. p) (length before)
              (record s { memory = rest; disk = s.disk ++ v ∷ [] }) before q (after ++ v ∷ [])
              (ap (λ d. d ++ v ∷ []) whole ∙ append_assoc before (q ∷ after) (v ∷ [])) refl))

lru-Serves :
    (page : Page) (elapsed_time : ℕ) (s : Pages)
    → Brings lru_policy (lru_bring elapsed_time) page elapsed_time s
lru-Serves page elapsed_time s before q after whole same none_before =
    elim (Bool-cases (is_full s)) [
      | inr room ↦ rw room (
          load-Serves lru_policy page elapsed_time s (ground arith) before q after whole same
            none_before)
      | inl full ↦
          let frames : number_of_memory_frames ≤ length s.memory = ground arith in
          let k = lru_loop s.memory (length s.memory) 0 in
          let (inside, below, least) =
            lru_loop_lem s.memory (length s.memory) 0 (omega arith) (omega arith) in
          let split = Split-get_or s.memory k blank inside in
          rw full (
            swapped before q after (get_or s.memory k blank) _ s.clock_p whole same none_before
              frames (split.front, split.back, split.whole, refl, least, refl)
              (swap_page-split (set_last_time_used elapsed_time) k (length before) s split.front _
                split.back before q after split.whole (sym split.index) whole refl))
    ]

clock-Serves :
    (page : Page) (elapsed_time : ℕ) (s : Pages)
    → Brings clock_policy clock_bring page elapsed_time s
clock-Serves page elapsed_time s before q after whole same none_before =
    elim (Bool-cases (is_full s)) [
      | inr room ↦ rw room (
          load-Serves clock_policy page elapsed_time s (ground arith) before q after whole same
            none_before)
      | inl full ↦
          let frames : number_of_memory_frames ≤ length s.memory = ground arith in
          let (cleared, hand, stops, reset, within, off) =
            turn_clock_lem (suc (length s.memory)) s.memory s.clock_p frames
              (omega (arith, references-le s.memory)) in
          let split = Split-get_or cleared hand blank within in
          rw full (
            rw stops (
              swapped before q after (get_or cleared hand blank) _ (suc hand) whole same none_before
                frames
                (
                  split.front,
                  split.back,
                  subst (Cleared s.memory) split.whole reset,
                  refl,
                  off,
                  ap suc (sym split.index),
                )
                (swap_page-split set_reference hand (length before)
                  (record s { memory = cleared; clock_p = suc hand }) split.front _ split.back
                  before q after split.whole (sym split.index) whole refl)))
    ]

-- Every request with FIFO, LRU or CLOCK ends in one of four ways. With an empty disk or a page without
-- life time, nothing changes and the call returns false. If no page on the disk has the value and the
-- process of the one that is asked for, the program exits. Otherwise the first such page leaves the disk
-- and the call returns true: while fewer than 30 pages are in memory, the page is put behind them; with
-- more, it takes the place of the page that the policy chooses, which goes to the end of the disk.
pub replace-Serves :
    (policy : Policy) (page : Page) (elapsed_time : ℕ) (s : Pages)
    → Serves policy page elapsed_time s (replace policy page elapsed_time s)
unfolding replace fifo lru clock
replace-Serves fifo_policy page elapsed_time s =
    request-Serves fifo_policy fifo_bring page elapsed_time s (fifo-Serves page elapsed_time s)
replace-Serves lru_policy page elapsed_time s =
    request-Serves lru_policy (lru_bring elapsed_time) page elapsed_time s
      (lru-Serves page elapsed_time s)
replace-Serves clock_policy page elapsed_time s =
    request-Serves clock_policy clock_bring page elapsed_time s (clock-Serves page elapsed_time s)
