-- ===== src/Replacement/Search.antt =====
-- The search for a page on the disk, in kernal/include/PageReplacementAlgorithms.h.
use she_x_mini_operating_sys.Base.{
  ℕ, zero, suc, ◌<◌, ◌≤◌, ◌≡◌, refl, ap, true, false, Bool-cases, inl, inr, List, [], ◌∷◌, ◌++◌,
  length, get_or, arith,
}
use she_x_mini_operating_sys.Replacement.{Page, is_same, find_page}

-- No page of the list is the one that is asked for.
abbrev pub NotAmong : Page → List Page → Type 0
NotAmong page ps = (i : ℕ) → i < length ps → is_same page (get_or ps i page) ≡ false

pub data Search (page : Page) (disk : List Page) : Type 0 where
  found :
      (before : List Page) (q : Page) (after : List Page)
      → disk ≡ before ++ q ∷ after
      → is_same page q ≡ true
      → NotAmong page before
      → find_page page disk ≡ length before
      → Search page disk
  missing : NotAmong page disk → length disk ≤ find_page page disk → Search page disk

module _ (page : Page) where
  NotAmong-cons :
      (p : Page) (ps : List Page)
      → is_same page p ≡ false
      → NotAmong page ps
      → NotAmong page (p ∷ ps)
  NotAmong-cons p ps off rest zero h = off
  NotAmong-cons p ps off rest (suc i) h = rest i (omega arith)

  pub find_page-Search : (disk : List Page) → Search page disk
  unfolding find_page
  find_page-Search [] = missing (λ i h. absurd (omega arith)) (omega arith)
  find_page-Search (p ∷ ps) = elim (Bool-cases (is_same page p)) [
    | inl on ↦ found [] p ps refl on (λ i h. absurd (omega arith)) (rw on refl)
    | inr off ↦ elim (find_page-Search ps) [
      | found before q after whole same none_before index ↦
          found (p ∷ before) q after (ap (λ xs. p ∷ xs) whole) same
            (NotAmong-cons p before off none_before) (rw off (ap suc index))
      | missing all beyond ↦ missing (NotAmong-cons p ps off all) (rw off (omega (arith, beyond)))
    ]
  ]
