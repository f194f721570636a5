-- ===== src/Replacement/Moves.antt =====
-- The moves of pages between the two vectors of kernal/include/PageReplacementAlgorithms.h.
use she_x_mini_operating_sys.Base.{ℕ, ◌≡◌, refl, ap, ◌∙◌, true, List, [], ◌∷◌, ◌++◌, length}
use she_x_mini_operating_sys.Base.Splits.{get_elem?-split, set-split, erase-split, append_assoc}
use she_x_mini_operating_sys.Replacement.{Page, Pages, returned, load_page, swap_page}

pub load_page-split :
    (f : Page → Page) (i : ℕ) (s : Pages) (before : List Page) (q : Page) (after : List Page)
    → s.disk ≡ before ++ q ∷ after
    → i ≡ length before
    → load_page f i s
      ≡ returned true (record s { memory = s.memory ++ f q ∷ []; disk = before ++ after })
load_page-split f i s before q after whole e =
    rw (whole, e) (rw (load_page, get_elem?-split before after q, erase-split before after q) refl)

pub swap_page-split :
    (f : Page → Page) (k i : ℕ) (s : Pages) (front : List Page) (v : Page) (back before : List Page)
    (q : Page) (after : List Page)
    → s.memory ≡ front ++ v ∷ back
    → k ≡ length front
    → s.disk ≡ before ++ q ∷ after
    → i ≡ length before
    → swap_page f k i s
      ≡ returned true
          (record s { memory = front ++ f q ∷ back; disk = before ++ (after ++ v ∷ []) })
swap_page-split f k i s front v back before q after here ek whole ei =
    let more : s.disk ++ v ∷ [] ≡ before ++ q ∷ (after ++ v ∷ []) =
      ap (λ d. d ++ v ∷ []) whole ∙ append_assoc before (q ∷ after) (v ∷ []) in
    rw (here, ek)
      (rw (swap_page, get_elem?-split front back v)
        (rw (more, ei)
          (rw (get_elem?-split before (after ++ v ∷ []) q, set-split front back v (f q))
            (rw (more, ei) (rw (erase-split before (after ++ v ∷ []) q) refl)))))
