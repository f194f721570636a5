-- ===== src/Replacement/Copies.antt =====
-- No request of kernal/include/PageReplacementAlgorithms.h loses or doubles a page.
use mathlib.Core.Path.{subst}
use she_x_mini_operating_sys.Base.{
  ℕ, suc, ◌+◌, ◌<◌, ◌≤◌, ◌≡◌, ◌⊎◌, refl, sym, ap, true, false, inl, inr, List, [], ◌∷◌, ◌++◌,
  if◌then◌else◌, length, length-append, arith,
}
use she_x_mini_operating_sys.Replacement.{
  Page, Pages, Outcome, exited, undefined, returned, Policy, fifo_policy, lru_policy, clock_policy,
  is_same, replace, number_of_memory_frames, reset_reference,
}
use she_x_mini_operating_sys.Replacement.Service.{
  Cleared, Swapped, mark, idle, not_on_disk, loaded, swapped,
}
use she_x_mini_operating_sys.Replacement.Laws.{replace-Serves}

abbrev pub weight : Page → Page → ℕ
weight page p = if is_same page p then 1 else 0

-- How often the page with the value and the process of `page` stands in a list.
pub copies : Page → List Page → ℕ
copies page [] = 0
copies page (p ∷ ps) = weight page p + copies page ps

-- Both vectors together hold each page as often as before, and the memory has not outgrown its frames.
pub record Conserves (s s' : Pages) : Type 0 where
  pub same_pages :
      (page : Page)
      → copies page s'.memory + copies page s'.disk ≡ copies page s.memory + copies page s.disk
  pub bounded :
      length s.memory ≤ number_of_memory_frames → length s'.memory ≤ number_of_memory_frames

-- What holds of the outcome of a request of `page`.
abbrev pub Keeps : Page → Pages → Outcome → Type 0
Keeps page s exited = Unit {0}
Keeps page s undefined = ⊥
Keeps page s (returned done s') = Conserves s s' × (done ≡ true → 0 < copies page s'.memory)

module _ (page : Page) where
  pub copies-append : (ps qs : List Page) → copies page (ps ++ qs) ≡ copies page ps + copies page qs
  unfolding copies
  copies-append [] qs = omega arith
  copies-append (p ∷ ps) qs = omega (arith, copies-append ps qs)

  pub copies-one : (p : Page) → copies page (p ∷ []) ≡ weight page p
  unfolding copies
  copies-one p = omega arith

  pub copies-split :
      (ps : List Page) (p : Page) (qs : List Page)
      → copies page (ps ++ p ∷ qs) ≡ copies page ps + weight page p + copies page qs
  unfolding copies
  copies-split ps p qs = omega (arith, copies-append ps (p ∷ qs))

  weight-cleared :
      (p q : Page)
      → (q ≡ p) ⊎ ((p.referenced ≡ true) × (q ≡ reset_reference p))
      → weight page q ≡ weight page p
  weight-cleared p q (inl e) = ap (weight page) e
  weight-cleared p q (inr (on, e)) = ap (weight page) e

  copies-Cleared :
      (ps qs : List Page)
      → Cleared ps qs
      → (copies page qs ≡ copies page ps) × (length qs ≡ length ps)
  unfolding copies
  copies-Cleared [] [] c = (refl, refl)
  copies-Cleared [] (q ∷ qs) c = elim c [ ]
  copies-Cleared (p ∷ ps) [] c = elim c [ ]
  copies-Cleared (p ∷ ps) (q ∷ qs) (c, cs) =
      let (e, l) = copies-Cleared ps qs cs in (omega (arith, e, weight-cleared p q c), ap suc l)

  weight-mark :
      (policy : Policy) (elapsed_time : ℕ) (q : Page)
      → weight page (mark policy elapsed_time q) ≡ weight page q
  weight-mark fifo_policy elapsed_time q = refl
  weight-mark lru_policy elapsed_time q = refl
  weight-mark clock_policy elapsed_time q = refl

  -- The page that comes and the page that goes change places.
  copies-Swapped :
      (policy : Policy) (s : Pages) (q v : Page) (memory : List Page) (hand : ℕ)
      → Swapped policy s q v memory hand
      → (copies page memory + weight page v ≡ copies page s.memory + weight page q)
        × (length memory ≡ length s.memory)
        × (weight page q ≤ copies page memory)
  unfolding copies
  copies-Swapped fifo_policy s q v memory hand (rest, before, after, e) =
      rw (before, after)
        (
          omega (arith, copies-append rest (q ∷ [])),
          omega (arith, length-append rest (q ∷ [])),
          omega (arith, copies-append rest (q ∷ [])),
        )
  copies-Swapped lru_policy s q v memory hand (front, back, before, after, least, e) =
      rw (before, after)
        (
          omega (arith, copies-split front q back, copies-split front v back),
          omega (arith, length-append front (q ∷ back), length-append front (v ∷ back)),
          omega (arith, copies-split front q back),
        )
  copies-Swapped clock_policy s q v memory hand (front, back, cleared, after, off, e) =
      let (same, size) = copies-Cleared s.memory (front ++ v ∷ back) cleared in
      rw after (
        omega (arith, same, copies-split front q back, copies-split front v back),
        omega (arith, size, length-append front (q ∷ back), length-append front (v ∷ back)),
        omega (arith, copies-split front q back),
      )

weight-same : (page q : Page) → is_same page q ≡ true → weight page q ≡ 1
weight-same page q on = rw on refl

-- Every request with FIFO, LRU or CLOCK ends, in the exit or with both vectors together holding each page
-- as often as before, without a read outside of a vector. A memory of at most 30 pages stays so, and
-- where the call returns true, the page is in memory.
pub replace-Keeps :
    (policy : Policy) (page : Page) (elapsed_time : ℕ) (s : Pages)
    → Keeps page s (replace policy page elapsed_time s)
replace-Keeps policy page elapsed_time s = elim (replace-Serves policy page elapsed_time s) [
  | idle why e ↦
      subst (Keeps page s) (sym e)
        (record { same_pages = λ key. refl; bounded = λ h. h }, λ on. absurd (clash on))
  | not_on_disk all e ↦ subst (Keeps page s) (sym e) tt
  | loaded before q after whole same none_before room e ↦
      let new = mark policy elapsed_time q in
      subst (Keeps page s) (sym e) (
        record {
          same_pages = λ key. omega (
            arith,
            copies-append key s.memory (new ∷ []),
            copies-one key new,
            weight-mark key policy elapsed_time q,
            copies-append key before after,
            copies-split key before q after,
            ap (copies key) whole,
          );
          bounded = λ h. omega (arith, length-append s.memory (new ∷ []));
        },
        λ on. omega (
          arith,
          copies-append page s.memory (new ∷ []),
          copies-one page new,
          weight-mark page policy elapsed_time q,
          weight-same page q same,
        ),
      )
  | swapped before q after v memory hand whole same none_before full swap e ↦
      let new = mark policy elapsed_time q in
      subst (Keeps page s) (sym e) (
        record {
          same_pages = λ key.
              let (moved, size, there) = copies-Swapped key policy s new v memory hand swap in
              omega (
                arith,
                moved,
                weight-mark key policy elapsed_time q,
                copies-append key before (after ++ v ∷ []),
                copies-append key after (v ∷ []),
                copies-one key v,
                copies-split key before q after,
                ap (copies key) whole,
              );
          bounded = λ h.
              let (moved, size, there) = copies-Swapped page policy s new v memory hand swap in
              omega (arith, size);
        },
        λ on.
            let (moved, size, there) = copies-Swapped page policy s new v memory hand swap in
            omega (arith, there, weight-mark page policy elapsed_time q, weight-same page q same),
      )
]
  where
    clash : false ≡ true → ⊥
    clash e = cc
