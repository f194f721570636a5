-- ===== src/Base/Splits.antt =====
-- A list around one of its elements.
use she_x_mini_operating_sys.Base.Lists.{length, get_elem?, get_or, set, erase}
use she_x_mini_operating_sys.Base.Defs.{
  ℕ, zero, suc, ◌<◌, ◌≡◌, refl, ap, some, List, [], ◌∷◌, ◌++◌, arith,
}

module _ {ℓ} {A : Type ℓ} where
  -- `x` stands in `xs` between `front` and `back`, at index `i`.
  pub record Split (xs : List A) (i : ℕ) (x : A) : Type ℓ where
    pub front : List A
    pub back : List A
    pub whole : xs ≡ front ++ x ∷ back
    pub index : length front ≡ i

  pub Split-get_or : (xs : List A) (i : ℕ) (d : A) → i < length xs → Split xs i (get_or xs i d)
  Split-get_or [] i d h = absurd (omega arith)
  Split-get_or (x ∷ xs) zero d h = record { front = []; back = xs; whole = refl; index = refl }
  Split-get_or (x ∷ xs) (suc i) d h =
      let s = Split-get_or xs i d (omega arith) in
      record {
        front = x ∷ s.front;
        back = s.back;
        whole = ap (λ ys. x ∷ ys) s.whole;
        index = ap suc s.index;
      }

  pub get_elem?-split : (xs ys : List A) (x : A) → get_elem? (xs ++ x ∷ ys) (length xs) ≡ some x
  get_elem?-split [] ys x = refl
  get_elem?-split (z ∷ xs) ys x = get_elem?-split xs ys x

  pub get_elem?-append :
      (xs ys : List A) (i : ℕ) → i < length xs → get_elem? (xs ++ ys) i ≡ get_elem? xs i
  get_elem?-append [] ys i h = absurd (omega arith)
  get_elem?-append (x ∷ xs) ys zero h = refl
  get_elem?-append (x ∷ xs) ys (suc i) h = get_elem?-append xs ys i (omega arith)

  pub get_elem?-get_or :
      (xs : List A) (i : ℕ) (d : A) → i < length xs → get_elem? xs i ≡ some (get_or xs i d)
  get_elem?-get_or [] i d h = absurd (omega arith)
  get_elem?-get_or (x ∷ xs) zero d h = refl
  get_elem?-get_or (x ∷ xs) (suc i) d h = get_elem?-get_or xs i d (omega arith)

  pub set-split : (xs ys : List A) (x y : A) → set (xs ++ x ∷ ys) (length xs) y ≡ xs ++ y ∷ ys
  set-split [] ys x y = refl
  set-split (z ∷ xs) ys x y = ap (λ zs. z ∷ zs) (set-split xs ys x y)

  pub erase-split : (xs ys : List A) (x : A) → erase (xs ++ x ∷ ys) (length xs) ≡ xs ++ ys
  erase-split [] ys x = refl
  erase-split (z ∷ xs) ys x = ap (λ zs. z ∷ zs) (erase-split xs ys x)

  pub append_assoc : (xs ys zs : List A) → xs ++ ys ++ zs ≡ xs ++ (ys ++ zs)
  append_assoc [] ys zs = refl
  append_assoc (x ∷ xs) ys zs = ap (λ ws. x ∷ ws) (append_assoc xs ys zs)
