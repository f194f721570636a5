-- ===== src/BoundedBuffer/Queue.antt =====
-- The ring of kernal/Thread/pro_con.c as a queue.
use native.Mathlib.Nat.{mod-eq_of_lt, mod_self}
use she_x_mini_operating_sys.Base.{
  ℕ, zero, suc, ◌+◌, ◌-◌, ◌%◌, ◌≤◌, ◌<◌, ◌≡◌, ◌≢◌, ap, List, [], ◌∷◌, ◌++◌, update, arith, inl, inr,
  ◌⊎◌, update_self, update_ne, Bool-cases, ltb,
}
use she_x_mini_operating_sys.BoundedBuffer.{Ring, put, take}

-- The items in the buffer, the oldest first: `count` cells from `out` on, around the end.
unfoldable pub items : ℕ → (ℕ → ℕ) → ℕ → ℕ → List ℕ
items size buffer zero i = []
items size buffer (suc left) i = buffer i ∷ items size buffer left ((i + 1) % size)

abbrev pub contents : ℕ → Ring → List ℕ
contents size r = items size r.buffer r.count r.out

-- `i` is `n` cells on from `start`, around the end at most once.
abbrev pub IsAhead : ℕ → ℕ → ℕ → ℕ → Type 0
IsAhead size start n i = (i < size) × ((i ≡ start + n) ⊎ (i + size ≡ start + n))

pub record IsRing (size : ℕ) (r : Ring) : Type 0 where
  pub bounded : r.count ≤ size
  pub out_inside : r.out < size
  pub input_ahead : IsAhead size r.out r.count r.input

next_cell :
    (size i : ℕ)
    → i < size
    → (((i + 1) % size ≡ i + 1) × (i + 1 < size)) ⊎ (((i + 1) % size ≡ 0) × (i + 1 ≡ size))
next_cell size i h = elim (Bool-cases (ltb (i + 1) size)) [
  | inl less ↦ inl (mod-eq_of_lt (ground arith), ground arith)
  | inr more ↦ let end : i + 1 ≡ size = ground arith in inr (rw end (mod_self size), end)
]

-- A cell that is ahead of the next one is one more ahead of this one.
one_cell_on :
    (size start n p : ℕ)
    → start < size
    → suc n < size
    → IsAhead size start (suc n) p
    → ((start + 1) % size < size) × IsAhead size ((start + 1) % size) n p × (p ≢ start)
one_cell_on size start n p hs hn (hp, ahead) = elim (next_cell size start hs) [
  | inl (e, less) ↦ rw e (less, (hp, ground arith), ground arith)
  | inr (e, end) ↦ rw e (omega arith, (hp, ground arith), ground arith)
]

items_snoc :
    (size : ℕ) (buffer : ℕ → ℕ) (item left i p : ℕ)
    → i < size
    → left < size
    → IsAhead size i left p
    → items size (update buffer p item) (suc left) i ≡ items size buffer left i ++ item ∷ []
unfolding items
items_snoc size buffer item zero i p hi hl (hp, ahead) =
    let here : p ≡ i = ground arith in ap (λ x. x ∷ []) (rw here (update_self buffer i item))
items_snoc size buffer item (suc left) i p hi hl ahead =
    let (inside, ahead', other) = one_cell_on size i left p hi hl ahead in
    let head : update buffer p item i ≡ buffer i = update_ne buffer p i item other in
    rw head (
      ap (λ xs. buffer i ∷ xs)
        (items_snoc size buffer item left ((i + 1) % size) p inside (omega arith) ahead'))

-- Putting an item in adds it behind the others.
pub contents-put :
    (size item : ℕ) (r : Ring)
    → IsRing size r
    → r.count < size
    → contents size (put size item r) ≡ contents size r ++ item ∷ []
unfolding put
contents-put size item r ok h =
    let e : r.count + 1 ≡ suc r.count = omega arith in
    rw e (items_snoc size r.buffer item r.count r.out r.input ok.out_inside h ok.input_ahead)

-- Taking an item out takes the first.
pub contents-take :
    (size : ℕ) (r : Ring)
    → 0 < r.count
    → contents size r ≡ r.buffer r.out ∷ contents size (take size r)
unfolding take items
contents-take size r h =
    let e : r.count ≡ suc (r.count - 1) = omega arith in ap (λ n. items size r.buffer n r.out) e

pub put-IsRing :
    (size item : ℕ) (r : Ring) → IsRing size r → r.count < size → IsRing size (put size item r)
unfolding put
put-IsRing size item r ok h = record {
  bounded = omega arith;
  out_inside = ok.out_inside;
  input_ahead = elim (next_cell size r.input ok.input_ahead.0) [
    | inl (e, less) ↦ rw e (less, ground (arith, ok.input_ahead.1, ok.out_inside))
    | inr (e, end) ↦ rw e (omega arith, ground (arith, ok.input_ahead.1, ok.out_inside))
  ];
}

pub take-IsRing : (size : ℕ) (r : Ring) → IsRing size r → 0 < r.count → IsRing size (take size r)
unfolding take
take-IsRing size r ok h = elim (next_cell size r.out ok.out_inside) [
  | inl (e, less) ↦ record {
    bounded = omega (arith, ok.bounded);
    out_inside = rw e less;
    input_ahead = rw e (ok.input_ahead.0, ground (arith, ok.input_ahead));
  }
  | inr (e, end) ↦ record {
    bounded = omega (arith, ok.bounded);
    out_inside = rw e (omega arith);
    input_ahead = rw e (ok.input_ahead.0, ground (arith, ok.input_ahead));
  }
]
