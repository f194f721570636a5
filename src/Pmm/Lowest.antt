-- ===== src/Pmm/Lowest.antt =====
-- `get_lowest_bit`, and the word that a round of the allocation looks at.
use native.Mathlib.Decide.{dec_lt}
use she_x_mini_operating_sys.Base.{
  ℕ, zero, suc, ◌+◌, ◌*◌, ◌/◌, ◌%◌, ◌^◌, ◌≤◌, ◌<◌, ◌≡◌, ◌≢◌, refl, sym, true, false, inl, inr,
  arith, ◌==◌, Bool-cases, ◌∙◌,
}
use she_x_mini_operating_sys.Base.Bits.{bit, bit-ones, eq_of_bits}
use she_x_mini_operating_sys.Pmm.{Bitmap, lowest_from, get_lowest_bit}
use she_x_mini_operating_sys.Pmm.Bitmap.{used}

-- `r` is the place of the lowest clear digit of `w` among the first `n`, counted from `i`, or 0xff.
data Lowest (n i w r : ℕ) : Type 0 where
  clear :
      (d : ℕ)
      → d < n
      → r ≡ i + d
      → bit w d ≡ false
      → ((j : ℕ) → j < d → bit w j ≡ true)
      → Lowest n i w r
  full : r ≡ 0xff → ((j : ℕ) → j < n → bit w j ≡ true) → Lowest n i w r

-- Passing a set digit.
Lowest-suc : (n i w r : ℕ) → w % 2 ≢ 0 → Lowest n (i + 1) (w / 2) r → Lowest (suc n) i w r
Lowest-suc n i w r odd (clear d h e c below) = clear (suc d) (omega arith) (omega arith) c digits
  where
    digits : (j : ℕ) → j < suc d → bit w j ≡ true
    digits zero l = ground arith
    digits (suc j) l = below j (omega arith)
Lowest-suc n i w r odd (full e all) = full e digits
  where
    digits : (j : ℕ) → j < suc n → bit w j ≡ true
    digits zero l = ground arith
    digits (suc j) l = all j (omega arith)

lowest_from-Lowest : (n i w : ℕ) → Lowest n i w (lowest_from n i w)
unfolding lowest_from
lowest_from-Lowest zero i w = full refl (λ j h. absurd (omega arith))
lowest_from-Lowest (suc n) i w = elim (Bool-cases (w % 2 == 0)) [
  | inl even ↦
      rw even (clear 0 (omega arith) (omega arith) (ground arith) (λ j h. absurd (omega arith)))
  | inr odd ↦ rw odd (Lowest-suc n i w _ (ground arith) (lowest_from-Lowest n (i + 1) (w / 2)))
]

get_lowest_bit-Lowest : (w : ℕ) → Lowest 32 0 w (get_lowest_bit w)
unfolding get_lowest_bit
get_lowest_bit-Lowest w = lowest_from-Lowest 32 0 w

-- The word of a round: all ones, or with a lowest clear digit.
pub data Word (w : ℕ) : Type 0 where
  ones : w ≡ 0xffff_ffff → ((j : ℕ) → j < 32 → bit w j ≡ true) → Word w
  gap :
      (d : ℕ)
      → w < 0xffff_ffff
      → d < 32
      → get_lowest_bit w ≡ d
      → bit w d ≡ false
      → ((j : ℕ) → j < d → bit w j ≡ true)
      → Word w

ones-bit : (j : ℕ) → j < 32 → bit 0xffff_ffff j ≡ true
ones-bit j h = bit-ones 32 j h

pub round_of : (w : ℕ) → w < 2 ^ 32 → Word w
round_of w h = go (get_lowest_bit-Lowest w)
  where
    go : Lowest 32 0 w (get_lowest_bit w) → Word w
    go (full e all) =
        ones (eq_of_bits 32 w 0xffff_ffff h (omega arith) (λ j l. all j l ∙ sym (ones-bit j l))) all
    go (clear d l e c below) = gap d below_ones l (omega arith) c below
      where
        below_ones : w < 0xffff_ffff
        below_ones = elim (dec_lt w 0xffff_ffff) [
          | yes p ↦ p
          | no p ↦ let same : w ≡ 0xffff_ffff = omega arith in cc (c, rw (← same) at (ones-bit d l))
        ]

-- A block of word `i` is a digit of it.
pub used-word : (m : Bitmap) (i j : ℕ) → j < 32 → used m (32 * i + j) ≡ bit (m i) j
used-word m i j h =
    let word : (32 * i + j) / 32 ≡ i = omega arith in
    let digit : (32 * i + j) % 32 ≡ j = omega arith in rw (word, digit)

-- The blocks of a full word are in use.
pub word_used :
    (m : Bitmap) (i c : ℕ)
    → ((j : ℕ) → j < 32 → bit (m i) j ≡ true)
    → 32 * i ≤ c
    → c < 32 * i + 32
    → used m c ≡ true
word_used m i c all lo hi = let e : c / 32 ≡ i = omega arith in rw e (all (c % 32) (omega arith))
