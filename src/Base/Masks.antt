-- ===== src/Base/Masks.antt =====
-- Masks and fields: `&` with a run of ones and `|` of disjoint fields as arithmetic.
use Prim.Native.Nat.{bit_or-bitwise}
use native.Mathlib.Nat.{pow-suc, one-le-pow, mod-eq_of_lt}
use she_x_mini_operating_sys.Base.Defs.{
  ℕ, zero, suc, ◌+◌, ◌-◌, ◌*◌, ◌/◌, ◌%◌, ◌^◌, ◌≤◌, ◌<◌, ◌≡◌, refl, ap, arith, bit_and, bit_or,
}
use she_x_mini_operating_sys.Base.Bits.{bit_and_halves, bit_or_halves}

bit_and-zero_below : (n a : ℕ) → a ≤ n → bit_and a 0 ≡ 0
bit_and-zero_below n zero h = refl
bit_and-zero_below zero (suc a) h = absurd (omega arith)
bit_and-zero_below (suc n) (suc a) h =
    omega (arith, bit_and_halves (suc a) 0, bit_and-zero_below n (suc a / 2) (omega arith))

pub bit_and-zero : (a : ℕ) → bit_and a 0 ≡ 0
bit_and-zero a = bit_and-zero_below a a (omega arith)

bit_or-zero_below : (n a : ℕ) → a ≤ n → bit_or a 0 ≡ a
bit_or-zero_below n zero h = refl
bit_or-zero_below zero (suc a) h = absurd (omega arith)
bit_or-zero_below (suc n) (suc a) h =
    omega (arith, bit_or_halves (suc a) 0, bit_or-zero_below n (suc a / 2) (omega arith))

pub bit_or-zero : (a : ℕ) → bit_or a 0 ≡ a
bit_or-zero a = bit_or-zero_below a a (omega arith)

-- A field above `k` digits, halved.
field_half : (q k : ℕ) → q * 2 ^ suc k ≡ 2 * (q * 2 ^ k)
field_half q k = omega (arith, ap (λ (t : ℕ). q * t) (pow-suc 2 k))

low_of_field : (k q r : ℕ) → r < 2 ^ k → bit_and (q * 2 ^ k + r) (2 ^ k - 1) ≡ r
low_of_field zero q r h = rw (bit_and-zero (q * 1 + r)) (omega arith)
low_of_field (suc k) q r h = ground (
  arith,
  bit_and_halves (q * 2 ^ suc k + r) (2 ^ suc k - 1),
  field_half q k,
  pow-suc 2 k,
  one-le-pow k 2,
  low_of_field k q (r / 2) (omega (arith, pow-suc 2 k)),
)

zero-bit_or : (b : ℕ) → bit_or 0 b ≡ b
zero-bit_or b = bit_or-bitwise 0 b

-- `k` low ones keep the remainder.
pub bit_and_low : (k a : ℕ) → bit_and a (2 ^ k - 1) ≡ a % 2 ^ k
bit_and_low k a = ground (arith, one-le-pow k 2, low_of_field k (a / 2 ^ k) (a % 2 ^ k))

high_of_field :
    (k m q r : ℕ)
    → r < 2 ^ k
    → q < 2 ^ m
    → bit_and (q * 2 ^ k + r) ((2 ^ m - 1) * 2 ^ k) ≡ q * 2 ^ k
high_of_field zero m q r h l =
    let value : q * 1 + r ≡ q = omega arith in
    let mask : (2 ^ m - 1) * 1 ≡ 2 ^ m - 1 = omega arith in
    rw (value, mask) (omega (arith, bit_and_low m q, mod-eq_of_lt l))
high_of_field (suc k) m q r h l = ground (
  arith,
  bit_and_halves (q * 2 ^ suc k + r) ((2 ^ m - 1) * 2 ^ suc k),
  field_half q k,
  field_half (2 ^ m - 1) k,
  high_of_field k m q (r / 2) (omega (arith, pow-suc 2 k)) l,
)

-- Ones from digit `k` on, over `m` digits, drop the remainder by `2 ^ k`.
pub bit_and_high :
    (k m a : ℕ) → a / 2 ^ k < 2 ^ m → bit_and a ((2 ^ m - 1) * 2 ^ k) ≡ a / 2 ^ k * 2 ^ k
bit_and_high k m a h = ground (arith, one-le-pow k 2, high_of_field k m (a / 2 ^ k) (a % 2 ^ k))

-- `(q << k) | r` is a sum when `r` fits `k` digits.
pub bit_or_sum : (k q r : ℕ) → r < 2 ^ k → bit_or (q * 2 ^ k) r ≡ q * 2 ^ k + r
bit_or_sum zero q r h = ground (arith, bit_or-zero q)
bit_or_sum (suc k) q r h = ground (
  arith,
  bit_or_halves (q * 2 ^ suc k) r,
  field_half q k,
  bit_or_sum k q (r / 2) (omega (arith, pow-suc 2 k)),
)

-- The same with the low field first.
pub bit_or_sum_right : (k q r : ℕ) → r < 2 ^ k → bit_or r (q * 2 ^ k) ≡ q * 2 ^ k + r
bit_or_sum_right zero q r h =
    let e : r ≡ 0 = omega arith in rw e (omega (arith, zero-bit_or (q * 1)))
bit_or_sum_right (suc k) q r h = ground (
  arith,
  bit_or_halves r (q * 2 ^ suc k),
  field_half q k,
  bit_or_sum_right k q (r / 2) (omega (arith, pow-suc 2 k)),
)
