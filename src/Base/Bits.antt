-- ===== src/Base/Bits.antt =====
-- The binary digits of a number, and what the bitwise operations do to each.
use Prim.Native.Nat.{ℕ, zero, suc, ◌+◌, ◌-◌, ◌*◌, ◌/◌, ◌%◌, ◌^◌, ◌≤◌, ◌<◌}
use Prim.Native.Nat.{min, max, bit_and, bit_or, bit_xor, digits, bitwise, differ}
use Prim.Native.Nat.{bit_and-bitwise, bit_or-bitwise, bit_xor-bitwise}
use mathlib.Core.Path.{◌≡◌, refl, ap, ◌∙◌}
use mathlib.Core.Bool.{Bool, true, false, xor, ◌&&◌, ◌||◌}
use native.Mathlib.Nat.{pow-suc, one-le-pow, div-div-eq-div-mul}
use native.Mathlib.Omega.{arith}
use she_x_mini_operating_sys.Base.Tests.{◌==◌}

-- Digit `k` of `w`, the lowest first.
abbrev pub bit : ℕ → ℕ → Bool
bit w zero = w % 2 == 1
bit w (suc k) = bit (w / 2) k

-- The native operations stand for a recursion on digits with fuel; more fuel changes nothing.
module _ (rest : ℕ → ℕ) (op : ℕ → ℕ → ℕ) where
  one_more : (k a b : ℕ) → a ≤ k → digits rest op (suc k) a b ≡ digits rest op k a b
  one_more zero zero b p = refl
  one_more (suc k) zero b p = refl
  one_more zero (suc a) b p = absurd (omega arith)
  one_more (suc k) (suc a) b p = omega (arith, one_more k (suc a / 2) (b / 2) (omega arith))

  any_more :
      (extra k l a b : ℕ) → l ≡ extra + k → a ≤ k → digits rest op l a b ≡ digits rest op k a b
  any_more zero k l a b e p = ap (λ fuel. digits rest op fuel a b) (omega arith)
  any_more (suc extra) k l a b e p =
      let last : l ≡ suc (extra + k) = omega arith in
      ap (λ fuel. digits rest op fuel a b) last
      ∙ one_more (extra + k) a b (omega arith)
      ∙ any_more extra k (extra + k) a b refl p

  enough : (k a b : ℕ) → a ≤ k → digits rest op k a b ≡ bitwise rest op a b
  enough k a b p = any_more (k - a) a k a b (omega arith) (omega arith)

  bitwise_halves :
      ((b : ℕ) → rest b ≡ rest (b / 2) * 2 + op 0 (b % 2))
      → (a b : ℕ) → bitwise rest op a b ≡ bitwise rest op (a / 2) (b / 2) * 2 + op (a % 2) (b % 2)
  bitwise_halves base zero b = base b
  bitwise_halves base (suc a) b = omega (arith, enough a (suc a / 2) (b / 2) (omega arith))

-- The lowest digit and the rest of each operation.
pub bit_xor_halves : (a b : ℕ) → bit_xor a b ≡ bit_xor (a / 2) (b / 2) * 2 + differ (a % 2) (b % 2)
bit_xor_halves a b = simp bit_xor-bitwise (bitwise_halves (λ y. y) differ (λ y. ground arith) a b)

pub bit_and_halves : (a b : ℕ) → bit_and a b ≡ bit_and (a / 2) (b / 2) * 2 + min (a % 2) (b % 2)
bit_and_halves a b = simp bit_and-bitwise (bitwise_halves (λ y. 0) min (λ y. omega arith) a b)

pub bit_or_halves : (a b : ℕ) → bit_or a b ≡ bit_or (a / 2) (b / 2) * 2 + max (a % 2) (b % 2)
bit_or_halves a b = simp bit_or-bitwise (bitwise_halves (λ y. y) max (λ y. omega arith) a b)

differ_digits : (x y : ℕ) → x < 2 → y < 2 → differ x y ≡ (x + y) % 2
differ_digits zero zero p q = refl
differ_digits zero (suc zero) p q = refl
differ_digits zero (suc (suc y)) p q = absurd (omega arith)
differ_digits (suc zero) zero p q = refl
differ_digits (suc zero) (suc zero) p q = refl
differ_digits (suc zero) (suc (suc y)) p q = absurd (omega arith)
differ_digits (suc (suc x)) y p q = absurd (omega arith)

bit_xor_digits : (a b : ℕ) → bit_xor a b ≡ bit_xor (a / 2) (b / 2) * 2 + (a % 2 + b % 2) % 2
bit_xor_digits a b =
    omega (arith, bit_xor_halves a b, differ_digits (a % 2) (b % 2) (omega arith) (omega arith))

-- What each operation does to digit `k`.
pub bit-bit_xor : (a b k : ℕ) → bit (bit_xor a b) k ≡ xor (bit a k) (bit b k)
unfolding xor
bit-bit_xor a b zero = ground (arith, bit_xor_digits a b)
bit-bit_xor a b (suc k) =
    let half : bit_xor a b / 2 ≡ bit_xor (a / 2) (b / 2) = ground (arith, bit_xor_digits a b) in
    rw half (bit-bit_xor (a / 2) (b / 2) k)

pub bit-bit_and : (a b k : ℕ) → bit (bit_and a b) k ≡ (bit a k && bit b k)
bit-bit_and a b zero = ground (arith, bit_and_halves a b)
bit-bit_and a b (suc k) =
    let half : bit_and a b / 2 ≡ bit_and (a / 2) (b / 2) = omega (arith, bit_and_halves a b) in
    rw half (bit-bit_and (a / 2) (b / 2) k)

pub bit-bit_or : (a b k : ℕ) → bit (bit_or a b) k ≡ (bit a k || bit b k)
bit-bit_or a b zero = ground (arith, bit_or_halves a b)
bit-bit_or a b (suc k) =
    let half : bit_or a b / 2 ≡ bit_or (a / 2) (b / 2) = omega (arith, bit_or_halves a b) in
    rw half (bit-bit_or (a / 2) (b / 2) k)

-- The digits of some numbers.
pub bit-zero : (k : ℕ) → bit 0 k ≡ false
bit-zero zero = refl
bit-zero (suc k) = bit-zero k

pub bit-two-pow : (k j : ℕ) → bit (2 ^ k) j ≡ (k == j)
bit-two-pow zero zero = refl
bit-two-pow zero (suc j) = rw (bit-zero j) (ground arith)
bit-two-pow (suc k) zero = ground (arith, pow-suc 2 k)
bit-two-pow (suc k) (suc j) =
    let half : 2 ^ suc k / 2 ≡ 2 ^ k = omega (arith, pow-suc 2 k) in
    rw half (bit-two-pow k j ∙ ground arith)

pub bit-ones : (n k : ℕ) → k < n → bit (2 ^ n - 1) k ≡ true
bit-ones zero k h = absurd (omega arith)
bit-ones (suc n) zero h = ground (arith, pow-suc 2 n, one-le-pow n 2)
bit-ones (suc n) (suc k) h =
    let half : (2 ^ suc n - 1) / 2 ≡ 2 ^ n - 1 = omega (arith, pow-suc 2 n) in
    rw half (bit-ones n k (omega arith))

-- The digit as a shift and a remainder.
pub bit-eq-shift : (w k : ℕ) → bit w k ≡ (w / 2 ^ k % 2 == 1)
bit-eq-shift w zero = ground arith
bit-eq-shift w (suc k) =
    let e : w / 2 / 2 ^ k ≡ w / 2 ^ suc k =
      div-div-eq-div-mul w 2 (2 ^ k) ∙ rw (pow-suc 2 k) (ap (λ t. w / t) (omega arith)) in
    bit-eq-shift (w / 2) k ∙ rw e

-- Beyond the width there are no digits.
pub bit_beyond : (n w k : ℕ) → w < 2 ^ n → n ≤ k → bit w k ≡ false
bit_beyond zero w k h l = rw (let e : w ≡ 0 = omega arith in e) (bit-zero k)
bit_beyond (suc n) w zero h l = absurd (omega arith)
bit_beyond (suc n) w (suc k) h l = bit_beyond n (w / 2) k (omega (arith, pow-suc 2 n)) (omega arith)

-- Words of one width with the same digits are equal.
pub eq_of_bits : (n a b : ℕ) → a < 2 ^ n → b < 2 ^ n → ((k : ℕ) → k < n → bit a k ≡ bit b k) → a ≡ b
eq_of_bits zero a b p q h = omega arith
eq_of_bits (suc n) a b p q h = ground (
  arith,
  h 0 (omega arith),
  eq_of_bits n (a / 2) (b / 2) (omega (arith, pow-suc 2 n)) (omega (arith, pow-suc 2 n))
      (λ k l. h (suc k) (omega arith)),
)

pub bit_xor-lt : (n a b : ℕ) → a < 2 ^ n → b < 2 ^ n → bit_xor a b < 2 ^ n
bit_xor-lt zero a b p q =
    rw ((let e : a ≡ 0 = omega arith in e), (let e : b ≡ 0 = omega arith in e)) (omega arith)
bit_xor-lt (suc n) a b p q = ground (
  arith,
  bit_xor_digits a b,
  pow-suc 2 n,
  bit_xor-lt n (a / 2) (b / 2) (omega (arith, pow-suc 2 n)) (omega (arith, pow-suc 2 n)),
)

pub bit_or-lt : (n a b : ℕ) → a < 2 ^ n → b < 2 ^ n → bit_or a b < 2 ^ n
bit_or-lt zero a b p q =
    rw ((let e : a ≡ 0 = omega arith in e), (let e : b ≡ 0 = omega arith in e)) (omega arith)
bit_or-lt (suc n) a b p q = omega (
  arith,
  bit_or_halves a b,
  pow-suc 2 n,
  bit_or-lt n (a / 2) (b / 2) (omega (arith, pow-suc 2 n)) (omega (arith, pow-suc 2 n)),
)
