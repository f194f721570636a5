-- ===== src/Pmm/Bitmap.antt =====
-- The bitmap as a set of blocks, and the toggle of one block.
use native.Mathlib.Nat.{pow-le-pow_right}
use she_x_mini_operating_sys.Base.{
  ℕ, ◌/◌, ◌%◌, ◌^◌, ◌<◌, ◌≡◌, fun_ext, Bool, not, xor, arith, ◌==◌, if◌then◌else◌, update, bit_xor,
  update_self, Bool-cases, inl, inr, ◌<<<◌,
}
use she_x_mini_operating_sys.Base.Bits.{bit, bit-bit_xor, bit-two-pow, eq_of_bits, bit_xor-lt}
use she_x_mini_operating_sys.Base.Masks.{bit_and_low}
use she_x_mini_operating_sys.Pmm.{Bitmap, toggle_block}

-- Block `b` is in use.
abbrev pub used : Bitmap → ℕ → Bool
used m b = bit (m (b / 32)) (b % 32)

-- Every cell holds a 32-bit word.
abbrev pub IsWords : Bitmap → Type 0
IsWords m = (i : ℕ) → m i < 2 ^ 32

-- The word that `toggle_block` stores: `w` with digit `k` inverted.
abbrev flip : ℕ → ℕ → ℕ
flip w k = bit_xor w (1 <<< k)

-- The offset that `toggle_block` shifts by is the digit of the block in its word.
toggle_block_lem :
    (m : Bitmap) (b : ℕ) → toggle_block m b ≡ update m (b / 32) (flip (m (b / 32)) (b % 32))
unfolding toggle_block
toggle_block_lem m b = rw (bit_and_low 5 b)

bit-flip : (w k j : ℕ) → bit (flip w k) j ≡ (if k == j then not (bit w j) else bit w j)
unfolding xor
bit-flip w k j =
    let e : 1 <<< k ≡ 2 ^ k = omega arith in
    rw e (rw (bit-bit_xor w (2 ^ k) j, bit-two-pow k j) (ground arith))

digit_fits : (k : ℕ) → k < 32 → 1 <<< k < 2 ^ 32
digit_fits k l =
    let e : 1 <<< k ≡ 2 ^ k = omega arith in
    rw e (omega (arith, pow-le-pow_right {n = 2} (omega arith) {i = k} {j = 31} (omega arith)))

flip_twice : (w k : ℕ) → w < 2 ^ 32 → k < 32 → flip (flip w k) k ≡ w
flip_twice w k h l = eq_of_bits 32 _ w (bit_xor-lt 32 _ _ (bit_xor-lt 32 _ _ h p) p) h digits
  where
    p : 1 <<< k < 2 ^ 32
    p = digit_fits k l

    digits : (j : ℕ) → j < 32 → bit (flip (flip w k) k) j ≡ bit w j
    digits j q = rw (bit-flip (flip w k) k j, bit-flip w k j) (ground arith)

-- Toggling a block inverts the digit of that block and of no other.
pub used-toggle_block :
    (m : Bitmap) (b c : ℕ)
    → used (toggle_block m b) c ≡ (if b == c then not (used m c) else used m c)
used-toggle_block m b c = rw (toggle_block_lem m b) (elim (Bool-cases (b / 32 == c / 32)) [
  | inl same ↦
      let e : c / 32 ≡ b / 32 = ground arith in
      rw e (
        rw
          (
            update_self m (b / 32) (flip (m (b / 32)) (b % 32)),
            bit-flip (m (b / 32)) (b % 32) (c % 32),
          )
          (ground arith))
  | inr other ↦ rw other (ground arith)
])

pub toggle_block-IsWords : (m : Bitmap) (b : ℕ) → IsWords m → IsWords (toggle_block m b)
toggle_block-IsWords m b h i = rw (toggle_block_lem m b) (
    ground (
      arith,
      h i,
      bit_xor-lt 32 (m (b / 32)) (1 <<< (b % 32)) (h (b / 32)) (digit_fits (b % 32) (omega arith)),
    ))

-- Toggling a block twice gives a bitmap of 32-bit words back.
pub toggle_block_twice : (m : Bitmap) (b : ℕ) → IsWords m → toggle_block (toggle_block m b) b ≡ m
toggle_block_twice m b h =
    rw (toggle_block_lem (toggle_block m b) b, toggle_block_lem m b)
      (fun_ext λ i. ground (arith, flip_twice (m (b / 32)) (b % 32) (h (b / 32)) (omega arith)))
