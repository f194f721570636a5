-- ===== src/Pmm/Toggle.antt =====
-- The loop of `pmmngr_toggle_range`: which blocks it toggles, and that it ends.
use native.Mathlib.Decide.{dec_lt}
use she_x_mini_operating_sys.Base.{
  ℕ, zero, suc, ◌+◌, ◌-◌, ◌*◌, ◌/◌, ◌%◌, ◌^◌, ◌≤◌, ◌<◌, ◌≡◌, refl, Bool, true, not, ◌&&◌, ◌||◌, xor,
  inl, inr, Option, some, arith, ltb, leb, ◌==◌, if◌then◌else◌, update, update_self, add32, sub32,
  bit_xor, Bool-cases, ◌∙◌,
}
use she_x_mini_operating_sys.Base.Bits.{bit, bit-bit_xor, bit-ones, bit_xor-lt}
use she_x_mini_operating_sys.Pmm.{Bitmap, toggle_block, toggle_loop}
use she_x_mini_operating_sys.Pmm.Bitmap.{used, used-toggle_block, IsWords, toggle_block-IsWords}

-- The blocks that the loop toggles, for `n` blocks from block `s` on: as long as 32 or more are left
-- it toggles the word of the current block, and then one block at a time.
abbrev pub touched : ℕ → ℕ → ℕ → Bool
touched s n b =
    let first = s / 32 * 32 in
    let chunks = n / 32 * 32 in
    (leb first b && ltb b (first + chunks)) || (leb (s + chunks) b && ltb b (s + n))

-- Inverting a whole word inverts its 32 digits.
used-whole_word :
    (m : Bitmap) (i b : ℕ)
    → used (update m i (bit_xor (m i) 0xffff_ffff)) b
      ≡ (if i == b / 32 then not (used m b) else used m b)
unfolding xor
used-whole_word m i b = elim (Bool-cases (i == b / 32)) [
  | inl same ↦
      let e : i ≡ b / 32 = ground arith in
      let ones : bit 0xffff_ffff (b % 32) ≡ true = bit-ones 32 (b % 32) (omega arith) in
      rw e (
        rw
          (
            update_self m (b / 32) (bit_xor (m (b / 32)) 0xffff_ffff),
            bit-bit_xor (m (b / 32)) 0xffff_ffff (b % 32),
            ones,
          )
          (ground arith))
  | inr other ↦ rw other (ground arith)
]

whole_word-IsWords :
    (m : Bitmap) (i : ℕ) → IsWords m → IsWords (update m i (bit_xor (m i) 0xffff_ffff))
whole_word-IsWords m i w j =
    ground (arith, w j, bit_xor-lt 32 (m i) 0xffff_ffff (w i) (omega arith))

-- One more word, or one more block, ahead of the rest of the range.
touched_word :
    (s n b : ℕ) → 32 ≤ n → touched s n b ≡ xor (s / 32 == b / 32) (touched (s + 32) (n - 32) b)
unfolding xor
touched_word s n b h = ground arith

touched_block : (s n b : ℕ) → suc n < 32 → touched s (suc n) b ≡ xor (s == b) (touched (s + 1) n b)
unfolding xor
touched_block s n b h = ground arith

xor_if : (t c u : Bool) → xor t (if c then not u else u) ≡ xor (xor c t) u
unfolding xor
xor_if t c u = ground arith

-- What is left to say of a block after the round for a whole word, or for one block.
after_word :
    (s n b : ℕ) (before after : Bitmap) (i : ℕ)
    → 32 ≤ n
    → i ≡ s / 32
    → used after b
      ≡ xor
          (touched (s + 32) (n - 32) b)
          (used (update before i (bit_xor (before i) 0xffff_ffff)) b)
    → used after b ≡ xor (touched s n b) (used before b)
after_word s n b before after i h e rest = rw (touched_word s n b h) (
    rest
    ∙ rw (used-whole_word before i b)
        (rw e (xor_if (touched (s + 32) (n - 32) b) (s / 32 == b / 32) (used before b))))

after_block :
    (s n b : ℕ) (before after : Bitmap)
    → suc n < 32
    → used after b ≡ xor (touched (s + 1) n b) (used (toggle_block before s) b)
    → used after b ≡ xor (touched s (suc n) b) (used before b)
after_block s n b before after h rest = rw (touched_block s n b h) (
    rest
    ∙ rw (used-toggle_block before s b) (xor_if (touched (s + 1) n b) (s == b) (used before b)))

-- The three ways a round can go.
round_done :
    (fuel : ℕ) (m : Bitmap) (start end : ℕ)
    → sub32 end start ≡ 0
    → toggle_loop (suc fuel) m start end ≡ some m
unfolding toggle_loop
round_done fuel m start end e = ground arith

round_word :
    (fuel s : ℕ) (m : Bitmap) (start end : ℕ)
    → 131072 ≤ sub32 end start
    → start / 4096 ≡ s
    → toggle_loop (suc fuel) m start end
      ≡ toggle_loop fuel
          (update m (s / 32) (bit_xor (m (s / 32)) 0xffff_ffff))
          (add32 start 131072)
          end
unfolding toggle_loop
round_word fuel s m start end h e = rw e (ground arith)

round_block :
    (fuel s : ℕ) (m : Bitmap) (start end : ℕ)
    → 0 < sub32 end start
    → sub32 end start < 131072
    → start / 4096 ≡ s
    → toggle_loop (suc fuel) m start end
      ≡ toggle_loop fuel (toggle_block m s) (add32 start 4096) end
unfolding toggle_loop
round_block fuel s m start end p h e = rw e (ground arith)

-- The loop ended, and toggled the `n` blocks from `s` on in the order of `touched`.
pub record Toggled (s n : ℕ) (m : Bitmap) (result : Option Bitmap) : Type 0 where
  pub after : Bitmap
  pub ends : result ≡ some after
  pub blocks : (b : ℕ) → used after b ≡ xor (touched s n b) (used m b)
  pub words : IsWords m → IsWords after

pub toggle_loop-Toggled :
    (fuel n s : ℕ) (m : Bitmap) (start end : ℕ)
    → n < fuel
    → s + n ≤ 2 ^ 20
    → start ≡ 4096 * s % 2 ^ 32
    → sub32 end start ≡ 4096 * n
    → Toggled s n m (toggle_loop fuel m start end)
unfolding xor
toggle_loop-Toggled zero n s m start end f l st e = absurd (omega arith)
toggle_loop-Toggled (suc fuel) zero s m start end f l st e =
    rw (round_done fuel m start end e)
      (record { after = m; ends = refl; blocks = λ b. ground arith; words = λ w. w })
toggle_loop-Toggled (suc fuel) (suc n) s m start end f l st e = elim (dec_lt (suc n) 32) [
  | yes few ↦
      let rest =
        toggle_loop-Toggled fuel n (s + 1) (toggle_block m s) (add32 start 4096) end (omega arith)
          (omega arith) (omega arith) (omega arith) in
      rw (round_block fuel s m start end (omega arith) (omega arith) (omega arith)) (record {
        after = rest.after;
        ends = rest.ends;
        blocks = λ b. after_block s n b m rest.after few (rest.blocks b);
        words = λ w. rest.words (toggle_block-IsWords m s w);
      })
  | no many ↦
      let rest =
        toggle_loop-Toggled fuel (suc n - 32) (s + 32)
          (update m (s / 32) (bit_xor (m (s / 32)) 0xffff_ffff)) (add32 start 131072) end
          (omega arith) (omega arith) (omega arith) (omega arith) in
      rw (round_word fuel s m start end (omega arith) (omega arith)) (record {
        after = rest.after;
        ends = rest.ends;
        blocks =
            λ b. after_word s (suc n) b m rest.after (s / 32) (omega arith) refl (rest.blocks b);
        words = λ w. rest.words (whole_word-IsWords m (s / 32) w);
      })
]
