-- ===== src/Pmm/Range.antt =====
-- `pmmngr_toggle_range`: when it toggles exactly the blocks of its range, and when it does not.
use she_x_mini_operating_sys.Base.{
  ℕ, ◌+◌, ◌-◌, ◌*◌, ◌/◌, ◌%◌, ◌^◌, ◌≤◌, ◌<◌, ◌≡◌, ◌≢◌, Bool, true, false, not, ◌&&◌, xor, ◌⊎◌, inl,
  inr, some, arith, ltb, leb, if◌then◌else◌, ◌∙◌,
}
use she_x_mini_operating_sys.Pmm.{Bitmap, toggle_range, round_down, round_up, range_fuel}
use she_x_mini_operating_sys.Pmm.Bitmap.{used}
use she_x_mini_operating_sys.Pmm.Toggle.{touched, Toggled, toggle_loop-Toggled}

-- The blocks of the range itself.
abbrev pub in_range : ℕ → ℕ → ℕ → Bool
in_range s n b = leb s b && ltb b (s + n)

-- The number of blocks from `start`, rounded down, to `end`, rounded up.
abbrev pub range_blocks : ℕ → ℕ → ℕ
range_blocks start end = (end + 4095) / 4096 - start / 4096

round_down_lem : (start : ℕ) → start < 2 ^ 32 → round_down start ≡ 4096 * (start / 4096)
round_down_lem start h = ground arith

round_up_lem :
    (end : ℕ) → end ≤ 2 ^ 32 → round_up (end % 2 ^ 32) ≡ 4096 * ((end + 4095) / 4096) % 2 ^ 32
round_up_lem end h = ground arith

-- For every range above the first block, up to the end of the address space (an `end` of `2 ^ 32`
-- is 0 as an argument), `pmmngr_toggle_range` ends, and inverts the blocks of `touched`, each once.
pub toggle_range-Toggled :
    (m : Bitmap) (start end : ℕ)
    → 4096 ≤ start
    → start ≤ end
    → end ≤ 2 ^ 32
    → start < 2 ^ 32
    → Toggled (start / 4096) (range_blocks start end) m (toggle_range m start (end % 2 ^ 32))
unfolding toggle_range
toggle_range-Toggled m start end p h l q =
    rw (round_down_lem start q, round_up_lem end l)
      (toggle_loop-Toggled range_fuel (range_blocks start end) (start / 4096) m
        (4096 * (start / 4096)) (4096 * ((end + 4095) / 4096) % 2 ^ 32) (omega arith) (omega arith)
        (omega arith) (omega arith))

-- Where fewer than 32 blocks are toggled, or the first block is the first of its word, the blocks
-- that are toggled are those of the range.
pub touched-eq-in_range : (s n b : ℕ) → (n < 32) ⊎ (s % 32 ≡ 0) → touched s n b ≡ in_range s n b
touched-eq-in_range s n b (inl few) = ground arith
touched-eq-in_range s n b (inr first) = ground arith

xor_as_if : (t u : Bool) → xor t u ≡ (if t then not u else u)
unfolding xor
xor_as_if t u = ground arith

-- For a range above the first block and within 4 GiB, `pmmngr_toggle_range` ends and inverts exactly
-- the blocks from `start`, rounded down, to `end`, rounded up, if `start` lies in the first block of a
-- bitmap word (128 KiB) or the range has fewer than 32 blocks.
pub toggle_range_exact :
    (m : Bitmap) (start end : ℕ)
    → 4096 ≤ start
    → start ≤ end
    → end ≤ 2 ^ 32
    → start < 2 ^ 32
    → (range_blocks start end < 32) ⊎ (start / 4096 % 32 ≡ 0)
    → (m' : Bitmap) × (toggle_range m start (end % 2 ^ 32) ≡ some m')
      × ((b : ℕ)
          → used m' b ≡ (
              if in_range (start / 4096) (range_blocks start end) b
              then not (used m b)
              else used m b))
toggle_range_exact m start end p h l q c =
    let t = toggle_range-Toggled m start end p h l q in
    (
      t.after,
      t.ends,
      λ b.
          t.blocks b
          ∙ rw (touched-eq-in_range (start / 4096) (range_blocks start end) b c) (xor_as_if _ _),
    )

-- With another first block and 32 blocks or more, the loop also meets the first block of the word,
-- and misses the last block of its last whole word.
touched_before : (s n : ℕ) → 32 ≤ n → touched s n (s / 32 * 32) ≡ true
touched_before s n h = ground arith

touched_gap : (s n : ℕ) → 32 ≤ n → s % 32 ≢ 0 → touched s n (s + n / 32 * 32 - 1) ≡ false
touched_gap s n h c = ground arith

-- For a range of 32 blocks or more, above the first block and within 4 GiB, whose first block does not
-- begin a bitmap word, `pmmngr_toggle_range` ends, but some block outside the range is inverted and
-- some block inside it is not.
pub toggle_range_misaligned :
    (m : Bitmap) (start end : ℕ)
    → 4096 ≤ start
    → start ≤ end
    → end ≤ 2 ^ 32
    → start < 2 ^ 32
    → 32 ≤ range_blocks start end
    → start / 4096 % 32 ≢ 0
    → (m' : Bitmap) × (before inside : ℕ) × (toggle_range m start (end % 2 ^ 32) ≡ some m')
      × (in_range (start / 4096) (range_blocks start end) before ≡ false)
      × (used m' before ≡ not (used m before))
      × (in_range (start / 4096) (range_blocks start end) inside ≡ true)
      × (used m' inside ≡ used m inside)
toggle_range_misaligned m start end p h l q many c =
    let t = toggle_range-Toggled m start end p h l q in
    let s = start / 4096 in
    let n = range_blocks start end in
    (
      t.after,
      s / 32 * 32,
      s + n / 32 * 32 - 1,
      t.ends,
      ground arith,
      t.blocks (s / 32 * 32) ∙ rw (touched_before s n many) (xor_as_if true _),
      ground arith,
      t.blocks (s + n / 32 * 32 - 1) ∙ rw (touched_gap s n many c) (xor_as_if false _),
    )
