-- ===== src/Pmm/Free.antt =====
-- `pmmngr_free_block`: the blocks in use after each of its outcomes, and that it undoes an allocation.
use she_x_mini_operating_sys.Base.{
  ℕ, ◌*◌, ◌/◌, ◌%◌, ◌^◌, ◌≡◌, ◌≢◌, ap, Bool, true, false, not, ◌&&◌, arith, ◌==◌, if◌then◌else◌,
  ◌∙◌, ◌⊎◌, inl, inr, Bool-cases, refl, ==→eq, ==→ne,
}
use she_x_mini_operating_sys.Base.Bits.{bit-eq-shift}
use she_x_mini_operating_sys.Base.Masks.{bit_and_low}
use she_x_mini_operating_sys.Pmm.{Bitmap, toggle_block, allocate_block, free_block, extract_bit}
use she_x_mini_operating_sys.Pmm.Bitmap.{used, used-toggle_block, IsWords, toggle_block_twice}
use she_x_mini_operating_sys.Pmm.Alloc.{FirstFree, taken, none_free, allocate_block-FirstFree}

-- The test of `pmmngr_free_block` reads whether the block is in use.
extract_bit-eq-used :
    (m : Bitmap) (b : ℕ) → (extract_bit (m (b / 32)) (b % 32) == 0) ≡ not (used m b)
extract_bit-eq-used m b =
    rw (bit_and_low 1 (m (b / 32) / 2 ^ (b % 32)), bit-eq-shift (m (b / 32)) (b % 32))
      (ground arith)

-- The branches of a free.
abbrev outcome : Bitmap → ℕ → Bitmap × Bool
outcome m a =
    if (a % 4096 == 0) && used m (a / 4096) then (toggle_block m (a / 4096), true) else (m, false)

free_block_lem : (m : Bitmap) (a : ℕ) → free_block m a ≡ outcome m a
unfolding free_block
free_block_lem m a =
    let word : a / 4096 / 2 ^ 5 ≡ a / 4096 / 32 = omega arith in
    rw (extract_bit-eq-used m (a / 4096)) (ground arith)

-- What a free of the address `a` may come to, in terms of the blocks in use.
pub data FreeOutcome (m : Bitmap) (a : ℕ) (r : Bitmap × Bool) : Type 0 where
  freed :
      (m' : Bitmap)
      → r ≡ (m', true)
      → a % 4096 ≡ 0
      → used m (a / 4096) ≡ true
      → used m' (a / 4096) ≡ false
      → ((c : ℕ) → c ≢ a / 4096 → used m' c ≡ used m c)
      → FreeOutcome m a r
  refused : r ≡ (m, false) → (a % 4096 ≢ 0) ⊎ (used m (a / 4096) ≡ false) → FreeOutcome m a r

used_self : (m : Bitmap) (b : ℕ) → used (toggle_block m b) b ≡ not (used m b)
used_self m b = rw (used-toggle_block m b b) (ground arith)

-- `pmmngr_free_block` refuses an address inside a block, and a block that is not in use, with the
-- bitmap unchanged; it frees any other block, and changes whether no block besides is in use.
pub free_block-FreeOutcome : (m : Bitmap) (a : ℕ) → FreeOutcome m a (free_block m a)
free_block-FreeOutcome m a = elim (Bool-cases (a % 4096 == 0)) [
  | inl start ↦ elim (Bool-cases (used m (a / 4096))) [
    | inl taken_before ↦
        FreeOutcome.freed (toggle_block m (a / 4096))
          (free_block_lem m a ∙ rw (start, taken_before) refl) (==→eq _ _ start) taken_before
          (used_self m (a / 4096) ∙ ap not taken_before)
          (λ c ne. rw (used-toggle_block m (a / 4096) c) (ground arith))
    | inr free ↦ FreeOutcome.refused (free_block_lem m a ∙ rw (start, free) refl) (inr free)
  ]
  | inr inside ↦ FreeOutcome.refused (free_block_lem m a ∙ rw inside refl) (inl (==→ne _ _ inside))
]

-- The blocks in use after a free of a block's address, whether it was in use or not.
pub used-free_block :
    (m : Bitmap) (a c : ℕ)
    → a % 4096 ≡ 0
    → used (free_block m a).0 c ≡ (used m c && not (c == a / 4096))
used-free_block m a c start = go (free_block-FreeOutcome m a)
  where
    go :
        FreeOutcome m a (free_block m a)
        → used (free_block m a).0 c ≡ (used m c && not (c == a / 4096))
    go (FreeOutcome.freed m' e aligned before after others) =
        rw e (elim (Bool-cases (c == a / 4096)) [
          | inl same ↦ ap (used m') (==→eq _ _ same) ∙ rw (after, same) (ground arith)
          | inr other ↦ rw (others c (==→ne _ _ other), other) (ground arith)
        ])
    go (FreeOutcome.refused e (inl inside)) = absurd (inside start)
    go (FreeOutcome.refused e (inr free)) = rw e (elim (Bool-cases (c == a / 4096)) [
      | inl same ↦ ap (used m) (==→eq _ _ same) ∙ rw (free, same) (ground arith)
      | inr other ↦ rw other (ground arith)
    ])

-- Where the allocation of a block from a bitmap of 32-bit words succeeded, freeing this block gives
-- the bitmap back.
pub free-allocate :
    (m : Bitmap)
    → IsWords m
    → (allocate_block m).1 ≢ 0
    → free_block (allocate_block m).0 (allocate_block m).1 ≡ (m, true)
free-allocate m w ne = go (allocate_block-FirstFree m w)
  where
    allocated : (b : ℕ) → used m b ≡ false → outcome (toggle_block m b) (4096 * b) ≡ (m, true)
    allocated b free =
        let aligned : 4096 * b % 4096 ≡ 0 = omega arith in
        let place : 4096 * b / 4096 ≡ b = omega arith in
        rw aligned (rw place (rw (used_self m b, free, toggle_block_twice m b w)))

    go :
        FirstFree m (allocate_block m)
        → free_block (allocate_block m).0 (allocate_block m).1 ≡ (m, true)
    go (taken b l free below e marks) =
        rw e (rw (free_block_lem (toggle_block m b) (4096 * b)) (allocated b free))
    go (none_free all e) = absurd (ne (ap (λ r. r.1) e))

-- What a successful free says of its argument and its result.
free_block_success :
    (m m' : Bitmap) (a : ℕ)
    → free_block m a ≡ (m', true)
    → (a % 4096 ≡ 0) × (used m (a / 4096) ≡ true) × (toggle_block m (a / 4096) ≡ m')
free_block_success m m' a h = go (rw (free_block_lem m a) at h)
  where
    go :
        outcome m a ≡ (m', true)
        → (a % 4096 ≡ 0) × (used m (a / 4096) ≡ true) × (toggle_block m (a / 4096) ≡ m')
    go e = ground arith

-- A block that was freed cannot be freed again.
pub free_twice :
    (m m' : Bitmap) (a : ℕ) → free_block m a ≡ (m', true) → free_block m' a ≡ (m', false)
free_twice m m' a h =
    let (aligned, was_used, after) = free_block_success m m' a h in
    let now_free : used m' (a / 4096) ≡ false =
      rw (← after) (used_self m (a / 4096) ∙ ap not was_used) in
    rw (free_block_lem m' a) (ground (arith, now_free))
