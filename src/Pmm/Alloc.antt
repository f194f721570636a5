-- ===== src/Pmm/Alloc.antt =====
-- `pmmngr_allocate_block` and `pmmngr_free_block` against the set of used blocks.
use native.Mathlib.Decide.{dec_lt}
use she_x_mini_operating_sys.Base.{
  ℕ, zero, suc, ◌+◌, ◌*◌, ◌/◌, ◌%◌, ◌^◌, ◌≤◌, ◌<◌, ◌≡◌, refl, ap, true, false, not, ◌||◌, inl, inr,
  arith, ◌==◌, u32, Bool-cases, ◌∙◌,
}
use she_x_mini_operating_sys.Pmm.{
  Bitmap, get_lowest_bit, toggle_block, allocate_from, allocate_block,
}
use she_x_mini_operating_sys.Pmm.Bitmap.{used, used-toggle_block, IsWords}
use she_x_mini_operating_sys.Pmm.Lowest.{Word, ones, gap, round_of, used-word, word_used}

-- Block `b` is the lowest free block of the words from `i` up to `i + n`, or there is none.
pub data Allocation (m : Bitmap) (n i : ℕ) (r : Bitmap × ℕ) : Type 0 where
  found :
      (b : ℕ)
      → 32 * i ≤ b
      → b < 32 * (i + n)
      → used m b ≡ false
      → ((c : ℕ) → 32 * i ≤ c → c < b → used m c ≡ true)
      → r ≡ (toggle_block m b, 4096 * b)
      → Allocation m n i r
  exhausted :
      ((c : ℕ) → 32 * i ≤ c → c < 32 * (i + n) → used m c ≡ true) → r ≡ (m, 0) → Allocation m n i r

allocate_skip :
    (n i : ℕ) (m : Bitmap)
    → m i ≡ 0xffff_ffff
    → allocate_from (suc n) i m ≡ allocate_from n (i + 1) m
unfolding allocate_from
allocate_skip n i m e = ground arith

allocate_take :
    (n i d : ℕ) (m : Bitmap)
    → i < 0x8000
    → d < 32
    → m i < 0xffff_ffff
    → get_lowest_bit (m i) ≡ d
    → allocate_from (suc n) i m ≡ (toggle_block m (32 * i + d), 4096 * (32 * i + d))
unfolding allocate_from
allocate_take n i d m hi hd h e =
    let at : u32 (u32 (i * 2 ^ 17) + d * 2 ^ 12) ≡ 4096 * (32 * i + d) = omega arith in
    let block : 4096 * (32 * i + d) / 4096 ≡ 32 * i + d = omega arith in
    rw e (rw at (rw block (ground arith)))

Allocation-suc :
    (m : Bitmap) (n i : ℕ) {r : Bitmap × ℕ}
    → ((c : ℕ) → 32 * i ≤ c → c < 32 * i + 32 → used m c ≡ true)
    → Allocation m n (i + 1) r
    → Allocation m (suc n) i r
Allocation-suc m n i first (found b lo hi free below e) =
    found b (omega arith) (omega arith) free
      (λ c p q. elim (dec_lt c (32 * i + 32)) [
        | yes h ↦ first c p h
        | no h ↦ below c (omega arith) q
      ])
      e
Allocation-suc m n i first (exhausted all e) =
    exhausted
      (λ c p q. elim (dec_lt c (32 * i + 32)) [
        | yes h ↦ first c p h
        | no h ↦ all c (omega arith) (omega arith)
      ])
      e

allocate_from-Allocation :
    (n i : ℕ) (m : Bitmap) → IsWords m → i + n ≤ 0x8000 → Allocation m n i (allocate_from n i m)
allocate_from-Allocation zero i m w h =
    exhausted (λ c p q. absurd (omega arith)) (unfold allocate_from in refl)
allocate_from-Allocation (suc n) i m w h =
    go (allocate_from-Allocation n (i + 1) m w (omega arith)) (round_of (m i) (w i))
  where
    go :
        Allocation m n (i + 1) (allocate_from n (i + 1) m)
        → Word (m i)
        → Allocation m (suc n) i (allocate_from (suc n) i m)
    go rest (ones e all) =
        rw (allocate_skip n i m e) (Allocation-suc m n i (λ c p q. word_used m i c all p q) rest)
    go rest (gap d l hd e free below) = rw (allocate_take n i d m (omega arith) hd l e) (
        found (32 * i + d) (omega arith) (omega arith) (used-word m i d hd ∙ free)
          (λ c p q. let word : c / 32 ≡ i = omega arith in rw word (below (c % 32) (omega arith)))
          refl)

-- What `pmmngr_allocate_block` may do to the bitmap `m`: take the lowest free block, or fail.
pub data FirstFree (m : Bitmap) (r : Bitmap × ℕ) : Type 0 where
  taken :
      (b : ℕ)
      → b < 2 ^ 20
      → used m b ≡ false
      → ((c : ℕ) → c < b → used m c ≡ true)
      → r ≡ (toggle_block m b, 4096 * b)
      → ((c : ℕ) → used r.0 c ≡ ((b == c) || used m c))
      → FirstFree m r
  none_free : ((c : ℕ) → c < 2 ^ 20 → used m c ≡ true) → r ≡ (m, 0) → FirstFree m r

FirstFree-found :
    (m : Bitmap) (r : Bitmap × ℕ) (b c : ℕ)
    → used m b ≡ false
    → r ≡ (toggle_block m b, 4096 * b)
    → used r.0 c ≡ ((b == c) || used m c)
FirstFree-found m r b c free e = rw e (
    used-toggle_block m b c ∙ elim (Bool-cases (b == c)) [
      | inl same ↦ let h : b ≡ c = ground arith in rw same (ap not (rw h at free))
      | inr other ↦ rw other
    ])

-- On a bitmap of 32-bit words `pmmngr_allocate_block` scans all 2 ^ 20 blocks: it returns the address of the lowest free block
-- and marks that block and no other, or returns 0 and changes nothing if every block is in use.
pub allocate_block-FirstFree : (m : Bitmap) → IsWords m → FirstFree m (allocate_block m)
unfolding allocate_block
allocate_block-FirstFree m w = go (allocate_from-Allocation 0x8000 0 m w (omega arith))
  where
    go : Allocation m 0x8000 0 (allocate_block m) → FirstFree m (allocate_block m)
    go (found b lo hi free below e) =
        taken b (omega arith) free (λ c h. below c (omega arith) h) e
          (λ c. FirstFree-found m _ b c free e)
    go (exhausted all e) = none_free (λ c h. all c (omega arith) (omega arith)) e
