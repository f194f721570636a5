-- ===== src/Pmm/Init.antt =====
-- `pmmngr_init`: the bitmap that it builds from the memory map.
use she_x_mini_operating_sys.Base.{
  ℕ, zero, suc, ◌+◌, ◌/◌, ◌%◌, ◌^◌, ◌≤◌, ◌<◌, ◌≡◌, refl, sym, Bool, true, false, not, ◌&&◌, xor,
  inl, inr, Option, some, arith, ltb, leb, if◌then◌else◌, Bool-cases, ◌∙◌, update,
}
use she_x_mini_operating_sys.Base.Bits.{bit-ones}
use she_x_mini_operating_sys.Pmm.{
  Bitmap, MmapEntry, is_usable, fill_loop, entry_step, map_loop, pmmngr_init, toggle_range,
  bitmap_words, kernel_p, kernel_mapped_size,
}
use she_x_mini_operating_sys.Pmm.Bitmap.{used, IsWords}
use she_x_mini_operating_sys.Pmm.Toggle.{touched}
use she_x_mini_operating_sys.Pmm.Range.{
  range_blocks, toggle_range-Toggled, touched-eq-in_range, in_range,
}

fill_loop_lem :
    (n i : ℕ) (m : Bitmap) (j : ℕ)
    → fill_loop n i m j ≡ (if leb i j && ltb j (i + n) then 0xffff_ffff else m j)
unfolding fill_loop
fill_loop_lem zero i m j = ground arith
fill_loop_lem (suc n) i m j = fill_loop_lem n (i + 1) (update m i 0xffff_ffff) j ∙ ground arith

-- The blocks that the usable entries `i` to `i + n - 1` toggle an odd number of times.
abbrev pub entry_touched : MmapEntry → ℕ → Bool
entry_touched e b =
    if is_usable e
    then touched (e.start_low / 4096) (range_blocks e.start_low (e.start_low + e.size_low)) b
    else false

abbrev pub map_touched : (ℕ → MmapEntry) → ℕ → ℕ → ℕ → Bool
map_touched mmap zero i b = false
map_touched mmap (suc n) i b = xor (entry_touched (mmap i) b) (map_touched mmap n (i + 1) b)

-- A usable entry lies in the 4 GiB address space.
abbrev pub Fits : MmapEntry → Type 0
Fits e = is_usable e ≡ true → (e.start_low < 2 ^ 32) × (e.start_low + e.size_low ≤ 2 ^ 32)

-- A part of the initialisation ended, and inverted the blocks of `t`.
pub record Inverted (t : ℕ → Bool) (m : Bitmap) (result : Option Bitmap) : Type 0 where
  pub after : Bitmap
  pub ends : result ≡ some after
  pub blocks : (b : ℕ) → used after b ≡ xor (t b) (used m b)
  pub words : IsWords m → IsWords after

xor-false : (u : Bool) → xor false u ≡ u
unfolding xor
xor-false u = ground arith

xor_regroup : (s t u : Bool) → xor t (xor s u) ≡ xor (xor s t) u
unfolding xor
xor_regroup s t u = ground arith

entry_step-Inverted :
    (e : MmapEntry) (m : Bitmap) → Fits e → Inverted (entry_touched e) m (entry_step e m)
entry_step-Inverted e m fits = elim (Bool-cases (is_usable e)) [
  | inl usable ↦
      let (start_fits, end_fits) = fits usable in
      let t =
        toggle_range-Toggled m e.start_low (e.start_low + e.size_low) (ground arith) (omega arith)
          end_fits start_fits in
      record {
        after = t.after;
        ends = rw usable t.ends;
        blocks = λ b. rw usable (t.blocks b);
        words = t.words;
      }
  | inr other ↦ record {
    after = m;
    ends = rw other;
    blocks = λ b. rw other (sym (xor-false (used m b)));
    words = λ w. w;
  }
]

map_loop_step :
    (mmap : ℕ → MmapEntry) (n i : ℕ) (m m' : Bitmap)
    → entry_step (mmap i) m ≡ some m'
    → map_loop mmap (suc n) i m ≡ map_loop mmap n (i + 1) m'
unfolding map_loop
map_loop_step mmap n i m m' e = rw e

map_loop-Inverted :
    (mmap : ℕ → MmapEntry) (n i : ℕ) (m : Bitmap)
    → ((k : ℕ) → i ≤ k → k < i + n → Fits (mmap k))
    → Inverted (map_touched mmap n i) m (map_loop mmap n i m)
map_loop-Inverted mmap zero i m fits = record {
  after = m;
  ends = unfold map_loop in refl;
  blocks = λ b. sym (xor-false (used m b));
  words = λ w. w;
}
map_loop-Inverted mmap (suc n) i m fits =
    let first = entry_step-Inverted (mmap i) m (fits i (omega arith) (omega arith)) in
    let rest =
      map_loop-Inverted mmap n (i + 1) first.after (λ k p q. fits k (omega arith) (omega arith)) in
    record {
      after = rest.after;
      ends = map_loop_step mmap n i m first.after first.ends ∙ rest.ends;
      blocks = λ b. rest.blocks b ∙ rw (first.blocks b) (xor_regroup _ _ _);
      words = λ w. rest.words (first.words w);
    }

-- All blocks start in use.
filled_used : (m : Bitmap) (b : ℕ) → b < 2 ^ 20 → used (fill_loop bitmap_words 0 m) b ≡ true
filled_used m b h =
    let full : fill_loop 0x8000 0 m (b / 32) ≡ 0xffff_ffff =
      fill_loop_lem 0x8000 0 m (b / 32) ∙ ground arith in
    rw full (bit-ones 32 (b % 32) (omega arith))

filled-IsWords : (m : Bitmap) → IsWords m → IsWords (fill_loop bitmap_words 0 m)
filled-IsWords m w j = rw (fill_loop_lem 0x8000 0 m j) (ground (arith, w j))

-- The kernel's own blocks, 256 to 1279.
abbrev pub in_kernel : ℕ → Bool
in_kernel b = in_range 256 1024 b

-- `pmmngr_init` ended: a block is free if it was toggled an odd number of times, by the usable
-- entries of the map and by the kernel's own range.
pub record Initialised (mmap : ℕ → MmapEntry) (count : ℕ) (result : Option Bitmap) : Type 0 where
  pub after : Bitmap
  pub ends : result ≡ some after
  pub blocks :
      (b : ℕ) → b < 2 ^ 20 → used after b ≡ not (xor (in_kernel b) (map_touched mmap count 0 b))
  pub words : IsWords after

-- A block that starts in use, after the map's entries (`t`) and the kernel's range (`k`).
xor-true : (k t : Bool) → xor k (xor t true) ≡ not (xor k t)
unfolding xor
xor-true k t = ground arith

kernel_range-Inverted :
    (m : Bitmap) → Inverted in_kernel m (toggle_range m kernel_p (kernel_p + kernel_mapped_size))
kernel_range-Inverted m =
    let t =
      toggle_range-Toggled m 0x100000 0x500000 (omega arith) (omega arith) (omega arith)
        (omega arith) in
    record {
      after = t.after;
      ends = t.ends;
      blocks = λ b. t.blocks b ∙ rw (touched-eq-in_range 256 1024 b (inr refl));
      words = t.words;
    }

-- For every memory map whose usable entries lie in the 4 GiB address space, `pmmngr_init` ends. A
-- block is then free exactly if an odd number of toggles met it, those of the usable entries and of
-- the kernel's own range; every word of the bitmap has 32 bits.
pub pmmngr_init-Initialised :
    (mmap : ℕ → MmapEntry) (count : ℕ) (m : Bitmap)
    → IsWords m
    → ((k : ℕ) → k < count → Fits (mmap k))
    → Initialised mmap count (pmmngr_init mmap count m)
unfolding pmmngr_init
pmmngr_init-Initialised mmap count m w fits =
    let filled = fill_loop bitmap_words 0 m in
    let entries = map_loop-Inverted mmap count 0 filled (λ k p q. fits k (omega arith)) in
    let kernel = kernel_range-Inverted entries.after in
    record {
      after = kernel.after;
      ends = rw entries.ends kernel.ends;
      blocks = λ b h.
          kernel.blocks b
          ∙ rw (entries.blocks b, filled_used m b h)
              (xor-true (in_kernel b) (map_touched mmap count 0 b));
      words = kernel.words (entries.words (filled-IsWords m w));
    }
