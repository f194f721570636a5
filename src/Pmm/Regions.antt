-- ===== src/Pmm/Regions.antt =====
-- `pmmngr_init` on the first MiB, and on a map with one usable region.
use native.Mathlib.Decide.{ℕ_discrete}
use she_x_mini_operating_sys.Base.{
  ℕ, zero, suc, ◌+◌, ◌/◌, ◌^◌, ◌≤◌, ◌<◌, ◌≡◌, ◌≢◌, refl, true, false, not, ◌&&◌, xor, some, arith,
  ltb, leb, ◌∙◌,
}
use she_x_mini_operating_sys.Pmm.{Bitmap, MmapEntry, is_usable, pmmngr_init}
use she_x_mini_operating_sys.Pmm.Bitmap.{used, IsWords}
use she_x_mini_operating_sys.Pmm.Init.{
  entry_touched, map_touched, Fits, in_kernel, pmmngr_init-Initialised,
}

-- Where no block below 1 MiB is touched, that memory stays in use.
touched_low : (e : MmapEntry) (b : ℕ) → b < 256 → entry_touched e b ≡ false
touched_low e b h = ground arith

map_touched_low : (mmap : ℕ → MmapEntry) (n i b : ℕ) → b < 256 → map_touched mmap n i b ≡ false
unfolding xor
map_touched_low mmap zero i b h = refl
map_touched_low mmap (suc n) i b h =
    rw (touched_low (mmap i) b h, map_touched_low mmap n (i + 1) b h)

kernel_low : (b : ℕ) → b < 256 → not (xor (in_kernel b) false) ≡ true
unfolding xor
kernel_low b h = ground arith

-- For every memory map whose usable entries lie in the 4 GiB address space, `pmmngr_init` ends and
-- leaves the first MiB in use.
pub pmmngr_init_low :
    (mmap : ℕ → MmapEntry) (count : ℕ) (m : Bitmap) (b : ℕ)
    → IsWords m
    → ((k : ℕ) → k < count → Fits (mmap k))
    → b < 256
    → (m' : Bitmap) × (pmmngr_init mmap count m ≡ some m') × (used m' b ≡ true)
pmmngr_init_low mmap count m b w fits h =
    let done = pmmngr_init-Initialised mmap count m w fits in
    (
      done.after,
      done.ends,
      done.blocks b (omega arith) ∙ rw (map_touched_low mmap count 0 b h) (kernel_low b h),
    )

entry_touched_none : (e : MmapEntry) (b : ℕ) → is_usable e ≡ false → entry_touched e b ≡ false
entry_touched_none e b h = rw h

map_touched_none :
    (mmap : ℕ → MmapEntry) (n i b : ℕ)
    → ((j : ℕ) → i ≤ j → is_usable (mmap j) ≡ false)
    → map_touched mmap n i b ≡ false
unfolding xor
map_touched_none mmap zero i b none_usable = refl
map_touched_none mmap (suc n) i b none_usable = rw (
  entry_touched_none (mmap i) b (none_usable i (omega arith)),
  map_touched_none mmap n (i + 1) b (λ j h. none_usable j (omega arith)),
)

map_touched_one :
    (mmap : ℕ → MmapEntry) (n i k b : ℕ)
    → i ≤ k
    → k < i + n
    → ((j : ℕ) → j ≢ k → is_usable (mmap j) ≡ false)
    → map_touched mmap n i b ≡ entry_touched (mmap k) b
unfolding xor
map_touched_one mmap zero i k b lo hi others = absurd (omega arith)
map_touched_one mmap (suc n) i k b lo hi others = elim (ℕ_discrete i k) [
  | yes e ↦
      rw (← e, map_touched_none mmap n (i + 1) b (λ j h. others j (omega arith))) (ground arith)
  | no ne ↦
      rw
        (
          entry_touched_none (mmap i) b (others i ne),
          map_touched_one mmap n (i + 1) k b (omega arith) (omega arith) others,
        )
        (ground arith)
]

one_region :
    (e : MmapEntry) (b : ℕ)
    → is_usable e ≡ true
    → e.start_low ≡ 0x100000
    → entry_touched e b ≡ (leb 256 b && ltb b ((0x100000 + e.size_low + 4095) / 4096))
one_region e b usable start = rw usable (rw start (ground arith))

-- With one usable entry, which begins at 1 MiB, holds the kernel and ends within 4 GiB, `pmmngr_init`
-- ends, and the free blocks are those of the entry past the kernel.
pub pmmngr_init_one_region :
    (mmap : ℕ → MmapEntry) (count k : ℕ) (m : Bitmap)
    → IsWords m
    → k < count
    → is_usable (mmap k) ≡ true
    → ((j : ℕ) → j ≢ k → is_usable (mmap j) ≡ false)
    → (mmap k).start_low ≡ 0x100000
    → 0x400000 ≤ (mmap k).size_low
    → 0x100000 + (mmap k).size_low ≤ 2 ^ 32
    → (m' : Bitmap) × (pmmngr_init mmap count m ≡ some m')
      × ((b : ℕ)
          → b < 2 ^ 20
          → used m' b ≡ not (leb 1280 b && ltb b ((0x100000 + (mmap k).size_low + 4095) / 4096)))
unfolding xor
pmmngr_init_one_region mmap count k m w l usable others start size fits =
    let done = pmmngr_init-Initialised mmap count m w (λ j h. one_fits j) in
    (
      done.after,
      done.ends,
      λ b h.
          done.blocks b h
          ∙ rw
              (
                map_touched_one mmap count 0 k b (omega arith) (omega arith) others,
                one_region (mmap k) b usable start,
              )
              (ground arith),
    )
  where
    one_fits : (j : ℕ) → Fits (mmap j)
    one_fits j = elim (ℕ_discrete j k) [
      | yes e ↦ rw e (λ u. (omega arith, omega arith))
      | no ne ↦ λ u. cc (others j ne)
    ]
