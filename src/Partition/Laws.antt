-- ===== src/Partition/Laws.antt =====
-- What kernal/memory_management/memory_alloc.c counts.
use native.Mathlib.Nat.{suc-mul}
use she_x_mini_operating_sys.Base.{
  ℕ, zero, suc, ◌+◌, ◌-◌, ◌*◌, ◌/◌, ◌≤◌, ◌<◌, ◌≡◌, refl, true, false, some, ltb, ◌==◌,
  if◌then◌else◌, ◌||◌, ◌⊎◌, inl, inr, arith, Bool-cases, ltb→lt, ltb→le,
}
use she_x_mini_operating_sys.Partition.{
  Report, Totals, process_loop, calculate_internal_fragmentation, max_processes,
}

-- How many of the first `k` processes fit into a block, and how much memory these need.
abbrev pub fitting : (ℕ → ℕ) → ℕ → ℕ → ℕ
fitting mp bs zero = 0
fitting mp bs (suc k) = fitting mp bs k + (if ltb bs (mp k) then 0 else 1)

abbrev pub needed : (ℕ → ℕ) → ℕ → ℕ → ℕ
needed mp bs zero = 0
needed mp bs (suc k) = needed mp bs k + (if ltb bs (mp k) then 0 else mp k)

-- After the first `i` processes: the blocks are those of the processes that fit, and every block is
-- filled by its process and the internal fragment.
pub record Counted (mp : ℕ → ℕ) (bs nob : ℕ) (t : Totals) : Type 0 where
  pub blocks : t.p ≡ fitting mp bs t.i
  pub filled : t.tif + needed mp bs t.i ≡ t.p * bs
  pub room : t.p ≤ nob

step_fits :
    (mp : ℕ → ℕ) (bs nob i p tif : ℕ)
    → Counted mp bs nob (record { i = i; p = p; tif = tif })
    → p < nob
    → ltb bs (mp i) ≡ false
    → Counted mp bs nob (record { i = suc i; p = suc p; tif = tif + (bs - mp i) })
step_fits mp bs nob i p tif c h fits = record {
  blocks = rw fits (omega (arith, c.blocks));
  filled = rw fits (let small : mp i ≤ bs = ground arith in omega (arith, c.filled, suc-mul p bs));
  room = omega arith;
}

step_large :
    (mp : ℕ → ℕ) (bs nob i p tif : ℕ)
    → Counted mp bs nob (record { i = i; p = p; tif = tif })
    → ltb bs (mp i) ≡ true
    → Counted mp bs nob (record { i = suc i; p = p; tif = tif })
step_large mp bs nob i p tif c large = record {
  blocks = rw large (omega (arith, c.blocks));
  filled = rw large (omega (arith, c.filled));
  room = c.room;
}

-- The loop ends after the last process or with the last block.
record Ended (mp : ℕ → ℕ) (bs nob n : ℕ) (t : Totals) : Type 0 where
  pub counted : Counted mp bs nob t
  pub inside : t.i ≤ n
  pub over : (t.i ≡ n) ⊎ (t.p ≡ nob)

process_loop-Ended :
    (mp : ℕ → ℕ) (bs nob n left i p tif : ℕ)
    → n ≡ i + left
    → Counted mp bs nob (record { i = i; p = p; tif = tif })
    → Ended mp bs nob n (process_loop mp bs nob left (record { i = i; p = p; tif = tif }))
unfolding process_loop
process_loop-Ended mp bs nob n zero i p tif e c = record {
  counted = c;
  inside = omega arith;
  over = inl (omega arith);
}
process_loop-Ended mp bs nob n (suc left) i p tif e c = elim (Bool-cases (ltb p nob)) [
  | inl some_left ↦ elim (Bool-cases (ltb bs (mp i))) [
    | inl large ↦
        rw (some_left, large)
          (process_loop-Ended mp bs nob n left (suc i) p tif (omega arith)
            (step_large mp bs nob i p tif c large))
    | inr fits ↦
        rw (some_left, fits)
          (process_loop-Ended mp bs nob n left (suc i) (suc p) (tif + (bs - mp i)) (omega arith)
            (step_fits mp bs nob i p tif c (ground arith) fits))
  ]
  | inr none_left ↦
      let all : p ≡ nob = ground (arith, c.room) in
      rw none_left (record { counted = c; inside = omega arith; over = inr all })
]

none_unused : (i n p nob : ℕ) → i < n → (i ≡ n) ⊎ (p ≡ nob) → nob - p ≡ 0
none_unused i n p nob h (inl e) = absurd (omega arith)
none_unused i n p nob h (inr e) = omega arith

-- The report after the first `seen` processes of `n`: each that fits has a block, which it fills with
-- its internal fragment; the rest of the blocks is unused; and the memory is called full exactly when
-- a process was not looked at, which happens only with every block in use.
pub record IsAccount (ms bs n : ℕ) (mp : ℕ → ℕ) (seen : ℕ) (r : Report) : Type 0 where
  pub inside : seen ≤ n
  pub blocks : r.p ≡ fitting mp bs seen
  pub filled : r.tif + needed mp bs seen ≡ r.p * bs
  pub all_blocks : r.p + r.unused ≡ ms / bs
  pub full : r.is_full ≡ true → (seen < n) × (r.unused ≡ 0)
  pub all_seen : r.is_full ≡ false → seen ≡ n
  pub outside : r.eif ≡ (if r.p == n then 0 else ms - ms / bs * bs)

-- With blocks that are not empty and at most 10 processes there is a report. Each process seen that
-- fits has a block, which it fills with its internal fragment; the other blocks are unused; the memory
-- is called full exactly when a process was not looked at, which happens only with no block unused; and
-- the external fragment is the rest of the memory, or 0 if every process has a block.
pub calculate_internal_fragmentation-IsAccount :
    (ms bs n : ℕ) (mp : ℕ → ℕ)
    → 0 < bs
    → n ≤ 10
    → (r : Report) × (seen : ℕ) × (calculate_internal_fragmentation ms bs n mp ≡ some r)
      × IsAccount ms bs n mp seen r
unfolding calculate_internal_fragmentation
calculate_internal_fragmentation-IsAccount ms bs n mp h small =
    let t = process_loop mp bs (ms / bs) n (record { i = 0; p = 0; tif = 0 }) in
    let start : Counted mp bs (ms / bs) (record { i = 0; p = 0; tif = 0 }) = record {
      blocks = refl;
      filled = omega arith;
      room = omega arith;
    } in
    let ended = process_loop-Ended mp bs (ms / bs) n n 0 0 0 (omega arith) start in
    let guard : ((bs == 0) || ltb max_processes n) ≡ false = ground arith in
    (
      record {
        tif = t.tif;
        eif = if t.p == n then 0 else ms - ms / bs * bs;
        is_full = ltb t.i n;
        p = t.p;
        unused = ms / bs - t.p;
      },
      t.i,
      rw guard,
      record {
        inside = ended.inside;
        blocks = ended.counted.blocks;
        filled = ended.counted.filled;
        all_blocks = omega (arith, ended.counted.room);
        full = λ e.
            let more = ltb→lt t.i n e in (more, none_unused t.i n t.p (ms / bs) more ended.over);
        all_seen = λ e. omega (arith, ended.inside, ltb→le t.i n e);
        outside = refl;
      },
    )
