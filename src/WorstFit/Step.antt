-- ===== src/WorstFit/Step.antt =====
-- One file of kernal/memory_management/worst_fit.c after those before it.
use she_x_mini_operating_sys.Base.{
  ℕ, ◌+◌, ◌≤◌, ◌<◌, ◌≡◌, ◌≢◌, ap, Option, none, some, arith, ltb, ◌==◌, Bool-cases, inl, inr, sym,
  ◌∙◌, update, update_self, update_ne,
}
use she_x_mini_operating_sys.WorstFit.{Arrays, choose_loop, file_step, assign_block}
use she_x_mini_operating_sys.WorstFit.Choice.{Chosen, IsWorstFit, choose_loop-IsWorstFit}

-- The arrays after the first `n` files. A file's block exists and holds the file and the rest; no two
-- files share a block; and a file goes without a block only if every block that holds it went to an
-- earlier file.
pub record IsAllocation (nb : ℕ) (b f : ℕ → ℕ) (n : ℕ) (s : Arrays) : Type 0 where
  pub fits : (i j : ℕ) → i < n → s.ff i ≡ some j → (j < nb) × (f i + s.frag i ≡ b j)
  pub alone : (i k j : ℕ) → i < n → k < n → s.ff i ≡ some j → s.ff k ≡ some j → i ≡ k
  pub left_out :
      (i j : ℕ) → i < n → s.ff i ≡ none → j < nb → f i ≤ b j → (k : ℕ) × (k < i) × (s.ff k ≡ some j)

-- The marks of the taken blocks say which blocks the files have.
pub record Marked (n : ℕ) (s : Arrays) : Type 0 where
  pub taken : (i j : ℕ) → i < n → s.ff i ≡ some j → s.bf j ≡ 1
  pub given : (j : ℕ) → s.bf j ≢ 0 → (i : ℕ) × (i < n) × (s.ff i ≡ some j)

-- File `n` gets `r`, the files before it keep what they have.
module _ (ff : ℕ → Option ℕ) (n : ℕ) (r : Option ℕ) where
  earlier : (i : ℕ) (x : Option ℕ) → i < n → update ff n r i ≡ x → ff i ≡ x
  earlier i x h e = sym (update_ne ff n i r (λ same. omega arith)) ∙ e

  kept : (k j bound : ℕ) → bound ≤ n → k < bound → ff k ≡ some j → update ff n r k ≡ some j
  kept k j bound le below e = update_ne ff n k r (λ same. omega arith) ∙ e

  last : (i : ℕ) (x : Option ℕ) → i < n + 1 → n ≤ i → update ff n r i ≡ x → r ≡ x
  last i x h le e = let here : i ≡ n = omega arith in ground arith

no_entry : (j : ℕ) → none ≡ some j → ⊥
no_entry j e = absurd (cc)

some_same : (j k : ℕ) → some j ≡ some k → j ≡ k
some_same j k e = cc

-- A new file keeps the earlier ones apart if its block was not marked.
alone_step :
    (nb : ℕ) (b f : ℕ → ℕ) (n : ℕ) (s : Arrays) (r : Option ℕ)
    → Marked n s
    → IsAllocation nb b f n s
    → ((j : ℕ) → r ≡ some j → s.bf j ≡ 0)
    → (i k j : ℕ) → i < n + 1
    → k < n + 1
    → update s.ff n r i ≡ some j
    → update s.ff n r k ≡ some j
    → i ≡ k
alone_step nb b f n s r m a fresh i k j hi hk ei ek = elim (Bool-cases (ltb i n)) [
  | inl il ↦
      let ei' = earlier s.ff n r i (some j) (ground arith) ei in
      elim (Bool-cases (ltb k n)) [
        | inl kl ↦
            a.alone i k j (ground arith) (ground arith) ei'
              (earlier s.ff n r k (some j) (ground arith) ek)
        | inr kn ↦
            let free = fresh j (last s.ff n r k (some j) hk (ground arith) ek) in
            absurd (omega (arith, m.taken i j (ground arith) ei'))
      ]
  | inr i_last ↦
      let free = fresh j (last s.ff n r i (some j) hi (ground arith) ei) in
      elim (Bool-cases (ltb k n)) [
        | inl kl ↦ absurd (
            omega
              (arith, m.taken k j (ground arith) (earlier s.ff n r k (some j) (ground arith) ek)))
        | inr kn ↦ ground arith
      ]
]

-- An earlier file without a block stays without one.
left_out_step :
    (nb : ℕ) (b f : ℕ → ℕ) (n : ℕ) (s : Arrays) (r : Option ℕ)
    → IsAllocation nb b f n s
    → (i j : ℕ) → i < n
    → update s.ff n r i ≡ none
    → j < nb
    → f i ≤ b j
    → (k : ℕ) × (k < i) × (update s.ff n r k ≡ some j)
left_out_step nb b f n s r a i j below e hj large =
    let (k, before, ek) = a.left_out i j below (earlier s.ff n r i none below e) hj large in
    (k, before, kept s.ff n r k j i (omega arith) before ek)

take_none :
    (nb : ℕ) (b f : ℕ → ℕ) (n : ℕ) (s : Arrays)
    → IsWorstFit b s.bf (f n) nb none
    → Marked n s
    → IsAllocation nb b f n s
    → IsAllocation nb b f (n + 1) (record s { ff = update s.ff n none })
take_none nb b f n s w m a = record {
  fits = λ i j h e. elim (Bool-cases (ltb i n)) [
    | inl less ↦ a.fits i j (ground arith) (earlier s.ff n none i (some j) (ground arith) e)
    | inr more ↦ absurd (no_entry j (last s.ff n none i (some j) h (ground arith) e))
  ];
  alone = alone_step nb b f n s none m a (λ j e. absurd (no_entry j e));
  left_out = λ i j h e hj large. elim (Bool-cases (ltb i n)) [
    | inl less ↦ left_out_step nb b f n s none a i j (ground arith) e hj large
    | inr more ↦
        let here : i ≡ n = ground arith in
        let small = w j hj in
        let large' : f n ≤ b j = ground arith in
        let (k, before, ek) = m.given j (λ free. absurd (omega (arith, small free))) in
        (k, omega arith, kept s.ff n none k j n (omega arith) before ek)
  ];
}

take_some :
    (nb : ℕ) (b f : ℕ → ℕ) (n : ℕ) (s : Arrays) (highest j : ℕ)
    → Chosen b s.bf (f n) nb highest j
    → Marked n s
    → IsAllocation nb b f n s
    → IsAllocation nb b f (n + 1) (record {
      bf = update s.bf j 1;
      ff = update s.ff n (some j);
      frag = update s.frag n highest;
    })
take_some nb b f n s highest j w m a = record {
  fits = λ i j' h e. elim (Bool-cases (ltb i n)) [
    | inl less ↦
        ground
          (arith, a.fits i j' (ground arith) (earlier s.ff n (some j) i (some j') (ground arith) e))
    | inr more ↦
        let same : j ≡ j' = some_same j j' (last s.ff n (some j) i (some j') h (ground arith) e) in
        let here : i ≡ n = ground arith in
        rw (← same, here) (w.inside, rw (update_self s.frag n highest) w.rest)
  ];
  alone = alone_step nb b f n s (some j) m a (λ j' e. ap s.bf (sym (some_same j j' e)) ∙ w.free);
  left_out = λ i j' h e hj large. elim (Bool-cases (ltb i n)) [
    | inl less ↦ left_out_step nb b f n s (some j) a i j' (ground arith) e hj large
    | inr more ↦ absurd (no_entry j (sym (last s.ff n (some j) i none h (ground arith) e)))
  ];
}

marks_left :
    (n : ℕ) (s : Arrays) → Marked n s → Marked (n + 1) (record s { ff = update s.ff n none })
marks_left n s m = record {
  taken = λ i j h e. elim (Bool-cases (ltb i n)) [
    | inl less ↦ m.taken i j (ground arith) (earlier s.ff n none i (some j) (ground arith) e)
    | inr more ↦ absurd (no_entry j (last s.ff n none i (some j) h (ground arith) e))
  ];
  given = λ j used.
      let (k, before, ek) = m.given j used in
      (k, omega arith, kept s.ff n none k j n (omega arith) before ek);
}

marks_taken :
    (n : ℕ) (s : Arrays) (j highest : ℕ)
    → Marked n s
    → Marked (n + 1) (record {
      bf = update s.bf j 1;
      ff = update s.ff n (some j);
      frag = update s.frag n highest;
    })
marks_taken n s j highest m = record {
  taken = λ i j' h e. elim (Bool-cases (ltb i n)) [
    | inl less ↦
        ground (
          arith,
          m.taken i j' (ground arith) (earlier s.ff n (some j) i (some j') (ground arith) e),
        )
    | inr more ↦
        let same = some_same j j' (last s.ff n (some j) i (some j') h (ground arith) e) in
        ground arith
  ];
  given = λ j' used. elim (Bool-cases (j == j')) [
    | inl here ↦
        let same : j ≡ j' = ground arith in
        (n, omega arith, update_self s.ff n (some j) ∙ ap some same)
    | inr other ↦
        let (k, before, ek) = m.given j' (λ free. used (ground arith)) in
        (k, omega arith, kept s.ff n (some j) k j' n (omega arith) before ek)
  ];
}

pub file_step_both :
    (nb : ℕ) (b f : ℕ → ℕ) (n : ℕ) (s : Arrays)
    → Marked n s
    → IsAllocation nb b f n s
    → Marked (n + 1) (file_step b f nb n s) × IsAllocation nb b f (n + 1) (file_step b f nb n s)
unfolding file_step
file_step_both nb b f n s m a =
    go (choose_loop b s.bf (f n) nb 0 none) (choose_loop-IsWorstFit b s.bf (f n) nb)
  where
    go :
        (best : Option (ℕ × ℕ))
        → IsWorstFit b s.bf (f n) nb best
        → Marked (n + 1) (assign_block n s best)
          × IsAllocation nb b f (n + 1) (assign_block n s best)
    go none w = (marks_left n s m, take_none nb b f n s w m a)
    go (some (highest, j)) w = (marks_taken n s j highest m, take_some nb b f n s highest j w m a)
