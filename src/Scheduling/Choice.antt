-- ===== src/Scheduling/Choice.antt =====
-- The loops of PRIORITY and FEEDBACK in kernal/include/ProcessSchedulingAlgorithms.h.
use she_x_mini_operating_sys.Base.{
  ℕ, suc, ◌≡◌, refl, ap, ◌∙◌, Bool, true, false, Bool-cases, inl, inr, List, [], ◌∷◌, ◌++◌,
  if◌then◌else◌, length, length-append, arith,
}
use she_x_mini_operating_sys.Base.Int.{ℤ, ltb_ℤ}
use she_x_mini_operating_sys.Base.Splits.{append_assoc}
use she_x_mini_operating_sys.Scheduling.{Process, priority_loop, feedback_loop}

abbrev pub Each : (Process → Type 0) → List Process → Type 0
Each P [] = Unit {0}
Each P (p ∷ ps) = P p × Each P ps

Each-append :
    (P : Process → Type 0) (ps qs : List Process) → Each P ps → Each P qs → Each P (ps ++ qs)
Each-append P [] qs a b = b
Each-append P (p ∷ ps) qs (a, more) b = (a, Each-append P ps qs more b)

Each-map :
    (P Q : Process → Type 0)
    → ((p : Process) → P p → Q p)
    → (ps : List Process) → Each P ps
    → Each Q ps
Each-map P Q f [] a = tt
Each-map P Q f (p ∷ ps) (a, more) = (f p a, Each-map P Q f ps more)

-- The process at index `k` is the first of those with the best priority, by a test of a new priority
-- against an old one.
pub record Best (better : ℤ → ℤ → Bool) (ps : List Process) (priority : ℤ) (k : ℕ) : Type 0 where
  pub front : List Process
  pub chosen : Process
  pub back : List Process
  pub whole : ps ≡ front ++ chosen ∷ back
  pub index : k ≡ length front
  pub priority_eq : chosen.priority ≡ priority
  pub over_front : Each (λ p. better priority p.priority ≡ true) front
  pub over_back : Each (λ p. better p.priority priority ≡ false) back

-- The common form of the two loops.
choose : (ℤ → ℤ → Bool) → List Process → ℤ → ℕ → ℕ → ℤ × ℕ
choose better [] priority best i = (priority, best)
choose better (p ∷ ps) priority best i =
    if better p.priority priority
    then choose better ps p.priority i (suc i)
    else choose better ps priority best (suc i)

module _ (better : ℤ → ℤ → Bool) (irreflexive : (a : ℤ) → better a a ≡ false)
    (transitive : (a b c : ℤ) → better a b ≡ true → better b c ≡ true → better a c ≡ true)
    (negative : (a b c : ℤ) → better a b ≡ true → better c b ≡ false → better a c ≡ true) where
  choose-Best :
      (ps seen : List Process) (priority : ℤ) (best i : ℕ)
      → Best better seen priority best
      → i ≡ length seen
      → Best better
          (seen ++ ps)
          (choose better ps priority best i).0
          (choose better ps priority best i).1
  unfolding choose
  choose-Best [] seen priority best i b e = rw (append_nil seen) b
    where
      append_nil : (qs : List Process) → qs ++ [] ≡ qs
      append_nil [] = refl
      append_nil (q ∷ qs) = ap (λ rs. q ∷ rs) (append_nil qs)
  choose-Best (p ∷ ps) seen priority best i b e =
      let count : suc i ≡ length (seen ++ p ∷ []) = omega (arith, e, length-append seen (p ∷ [])) in
      rw⁻¹ (append_assoc seen (p ∷ []) ps) (elim (Bool-cases (better p.priority priority)) [
        | inl wins ↦ rw wins (
            choose-Best ps (seen ++ p ∷ []) p.priority i (suc i)
              (record {
                front = seen;
                chosen = p;
                back = [];
                whole = refl;
                index = e;
                priority_eq = refl;
                over_front = rw b.whole (
                    Each-append _ b.front (b.chosen ∷ b.back)
                      (Each-map _ _ (λ x h. transitive p.priority priority x.priority wins h)
                        b.front b.over_front)
                      (
                        ap (better p.priority) b.priority_eq ∙ wins,
                        Each-map _ _ (λ x h. negative p.priority priority x.priority wins h) b.back
                            b.over_back,
                      ));
                over_back = tt;
              })
              count)
        | inr loses ↦ rw loses (
            choose-Best ps (seen ++ p ∷ []) priority best (suc i)
              (record {
                front = b.front;
                chosen = b.chosen;
                back = b.back ++ p ∷ [];
                whole =
                    ap (λ xs. xs ++ p ∷ []) b.whole
                    ∙ append_assoc b.front (b.chosen ∷ b.back) (p ∷ []);
                index = b.index;
                priority_eq = b.priority_eq;
                over_front = b.over_front;
                over_back = Each-append _ b.back (p ∷ []) b.over_back (loses, tt);
              })
              count)
      ])

  choose_first :
      (first : Process) (rest : List Process)
      → Best better
          (first ∷ rest)
          (choose better (first ∷ rest) first.priority 0 0).0
          (choose better (first ∷ rest) first.priority 0 0).1
  unfolding choose
  choose_first first rest = rw (irreflexive first.priority) (
      choose-Best rest (first ∷ []) first.priority 0 1
        (record {
          front = [];
          chosen = first;
          back = [];
          whole = refl;
          index = refl;
          priority_eq = refl;
          over_front = tt;
          over_back = tt;
        })
        refl)

-- PRIORITY looks for a higher priority, FEEDBACK for a lower one.
abbrev pub higher : ℤ → ℤ → Bool
higher a b = ltb_ℤ b a

abbrev pub lower : ℤ → ℤ → Bool
lower a b = ltb_ℤ a b

priority_loop-choose :
    (ps : List Process) (priority : ℤ) (best i : ℕ)
    → priority_loop ps priority best i ≡ (choose higher ps priority best i).1
unfolding priority_loop choose
priority_loop-choose [] priority best i = refl
priority_loop-choose (p ∷ ps) priority best i = elim (Bool-cases (ltb_ℤ priority p.priority)) [
  | inl wins ↦ rw wins (priority_loop-choose ps p.priority i (suc i))
  | inr loses ↦ rw loses (priority_loop-choose ps priority best (suc i))
]

feedback_loop-choose :
    (ps : List Process) (priority : ℤ) (best i : ℕ)
    → feedback_loop ps priority best i ≡ choose lower ps priority best i
unfolding feedback_loop choose
feedback_loop-choose [] priority best i = refl
feedback_loop-choose (p ∷ ps) priority best i = elim (Bool-cases (ltb_ℤ p.priority priority)) [
  | inl wins ↦ rw wins (feedback_loop-choose ps p.priority i (suc i))
  | inr loses ↦ rw loses (feedback_loop-choose ps priority best (suc i))
]

pub priority_loop-Best :
    (first : Process) (rest : List Process)
    → (priority : ℤ) × Best higher
        (first ∷ rest)
        priority
        (priority_loop (first ∷ rest) first.priority 0 0)
priority_loop-Best first rest = (
  (choose higher (first ∷ rest) first.priority 0 0).0,
  rw (priority_loop-choose (first ∷ rest) first.priority 0 0) (
      choose_first higher (λ a. ground arith) (λ a b c h k. ground arith)
        (λ a b c h k. ground arith) first rest),
)

pub feedback_loop-Best :
    (first : Process) (rest : List Process)
    → Best lower
        (first ∷ rest)
        (feedback_loop (first ∷ rest) first.priority 0 0).0
        (feedback_loop (first ∷ rest) first.priority 0 0).1
feedback_loop-Best first rest = rw (feedback_loop-choose (first ∷ rest) first.priority 0 0) (
    choose_first lower (λ a. ground arith) (λ a b c h k. ground arith) (λ a b c h k. ground arith)
      first rest)
