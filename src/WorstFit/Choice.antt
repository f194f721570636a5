-- ===== src/WorstFit/Choice.antt =====
-- The inner loop of kernal/memory_management/worst_fit.c: which block it chooses.
use mathlib.Core.Path.{subst}
use she_x_mini_operating_sys.Base.{
  ℕ, zero, suc, ◌+◌, ◌-◌, ◌≤◌, ◌<◌, ◌≡◌, refl, Bool, true, false, ◌&&◌, Option, none, some, arith,
  ltb, leb, ◌==◌, if◌then◌else◌, Bool-cases, inl, inr,
}
use she_x_mini_operating_sys.WorstFit.{choose_loop, is_higher}

-- Of the first `n` blocks, the file goes to block `j`: it is free, the file fits and leaves `highest`,
-- no free block is larger, and none of that size comes before it.
pub record Chosen (b bf : ℕ → ℕ) (size n highest j : ℕ) : Type 0 where
  pub inside : j < n
  pub free : bf j ≡ 0
  pub rest : size + highest ≡ b j
  pub largest : (i : ℕ) → i < n → bf i ≡ 0 → b i ≤ b j
  pub first : (i : ℕ) → i < n → bf i ≡ 0 → b i ≡ b j → j ≤ i

-- The choice for a file among the first `n` blocks, or none where every free block is too small.
abbrev pub IsWorstFit : (ℕ → ℕ) → (ℕ → ℕ) → ℕ → ℕ → Option (ℕ × ℕ) → Type 0
IsWorstFit b bf size n none = (i : ℕ) → i < n → bf i ≡ 0 → b i < size
IsWorstFit b bf size n (some (highest, j)) = Chosen b bf size n highest j

last_or_before : {P : ℕ → Type 0} → (n i : ℕ) → ((k : ℕ) → k < n → P k) → P n → i < n + 1 → P i
last_or_before {P} n i before last below = elim (Bool-cases (ltb i n)) [
  | inl less ↦ before i (ground arith)
  | inr more ↦ let here : n ≡ i = ground arith in subst P here last
]

-- One more block.
choose_step :
    (b bf : ℕ → ℕ) (size n : ℕ) (best : Option (ℕ × ℕ)) (pick : Bool)
    → ((bf n == 0) && (leb size (b n) && is_higher (b n - size) best)) ≡ pick
    → IsWorstFit b bf size n best
    → IsWorstFit b bf size (n + 1) (if pick then some (b n - size, n) else best)
choose_step b bf size n none true e w = record {
  inside = omega arith;
  free = ground arith;
  rest = ground arith;
  largest = λ i.
      last_or_before {P = λ i. bf i ≡ 0 → b i ≤ b n} n i
        (λ k below free. ground (arith, w k below free)) (λ free. omega arith);
  first = λ i.
      last_or_before {P = λ i. bf i ≡ 0 → b i ≡ b n → n ≤ i} n i
        (λ k below free same. ground (arith, w k below free)) (λ free same. omega arith);
}
choose_step b bf size n none false e w =
    λ i. last_or_before {P = λ i. bf i ≡ 0 → b i < size} n i w (λ free. ground arith)
choose_step b bf size n (some (highest, j)) true e w = record {
  inside = omega arith;
  free = ground arith;
  rest = ground arith;
  largest = λ i.
      last_or_before {P = λ i. bf i ≡ 0 → b i ≤ b n} n i
        (λ k below free. ground (arith, w.largest k below free, w.rest)) (λ free. omega arith);
  first = λ i.
      last_or_before {P = λ i. bf i ≡ 0 → b i ≡ b n → n ≤ i} n i
        (λ k below free same. ground (arith, w.largest k below free, w.rest))
        (λ free same. omega arith);
}
choose_step b bf size n (some (highest, j)) false e w = record {
  inside = omega (arith, w.inside);
  free = w.free;
  rest = w.rest;
  largest = λ i.
      last_or_before {P = λ i. bf i ≡ 0 → b i ≤ b j} n i w.largest (λ free. ground (arith, w.rest));
  first = λ i.
      last_or_before {P = λ i. bf i ≡ 0 → b i ≡ b j → j ≤ i} n i w.first
        (λ free same. omega (arith, w.inside));
}

choose_loop_lem :
    (b bf : ℕ → ℕ) (size left j n : ℕ) (best : Option (ℕ × ℕ))
    → n ≡ j + left
    → IsWorstFit b bf size j best
    → IsWorstFit b bf size n (choose_loop b bf size left j best)
unfolding choose_loop
choose_loop_lem b bf size zero j n best e w =
    let end : j ≡ n = omega arith in subst (λ n. IsWorstFit b bf size n best) end w
choose_loop_lem b bf size (suc left) j n best e w =
    let pick = (bf j == 0) && (leb size (b j) && is_higher (b j - size) best) in
    let next : Option (ℕ × ℕ) = if pick then some (b j - size, j) else best in
    choose_loop_lem b bf size left (j + 1) n next (omega arith)
      (choose_step b bf size j best pick refl w)

-- For each file the inner loop finds the free block that leaves the largest rest, the first of these,
-- and finds none exactly where the file fits into no free block.
pub choose_loop-IsWorstFit :
    (b bf : ℕ → ℕ) (size nb : ℕ) → IsWorstFit b bf size nb (choose_loop b bf size nb 0 none)
choose_loop-IsWorstFit b bf size nb =
    choose_loop_lem b bf size nb 0 nb none (omega arith) (λ i below free. absurd (omega arith))
