-- ===== src/Shell/Editor/Flush.antt =====
-- The command buffer of kernal/kernel/kshell.c as a string, and its clearing.
use she_x_mini_operating_sys.Base.{
  ℕ, zero, suc, ◌+◌, ◌<◌, ◌≤◌, ◌≡◌, ◌≢◌, inl, inr, refl, ap, ◌∙◌, true, false, Bool-cases, List, [],
  ◌∷◌, ◌==◌, update, length, get_or, arith,
}
use she_x_mini_operating_sys.Console.{chars}
use she_x_mini_operating_sys.Shell.Editor.{flush_loop, flush_command_buffer}

-- The string in a store is the list that stands there, with a 0 behind it.
pub chars_lem :
    (xs : List ℕ) (b : ℕ → ℕ) (fuel i : ℕ)
    → length xs < fuel
    → ((j : ℕ) → j ≤ length xs → b (i + j) ≡ get_or xs j 0)
    → ((j : ℕ) → j < length xs → get_or xs j 0 ≢ 0)
    → chars fuel b i ≡ xs
unfolding chars
chars_lem xs b zero i room holds ink = absurd (omega arith)
chars_lem [] b (suc fuel) i room holds ink =
    let end : (b i == 0) ≡ true = ground (arith, holds 0 (omega arith)) in rw end refl
chars_lem (x ∷ xs) b (suc fuel) i room holds ink =
    let here : b i ≡ x = ap b (omega arith) ∙ holds 0 (omega arith) in
    let inner : (x == 0) ≡ false = ground (arith, ink 0 (omega arith)) in
    rw (here, inner)
      (ap (λ ys. x ∷ ys)
        (chars_lem xs b fuel (suc i) (omega arith)
          (λ j h. ap b (omega arith) ∙ holds (suc j) (omega arith))
          (λ j h. ink (suc j) (omega arith))))

-- Behind a 0 the buffer holds nothing but zeros.
abbrev pub ZeroTail : (ℕ → ℕ) → Type 0
ZeroTail b = (j k : ℕ) → b j ≡ 0 → j ≤ k → k < 50 → b k ≡ 0

flush_loop_below : (left i : ℕ) (b : ℕ → ℕ) (j : ℕ) → j < i → flush_loop left i b j ≡ b j
unfolding flush_loop
flush_loop_below zero i b j h = refl
flush_loop_below (suc left) i b j h = elim (Bool-cases (b i == 0)) [
  | inl stop ↦ rw stop refl
  | inr go ↦ rw go (flush_loop_below left (suc i) (update b i 0) j (omega arith) ∙ ground arith)
]

flush_loop_lem :
    (left i : ℕ) (b : ℕ → ℕ)
    → i + left ≡ 50
    → ((j k : ℕ) → i ≤ j → b j ≡ 0 → j ≤ k → k < 50 → b k ≡ 0)
    → (j : ℕ) → i ≤ j
    → j < 50
    → flush_loop left i b j ≡ 0
unfolding flush_loop
flush_loop_lem zero i b size tail j low high = absurd (omega arith)
flush_loop_lem (suc left) i b size tail j low high = elim (Bool-cases (b i == 0)) [
  | inl stop ↦ rw stop (tail i j (omega arith) (ground arith) low high)
  | inr go ↦ rw go (elim (Bool-cases (i == j)) [
    | inl here ↦ flush_loop_below left (suc i) (update b i 0) j (ground arith) ∙ ground arith
    | inr other ↦
        flush_loop_lem left (suc i) (update b i 0) (omega arith)
          (λ p q a e c d. ground (arith, tail p q (omega arith) (ground arith) c d)) j
          (ground arith) high
  ])
]

-- Then the whole buffer is cleared, although the loop stops at the first 0.
pub flush_command_buffer_lem :
    (b : ℕ → ℕ) → ZeroTail b → (j : ℕ) → j < 50 → flush_command_buffer b j ≡ 0
flush_command_buffer_lem b tail j h =
    flush_loop_lem 50 0 b refl (λ p q a e c d. tail p q e c d) j (omega arith) h
