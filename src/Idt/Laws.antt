-- ===== src/Idt/Laws.antt =====
-- The table that `interrupt_init` leaves, vector by vector.
use native.Mathlib.Decide.{ℕ_discrete}
use she_x_mini_operating_sys.Base.{
  ℕ, zero, suc, ◌+◌, ◌^◌, ◌≤◌, ◌<◌, ◌≡◌, refl, eq→==, ne→==, ◌⊎◌, Bool, true, false, List, [], ◌∷◌,
  arith, ◌==◌, if◌then◌else◌, inl, inr,
}
use she_x_mini_operating_sys.Idt.{
  IdtTable, install, clear_loop, default_loop, install_irqs, install_exceptions, interrupt_table,
  max_interrupts, gate_flags,
}
use she_x_mini_operating_sys.Idt.Handlers.{Handler, default_handler}
use she_x_mini_operating_sys.Idt.Table.{IsGate, handler_at}
use she_x_mini_operating_sys.Idt.Install.{
  install_ir_self, install_ir_other, assign, code_entries, assign-code_entries,
}

if_self {ℓ} : {A : Type ℓ} (b : Bool) (x : A) → (if b then x else x) ≡ x
if_self true x = refl
if_self false x = refl

module _ (address : Handler → ℕ) (fits : (h : Handler) → address h < 2 ^ 32) where
  abbrev install_all : List (ℕ × Handler) → IdtTable → IdtTable
  install_all [] t = t
  install_all ((k, h) ∷ rest) t = install_all rest (install address t k h)

  install-IsGate :
      (t : IdtTable) (k i : ℕ) (g h : Handler)
      → i < 256
      → IsGate (address h) (t i)
      → IsGate (address (if k == i then g else h)) (install address t k g i)
  install-IsGate t k i g h l gate = elim (ℕ_discrete k i) [
    | yes e ↦ rw (eq→== k i e) (rw e (install_ir_self t i (address g) l (fits g)))
    | no ne ↦ rw (ne→== k i ne, install_ir_other t k i gate_flags 0x08 (address g) (inl ne)) gate
  ]

  install_all-IsGate :
      (entries : List (ℕ × Handler)) (t : IdtTable) (i : ℕ) (h : Handler)
      → i < 256
      → IsGate (address h) (t i)
      → IsGate (address (assign entries i h)) (install_all entries t i)
  install_all-IsGate [] t i h l gate = gate
  install_all-IsGate ((k, g) ∷ rest) t i h l gate =
      install_all-IsGate rest (install address t k g) i (if k == i then g else h) l
        (install-IsGate t k i g h l gate)

  -- The loop from `i` on reaches every entry up to 255.
  default_loop-IsGate :
      (left i j : ℕ) (t : IdtTable)
      → j < 256
      → ((i ≤ j) × (j < i + left)) ⊎ IsGate (address default_handler) (t j)
      → IsGate (address default_handler) (default_loop address left i t j)
  unfolding default_loop
  default_loop-IsGate zero i j t l (inl (lo, hi)) = absurd (omega arith)
  default_loop-IsGate zero i j t l (inr gate) = gate
  default_loop-IsGate (suc left) i j t l reached =
      default_loop-IsGate left (i + 1) j (install address t i default_handler) l (next reached)
    where
      next :
          ((i ≤ j) × (j < i + suc left)) ⊎ IsGate (address default_handler) (t j)
          → ((i + 1 ≤ j) × (j < i + 1 + left))
            ⊎ IsGate (address default_handler) (install address t i default_handler j)
      next (inr gate) = inr (
          rw (if_self (i == j) default_handler) at
            (install-IsGate t i j default_handler default_handler l gate))
      next (inl (lo, hi)) = elim (ℕ_discrete i j) [
        | yes e ↦
            inr (rw e (install_ir_self t j (address default_handler) l (fits default_handler)))
        | no ne ↦ inl (omega arith, omega arith)
      ]

  -- After `interrupt_init` each of the 256 vectors has a present 32-bit gate of the kernel's code
  -- segment that leads to the handler of `handler_at`, whatever the table held, where the handlers'
  -- addresses have 32 bits.
  pub interrupt_table-IsGate :
      (t : IdtTable) (i : ℕ)
      → i < 256
      → IsGate (address (handler_at i)) (interrupt_table address t i)
  unfolding interrupt_table install_irqs install_exceptions
  interrupt_table-IsGate t i l = rw (← assign-code_entries i l) (
      install_all-IsGate code_entries
        (default_loop address max_interrupts 0 (clear_loop max_interrupts 0 t)) i default_handler l
        (default_loop-IsGate max_interrupts 0 i (clear_loop max_interrupts 0 t) l
          (inl (omega arith, omega arith))))
