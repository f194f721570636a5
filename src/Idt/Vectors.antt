-- ===== src/Idt/Vectors.antt =====
-- The exception vectors of the x86 against the handlers that kernal/hal/inthandling.c installs there.
use native.Mathlib.Decide.{dec_lt}
use she_x_mini_operating_sys.Base.{
  ℕ, ◌<◌, ◌≤◌, ◌≡◌, ◌≢◌, ◌^◌, refl, sym, ap, Bool, true, false, not, ◌&&◌, List, [], ◌∷◌, arith,
  ltb, ◌==◌, get_or, ◌∙◌, ◌⊎◌, inl, inr, xor, ==→ne, ==→eq, lt→ltb, le→ltb,
}
use she_x_mini_operating_sys.Idt.{IdtTable, interrupt_table}
use she_x_mini_operating_sys.Idt.Table.{IsGate, handler_at, target}
use she_x_mini_operating_sys.Idt.Install.{number, number-injective}
use she_x_mini_operating_sys.Base.Check.{passes_below, passes}
use she_x_mini_operating_sys.Idt.Laws.{interrupt_table-IsGate}
use she_x_mini_operating_sys.Idt.Handlers.{
  Handler, divide_by_zero_fault, single_step_trap, nmi_trap, breakpoint_trap, overflow_trap,
  bounds_check_fault, invalid_opcode_fault, no_device_fault, double_fault_abort, default_handler,
  invalid_tss_fault, no_segment_fault, stack_fault, general_protection_fault, page_fault, fpu_fault,
  alignment_check_fault, machine_check_abort, simd_fpu_fault,
}

-- The handler named for each exception of the processor; vectors 9 and 15 are reserved.
abbrev pub x86_exceptions : List Handler
x86_exceptions =
    divide_by_zero_fault ∷ single_step_trap ∷ nmi_trap ∷ breakpoint_trap ∷ overflow_trap
    ∷ bounds_check_fault ∷ invalid_opcode_fault ∷ no_device_fault ∷ double_fault_abort
    ∷ default_handler ∷ invalid_tss_fault ∷ no_segment_fault ∷ stack_fault
    ∷ general_protection_fault ∷ page_fault ∷ default_handler ∷ fpu_fault ∷ alignment_check_fault
    ∷ machine_check_abort ∷ simd_fpu_fault ∷ []

abbrev pub named_for : ℕ → Handler
named_for v = get_or x86_exceptions v default_handler

abbrev fits_below_8 : ℕ → Bool
fits_below_8 v = not (xor (number (named_for v) == number (handler_at v)) (ltb v 8))

vectors_table : passes_below fits_below_8 20 ≡ true
unfolding passes_below number xor
vectors_table = refl

-- The labels of kernal/hal/interruptstubs.asm, several of which stand at one address. The other handlers
-- are functions of C.
abbrev pub is_stub : Handler → Bool
is_stub Handler.isr32 = true
is_stub Handler.isr33 = true
is_stub Handler.isr34 = true
is_stub Handler.isr35 = true
is_stub Handler.isr36 = true
is_stub Handler.isr37 = true
is_stub Handler.isr38 = true
is_stub Handler.isr39 = true
is_stub Handler.isr46 = true
is_stub Handler.isr47 = true
is_stub _ = false

abbrev no_stubs_at : ℕ → Bool
no_stubs_at v = not (is_stub (named_for v)) && not (is_stub (handler_at v))

functions_table : passes_below no_stubs_at 20 ≡ true
unfolding passes_below
functions_table = refl

number_test : (v : ℕ) → v < 20 → (number (named_for v) == number (handler_at v)) ≡ ltb v 8
unfolding xor
number_test v h = ground (arith, passes fits_below_8 20 vectors_table v h)

-- Where the handlers have 32-bit addresses, and those that are functions of C have different ones, the
-- gates of the exceptions below 8 lead to the handlers named for them, and those of the exceptions 8 to
-- 19 all lead to others.
pub exceptions_shifted :
    (address : Handler → ℕ) (t : IdtTable) (v : ℕ)
    → ((h : Handler) → address h < 2 ^ 32)
    → ((g h : Handler) → is_stub g ≡ false → is_stub h ≡ false → address g ≡ address h → g ≡ h)
    → v < 20
    → ((v < 8) × (target (interrupt_table address t v) ≡ address (named_for v)))
      ⊎ ((8 ≤ v) × (target (interrupt_table address t v) ≢ address (named_for v)))
exceptions_shifted address t v fits distinct h = elim (dec_lt v 8) [
  | yes low ↦ inl (
    low,
    leads ∙ ap address (number-injective _ _ (sym (==→eq _ _ (number_test v h ∙ lt→ltb v 8 low)))),
  )
  | no high ↦ inr (
    omega arith,
    λ e.
        ==→ne _ _ (number_test v h ∙ le→ltb v 8 (omega arith))
          (ap number (distinct _ _ at_name at_gate (sym e ∙ leads))),
  )
]
  where
    no_stubs : no_stubs_at v ≡ true
    no_stubs = passes no_stubs_at 20 functions_table v h

    at_name : is_stub (named_for v) ≡ false
    at_name = ground (arith, no_stubs)

    at_gate : is_stub (handler_at v) ≡ false
    at_gate = ground (arith, no_stubs)

    gate : IsGate (address (handler_at v)) (interrupt_table address t v)
    gate = interrupt_table-IsGate address fits t v (omega arith)

    leads : target (interrupt_table address t v) ≡ address (handler_at v)
    leads = gate.leads
