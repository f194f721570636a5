-- ===== src/Idt/Install.antt =====
-- `install_ir` and the loops of `interrupt_init`, gate by gate.
use she_x_mini_operating_sys.Base.{
  ℕ, ◌/◌, ◌^◌, ◌≤◌, ◌<◌, ◌≡◌, ◌≢◌, refl, ap, sym, eq→==, ==→eq, ◌⊎◌, Bool, true, false, List, [],
  ◌∷◌, arith, leb, ◌==◌, if◌then◌else◌, get_or, ◌∙◌,
}
use she_x_mini_operating_sys.Base.Masks.{bit_and_low}
use she_x_mini_operating_sys.Idt.{IdtTable, install_ir, gate_flags}
use she_x_mini_operating_sys.Idt.Handlers.{
  Handler, default_handler, isr32, isr33, isr34, isr35, isr36, isr37, isr38, isr39, isr46, isr47,
  divide_by_zero_fault, single_step_trap, nmi_trap, breakpoint_trap, overflow_trap,
  bounds_check_fault, invalid_opcode_fault, no_device_fault, double_fault_abort, invalid_tss_fault,
  no_segment_fault, stack_fault, general_protection_fault, page_fault, fpu_fault,
  alignment_check_fault, machine_check_abort, simd_fpu_fault,
}
use she_x_mini_operating_sys.Base.Check.{passes_below, passes}
use she_x_mini_operating_sys.Idt.Table.{IsGate, handler_at}

in_table : (i : ℕ) → i < 256 → leb 256 i ≡ false
in_table i h = ground arith

pub install_ir_self :
    (t : IdtTable) (i a : ℕ) → i < 256 → a < 2 ^ 32 → IsGate a (install_ir t i gate_flags 0x08 a i)
unfolding install_ir
install_ir_self t i a h l =
    rw (in_table i h, eq→== i i refl)
      (record {
        leads = omega (arith, bit_and_low 16 a, bit_and_low 16 (a / 2 ^ 16));
        segment = refl;
        present = refl;
        reserved = refl;
      })

-- `install_ir` changes no other entry, and nothing at all past the end of the table.
pub install_ir_other :
    (t : IdtTable) (k i flags sel a : ℕ) → (k ≢ i) ⊎ (256 ≤ k) → install_ir t k flags sel a i ≡ t i
unfolding install_ir
install_ir_other t k i flags sel a h = ground arith

-- A number for each handler, to compare handlers by evaluation.
unfoldable pub number : Handler → ℕ
number default_handler = 0
number isr32 = 1
number isr33 = 2
number isr34 = 3
number isr35 = 4
number isr36 = 5
number isr37 = 6
number isr38 = 7
number isr39 = 8
number isr46 = 9
number isr47 = 10
number divide_by_zero_fault = 11
number single_step_trap = 12
number nmi_trap = 13
number breakpoint_trap = 14
number overflow_trap = 15
number bounds_check_fault = 16
number invalid_opcode_fault = 17
number no_device_fault = 18
number double_fault_abort = 19
number invalid_tss_fault = 20
number no_segment_fault = 21
number stack_fault = 22
number general_protection_fault = 23
number page_fault = 24
number fpu_fault = 25
number alignment_check_fault = 26
number machine_check_abort = 27
number simd_fpu_fault = 28

abbrev handlers : List Handler
handlers =
    default_handler ∷ isr32 ∷ isr33 ∷ isr34 ∷ isr35 ∷ isr36 ∷ isr37 ∷ isr38 ∷ isr39 ∷ isr46 ∷ isr47
    ∷ divide_by_zero_fault ∷ single_step_trap ∷ nmi_trap ∷ breakpoint_trap ∷ overflow_trap
    ∷ bounds_check_fault ∷ invalid_opcode_fault ∷ no_device_fault ∷ double_fault_abort
    ∷ invalid_tss_fault ∷ no_segment_fault ∷ stack_fault ∷ general_protection_fault ∷ page_fault
    ∷ fpu_fault ∷ alignment_check_fault ∷ machine_check_abort ∷ simd_fpu_fault ∷ []

of_number : (h : Handler) → get_or handlers (number h) default_handler ≡ h
unfolding number
of_number default_handler = refl
of_number isr32 = refl
of_number isr33 = refl
of_number isr34 = refl
of_number isr35 = refl
of_number isr36 = refl
of_number isr37 = refl
of_number isr38 = refl
of_number isr39 = refl
of_number isr46 = refl
of_number isr47 = refl
of_number divide_by_zero_fault = refl
of_number single_step_trap = refl
of_number nmi_trap = refl
of_number breakpoint_trap = refl
of_number overflow_trap = refl
of_number bounds_check_fault = refl
of_number invalid_opcode_fault = refl
of_number no_device_fault = refl
of_number double_fault_abort = refl
of_number invalid_tss_fault = refl
of_number no_segment_fault = refl
of_number stack_fault = refl
of_number general_protection_fault = refl
of_number page_fault = refl
of_number fpu_fault = refl
of_number alignment_check_fault = refl
of_number machine_check_abort = refl
of_number simd_fpu_fault = refl

pub number-injective : (g h : Handler) → number g ≡ number h → g ≡ h
number-injective g h e =
    sym (of_number g) ∙ ap (λ n. get_or handlers n default_handler) e ∙ of_number h

-- A run of installations, the later ones over the earlier: the handler that it leaves at `i`.
abbrev pub assign : List (ℕ × Handler) → ℕ → Handler → Handler
assign [] i h = h
assign ((k, g) ∷ rest) i h = assign rest i (if k == i then g else h)

abbrev pub code_entries : List (ℕ × Handler)
code_entries =
    (32, isr32)
    ∷ (33, isr33)
    ∷ (34, isr34)
    ∷ (35, isr35)
    ∷ (36, isr36)
    ∷ (37, isr37)
    ∷ (46, isr46)
    ∷ (47, isr47)
    ∷ (0, divide_by_zero_fault)
    ∷ (1, single_step_trap)
    ∷ (2, nmi_trap)
    ∷ (3, breakpoint_trap)
    ∷ (4, overflow_trap)
    ∷ (5, bounds_check_fault)
    ∷ (6, invalid_opcode_fault)
    ∷ (7, no_device_fault)
    ∷ (8, invalid_tss_fault)
    ∷ (9, no_segment_fault)
    ∷ (10, stack_fault)
    ∷ (11, general_protection_fault)
    ∷ (12, page_fault)
    ∷ (13, fpu_fault)
    ∷ (14, alignment_check_fault)
    ∷ (15, machine_check_abort)
    ∷ (16, simd_fpu_fault)
    ∷ []

abbrev same_handler : ℕ → Bool
same_handler i = number (assign code_entries i default_handler) == number (handler_at i)

entries_table : passes_below same_handler 256 ≡ true
unfolding passes_below number
entries_table = refl

pub assign-code_entries : (i : ℕ) → i < 256 → assign code_entries i default_handler ≡ handler_at i
assign-code_entries i h =
    number-injective _ _ (==→eq _ _ (passes same_handler 256 entries_table i h))
