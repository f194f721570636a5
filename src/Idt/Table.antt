-- ===== src/Idt/Table.antt =====
-- What the interrupt table is to hold: a gate to the handler behind each of the 256 vectors.
use she_x_mini_operating_sys.Base.{
  ℕ, ◌+◌, ◌-◌, ◌*◌, ◌^◌, ◌≡◌, List, [], ◌∷◌, ltb, if◌then◌else◌, get_or,
}
use she_x_mini_operating_sys.Idt.{IdtDescriptor}
use she_x_mini_operating_sys.Idt.Handlers.{
  Handler, default_handler, isr32, isr33, isr34, isr35, isr36, isr37, isr46, isr47,
  divide_by_zero_fault, single_step_trap, nmi_trap, breakpoint_trap, overflow_trap,
  bounds_check_fault, invalid_opcode_fault, no_device_fault, invalid_tss_fault, no_segment_fault,
  stack_fault, general_protection_fault, page_fault, fpu_fault, alignment_check_fault,
  machine_check_abort, simd_fpu_fault,
}

-- The handler behind a vector: those of the exceptions, of the IRQs that are used, and the default.
abbrev vectors : List Handler
vectors =
    divide_by_zero_fault ∷ single_step_trap ∷ nmi_trap ∷ breakpoint_trap ∷ overflow_trap
    ∷ bounds_check_fault ∷ invalid_opcode_fault ∷ no_device_fault ∷ invalid_tss_fault
    ∷ no_segment_fault ∷ stack_fault ∷ general_protection_fault ∷ page_fault ∷ fpu_fault
    ∷ alignment_check_fault ∷ machine_check_abort ∷ simd_fpu_fault ∷ []

abbrev irqs : List Handler
irqs = isr32 ∷ isr33 ∷ isr34 ∷ isr35 ∷ isr36 ∷ isr37 ∷ []

abbrev ata_irqs : List Handler
ata_irqs = isr46 ∷ isr47 ∷ []

abbrev pub handler_at : ℕ → Handler
handler_at i =
    if ltb i 32
    then get_or vectors i default_handler
    else (if ltb i 46
        then get_or irqs (i - 32) default_handler
        else get_or ata_irqs (i - 46) default_handler)

-- The address that the processor reads from a gate.
abbrev pub target : IdtDescriptor → ℕ
target d = d.base_low + d.base_high * 2 ^ 16

-- A present 32-bit interrupt gate of the kernel's code segment that leads to `handler_address`.
pub record IsGate (handler_address : ℕ) (d : IdtDescriptor) : Type 0 where
  pub leads : target d ≡ handler_address
  pub segment : d.sel ≡ 0x08
  pub present : d.flags ≡ 0x8e
  pub reserved : d.reserved ≡ 0
