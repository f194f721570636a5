-- ===== src/Idt.antt =====
-- kernal/hal/inthandling.c: the interrupt descriptor table, the PIC, and the exception handlers;
-- the stubs of kernal/hal/interruptstubs.asm call the drivers and acknowledge the PIC.
pub mod Handlers
pub mod Table
pub mod Install
pub mod Laws
pub mod Vectors
mod Tests
use she_x_mini_operating_sys.Base.{
  ℕ, zero, suc, ◌+◌, ◌*◌, ◌/◌, ◌%◌, ◌^◌, ◌-◌, Bool, true, List, [], ◌∷◌, leb, if◌then◌else◌, update,
  u8, u16, ◌>>>◌, bit_and, bit_or,
}
use she_x_mini_operating_sys.Idt.Handlers.{
  Handler, default_handler, isr32, isr33, isr34, isr35, isr36, isr37, isr46, isr47,
  divide_by_zero_fault, single_step_trap, nmi_trap, breakpoint_trap, overflow_trap,
  bounds_check_fault, invalid_opcode_fault, no_device_fault, invalid_tss_fault, no_segment_fault,
  stack_fault, general_protection_fault, page_fault, fpu_fault, alignment_check_fault,
  machine_check_abort, simd_fpu_fault,
}

abbrev pub max_interrupts : ℕ
max_interrupts = 256

abbrev idt_desc_bit32 : ℕ
idt_desc_bit32 = 0x0e

abbrev idt_desc_present : ℕ
idt_desc_present = 0x80

pub record IdtDescriptor : Type 0 where
  pub base_low : ℕ
  pub sel : ℕ
  pub reserved : ℕ
  pub flags : ℕ
  pub base_high : ℕ

-- `_idt[256]`, as the descriptor at each index.
abbrev pub IdtTable : Type 0
IdtTable = ℕ → IdtDescriptor

-- The casts of the fields are those of `hal.h`: `flags` has 8 bits, the rest 16.
pub install_ir : IdtTable → ℕ → ℕ → ℕ → ℕ → IdtTable
install_ir idt index flags sel handler_address =
    if leb max_interrupts index
    then idt
    else update idt index (record {
      base_low = u16 (bit_and handler_address 0xffff);
      sel = u16 sel;
      reserved = 0;
      flags = u8 flags;
      base_high = u16 (bit_and (handler_address >>> 16) 0xffff);
    })

abbrev pub gate_flags : ℕ
gate_flags = bit_or idt_desc_bit32 idt_desc_present

abbrev empty_descriptor : IdtDescriptor
empty_descriptor = record { base_low = 0; sel = 0; reserved = 0; flags = 0; base_high = 0 }

-- The loop that clears the entries from `i` on.
pub clear_loop : ℕ → ℕ → IdtTable → IdtTable
clear_loop zero i idt = idt
clear_loop (suc left) i idt = clear_loop left (i + 1) (update idt i empty_descriptor)

-- The linker places the handlers.
module _ (address : Handler → ℕ) where
  abbrev pub install : IdtTable → ℕ → Handler → IdtTable
  install idt index handler = install_ir idt index gate_flags 0x08 (address handler)

  -- The loop that installs the default handler from `i` on.
  pub default_loop : ℕ → ℕ → IdtTable → IdtTable
  default_loop zero i idt = idt
  default_loop (suc left) i idt = default_loop left (i + 1) (install idt i default_handler)

  pub install_irqs : IdtTable → IdtTable
  install_irqs t =
      let t32 = install t 32 isr32 in
      let t33 = install t32 33 isr33 in
      let t34 = install t33 34 isr34 in
      let t35 = install t34 35 isr35 in
      let t36 = install t35 36 isr36 in
      let t37 = install t36 37 isr37 in let t46 = install t37 46 isr46 in install t46 47 isr47

  pub install_exceptions : IdtTable → IdtTable
  install_exceptions t =
      let t0 = install t 0 divide_by_zero_fault in
      let t1 = install t0 1 single_step_trap in
      let t2 = install t1 2 nmi_trap in
      let t3 = install t2 3 breakpoint_trap in
      let t4 = install t3 4 overflow_trap in
      let t5 = install t4 5 bounds_check_fault in
      let t6 = install t5 6 invalid_opcode_fault in
      let t7 = install t6 7 no_device_fault in
      let t8 = install t7 8 invalid_tss_fault in
      let t9 = install t8 9 no_segment_fault in
      let t10 = install t9 10 stack_fault in
      let t11 = install t10 11 general_protection_fault in
      let t12 = install t11 12 page_fault in
      let t13 = install t12 13 fpu_fault in
      let t14 = install t13 14 alignment_check_fault in
      let t15 = install t14 15 machine_check_abort in install t15 16 simd_fpu_fault

  -- The table that `interrupt_init` leaves.
  pub interrupt_table : IdtTable → IdtTable
  interrupt_table idt =
      install_exceptions
        (install_irqs (default_loop max_interrupts 0 (clear_loop max_interrupts 0 idt)))

-- A write to a port: the port and the value.
abbrev pub PortWrite : Type 0
PortWrite = ℕ × ℕ

pub init_pic : List PortWrite
init_pic =
    (0x20, 0x11)
    ∷ (0xA0, 0x11)
    ∷ (0x21, 0x20)
    ∷ (0xA1, 0x28)
    ∷ (0x21, 0x04)
    ∷ (0xA1, 0x02)
    ∷ (0x21, 0x01)
    ∷ (0xA1, 0x01)
    ∷ (0x21, 0)
    ∷ (0xA1, 0)
    ∷ []

pub send_eoi_master : List PortWrite
send_eoi_master = (0x20, 0x20) ∷ []

pub send_eoi_slave : List PortWrite
send_eoi_slave = (0xA0, 0x20) ∷ []

-- `interrupt_init`: the table, the register's image and its address for `install_idt`, and the writes
-- to the PIC. It ends by enabling interrupts.
pub record IdtState : Type 0 where
  pub idt : IdtTable
  pub idtr_base : ℕ
  pub idtr_limit : ℕ
  pub pic_writes : List PortWrite
  pub installed : ℕ
  pub interrupts_enabled : Bool

pub interrupt_init : (Handler → ℕ) → ℕ → ℕ → IdtTable → IdtState
unfolding interrupt_table init_pic
interrupt_init address idt_address idtr_address idt = record {
  idt = interrupt_table address idt;
  idtr_base = idt_address;
  idtr_limit = 8 * max_interrupts - 1;
  pic_writes = init_pic;
  installed = idtr_address;
  interrupts_enabled = true;
}
