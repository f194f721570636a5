-- ===== src/Idt/Handlers.antt =====
-- The handlers of kernal/hal/inthandling.c: each prints its message and words of the stack, and stops.
use Prim.Native.String.{String}
use she_x_mini_operating_sys.Base.{ℕ, List, [], ◌∷◌}

-- The functions and labels whose addresses go into the table, and `double_fault_abort`, `isr38` and
-- `isr39`, which are declared too. The labels `isr34` to `isr39` stand at one address, and `isr46` and
-- `isr47` at another.
pub data Handler : Type 0 where
  default_handler : Handler
  isr32 isr33 isr34 isr35 isr36 isr37 isr38 isr39 isr46 isr47 : Handler
  divide_by_zero_fault single_step_trap nmi_trap breakpoint_trap overflow_trap : Handler
  bounds_check_fault invalid_opcode_fault no_device_fault double_fault_abort : Handler
  invalid_tss_fault no_segment_fault stack_fault general_protection_fault page_fault : Handler
  fpu_fault alignment_check_fault machine_check_abort simd_fpu_fault : Handler

pub data Print : Type 0 where
  puts : String → Print
  printhex : ℕ → Print

-- A handler that prints `cs`, `eip` and `flags`, and one that prints `err` too.
abbrev report : String → ℕ → ℕ → ℕ → List Print
report message cs eip flags = puts message ∷ printhex cs ∷ printhex eip ∷ printhex flags ∷ []

abbrev report_err : String → ℕ → ℕ → ℕ → ℕ → List Print
report_err message cs eip flags err =
    puts message ∷ printhex cs ∷ printhex eip ∷ printhex flags ∷ printhex err ∷ []

-- What a handler prints, from its parameters in the order of its declaration, before it stops in
-- `for (;;)`. The stubs print nothing. Only `divide_by_zero_fault`, of those with three
-- parameters, has `eip` first.
unfoldable pub handler_prints : Handler → ℕ → ℕ → ℕ → ℕ → List Print
handler_prints default_handler a b c d = puts "This is the default exception handler" ∷ []
handler_prints divide_by_zero_fault eip cs flags _ = report "Divide by 0 :" cs eip flags
handler_prints single_step_trap cs eip flags _ = report "Single step :" cs eip flags
handler_prints nmi_trap cs eip flags _ = report "NMI :" cs eip flags
handler_prints breakpoint_trap cs eip flags _ = report "Breakpoint :" cs eip flags
handler_prints overflow_trap cs eip flags _ = report "Overflow :" cs eip flags
handler_prints bounds_check_fault cs eip flags _ = report "Bounds check :" cs eip flags
handler_prints invalid_opcode_fault cs eip flags _ = report "Invalid opcode :" cs eip flags
handler_prints no_device_fault cs eip flags _ = report "Invalid device :" cs eip flags
handler_prints double_fault_abort eip cs flags err = report_err "Doublefault :" cs eip flags err
handler_prints invalid_tss_fault eip cs flags err = report_err "Invalid TSS :" cs eip flags err
handler_prints no_segment_fault eip cs flags err = report_err "Invalid segment:" cs eip flags err
handler_prints stack_fault eip cs flags err = report_err "Stack fault :" cs eip flags err
handler_prints general_protection_fault eip cs flags err = report_err "GP :" cs eip flags err
handler_prints page_fault eip cs flags err = report_err "Page fault :" cs eip flags err
handler_prints fpu_fault cs eip flags _ = report "FPU fault :" cs eip flags
handler_prints alignment_check_fault eip cs flags err =
    report_err "Alignment check :" cs eip flags err
handler_prints machine_check_abort cs eip flags _ = report "Machine check :" cs eip flags
handler_prints simd_fpu_fault cs eip flags _ = report "FPU SIMD :" cs eip flags
handler_prints _ a b c d = []
