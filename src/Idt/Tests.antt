-- ===== src/Idt/Tests.antt =====
-- The theorems about kernal/hal/inthandling.c at concrete inputs.
use she_x_mini_operating_sys.Base.{
  ℕ, ◌+◌, ◌*◌, ◌^◌, ◌<◌, ◌≡◌, ◌≢◌, ◌≤◌, ◌⊎◌, ◌∙◌, refl, sym, true, false, arith, [], ◌∷◌,
}
use she_x_mini_operating_sys.Idt.{IdtTable, interrupt_table}
use she_x_mini_operating_sys.Idt.Handlers.{Handler, handler_prints, page_fault, puts, printhex}
use she_x_mini_operating_sys.Idt.Table.{IsGate, handler_at, target}
use she_x_mini_operating_sys.Idt.Install.{number, number-injective}
use she_x_mini_operating_sys.Idt.Laws.{interrupt_table-IsGate}
use she_x_mini_operating_sys.Idt.Vectors.{exceptions_shifted, named_for, is_stub}

abbrev blank : IdtTable
blank i = record { base_low = 1; sel = 2; reserved = 3; flags = 4; base_high = 5 }

-- The first of the labels that stand at one address.
abbrev first_label : Handler → Handler
first_label Handler.isr35 = Handler.isr34
first_label Handler.isr36 = Handler.isr34
first_label Handler.isr37 = Handler.isr34
first_label Handler.isr38 = Handler.isr34
first_label Handler.isr39 = Handler.isr34
first_label Handler.isr47 = Handler.isr46
first_label h = h

-- The handlers, 16 bytes apart but for the labels that share an address.
abbrev address : Handler → ℕ
address h = 0xc000_0000 + 16 * number (first_label h)

page_fault_text :
    handler_prints page_fault 1 8 2 3
    ≡ puts "Page fault :" ∷ printhex 8 ∷ printhex 1 ∷ printhex 2 ∷ printhex 3 ∷ []
unfolding handler_prints
page_fault_text = refl

true_ne_false : true ≡ false → ⊥
true_ne_false e = cc

number-lt : (h : Handler) → number h < 32
unfolding number
number-lt Handler.default_handler = omega arith
number-lt _ = omega arith

address-fits : (h : Handler) → address h < 2 ^ 32
address-fits h = omega (arith, number-lt (first_label h))

first_label_function : (h : Handler) → is_stub h ≡ false → first_label h ≡ h
first_label_function Handler.isr35 e = absurd (true_ne_false e)
first_label_function Handler.isr36 e = absurd (true_ne_false e)
first_label_function Handler.isr37 e = absurd (true_ne_false e)
first_label_function Handler.isr38 e = absurd (true_ne_false e)
first_label_function Handler.isr39 e = absurd (true_ne_false e)
first_label_function Handler.isr47 e = absurd (true_ne_false e)
first_label_function _ e = refl

address-injective :
    (g h : Handler) → is_stub g ≡ false → is_stub h ≡ false → address g ≡ address h → g ≡ h
address-injective g h f f' e =
    sym (first_label_function g f)
    ∙ number-injective (first_label g) (first_label h) (omega arith)
    ∙ first_label_function h f'

interrupt_table-IsGate_example : IsGate (address (handler_at 33)) (interrupt_table address blank 33)
interrupt_table-IsGate_example = interrupt_table-IsGate address address-fits blank 33 (omega arith)

exceptions_shifted_example :
    ((14 < 8) × (target (interrupt_table address blank 14) ≡ address (named_for 14)))
    ⊎ ((8 ≤ 14) × (target (interrupt_table address blank 14) ≢ address (named_for 14)))
exceptions_shifted_example =
    exceptions_shifted address blank 14 address-fits address-injective (omega arith)
