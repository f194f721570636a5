-- ===== src/Keyboard/Tests.antt =====
-- Keys pressed on the keyboard, and the theorems at these presses.
use she_x_mini_operating_sys.Base.{◌≡◌, refl, true, false}
use she_x_mini_operating_sys.Keyboard.{
  Keyboard, keyboard_handler, make_code, table_word, shift_case,
}
use she_x_mini_operating_sys.Keyboard.Laws.{Modifiers, keyboard_handler-Modifiers}
use she_x_mini_operating_sys.Keyboard.Typing.{latest_char-typed}

abbrev shift_held : Keyboard
shift_held = record {
  latest_char = 0;
  latest_scan_code = 0x2a;
  is_keyboard_interrupt = false;
  is_shift_pressed = true;
  caps_toggle = false;
  num_lock_toggle = false;
}

-- With shift held, the key of `a` gives `A` and the key of `1` gives `!`; shift and space leave `!`.
big_a : (keyboard_handler (λ i. 0) shift_held 0x1e 0).latest_char ≡ b'A'
unfolding keyboard_handler make_code table_word
big_a = refl

space_after_sign :
    (keyboard_handler (λ i. 0) (keyboard_handler (λ i. 0) shift_held 0x02 0) 0x39 0).latest_char
    ≡ b'!'
unfolding keyboard_handler make_code table_word shift_case
space_after_sign = refl

keyboard_handler-Modifiers_example :
    Modifiers shift_held (keyboard_handler (λ i. 0) shift_held 0xaa 0) 0xaa
keyboard_handler-Modifiers_example = keyboard_handler-Modifiers (λ i. 0) shift_held 0xaa 0

latest_char-typed_example : (keyboard_handler (λ i. 0) shift_held 0x02 0).latest_char ≡ b'!'
latest_char-typed_example = latest_char-typed (λ i. 0) shift_held 0x02 0 b'1' b'!' refl
