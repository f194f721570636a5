-- ===== src/Keyboard.antt =====
-- kernal/driver/keyboard.c: the keyboard interrupt handler and the state that it keeps. A byte that
-- the handler reads from port 0x60 is an argument.
pub mod Keys
pub mod Laws
pub mod Typing
mod Tests
use she_x_mini_operating_sys.Base.{
  ℕ, ◌+◌, ◌-◌, ◌%◌, ◌^◌, Bool, true, false, not, ◌&&◌, ◌||◌, xor, Option, none, some, ltb, leb,
  ◌==◌, if◌then◌else◌, get_elem?, u8, bit_and, List, [], ◌∷◌,
}
use she_x_mini_operating_sys.Keyboard.Keys.{key_value, scancode_std}

pub record Keyboard : Type 0 where
  pub latest_char : ℕ
  pub latest_scan_code : ℕ
  pub is_keyboard_interrupt : Bool
  pub is_shift_pressed : Bool
  pub caps_toggle : Bool
  pub num_lock_toggle : Bool

abbrev pub is_alphabet : ℕ → Bool
is_alphabet c = leb b'a' c && leb c b'z'

abbrev pub is_on_keypad : ℕ → Bool
is_on_keypad scan_code = leb 0x47 scan_code && leb scan_code 0x52 && not (scan_code == 0x4e)

-- The word of the table at a scan code; past its end the source reads what lies there, `beyond`.
unfoldable pub table_word : (ℕ → ℕ) → ℕ → ℕ
unfolding scancode_std key_value
table_word beyond scan_code = elim (get_elem? scancode_std scan_code) [
  | none ↦ beyond scan_code
  | some key ↦ key_value key
]

-- The `switch` on a character with shift pressed; it has no case for any other.
unfoldable pub shift_case : ℕ → Option ℕ
shift_case c =
    if c == b'1'
    then some b'!'
    else if c == b'2'
    then some b'@'
    else if c == b'3'
    then some b'#'
    else if c == b'4'
    then some b'$'
    else if c == b'5'
    then some b'%'
    else if c == b'6'
    then some b'^'
    else if c == b'7'
    then some b'&'
    else if c == b'8'
    then some b'*'
    else if c == b'9'
    then some b'('
    else if c == b'0'
    then some b')'
    else if c == b'-'
    then some b'_'
    else if c == b'='
    then some b'+'
    else if c == b'['
    then some b'{'
    else if c == b']'
    then some b'}'
    else if c == 0x5c
    then some b'|'
    else if c == b';'
    then some b':'
    else if c == 0x27
    then some 0x22
    else if c == b','
    then some b'<'
    else if c == b'.'
    then some b'>'
    else if c == b'/'
    then some b'?'
    else if c == 0x60
    then some b'~'
    else none

-- Without a case the latest character stays.
abbrev pub shifted : ℕ → ℕ → ℕ
shifted c old = elim (shift_case c) [ none ↦ old | some upper ↦ upper ]

-- The branch for the codes below 0x57: the modifiers, then the character of the key.
pub make_code : Keyboard → ℕ → ℕ → Keyboard
unfolding xor
make_code k scan_code temp_char =
    if (scan_code == 0x2a) || (scan_code == 0x36)
    then record k { is_shift_pressed = true }
    else if scan_code == 0x3a
    then record k { caps_toggle = not k.caps_toggle }
    else if scan_code == 0x45
    then record k { num_lock_toggle = not k.num_lock_toggle }
    else if xor k.is_shift_pressed k.caps_toggle && is_alphabet temp_char
    then record k { latest_char = temp_char - 0x20 }
    else if k.is_shift_pressed && not (is_alphabet temp_char)
    then record k { latest_char = shifted temp_char k.latest_char }
    else if is_on_keypad scan_code
    then (if k.num_lock_toggle
        then record k { latest_char = temp_char }
        else record k { latest_char = 0 })
    else record k { latest_char = temp_char }

-- The second byte of an extended code.
pub extended_code : Keyboard → ℕ → Keyboard
extended_code k scan_code_2 = record k {
  latest_scan_code = scan_code_2;
  latest_char = if scan_code_2 == 0x4b then 17 else (if scan_code_2 == 0x4d then 18 else 0);
}

-- The branch for the other codes, among them the releases.
pub break_code : Keyboard → ℕ → Keyboard
break_code k scan_code = record k {
  is_shift_pressed =
      if (scan_code == 0xaa) || (scan_code == 0xb6) then false else k.is_shift_pressed;
  latest_char = 0;
}

-- `keyboard_handler` with the byte that the port gives, and the second that it gives after 0xe0.
pub keyboard_handler : (ℕ → ℕ) → Keyboard → ℕ → ℕ → Keyboard
keyboard_handler beyond k scan_code scan_code_2 =
    let temp_char = u8 (table_word beyond scan_code) in
    let read = record k { is_keyboard_interrupt = true; latest_scan_code = scan_code } in
    if ltb scan_code 0x57
    then make_code read scan_code temp_char
    else if scan_code == 0xe0
    then extended_code read scan_code_2
    else break_code read scan_code

abbrev pub get_latest_char : Keyboard → ℕ
get_latest_char k = k.latest_char

abbrev pub get_latest_scan_code : Keyboard → ℕ
get_latest_scan_code k = k.latest_scan_code

-- `is_output_full` and `is_input_empty`, from the status byte of port 0x64.
abbrev pub is_output_full : ℕ → Bool
is_output_full status = not (bit_and status 1 == 0)

abbrev pub is_input_empty : ℕ → Bool
is_input_empty status = bit_and status 2 == 0

-- The loop of `wait_for_keyboard`. `wakes` lists what each return of `kernel_wait` has done to the
-- state: the handlers of the interrupts that ended the halt. `none` when the list ends first.
pub wait_loop :
    Keyboard → List (Keyboard → Keyboard) → Option (Keyboard × List (Keyboard → Keyboard))
wait_loop k [] = none
wait_loop k (interrupt ∷ wakes) =
    let k' = interrupt k in
    let again = wait_loop k' wakes in
    if k'.is_keyboard_interrupt
    then some (record k' { is_keyboard_interrupt = false }, wakes)
    else again

pub wait_for_keyboard :
    Keyboard → List (Keyboard → Keyboard) → Option (Keyboard × List (Keyboard → Keyboard))
unfolding wait_loop
wait_for_keyboard k wakes = wait_loop (record k { is_keyboard_interrupt = false }) wakes
