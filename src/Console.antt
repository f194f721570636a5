-- ===== src/Console.antt =====
-- kernal/driver/dadio.c: the text console. A C string is the list of its characters up to the 0.
pub mod Screen
pub mod Laws
pub mod Numbers
mod Tests
use she_x_mini_operating_sys.Base.{
  ℕ, zero, suc, ◌+◌, ◌-◌, ◌*◌, ◌/◌, ◌%◌, ◌^◌, Bool, true, false, ◌&&◌, Option, none, some, List, [],
  ◌∷◌, ◌++◌, map, ltb, ◌==◌, if◌then◌else◌, update, get_or, set, length, u8, u32, ◌<<<◌, ◌>>>◌,
  bit_and, bit_or,
}
use she_x_mini_operating_sys.Keyboard.{
  Keyboard, wait_for_keyboard, get_latest_char, get_latest_scan_code,
}

abbrev pub row : ℕ
row = 80

abbrev pub col : ℕ
col = 25

-- The bytes from `__VGA_text_memory` on, the cursor that the display keeps, and the colour byte.
pub record Console : Type 0 where
  pub text : ℕ → ℕ
  pub cursor : ℕ
  pub current_color : ℕ

abbrev pub get_cursor : Console → ℕ
get_cursor c = c.cursor

-- The display's two registers hold the low 16 bits.
abbrev pub set_cursor : ℕ → Console → Console
set_cursor position c = record c { cursor = position % 2 ^ 16 }

-- `*cursor = ' '; cursor++; *cursor = current_color; cursor++`.
abbrev pub clear_cell : ℕ → ℕ → (ℕ → ℕ) → ℕ → ℕ
clear_cell color offset text = update (update text offset b' ') (offset + 1) color

-- The loop of `clear_screen`, with the rounds that are left as fuel.
unfoldable pub clear_loop : ℕ → ℕ → ℕ → (ℕ → ℕ) → ℕ → ℕ
clear_loop zero color offset text = text
clear_loop (suc fuel) color offset text =
    let rest = clear_loop fuel color (offset + 2) (clear_cell color offset text) in
    if ltb offset (2 * row * col) then rest else text

unfoldable pub clear_screen : Console → Console
clear_screen c = set_cursor 0 (record c {
  text = clear_loop (row * col) c.current_color 2 (clear_cell c.current_color 0 c.text);
})

-- The loop of `monitor_puts`: `vga_cursor` as an offset from the start of the text memory.
pub record Writer : Type 0 where
  pub memory : ℕ → ℕ
  pub offset : ℕ

abbrev pub new_line : ℕ → ℕ
new_line offset =
    let pointer = u32 offset in
    let next = u32 (pointer - pointer % (2 * row) + 2 * row) in
    if next == 2 * row * col then 0 else next

unfoldable pub put_step : ℕ → Writer → ℕ → Writer
put_step color w c =
    if c == 0x0a
    then record w { offset = new_line w.offset }
    else if c == 0x09
    then record w { offset = u32 (w.offset + 16) }
    else record {
      memory = update (update w.memory w.offset c) (w.offset + 1) color;
      offset = w.offset + 2;
    }

unfoldable pub put_loop : ℕ → Writer → List ℕ → Writer
put_loop color w [] = w
put_loop color w (c ∷ message) = put_loop color (put_step color w c) message

unfoldable pub monitor_puts : List ℕ → Console → Console
monitor_puts message c =
    let w =
      put_loop c.current_color (record { memory = c.text; offset = u32 (get_cursor c <<< 1) })
        message in
    set_cursor (u32 w.offset >>> 1) (record c { text = w.memory })

-- The branch of `putc` for `\b`, at a cursor that is not 0.
abbrev pub put_back : Console → Console
put_back c =
    let pointer = c.cursor - 1 in
    let erased = update c.text (pointer * 2) 0 in
    set_cursor pointer
      (record c { text = update erased (pointer * 2 + 1) (erased (pointer * 2 + 3)) })

abbrev pub put_glyph : ℕ → Console → Console
put_glyph input c =
    let offset = c.cursor <<< 1 in
    set_cursor (c.cursor + 1)
      (record c { text = update (update c.text (offset + 1) c.current_color) offset input })

unfoldable pub putc : ℕ → Console → Console
putc input c =
    if input == 0x08
    then (if c.cursor == 0 then c else put_back c)
    else if input == 0x0a
    then monitor_puts (0x0a ∷ []) c
    else put_glyph input c

unfoldable pub set_fg_color : ℕ → Console → Console
set_fg_color color c = record c { current_color = u8 (bit_or (bit_and c.current_color 0xf0) color) }

unfoldable pub set_bg_color : ℕ → Console → Console
set_bg_color color c = record c {
  current_color = u8 (bit_or (bit_and c.current_color 0x0f) (color <<< 4));
}

-- The characters of an array from an index up to the first 0.
unfoldable pub c_string : List ℕ → List ℕ
c_string [] = []
c_string (c ∷ cs) = let rest = c_string cs in if c == 0 then [] else c ∷ rest

abbrev pub hex_char : ℕ → ℕ
hex_char c = if ltb c 10 then c + 0x30 else c + 55

-- The first loop of `printhex`, on the array of 11 bytes as a store.
unfoldable pub hex_loop : ℕ → ℕ → ℕ → (ℕ → ℕ) → ℕ → ℕ
hex_loop zero pointer input buffer = buffer
hex_loop (suc left) pointer input buffer =
    hex_loop left (pointer - 1) (input >>> 4) (update buffer pointer (hex_char (bit_and input 0xf)))

-- The second loop, which stops at index 9 at the latest; `left` is the way there.
unfoldable pub skip_loop : ℕ → ℕ → (ℕ → ℕ) → ℕ
skip_loop zero pointer buffer = pointer
skip_loop (suc left) pointer buffer =
    let next = skip_loop left (suc pointer) buffer in
    if buffer pointer == b'0' then next else pointer

-- The characters of a store from an index up to the first 0, at most as many as the fuel says.
unfoldable pub chars : ℕ → (ℕ → ℕ) → ℕ → List ℕ
chars zero buffer i = []
chars (suc left) buffer i =
    let rest = chars left buffer (suc i) in if buffer i == 0 then [] else buffer i ∷ rest

-- The end of `printhex`, with the digits in the array; the 0 at index 10 ends the string.
abbrev pub hex_end : ℕ → (ℕ → ℕ) → List ℕ
hex_end pointer buffer =
    chars 11 (update (update (update buffer (pointer - 1) b'x') 0 b'0') 10 0) (pointer - 1 - 1)

-- What `printhex` gives to `monitor_puts`; `buffer` is the array as the stack has it.
unfoldable pub hex_string : (ℕ → ℕ) → ℕ → List ℕ
hex_string buffer input =
    let digits = hex_loop 8 9 input buffer in hex_end (skip_loop 7 2 digits) digits

unfoldable pub printhex : (ℕ → ℕ) → ℕ → Console → Console
printhex buffer input c = monitor_puts (hex_string buffer input) c

-- The loop of `printint`, with `10 - i` as its counter.
unfoldable pub int_loop : ℕ → ℕ → List ℕ → List ℕ
int_loop zero input buffer = buffer
int_loop (suc left) input buffer =
    int_loop left (input / 10) (set buffer (suc left) (input % 10 + 0x30))

-- The initialiser, with the 0 at its end.
abbrev pub int_buffer : List ℕ
int_buffer = b'0' ∷ b'0' ∷ b'0' ∷ b'0' ∷ b'0' ∷ b'0' ∷ b'0' ∷ b'0' ∷ b'0' ∷ b'0' ∷ 0 ∷ []

-- What `printint` gives to `monitor_puts`: the array and what stands behind it, up to the first 0.
unfoldable pub int_string : List ℕ → ℕ → List ℕ
int_string beyond input = c_string (int_loop 10 input int_buffer ++ beyond)

unfoldable pub printint : List ℕ → ℕ → Console → Console
printint beyond input c = monitor_puts (int_string beyond input) c

-- What the body of the loop of `get_monitor_char` returns after a key, or 0 where it goes on.
abbrev pub monitor_char : Keyboard → ℕ
monitor_char k =
    let x = get_latest_char k in
    let scanned = get_latest_scan_code k in
    if scanned == 0x4b
    then (if x == b'4' then x else 17)
    else if scanned == 0x4d
    then (if x == b'6' then x else 18)
    else x

-- Each round takes one wake at least, so their number is fuel enough; `none` where the list ends first.
pub monitor_char_loop :
    ℕ → Keyboard → List (Keyboard → Keyboard) → Option (ℕ × Keyboard × List (Keyboard → Keyboard))
monitor_char_loop zero k wakes = none
monitor_char_loop (suc fuel) k wakes = elim (wait_for_keyboard k wakes) [
  | none ↦ none
  | some (k', left) ↦
      if monitor_char k' == 0
      then monitor_char_loop fuel k' left
      else some (monitor_char k', k', left)
]

unfoldable pub get_monitor_char :
    Keyboard → List (Keyboard → Keyboard) → Option (ℕ × Keyboard × List (Keyboard → Keyboard))
get_monitor_char k wakes = monitor_char_loop (suc (length wakes)) k wakes
