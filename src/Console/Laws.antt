-- ===== src/Console/Laws.antt =====
-- Clearing the screen, single characters and the colours of kernal/driver/dadio.c.
use she_x_mini_operating_sys.Base.{
  ℕ, zero, suc, ◌+◌, ◌-◌, ◌*◌, ◌/◌, ◌%◌, ◌^◌, ◌<◌, ◌≤◌, ◌≡◌, refl, ◌∙◌, true, Bool-cases, inl, inr,
  [], ◌∷◌, ltb, ◌==◌, if◌then◌else◌, update, u8, bit_and, bit_or, ◌<<<◌, arith,
}
use she_x_mini_operating_sys.Base.Masks.{bit_and_low, bit_and_high, bit_or_sum, bit_or_sum_right}
use she_x_mini_operating_sys.Console.{
  Console, clear_cell, clear_loop, clear_screen, put_glyph, put_back, putc, set_fg_color,
  set_bg_color,
}
use she_x_mini_operating_sys.Console.Screen.{
  Screen, view, settle, write, next_line, show, show_all, screens_eq, view-monitor_puts,
}

-- A byte of a screen without text.
abbrev blank : ℕ → (ℕ → ℕ) → ℕ → ℕ
blank color text q = if ltb q 4000 then (if q % 2 == 0 then b' ' else color) else text q

-- `k` cells are cleared, and `fuel` cells are left.
clear_loop_lem :
    (color fuel k : ℕ) (text : ℕ → ℕ) (q : ℕ)
    → k + fuel ≡ 2000
    → clear_loop fuel color (2 * k) text q ≡ (if ltb q (2 * k) then text q else blank color text q)
unfolding clear_loop
clear_loop_lem color zero k text q h = ground arith
clear_loop_lem color (suc fuel) k text q h =
    let more : ltb (2 * k) 4000 ≡ true = ground arith in
    let next : 2 * k + 2 ≡ 2 * suc k = omega arith in
    rw (more, next)
      (clear_loop_lem color fuel (suc k) (clear_cell color (2 * k) text) q (omega arith)
        ∙ ground arith)

clear_screen_byte : (c : Console) (q : ℕ) → (clear_screen c).text q ≡ blank c.current_color c.text q
unfolding clear_screen clear_loop
clear_screen_byte c q =
    clear_loop_lem c.current_color 1999 1 (clear_cell c.current_color 0 c.text) q refl
    ∙ ground arith

clear_screen_start : (c : Console) → (clear_screen c).cursor ≡ 0
unfolding clear_screen
clear_screen_start c = refl

clear_screen_paint : (c : Console) → (clear_screen c).current_color ≡ c.current_color
unfolding clear_screen
clear_screen_paint c = refl

-- `clear_screen` puts a space in the current colour into each of the 2000 cells, leaves every byte past
-- them as it was, puts the cursor to the first cell, and keeps the colour.
pub clear_screen_lem :
    (c : Console)
    → ((p : ℕ)
        → p < 2000
        → ((view (clear_screen c)).glyph p ≡ b' ')
          × ((view (clear_screen c)).color p ≡ c.current_color))
      × ((q : ℕ) → 4000 ≤ q → (clear_screen c).text q ≡ c.text q)
      × ((clear_screen c).cursor ≡ 0)
      × ((clear_screen c).current_color ≡ c.current_color)
clear_screen_lem c = (
  λ p h.
      (clear_screen_byte c (2 * p) ∙ ground arith, clear_screen_byte c (2 * p + 1) ∙ ground arith),
  λ q h. clear_screen_byte c q ∙ ground arith,
  clear_screen_start c,
  clear_screen_paint c,
)

-- The cell before the position loses its glyph and takes the colour of the one after it.
abbrev pub rub : Screen → Screen
rub s = record {
  glyph = update s.glyph (s.position - 1) 0;
  color = update s.color (s.position - 1) (s.color s.position);
  position = s.position - 1;
}

-- What a single character does: a backspace at the start of the screen nothing.
abbrev pub put_one : ℕ → Screen → ℕ → Screen
put_one paint s input =
    if input == 0x08
    then (if s.position == 0 then s else rub s)
    else if input == 0x0a
    then record s { position = next_line s.position }
    else write paint input s

put_back-rub :
    (c : Console) (p : ℕ) → c.cursor ≡ suc p → p < 2 ^ 16 → view (put_back c) ≡ rub (view c)
put_back-rub c p e h = screens_eq (λ q. ground arith) (λ q. ground arith) (omega arith)

put_glyph-write :
    (c : Console) (input : ℕ)
    → view (put_glyph input c) ≡ settle (write c.current_color input (view c))
put_glyph-write c input = screens_eq (λ q. ground arith) (λ q. ground arith) refl

-- `putc` does to the screen what `put_one` says, for a cursor of 16 bits: a backspace moves back by one cell, except at
-- the start, and clears the glyph there; a line feed moves to the start of the next line; every other
-- character, the tab too, is written in the current colour, and the position, cut to 16 bits, moves on.
pub view-putc :
    (input : ℕ) (c : Console)
    → c.cursor < 2 ^ 16
    → view (putc input c) ≡ settle (put_one c.current_color (view c) input)
unfolding putc show show_all
view-putc input c small = elim (Bool-cases (input == 0x08)) [
  | inl back ↦ rw back (elim (Bool-cases (c.cursor == 0)) [
    | inl home ↦ rw home (screens_eq (λ q. refl) (λ q. refl) (omega arith))
    | inr away ↦ rw away (
        put_back-rub c (c.cursor - 1) (ground arith) (omega arith)
        ∙ screens_eq (λ q. refl) (λ q. refl) (omega arith))
  ])
  | inr other ↦ rw other (elim (Bool-cases (input == 0x0a)) [
    | inl line ↦ rw line (view-monitor_puts (0x0a ∷ []) c small (omega arith))
    | inr glyph ↦ rw glyph (put_glyph-write c input)
  ])
]

set_fg_color_lem : (x f : ℕ) → x < 256 → f < 16 → u8 (bit_or (bit_and x 0xf0) f) ≡ x / 16 * 16 + f
set_fg_color_lem x f hx hf =
    let high : bit_and x 0xf0 ≡ x / 16 * 16 = bit_and_high 4 4 x (omega arith) in
    rw high (omega (arith, bit_or_sum 4 (x / 16) f hf))

set_bg_color_lem : (x b : ℕ) → b < 16 → u8 (bit_or (bit_and x 0x0f) (b <<< 4)) ≡ b * 16 + x % 16
set_bg_color_lem x b hb =
    let low : bit_and x 0x0f ≡ x % 16 = bit_and_low 4 x in
    rw low (omega (arith, bit_or_sum_right 4 b (x % 16) (omega arith)))

-- The two halves of the colour byte are independent: for colours below 16 the last foreground and the
-- last background stand in it, in whichever order they were set.
pub set_color_lem :
    (f b : ℕ) (c : Console)
    → c.current_color < 256
    → f < 16
    → b < 16
    → ((set_bg_color b (set_fg_color f c)).current_color ≡ 16 * b + f)
      × ((set_fg_color f (set_bg_color b c)).current_color ≡ 16 * b + f)
unfolding set_fg_color set_bg_color
set_color_lem f b c byte hf hb = (
  rw (set_fg_color_lem c.current_color f byte hf) (set_bg_color_lem _ b hb ∙ omega arith),
  rw (set_bg_color_lem c.current_color b hb) (set_fg_color_lem _ f (omega arith) hf ∙ omega arith),
)
