-- ===== src/Console/Screen.antt =====
-- The screen as kernal/driver/dadio.c means it: cells with a glyph and a colour, and a position.
use she_x_mini_operating_sys.Base.{
  ℕ, ◌+◌, ◌*◌, ◌/◌, ◌%◌, ◌^◌, ◌<◌, ◌≤◌, ◌≡◌, refl, sym, ap, ◌∙◌, fun_ext, Bool-cases, inl, inr,
  List, [], ◌∷◌, ◌==◌, if◌then◌else◌, update, length, u32, ◌<<<◌, ◌>>>◌, arith,
}
use she_x_mini_operating_sys.Console.{
  Console, Writer, put_step, put_loop, monitor_puts, new_line, row, col,
}

pub record Screen : Type 0 where
  pub glyph : ℕ → ℕ
  pub color : ℕ → ℕ
  pub position : ℕ

-- A glyph in the cell at the position, which moves on by one.
abbrev pub write : ℕ → ℕ → Screen → Screen
write paint c s = record {
  glyph = update s.glyph s.position c;
  color = update s.color s.position paint;
  position = s.position + 1;
}

-- The start of the next line; behind the last line that of the first.
abbrev pub next_line : ℕ → ℕ
next_line position = if position / row + 1 == col then 0 else (position / row + 1) * row

-- One character of a message.
unfoldable pub show : ℕ → Screen → ℕ → Screen
show paint s c =
    if c == 0x0a
    then record s { position = next_line s.position }
    else if c == 0x09
    then record s { position = s.position + 8 }
    else write paint c s

unfoldable pub show_all : ℕ → Screen → List ℕ → Screen
show_all paint s [] = s
show_all paint s (c ∷ message) = show_all paint (show paint s c) message

-- The position as the display's registers hold it.
abbrev pub settle : Screen → Screen
settle s = record s { position = s.position % 2 ^ 16 }

abbrev glyphs : (ℕ → ℕ) → ℕ → ℕ
glyphs text p = text (2 * p)

abbrev colors : (ℕ → ℕ) → ℕ → ℕ
colors text p = text (2 * p + 1)

-- What the bytes of the text memory show.
abbrev pub screen_of : (ℕ → ℕ) → ℕ → Screen
screen_of text position = record { glyph = glyphs text; color = colors text; position = position }

abbrev pub view : Console → Screen
view c = screen_of c.text c.cursor

pub glyphs-pair :
    (text : ℕ → ℕ) (p c paint : ℕ)
    → glyphs (update (update text (2 * p) c) (2 * p + 1) paint) ≡ update (glyphs text) p c
glyphs-pair text p c paint = fun_ext (λ q. ground arith)

pub colors-pair :
    (text : ℕ → ℕ) (p c paint : ℕ)
    → colors (update (update text (2 * p) c) (2 * p + 1) paint) ≡ update (colors text) p paint
colors-pair text p c paint = fun_ext (λ q. ground arith)

pub cells_eq :
    {g g' k k' : ℕ → ℕ} (position : ℕ)
    → g ≡ g'
    → k ≡ k'
    → let before : Screen = record { glyph = g; color = k; position = position } in
      before ≡ record { glyph = g'; color = k'; position = position }
cells_eq {g} {g'} {k} {k'} position e f =
    ap (λ (x : ℕ → ℕ). record { glyph = x; color = k; position = position }) e
    ∙ ap (λ (y : ℕ → ℕ). record { glyph = g'; color = y; position = position }) f

pub screens_eq :
    {s t : Screen}
    → ((p : ℕ) → s.glyph p ≡ t.glyph p)
    → ((p : ℕ) → s.color p ≡ t.color p)
    → s.position ≡ t.position
    → s ≡ t
screens_eq {s} {t} e f h =
    cells_eq s.position (fun_ext e) (fun_ext f) ∙ ap (λ (p : ℕ). record t { position = p }) h

new_line_lem : (position : ℕ) → position < 2 ^ 30 → new_line (2 * position) ≡ 2 * next_line position
new_line_lem position h = ground arith

-- The writer is at a cell, and after a step at the cell that the screen is at.
put_step-show :
    (paint : ℕ) (text : ℕ → ℕ) (position c : ℕ)
    → position < 2 ^ 30
    → let s = show paint (screen_of text position) c in
      (screen_of
          (put_step paint (record { memory = text; offset = 2 * position }) c).memory
          s.position
        ≡ s)
      × ((put_step paint (record { memory = text; offset = 2 * position }) c).offset
          ≡ 2 * s.position)
      × (s.position ≤ position + 80)
unfolding put_step show
put_step-show paint text position c h = elim (Bool-cases (c == 0x0a)) [
  | inl line ↦ rw line (refl, new_line_lem position h, ground arith)
  | inr other ↦ rw other (elim (Bool-cases (c == 0x09)) [
    | inl tab ↦ rw tab (refl, omega arith, omega arith)
    | inr glyph ↦ rw glyph (
      cells_eq (position + 1) (glyphs-pair text position c paint)
          (colors-pair text position c paint),
      omega arith,
      omega arith,
    )
  ])
]

-- After a message the bytes show what the characters show one by one, and the writer is at the position.
put_loop-show_all :
    (paint : ℕ) (message : List ℕ) (text : ℕ → ℕ) (position : ℕ)
    → position + 80 * length message < 2 ^ 30
    → (at : ℕ) × (show_all paint (screen_of text position) message
        ≡ screen_of
            (put_loop paint (record { memory = text; offset = 2 * position }) message).memory
            at)
      × ((put_loop paint (record { memory = text; offset = 2 * position }) message).offset ≡ 2 * at)
      × (at < 2 ^ 30)
unfolding put_loop show_all
put_loop-show_all paint [] text position h = (position, refl, refl, omega arith)
put_loop-show_all paint (c ∷ message) text position h =
    let s = show paint (screen_of text position) c in
    let w = put_step paint (record { memory = text; offset = 2 * position }) c in
    let (shown, there, near) = put_step-show paint text position c (omega arith) in
    let (at, all, stop, small) =
      put_loop-show_all paint message w.memory s.position (omega arith) in
    let start : w ≡ record { memory = w.memory; offset = 2 * s.position } =
      ap (λ (o : ℕ). record w { offset = o }) there in
    (
      at,
      ap (λ (x : Screen). show_all paint x message) (sym shown)
          ∙ all
          ∙ ap (λ (x : Writer). screen_of (put_loop paint x message).memory at) (sym start),
      ap (λ (x : Writer). (put_loop paint x message).offset) start ∙ stop,
      small,
    )

-- The console shows a message as the characters one by one show it: a glyph is written in the current
-- colour at the position, which moves on by one; a tab moves on by eight; a line feed moves to the start
-- of the next line, and from the last line to that of the first. The position is then cut to 16 bits. The
-- message has fewer than 2 ^ 20 characters, and the cursor 16 bits.
pub view-monitor_puts :
    (message : List ℕ) (c : Console)
    → c.cursor < 2 ^ 16
    → length message < 2 ^ 20
    → view (monitor_puts message c) ≡ settle (show_all c.current_color (view c) message)
unfolding monitor_puts
view-monitor_puts message c small short =
    let (at, all, stop, near) =
      put_loop-show_all c.current_color message c.text c.cursor (omega arith) in
    let start : u32 (c.cursor <<< 1) ≡ 2 * c.cursor = omega arith in
    rw start (
      let half : u32 (2 * at) >>> 1 ≡ at = omega arith in
      rw all (
        ap
          (λ (o : ℕ).
            screen_of
              (put_loop c.current_color (record { memory = c.text; offset = 2 * c.cursor })
                message).memory
              ((u32 o >>> 1) % 2 ^ 16))
          stop
        ∙ ap
            (λ (p : ℕ).
              screen_of
                (put_loop c.current_color (record { memory = c.text; offset = 2 * c.cursor })
                  message).memory
                (p % 2 ^ 16))
            half))
