-- ===== src/Shell/Editor/Reading.antt =====
-- The loop of the line editor of kernal/kernel/kshell.c, against the line that the keys describe.
use she_x_mini_operating_sys.Base.{
  ℕ, suc, ◌+◌, ◌^◌, ◌<◌, ◌≡◌, ◌≢◌, inl, inr, refl, sym, ap, ◌∙◌, true, false, Bool-cases, List, [],
  ◌∷◌, ltb, ◌==◌, length, get_or, arith,
}
use she_x_mini_operating_sys.Console.{Console}
use she_x_mini_operating_sys.Console.Screen.{view}
use she_x_mini_operating_sys.Shell.Editor.{
  Editor, key_left, key_right, key_back, key_char, KeyStep, while_bounded, key_step, Read,
  read_loop, read_after, read_command, command_line, prompt, flush_command_buffer,
}
use she_x_mini_operating_sys.Shell.Editor.Line.{
  Line, go_left, go_right, remove, insert, LineStep, line_step, LineRead, line_loop, line_after,
  get_or_beyond,
}
use she_x_mini_operating_sys.Shell.Editor.Laws.{
  Ink, Shows, key_left-Shows, key_right-Shows, key_char-Shows,
}
use she_x_mini_operating_sys.Shell.Editor.Backspace.{key_back-Shows}
use she_x_mini_operating_sys.Shell.Editor.Flush.{ZeroTail, chars_lem, flush_command_buffer_lem}

-- What the editor has where the line is: while it goes on the buffer holds the line and the screen shows
-- it from `start` on; after Enter the command line is the line; and a line of 50 letters is dropped.
pub data Follows (start : ℕ) (origin : ℕ → ℕ) : LineStep → KeyStep → Type 0 where
  typing :
      (l : Line) (e : Editor)
      → Shows start origin l e
      → Follows start origin (LineStep.typing l) (KeyStep.reading e)
  complete :
      (l : Line) (e : Editor)
      → Shows start origin l e
      → command_line e ≡ l.letters
      → Follows start origin (LineStep.complete l.letters) (KeyStep.entered e)
  dropped :
      (e : Editor)
      → ((j : ℕ) → j < 50 → e.cmd_buffer j ≢ 0)
      → Follows start origin LineStep.dropped (KeyStep.full e)

-- Where a read has come to, with the same characters left.
abbrev pub Agrees : ℕ → (ℕ → ℕ) → LineRead → Read → Type 0
Agrees start origin a r = Follows start origin a.outcome r.outcome × (a.remaining ≡ r.remaining)

module _ (start : ℕ) (origin : ℕ → ℕ) (room : start + 50 < 2 ^ 16) where
  command_line-Shows : (l : Line) (e : Editor) → Shows start origin l e → command_line e ≡ l.letters
  command_line-Shows l e s =
      chars_lem l.letters e.cmd_buffer 50 0 (omega (arith, s.short))
        (λ j h. ap e.cmd_buffer (omega arith) ∙ s.holds j (omega (arith, s.short)))
        (λ j h. let (ink, glyph) = s.inked j h in ink)

  while_bounded-Follows :
      (l : Line) (e : Editor)
      → Shows start origin l e
      → Follows start origin (LineStep.typing l) (while_bounded e)
  while_bounded-Follows l e s =
      let inner : ltb e.i 50 ≡ true = ground (arith, s.index, s.inside, s.short) in
      rw inner (Follows.typing l e s)

  -- The 50th letter.
  key_char_full :
      (c : ℕ) (l : Line) (e : Editor)
      → Shows start origin l e
      → Ink c
      → l.point ≡ 49
      → Follows start origin LineStep.dropped (while_bounded (key_char c e))
  key_char_full c l e s (ink, glyph) last =
      let beyond : ltb (e.i + 1) 50 ≡ false = ground (arith, s.index) in
      rw beyond (
        Follows.dropped (key_char c e) (λ j h. elim (Bool-cases (j == 49)) [
          | inl here ↦ ground (arith, s.index)
          | inr below ↦
              let (mark, shape) = s.inked j (ground (arith, s.inside)) in
              ground (arith, s.index, s.holds j h)
        ]))

  key_step-Follows :
      (c : ℕ) (l : Line) (e : Editor)
      → c ≢ 0
      → Shows start origin l e
      → Follows start origin (line_step c l) (key_step c e)
  unfolding key_step line_step
  key_step-Follows c l e ink s = elim (Bool-cases (c == 17)) [
    | inl left ↦
        rw left
          (while_bounded-Follows (go_left l) (key_left e) (key_left-Shows start origin room l e s))
    | inr n1 ↦ rw n1 (elim (Bool-cases (c == 18)) [
      | inl right ↦ rw right (
          while_bounded-Follows (go_right l) (key_right e)
            (key_right-Shows start origin room l e s))
      | inr n2 ↦ rw n2 (elim (Bool-cases (c == 0x08)) [
        | inl back ↦
            rw back (
              while_bounded-Follows (remove l) (key_back e)
                (key_back-Shows start origin room l e s))
        | inr n3 ↦ rw n3 (elim (Bool-cases (c == 0x0a)) [
          | inl enter ↦ rw enter (Follows.complete l e s (command_line-Shows l e s))
          | inr n4 ↦
              let letter : Ink c = (ink, (ground arith, ground arith)) in
              rw n4 (elim (Bool-cases (l.point == 49)) [
                | inl last ↦ rw last (key_char_full c l e s letter (ground arith))
                | inr more ↦ rw more (
                    while_bounded-Follows (insert c l) (key_char c e)
                      (key_char-Shows start origin room c l e s letter (ground arith)))
              ])
        ])
      ])
    ])
  ]

  after_key :
      (inputs : List ℕ) (a : LineStep) (k : KeyStep)
      → Follows start origin a k
      → ((l : Line) (e : Editor)
          → Shows start origin l e
          → Agrees start origin (line_loop l inputs) (read_loop e inputs))
      → Agrees start origin
          (line_after (λ l'. line_loop l' inputs) inputs a)
          (read_after (λ e'. read_loop e' inputs) inputs k)
  after_key inputs a k (Follows.typing l e s) rest = rest l e s
  after_key inputs a k (Follows.complete l e s line) rest = (Follows.complete l e s line, refl)
  after_key inputs a k (Follows.dropped e ink) rest = (Follows.dropped e ink, refl)

  read_loop-Follows :
      (inputs : List ℕ) (l : Line) (e : Editor)
      → ((i : ℕ) → get_or inputs i 1 ≢ 0)
      → Shows start origin l e
      → Agrees start origin (line_loop l inputs) (read_loop e inputs)
  unfolding read_loop line_loop
  read_loop-Follows [] l e typed s = (Follows.typing l e s, refl)
  read_loop-Follows (c ∷ inputs) l e typed s =
      after_key inputs (line_step c l) (key_step c e) (key_step-Follows c l e (typed 0) s)
        (λ l' e' s'. read_loop-Follows inputs l' e' (λ i. typed (suc i)) s')

  empty_line :
      (b : ℕ → ℕ) (c : Console)
      → ZeroTail b
      → c.cursor ≡ start
      → ((q : ℕ) → (view c).glyph q ≡ origin q)
      → Shows start origin
          (record { letters = []; point = 0 })
          (record { cmd_buffer = flush_command_buffer b; i = 0; console = c })
  empty_line b c tail place screen = record {
    short = omega arith;
    inside = omega arith;
    inked = λ j h. absurd (omega arith);
    holds = λ j h. flush_command_buffer_lem b tail j h;
    index = refl;
    place = omega arith;
    shown = λ j h. absurd (omega arith);
    kept = λ q h. screen q;
  }

abbrev pub editor_of : KeyStep → Editor
editor_of (KeyStep.reading e) = e
editor_of (KeyStep.entered e) = e
editor_of (KeyStep.full e) = e

Shows-ZeroTail :
    (start : ℕ) (origin : ℕ → ℕ) (l : Line) (e : Editor)
    → Shows start origin l e
    → ZeroTail e.cmd_buffer
Shows-ZeroTail start origin l e s j k nothing order inner =
    elim (Bool-cases (ltb j (length l.letters))) [
      | inl letter ↦
          let (ink, glyph) = s.inked j (ground arith) in
          absurd (ink (sym (s.holds j (omega arith)) ∙ nothing))
      | inr beyond ↦ s.holds k inner ∙ get_or_beyond l.letters k (ground arith)
    ]

Follows-ZeroTail :
    (start : ℕ) (origin : ℕ → ℕ) (a : LineStep) (k : KeyStep)
    → Follows start origin a k
    → ZeroTail (editor_of k).cmd_buffer
Follows-ZeroTail start origin a k (Follows.typing l e s) = Shows-ZeroTail start origin l e s
Follows-ZeroTail start origin a k (Follows.complete l e s line) = Shows-ZeroTail start origin l e s
Follows-ZeroTail start origin a k (Follows.dropped e ink) =
    λ i j nothing order inner. absurd (ink i (omega arith) nothing)

-- One round of the shell reads what its keys describe, typed into an empty line: the arrows move the
-- point, a backspace takes the letter before it, another character writes over the letter at the point
-- or behind the last, and Enter ends the line, which is then the command line. All the while the screen
-- shows the line behind the prompt, and the cells in front of it as the prompt left them. The 50th
-- letter drops the line. No key is 0, the prompt ends at a cell whose number is 50 and more below
-- 2 ^ 16, and the buffer holds nothing but zeros behind its first 0, which is so again afterwards.
pub read_command-Agrees :
    (shell_name : List ℕ) (e : Editor) (inputs : List ℕ)
    → ZeroTail e.cmd_buffer
    → ((i : ℕ) → get_or inputs i 1 ≢ 0)
    → (prompt shell_name e.console).cursor + 50 < 2 ^ 16
    → Agrees
        (prompt shell_name e.console).cursor
        (view (prompt shell_name e.console)).glyph
        (line_loop (record { letters = []; point = 0 }) inputs)
        (read_command shell_name e inputs)
      × ZeroTail (editor_of (read_command shell_name e inputs).outcome).cmd_buffer
unfolding read_command
read_command-Agrees shell_name e inputs tail typed room =
    let c : Console = prompt shell_name e.console in
    let origin : ℕ → ℕ = (view c).glyph in
    let (follows, same) =
      read_loop-Follows c.cursor origin room inputs (record { letters = []; point = 0 }) _ typed
        (empty_line c.cursor origin room e.cmd_buffer c tail refl (λ q. refl)) in
    ((follows, same), Follows-ZeroTail c.cursor origin _ _ follows)
