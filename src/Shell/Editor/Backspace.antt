-- ===== src/Shell/Editor/Backspace.antt =====
-- The backspace of the line editor of kernal/kernel/kshell.c, against a line with a point.
use mathlib.Core.Path.{subst}
use she_x_mini_operating_sys.Base.{
  ℕ, ◌+◌, ◌-◌, ◌^◌, ◌<◌, ◌≤◌, ◌≡◌, ◌≢◌, inl, inr, refl, sym, ap, ◌∙◌, true, false, Bool-cases, ◌==◌,
  if◌then◌else◌, update, length, get_or, erase, arith,
}
use she_x_mini_operating_sys.Console.{putc}
use she_x_mini_operating_sys.Console.Screen.{view}
use she_x_mini_operating_sys.Shell.Editor.{Editor, key_back, close_gap}
use she_x_mini_operating_sys.Shell.Editor.Line.{Line, remove, get_or_beyond}
use she_x_mini_operating_sys.Shell.Editor.Cells.{Glyph, putc-back, Letters, shift_loop_lem}
use she_x_mini_operating_sys.Shell.Editor.Laws.{Shows, at_end, removed}

module _ (start : ℕ) (origin : ℕ → ℕ) (room : start + 50 < 2 ^ 16) where
  -- What the backspace of the console does, with the cursor behind a letter of the line.
  erased_cell :
      (l : Line) (e : Editor)
      → Shows start origin l e
      → 0 < l.point
      → (q : ℕ)
      → ((view (putc 0x08 e.console)).glyph q
          ≡ (if start + (l.point - 1) == q then 0 else (view e.console).glyph q))
        × ((putc 0x08 e.console).cursor ≡ start + (l.point - 1))
  erased_cell l e s away q =
      let small : l.point ≤ 49 = omega (arith, s.inside, s.short) in
      let (cell, place) = putc-back q e.console (omega (arith, s.place)) (omega (arith, s.place)) in
      let before : e.console.cursor - 1 ≡ start + (l.point - 1) = omega (arith, s.place) in
      (cell ∙ ap (λ (c : ℕ). if c == q then 0 else (view e.console).glyph q) before, place ∙ before)

  -- The letter before the point was the last one.
  cut_last :
      (l : Line) (e : Editor)
      → Shows start origin l e
      → 0 < l.point
      → l.point ≡ length l.letters
      → Shows start origin
          (record { letters = erase l.letters (l.point - 1); point = l.point - 1 })
          (record {
            cmd_buffer = update e.cmd_buffer (e.i - 1) 0;
            i = e.i - 1;
            console = putc 0x08 e.console;
          })
  cut_last l e s away end =
      let (cell, place) = erased_cell l e s away 0 in
      removed start origin room l e _ s away (omega (arith, s.index)) place
        (λ j h. ground (
          arith,
          s.index,
          s.holds (length l.letters) (omega (arith, s.short)),
          get_or_beyond l.letters (length l.letters) (omega arith),
        ))
        (λ q h. let (cell, place) = erased_cell l e s away q in cell ∙ ground arith)

  letters_behind :
      (l : Line) (e : Editor)
      → Shows start origin l e
      → (k : ℕ) → Letters e.cmd_buffer k (length l.letters)
  letters_behind l e s k =
      let same : (j : ℕ) → j < length l.letters → get_or l.letters j 0 ≡ e.cmd_buffer j =
        λ j b. sym (s.holds j (omega (arith, s.short))) in
      record {
        ink = λ j a b. let (ink, glyph) = s.inked j b in subst (λ (c : ℕ). c ≢ 0) (same j b) ink;
        glyph = λ j a b. let (ink, glyph) = s.inked j b in subst Glyph (same j b) glyph;
        end =
            s.holds (length l.letters) (omega (arith, s.short))
            ∙ get_or_beyond l.letters (length l.letters) (omega arith);
      }

  -- There are letters behind the point.
  cut_inner :
      (l : Line) (e : Editor)
      → Shows start origin l e
      → 0 < l.point
      → Shows start origin
          (record { letters = erase l.letters (l.point - 1); point = l.point - 1 })
          (close_gap (l.point - 1) (record e { console = putc 0x08 e.console }))
  cut_inner l e s away =
      let k : ℕ = l.point - 1 in
      let n : ℕ = length l.letters in
      let (cell, place) = erased_cell l e s away 0 in
      let closed =
        shift_loop_lem start (n - k) k n 50 (record e { console = putc 0x08 e.console })
          (omega (arith, s.inside)) (omega (arith, s.short)) (omega (arith, s.short)) place
          (letters_behind l e s k) in
      removed start origin room l e _ s away refl (omega (arith, s.inside, s.short))
        (λ j h. let (byte, glyph) = closed j in byte)
        (λ q h.
          let (byte, glyph) = closed q in
          let (cell, place) = erased_cell l e s away q in glyph ∙ ground (arith, cell))

  pub key_back-Shows :
      (l : Line) (e : Editor) → Shows start origin l e → Shows start origin (remove l) (key_back e)
  key_back-Shows l e s = elim (Bool-cases (l.point == 0)) [
    | inl first ↦
        let start_of_line : (e.i == 0) ≡ true = ground (arith, s.index) in
        rw (first, start_of_line) s
    | inr away ↦
        let inner : (e.i == 0) ≡ false = ground (arith, s.index) in
        rw (away, inner)
          (elim (Bool-cases (l.point == length l.letters)) [
            | inl end ↦
                rw (at_end start origin room l e s ∙ end)
                  (cut_last l e s (ground arith) (ground arith))
            | inr middle ↦ rw (at_end start origin room l e s ∙ middle) (
                subst
                  (λ (k : ℕ).
                    Shows start origin
                      (record { letters = erase l.letters (l.point - 1); point = l.point - 1 })
                      (close_gap k (record e { console = putc 0x08 e.console })))
                  (ap (λ (i : ℕ). i - 1) (sym s.index)) (cut_inner l e s (ground arith)))
          ])
  ]
