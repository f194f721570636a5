-- ===== src/Shell/Editor/Laws.antt =====
-- The keys of the line editor of kernal/kernel/kshell.c, against a line with a point.
use mathlib.Core.Path.{subst}
use she_x_mini_operating_sys.Base.{
  ℕ, suc, ◌+◌, ◌-◌, ◌%◌, ◌^◌, ◌<◌, ◌≤◌, ◌≡◌, ◌≢◌, inl, inr, refl, sym, ap, ◌∙◌, true, false, ◌&&◌,
  Bool-cases, List, [], ◌∷◌, ltb, ◌==◌, if◌then◌else◌, length, get_or, set, erase, length-append,
  length-set, get_or-set_self, get_or-set_ne, sub32, arith,
}
use she_x_mini_operating_sys.Console.{putc}
use she_x_mini_operating_sys.Console.Screen.{view}
use she_x_mini_operating_sys.Shell.Editor.{Editor, key_left, key_right, key_char}
use she_x_mini_operating_sys.Shell.Editor.Line.{
  Line, go_left, go_right, insert, get_or-append_last, get_or-erase, length-erase, get_or_beyond,
}
use she_x_mini_operating_sys.Shell.Editor.Cells.{Glyph, putc-Glyph, closed_line, closed_cells}

abbrev pub Ink : ℕ → Type 0
Ink c = (c ≢ 0) × Glyph c

-- The editor holds a line and shows it from the cell `start` on, and has changed no glyph in front.
pub record Shows (start : ℕ) (origin : ℕ → ℕ) (l : Line) (e : Editor) : Type 0 where
  pub short : length l.letters ≤ 49
  pub inside : l.point ≤ length l.letters
  pub inked : (j : ℕ) → j < length l.letters → Ink (get_or l.letters j 0)
  pub holds : (j : ℕ) → j < 50 → e.cmd_buffer j ≡ get_or l.letters j 0
  pub index : e.i ≡ l.point
  pub place : e.console.cursor ≡ start + l.point
  pub shown :
      (j : ℕ) → j < length l.letters → (view e.console).glyph (start + j) ≡ get_or l.letters j 0
  pub kept : (q : ℕ) → q < start → (view e.console).glyph q ≡ origin q

module _ (start : ℕ) (origin : ℕ → ℕ) (room : start + 50 < 2 ^ 16) where
  -- The byte under the counter is 0 exactly behind the line.
  pub at_end :
      (l : Line) (e : Editor)
      → Shows start origin l e
      → (e.cmd_buffer e.i == 0) ≡ (l.point == length l.letters)
  at_end l e s =
      let byte : e.cmd_buffer e.i ≡ get_or l.letters l.point 0 =
        ap e.cmd_buffer s.index ∙ s.holds l.point (omega (arith, s.short, s.inside)) in
      elim (Bool-cases (l.point == length l.letters)) [
        | inl end ↦ rw end (
            let nothing : get_or l.letters l.point 0 ≡ 0 =
              get_or_beyond l.letters l.point (ground arith) in
            ground arith)
        | inr inner ↦
            rw inner (let (ink, glyph) = s.inked l.point (ground (arith, s.inside)) in ground arith)
      ]

  -- Only the point moves.
  point_moved :
      (l : Line) (e : Editor)
      → Shows start origin l e
      → (p i c : ℕ) → p ≤ length l.letters
      → i ≡ p
      → c ≡ start + p
      → Shows start origin
          (record l { point = p })
          (record e { i = i; console = record e.console { cursor = c } })
  point_moved l e s p i c inside index place = record {
    short = s.short;
    inside = inside;
    inked = s.inked;
    holds = s.holds;
    index = index;
    place = place;
    shown = s.shown;
    kept = s.kept;
  }

  pub key_left-Shows :
      (l : Line) (e : Editor) → Shows start origin l e → Shows start origin (go_left l) (key_left e)
  key_left-Shows l e s =
      let small : l.point ≤ 49 = omega (arith, s.inside, s.short) in
      elim (Bool-cases (e.i == 0)) [
        | inl first ↦ rw first (
            point_moved l e s (l.point - 1) e.i e.console.cursor (omega (arith, s.inside))
              (ground (arith, s.index)) (ground (arith, s.place, s.index)))
        | inr inner ↦ rw inner (
            point_moved l e s (l.point - 1) (e.i - 1) (sub32 e.console.cursor 1 % 2 ^ 16)
              (omega (arith, s.inside)) (omega (arith, s.index)) (ground (arith, s.place, s.index)))
      ]

  pub key_right-Shows :
      (l : Line) (e : Editor)
      → Shows start origin l e
      → Shows start origin (go_right l) (key_right e)
  key_right-Shows l e s =
      let small : l.point ≤ 49 = omega (arith, s.inside, s.short) in
      elim (Bool-cases (l.point == length l.letters)) [
        | inl end ↦
            let here : (e.cmd_buffer e.i == 0) ≡ true = at_end l e s ∙ end in
            rw (end, here)
              (elim (Bool-cases (e.i == 0)) [
                | inl first ↦ rw first s
                | inr inner ↦ rw inner (
                    point_moved l e s l.point e.i (e.console.cursor % 2 ^ 16) s.inside s.index
                      (omega (arith, s.place)))
              ])
        | inr inner ↦
            let here : (e.cmd_buffer e.i == 0) ≡ false = at_end l e s ∙ inner in
            let stays : ((e.i == 0) && false) ≡ false = ground arith in
            rw (inner, here, stays)
              (point_moved l e s (l.point + 1) (e.i + 1) ((e.console.cursor + 1) % 2 ^ 16)
                (ground (arith, s.inside)) (omega (arith, s.index)) (omega (arith, s.place)))
      ]

  -- A letter over another or behind the last.
  letter_at :
      (c : ℕ) (l : Line) (j : ℕ)
      → l.point ≤ length l.letters
      → get_or (insert c l).letters j 0 ≡ (if l.point == j then c else get_or l.letters j 0)
  letter_at c l j h = elim (Bool-cases (l.point == length l.letters)) [
    | inl end ↦ rw end (get_or-append_last l.letters c j ∙ ground arith)
    | inr inner ↦ rw inner (elim (Bool-cases (l.point == j)) [
      | inl here ↦ rw here (
          ap (λ (i : ℕ). get_or (set l.letters l.point c) i 0) (ground arith)
          ∙ get_or-set_self l.letters l.point c 0 (ground arith))
      | inr other ↦ rw other (get_or-set_ne l.letters l.point j c 0 (ground arith))
    ])
  ]

  length-insert :
      (c : ℕ) (l : Line)
      → length (insert c l).letters
        ≡ (if l.point == length l.letters then suc (length l.letters) else length l.letters)
  length-insert c l = elim (Bool-cases (l.point == length l.letters)) [
    | inl end ↦ rw end (length-append l.letters (c ∷ []) ∙ omega arith)
    | inr inner ↦ rw inner (length-set l.letters l.point c)
  ]

  -- A letter at the point, with the line that it gives described index by index.
  written :
      (c : ℕ) (l : Line) (e : Editor) (letters : List ℕ)
      → Shows start origin l e
      → Ink c
      → l.point ≢ 49
      → length letters
        ≡ (if l.point == length l.letters then suc (length l.letters) else length l.letters)
      → ((j : ℕ) → get_or letters j 0 ≡ (if l.point == j then c else get_or l.letters j 0))
      → Shows start origin (record { letters = letters; point = l.point + 1 }) (key_char c e)
  written c l e letters s (ink, glyph) unfilled size letter =
      let small : l.point ≤ 49 = omega (arith, s.inside, s.short) in
      let cell : (q : ℕ)
          → (view (putc c e.console)).glyph q
            ≡ (if e.console.cursor == q then c else (view e.console).glyph q) =
        λ q. let (g, m) = putc-Glyph c q e.console glyph (omega (arith, s.place)) in g in
      record {
        short = ground (arith, s.short, s.inside);
        inside = ground (arith, s.inside);
        inked = λ j h. elim (Bool-cases (l.point == j)) [
          | inl here ↦ subst Ink (sym (letter j ∙ rw here refl)) (ink, glyph)
          | inr other ↦
              subst Ink (sym (letter j ∙ rw other refl)) (s.inked j (ground (arith, s.inside)))
        ];
        holds = λ j h. ground (arith, letter j, s.holds j h, s.index);
        index = omega (arith, s.index);
        place =
            let (g, m) = putc-Glyph c 0 e.console glyph (omega (arith, s.place)) in
            omega (arith, s.place);
        shown = λ j h. cell (start + j) ∙ elim (Bool-cases (l.point == j)) [
          | inl here ↦ ground (arith, letter j, s.place)
          | inr other ↦ ground (arith, letter j, s.place, s.shown j (ground (arith, s.inside)))
        ];
        kept = λ q h. cell q ∙ ground (arith, s.kept q h, s.place);
      }

  pub key_char-Shows :
      (c : ℕ) (l : Line) (e : Editor)
      → Shows start origin l e
      → Ink c
      → l.point ≢ 49
      → Shows start origin (insert c l) (key_char c e)
  key_char-Shows c l e s ink unfilled =
      written c l e (insert c l).letters s ink unfilled (length-insert c l)
        (λ j. letter_at c l j s.inside)

  -- A line without the letter before the point, with the editor that holds it described index by index.
  pub removed :
      (l : Line) (e r : Editor)
      → Shows start origin l e
      → 0 < l.point
      → r.i ≡ l.point - 1
      → r.console.cursor ≡ start + (l.point - 1)
      → ((j : ℕ)
          → j < 50
          → r.cmd_buffer j ≡ closed_line e.cmd_buffer (l.point - 1) (length l.letters) j)
      → ((q : ℕ)
          → q + 1 < start + length l.letters
          → (view r.console).glyph q
            ≡ closed_cells e.cmd_buffer
                (view e.console).glyph
                start
                (l.point - 1)
                (length l.letters)
                q)
      → Shows start origin
          (record { letters = erase l.letters (l.point - 1); point = l.point - 1 })
          r
  removed l e r s away index place bytes cells =
      let xs : List ℕ = l.letters in
      let k : ℕ = l.point - 1 in
      let size : suc (length (erase xs k)) ≡ length xs =
        length-erase xs k (omega (arith, s.inside)) in
      let letter : (j : ℕ)
          → get_or (erase xs k) j 0 ≡ (if ltb j k then get_or xs j 0 else get_or xs (suc j) 0) =
        get_or-erase xs k in
      record {
        short = omega (arith, s.short);
        inside = omega (arith, s.inside);
        inked = λ j h. elim (Bool-cases (ltb j k)) [
          | inl below ↦ subst Ink (sym (letter j ∙ rw below refl)) (s.inked j (omega arith))
          | inr above ↦ subst Ink (sym (letter j ∙ rw above refl)) (s.inked (suc j) (omega arith))
        ];
        holds = λ j h. bytes j h ∙ elim (Bool-cases (ltb j (length xs))) [
          | inl inner ↦
              ground (arith, letter j, s.holds j h, s.holds (suc j) (ground (arith, s.short)))
          | inr beyond ↦ ground (
            arith,
            letter j,
            s.holds j h,
            get_or_beyond xs j (ground arith),
            get_or_beyond xs (suc j) (ground arith),
            s.inside,
          )
        ];
        index = index;
        place = place;
        shown = λ j h. cells (start + j) (omega arith) ∙ elim (Bool-cases (ltb j k)) [
          | inl below ↦ ground (arith, letter j, s.shown j (omega arith))
          | inr above ↦
              let here : suc (start + j - start) ≡ suc j = omega arith in
              ground (arith, letter j, here, s.holds (suc j) (omega (arith, s.short)))
        ];
        kept = λ q h. cells q (omega (arith, s.inside)) ∙ ground (arith, s.kept q h);
      }
