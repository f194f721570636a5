-- ===== src/Shell/Rounds/Laws.antt =====
-- A command that is typed into the shell of kernal/kernel/kshell.c.
use mathlib.Core.Path.{subst}
use she_x_mini_operating_sys.Base.{
  ℕ, zero, suc, ◌+◌, ◌^◌, ◌<◌, ◌≤◌, ◌≡◌, ◌≢◌, refl, sym, ap, ◌∙◌, Bool, true, false, not, ◌&&◌,
  List, [], ◌∷◌, ◌++◌, ◌==◌, length, get_or, length-append, arith,
}
use she_x_mini_operating_sys.Console.{Console}
use she_x_mini_operating_sys.Console.Screen.{view}
use she_x_mini_operating_sys.Shell.Ball.{Wake}
use she_x_mini_operating_sys.Shell.Commands.{Session}
use she_x_mini_operating_sys.Shell.Editor.{
  Editor, KeyStep, Read, read_command, command_line, prompt,
}
use she_x_mini_operating_sys.Shell.Editor.Line.{
  Line, LineStep, line_step, LineRead, line_loop, line_after,
}
use she_x_mini_operating_sys.Shell.Editor.Laws.{Shows}
use she_x_mini_operating_sys.Shell.Editor.Flush.{ZeroTail}
use she_x_mini_operating_sys.Shell.Editor.Reading.{Follows, read_command-Agrees}
use she_x_mini_operating_sys.Shell.Rounds.{
  Shell, kshell_round, after_line, resumed, execute, shown_by,
}

-- A character that the editor takes for a letter of the line.
abbrev pub is_letter : ℕ → Bool
is_letter c = not (c == 0) && not (c == 17) && not (c == 18) && not (c == 0x08) && not (c == 0x0a)

abbrev pub all_letters : List ℕ → Bool
all_letters [] = true
all_letters (c ∷ cs) = is_letter c && all_letters cs

line_step_letter :
    (c : ℕ) (l : Line)
    → is_letter c ≡ true
    → l.point ≡ length l.letters
    → l.point < 49
    → line_step c l
      ≡ LineStep.typing (record { letters = l.letters ++ c ∷ []; point = l.point + 1 })
unfolding line_step
line_step_letter c l letter end room =
    let n1 : (c == 17) ≡ false = ground arith in
    let n2 : (c == 18) ≡ false = ground arith in
    let n3 : (c == 0x08) ≡ false = ground arith in
    let n4 : (c == 0x0a) ≡ false = ground arith in
    let n5 : (l.point == 49) ≡ false = ground arith in
    let last : (l.point == length l.letters) ≡ true = ground arith in
    rw (n1, n2, n3, n4, n5, last) refl

append_letter : (xs : List ℕ) (c : ℕ) (ys : List ℕ) → (xs ++ c ∷ []) ++ ys ≡ xs ++ (c ∷ ys)
append_letter [] c ys = refl
append_letter (x ∷ xs) c ys = ap (λ zs. x ∷ zs) (append_letter xs c ys)

append_nil : (xs : List ℕ) → xs ++ [] ≡ xs
append_nil [] = refl
append_nil (x ∷ xs) = ap (λ zs. x ∷ zs) (append_nil xs)

-- Letters behind a line, and Enter.
line_loop_letters :
    (letters keys : List ℕ) (l : Line)
    → all_letters letters ≡ true
    → l.point ≡ length l.letters
    → l.point + length letters ≤ 49
    → line_loop l (letters ++ (0x0a ∷ keys))
      ≡ record { outcome = LineStep.complete (l.letters ++ letters); remaining = keys }
unfolding line_loop line_step
line_loop_letters [] keys l ok end room =
    ap (λ (xs : List ℕ). record { outcome = LineStep.complete xs; remaining = keys })
      (sym (append_nil l.letters))
line_loop_letters (c ∷ cs) keys l ok end room =
    let step = line_step_letter c l (ground arith) end (omega arith) in
    let size : l.point + 1 ≡ length (l.letters ++ c ∷ []) =
      omega (arith, length-append l.letters (c ∷ [])) in
    ap (line_after (λ l'. line_loop l' (cs ++ (0x0a ∷ keys))) (cs ++ (0x0a ∷ keys))) step
    ∙ line_loop_letters cs keys (record { letters = l.letters ++ c ∷ []; point = l.point + 1 })
        (ground arith) size (omega arith)
    ∙ ap (λ (xs : List ℕ). record { outcome = LineStep.complete xs; remaining = keys })
        (append_letter l.letters c cs)

no_zero :
    (letters : List ℕ) (keys : List ℕ)
    → all_letters letters ≡ true
    → ((i : ℕ) → get_or keys i 1 ≢ 0)
    → (i : ℕ) → get_or (letters ++ (0x0a ∷ keys)) i 1 ≢ 0
no_zero [] keys ok rest zero = omega arith
no_zero [] keys ok rest (suc i) = rest i
no_zero (c ∷ cs) keys ok rest zero = ground arith
no_zero (c ∷ cs) keys ok rest (suc i) = no_zero cs keys (ground arith) rest i

-- What a completed line means for the editor.
entered_line :
    (start : ℕ) (origin : ℕ → ℕ) (letters : List ℕ) (k : KeyStep)
    → Follows start origin (LineStep.complete letters) k
    → (e : Editor) × (l : Line) × (k ≡ KeyStep.entered e)
      × (command_line e ≡ letters)
      × Shows start origin l e
      × (l.letters ≡ letters)
entered_line start origin letters k (Follows.complete l e s line) = (e, l, refl, line, s, refl)

-- Under the conditions on the editor and its keys, the keys of a command of at most 49 letters and Enter run that command, on the session with the
-- console of an editor that holds and shows the command, and with the keys behind Enter left.
pub kshell_round_lem :
    (clear : Console → Console) (wakes : List Wake) (tick_count : ℕ) (letters keys : List ℕ)
    (sh : Shell)
    → ZeroTail sh.cmd_buffer
    → all_letters letters ≡ true
    → length letters ≤ 49
    → ((i : ℕ) → get_or keys i 1 ≢ 0)
    → (prompt sh.session.shell_name sh.session.console).cursor + 50 < 2 ^ 16
    → (e : Editor) × (l : Line) × Shows
        (prompt sh.session.shell_name sh.session.console).cursor
        (view (prompt sh.session.shell_name sh.session.console)).glyph
        l
        e
      × (l.letters ≡ letters)
      × (kshell_round clear wakes tick_count (letters ++ (0x0a ∷ keys)) sh
          ≡ resumed e.cmd_buffer
              (execute clear wakes tick_count letters keys (shown_by e sh.session)))
unfolding kshell_round
kshell_round_lem clear wakes tick_count letters keys sh tail ok short rest room =
    let s : Session = sh.session in
    let start : Editor = record { cmd_buffer = sh.cmd_buffer; i = 0; console = s.console } in
    let read : Read = read_command s.shell_name start (letters ++ (0x0a ∷ keys)) in
    let ((follows, same), zeros) =
      read_command-Agrees s.shell_name start (letters ++ (0x0a ∷ keys)) tail
        (no_zero letters keys ok rest) room in
    let typed =
      line_loop_letters letters keys (record { letters = []; point = 0 }) ok refl (omega arith) in
    let c : Console = prompt s.shell_name s.console in
    let (e, l, entered, line, shows, same_letters) =
      entered_line c.cursor (view c).glyph letters read.outcome (
        subst (λ (a : LineRead). Follows c.cursor (view c).glyph a.outcome read.outcome) typed
          follows) in
    let remaining : read.remaining ≡ keys = sym same ∙ ap (λ (a : LineRead). a.remaining) typed in
    (
      e,
      l,
      shows,
      same_letters,
      ap (λ (k : KeyStep). after_line clear wakes tick_count s read.remaining k) entered
          ∙ ap (λ (ks : List ℕ). after_line clear wakes tick_count s ks (KeyStep.entered e))
              remaining
          ∙ ap
              (λ (xs : List ℕ).
                resumed e.cmd_buffer (execute clear wakes tick_count xs keys (shown_by e s)))
              line,
    )
