-- ===== src/Shell/Trials.antt =====
-- Runs of the editor, the commands and the game of kernal/kernel/kshell.c, and the theorems on them.
use she_x_mini_operating_sys.Base.{
  ℕ, ◌+◌, ◌^◌, ◌<◌, ◌≡◌, ◌≢◌, refl, none, some, List, [], ◌∷◌, ◌++◌, replicate, get_or, arith, true,
  false,
}
use she_x_mini_operating_sys.Console.{Console, monitor_puts, put_loop, put_step, putc, chars}
use she_x_mini_operating_sys.Console.Screen.{view}
use she_x_mini_operating_sys.Shell.{space}
use she_x_mini_operating_sys.Shell.Tokens.{Gapped, line, nth_word}
use she_x_mini_operating_sys.Shell.Editor.{
  Editor, read_command, read_loop, key_step, shift_loop, flush_loop, KeyStep, prompt, command_line,
}
use she_x_mini_operating_sys.Shell.Editor.Line.{Line, line_loop}
use she_x_mini_operating_sys.Shell.Editor.Laws.{Shows}
use she_x_mini_operating_sys.Shell.Editor.Flush.{ZeroTail}
use she_x_mini_operating_sys.Shell.Editor.Reading.{Agrees, editor_of, read_command-Agrees}
use she_x_mini_operating_sys.Shell.Commands.{Session, command_fresh, bytes}
use she_x_mini_operating_sys.Shell.Commands.Laws.{ColorName, command_fresh_lem}
use she_x_mini_operating_sys.Shell.Ball.{Wake, game_loop, new_game, Turn}
use she_x_mini_operating_sys.Shell.Ball.Play.{Fair, game_loop-Fair}
use she_x_mini_operating_sys.Shell.Rounds.{Shell, kshell_round, shown_by}
use she_x_mini_operating_sys.Shell.Rounds.Requests.{Request, Done}
use she_x_mini_operating_sys.Shell.Rounds.Answers.{kshell_round-Done}

abbrev dark : Console
dark = record { text = λ q. 0; cursor = 0; current_color = 0x09 }

abbrev shell_word : List ℕ
shell_word = b's' ∷ b'h' ∷ b'e' ∷ b'l' ∷ b'l' ∷ []

abbrev idle : Editor
idle = record { cmd_buffer = λ j. 0; i = 0; console = dark }

-- `hxlp`, two steps to the left, a backspace, `e`, and Enter.
abbrev corrected : List ℕ
corrected = b'h' ∷ b'x' ∷ b'l' ∷ b'p' ∷ 17 ∷ 17 ∷ 0x08 ∷ 0x0a ∷ []

prompt_cursor : (prompt shell_word dark).cursor + 50 < 2 ^ 16
unfolding monitor_puts put_loop put_step
prompt_cursor = omega arith

no_zero_key : (i : ℕ) → get_or corrected i 1 ≢ 0
no_zero_key i = ground arith

all_zero : ZeroTail (λ j. 0)
all_zero j k e h l = refl

read_command-Agrees_example :
    Agrees
      (prompt shell_word dark).cursor
      (view (prompt shell_word dark)).glyph
      (line_loop (record { letters = []; point = 0 }) corrected)
      (read_command shell_word idle corrected)
    × ZeroTail (editor_of (read_command shell_word idle corrected).outcome).cmd_buffer
read_command-Agrees_example =
    read_command-Agrees shell_word idle corrected all_zero no_zero_key prompt_cursor

abbrev end_of : KeyStep → List ℕ
end_of (KeyStep.reading e) = []
end_of (KeyStep.entered e) = command_line e
end_of (KeyStep.full e) = []

reads_hlp : end_of (read_command shell_word idle corrected).outcome ≡ b'h' ∷ b'l' ∷ b'p' ∷ []
unfolding read_command read_loop key_step shift_loop flush_loop chars putc monitor_puts put_loop
    put_step
reads_hlp = refl

abbrev blue_word : List ℕ
blue_word = b'b' ∷ b'l' ∷ b'u' ∷ b'e' ∷ []

abbrev white_word : List ℕ
white_word = b'w' ∷ b'h' ∷ b'i' ∷ b't' ∷ b'e' ∷ []

-- `fresh`, two spaces, `white`, a space, and then `blue`.
abbrev fresh_white : List Gapped
fresh_white =
    record { first = b'f'; others = b'r' ∷ b'e' ∷ b's' ∷ b'h' ∷ []; more = 1 }
    ∷ record { first = b'w'; others = b'h' ∷ b'i' ∷ b't' ∷ b'e' ∷ []; more = 0 }
    ∷ []

abbrev first_session : Session
first_session = record {
  color_0 = 9;
  color_1 = 0;
  shell_name = shell_word;
  console = dark;
  ports = [];
}

white_name : ColorName white_word 15
unfolding bytes
white_name = ColorName.white

blue_name : ColorName blue_word 1
unfolding bytes
blue_name = ColorName.blue

command_fresh_lem_example :
    let r =
      command_fresh (λ c. c) (replicate 0 space ++ line fresh_white blue_word) first_session in
    (r.color_0 ≡ 15)
    × (r.color_1 ≡ 1)
    × (r.console.current_color ≡ 31)
    × (r.shell_name ≡ shell_word)
    × (r.ports ≡ [])
command_fresh_lem_example =
    command_fresh_lem (λ c. c) 0 fresh_white blue_word 15 1 first_session (λ d. refl) refl
      white_name blue_name (omega arith)

-- The first ball moves to the left, and leaves the screen with the tick.
abbrev bold_wakes : List Wake
bold_wakes = record { key = some b'a'; tick = false } ∷ record { key = none; tick = true } ∷ []

abbrev loser : Turn → ℕ
loser (Turn.playing g) = 0
loser (Turn.p1_loses g) = 1
loser (Turn.p2_loses g) = 2
loser Turn.outside = 3

player_1_loses : loser (game_loop bold_wakes (new_game (λ q. 0))) ≡ 1
unfolding game_loop
player_1_loses = refl

game_loop-Fair_example : Fair (λ q. 0) (game_loop bold_wakes (new_game (λ q. 0)))
game_loop-Fair_example = game_loop-Fair bold_wakes (λ q. 0)

abbrev first_shell : Shell
first_shell = record { session = first_session; cmd_buffer = λ j. 0 }

asks_for_white : Request (nth_word fresh_white blue_word)
asks_for_white = Request.fresh_request 15 1 refl white_name blue_name

abbrev typed_white : List ℕ
typed_white = replicate 0 space ++ line fresh_white blue_word

kshell_round-Done_example :
    (e : Editor) × (l : Line) × (s' : Session) × Shows
      (prompt shell_word dark).cursor
      (view (prompt shell_word dark)).glyph
      l
      e
    × (l.letters ≡ typed_white)
    × (kshell_round (λ c. c) [] 0 (typed_white ++ (0x0a ∷ [])) first_shell
        ≡ some (record { session = s'; cmd_buffer = e.cmd_buffer }, []))
    × Done asks_for_white 0 (shown_by e first_session) s'
kshell_round-Done_example =
    kshell_round-Done (λ c. c) [] 0 0 fresh_white blue_word [] first_shell refl asks_for_white
      all_zero refl (omega arith) (λ i. omega arith) prompt_cursor
