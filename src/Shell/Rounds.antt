-- ===== src/Shell/Rounds.antt =====
-- kernal/kernel/kshell.c: what `parse_command` runs, and the rounds of `kshell`. `wakes` is what wakes a
-- game, `tick_count` the counter of the timer when a quote is asked for, and `keys` the characters that
-- `get_monitor_char` returns from then on.
pub mod Laws
pub mod Requests
pub mod Answers
use she_x_mini_operating_sys.Base.{ℕ, Option, none, some, List, [], ◌∷◌, ◌==◌, if◌then◌else◌}
use she_x_mini_operating_sys.Console.{Console, monitor_puts, set_cursor}
use she_x_mini_operating_sys.Shell.{
  Command, parse_command, extract_token, string_compare, help_word,
}
use she_x_mini_operating_sys.Shell.Commands.{
  Session, bytes, say, command_help, command_fresh, command_timer, command_picture, command_name,
  command_quote, command_unknown,
}
use she_x_mini_operating_sys.Shell.Ball.{Game, Turn, Wake, game_loop, new_game}
use she_x_mini_operating_sys.Shell.Editor.{Editor, KeyStep, Read, read_command, command_line}

-- `while(get_monitor_char()!='x')`: the keys behind it, or `none` where there is no such key.
pub skip_to_x : List ℕ → Option (List ℕ)
skip_to_x [] = none
skip_to_x (key ∷ keys) = let rest = skip_to_x keys in if key == b'x' then some keys else rest

-- A session and the keys that are left; `none` where the keys or the wakes end first, or where a byte
-- is written or read outside of its array.
abbrev pub Left : Type 0
Left = Option (Session × List ℕ)

abbrev pub back_to_shell : (Console → Console) → List ℕ → Session → Option (List ℕ) → Left
back_to_shell clear cmd_buffer s none = none
back_to_shell clear cmd_buffer s (some keys) = some (command_fresh clear cmd_buffer s, keys)

-- The end of a game, which draws on the console's text memory.
abbrev pub game_over : (Console → Console) → List ℕ → List ℕ → List ℕ → Game → Session → Left
game_over clear cmd_buffer keys message g s =
    let c = monitor_puts message (set_cursor 0 (record s.console { text = g.text })) in
    back_to_shell clear cmd_buffer (say ("\nPress x to exit" ∷ []) (record s { console = c }))
      (skip_to_x keys)

abbrev pub after_game : (Console → Console) → List ℕ → List ℕ → Session → Turn → Left
after_game clear cmd_buffer keys s (Turn.playing g) = none
after_game clear cmd_buffer keys s (Turn.p1_loses g) =
    game_over clear cmd_buffer keys (bytes "P1 loses!") g s
after_game clear cmd_buffer keys s (Turn.p2_loses g) =
    game_over clear cmd_buffer keys (bytes "P2 loses!") g s
after_game clear cmd_buffer keys s Turn.outside = none

abbrev pub ball_usage : List ℕ
ball_usage = bytes "\nPlay with balls. Kick out the other ball to win! (w/a/s/d) (i/j/k/l)"

unfoldable pub command_ball : (Console → Console) → List Wake → List ℕ → List ℕ → Session → Left
command_ball clear wakes cmd_buffer keys s =
    let c = set_cursor 2000 (clear s.console) in
    let played =
      after_game clear cmd_buffer keys (record s { console = c })
        (game_loop wakes (new_game c.text)) in
    if string_compare (extract_token cmd_buffer 1) help_word
    then some (record s { console = monitor_puts ball_usage s.console }, keys)
    else played

abbrev pub with_keys : List ℕ → Option Session → Left
with_keys keys none = none
with_keys keys (some s) = some (s, keys)

-- The calls of `parse_command`.
abbrev pub run_command :
    (Console → Console) → List Wake → ℕ → List ℕ → List ℕ → Session → Command → Left
run_command clear wakes tick_count cmd_buffer keys s Command.help = some (command_help s, keys)
run_command clear wakes tick_count cmd_buffer keys s Command.fresh =
    some (command_fresh clear cmd_buffer s, keys)
run_command clear wakes tick_count cmd_buffer keys s Command.timer =
    some (command_timer cmd_buffer s, keys)
run_command clear wakes tick_count cmd_buffer keys s Command.picture =
    some (command_picture s, keys)
run_command clear wakes tick_count cmd_buffer keys s Command.ball =
    command_ball clear wakes cmd_buffer keys s
run_command clear wakes tick_count cmd_buffer keys s Command.quote =
    some (command_quote tick_count s, keys)
run_command clear wakes tick_count cmd_buffer keys s Command.name =
    with_keys keys (command_name cmd_buffer s)
run_command clear wakes tick_count cmd_buffer keys s (Command.not_found token) =
    some (command_unknown token s, keys)

abbrev pub execute : (Console → Console) → List Wake → ℕ → List ℕ → List ℕ → Session → Left
execute clear wakes tick_count cmd_buffer keys s =
    run_command clear wakes tick_count cmd_buffer keys s (parse_command cmd_buffer)

-- The session and the command buffer.
pub record Shell : Type 0 where
  pub session : Session
  pub cmd_buffer : ℕ → ℕ

abbrev pub resumed : (ℕ → ℕ) → Left → Option (Shell × List ℕ)
resumed cmd_buffer none = none
resumed cmd_buffer (some (s, keys)) = some (record { session = s; cmd_buffer = cmd_buffer }, keys)

abbrev pub shown_by : Editor → Session → Session
shown_by e s = record s { console = e.console }

-- What follows the loop over the characters of a line.
abbrev pub after_line :
    (Console → Console) → List Wake → ℕ → Session → List ℕ → KeyStep → Option (Shell × List ℕ)
after_line clear wakes tick_count s keys (KeyStep.reading e) = none
after_line clear wakes tick_count s keys (KeyStep.entered e) =
    resumed e.cmd_buffer (execute clear wakes tick_count (command_line e) keys (shown_by e s))
after_line clear wakes tick_count s keys (KeyStep.full e) =
    some (record { session = shown_by e s; cmd_buffer = e.cmd_buffer }, keys)

-- One round of the outer loop of `kshell`.
unfoldable pub kshell_round :
    (Console → Console) → List Wake → ℕ → List ℕ → Shell → Option (Shell × List ℕ)
kshell_round clear wakes tick_count keys sh =
    let s = sh.session in
    let start : Editor = record { cmd_buffer = sh.cmd_buffer; i = 0; console = s.console } in
    let line = read_command s.shell_name start keys in
    after_line clear wakes tick_count s line.remaining line.outcome
