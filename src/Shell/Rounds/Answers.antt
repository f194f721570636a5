-- ===== src/Shell/Rounds/Answers.antt =====
-- The rounds of the shell of kernal/kernel/kshell.c do what is typed.
use mathlib.Core.Path.{subst}
use she_x_mini_operating_sys.Base.{
  ℕ, ◌+◌, ◌^◌, ◌<◌, ◌≤◌, ◌≡◌, ◌≢◌, refl, sym, ap, ◌∙◌, true, some, List, ◌∷◌, ◌++◌, length, get_or,
  replicate,
}
use she_x_mini_operating_sys.Console.{Console, monitor_puts}
use she_x_mini_operating_sys.Console.Screen.{view}
use she_x_mini_operating_sys.Shell.{Command, extract_token, string_compare, space, help_word}
use she_x_mini_operating_sys.Shell.Tokens.{
  Gapped, line, words_ok, nth_word, cut, extract_token-line,
}
use she_x_mini_operating_sys.Shell.Laws.{Names, parse_command_lem}
use she_x_mini_operating_sys.Shell.Ball.{Wake}
use she_x_mini_operating_sys.Shell.Commands.{
  Session, command_help, command_fresh, command_timer, command_picture, command_quote,
  command_unknown,
}
use she_x_mini_operating_sys.Shell.Commands.Laws.{command_fresh_colors}
use she_x_mini_operating_sys.Shell.Editor.{Editor, prompt}
use she_x_mini_operating_sys.Shell.Editor.Line.{Line}
use she_x_mini_operating_sys.Shell.Editor.Laws.{Shows}
use she_x_mini_operating_sys.Shell.Editor.Flush.{ZeroTail}
use she_x_mini_operating_sys.Shell.Rounds.{
  Shell, Left, kshell_round, resumed, execute, run_command, shown_by, command_ball, with_keys,
  ball_usage,
}
use she_x_mini_operating_sys.Shell.Rounds.Laws.{all_letters, kshell_round_lem}
use she_x_mini_operating_sys.Shell.Rounds.Requests.{
  Request, Done, command_timer-SpeedName, command_quote_lem, command_name_lem,
}

module _ (clear : Console → Console) (wakes : List Wake) (tick_count k : ℕ) (gs : List Gapped)
    (last keys : List ℕ) (s : Session) (ok : words_ok gs last ≡ true) where
  abbrev typed : List ℕ
  typed = replicate k space ++ line gs last

  abbrev run : Command → Left
  run = run_command clear wakes tick_count typed keys s

  executes :
      (w : List ℕ) (c : Command)
      → Names w c
      → nth_word gs last 0 ≡ w
      → execute clear wakes tick_count typed keys s ≡ run c
  executes w c named e =
      let (known, other) = parse_command_lem k gs last ok in
      ap run (known c (subst (λ (v : List ℕ). Names v c) (sym e) named))

  ball_help_lem :
      extract_token typed 1 ≡ help_word
      → command_ball clear wakes typed keys s
        ≡ with_keys keys (some (record s { console = monitor_puts ball_usage s.console }))
  unfolding command_ball string_compare
  ball_help_lem e = rw e refl

  pub execute-Done :
      (r : Request (nth_word gs last))
      → (s' : Session) × (execute clear wakes tick_count typed keys s ≡ some (s', keys))
        × Done r tick_count s s'
  execute-Done (Request.help_request e) =
      (command_help s, executes help_word Command.help Names.help e, refl)
  execute-Done (Request.fresh_request a b e c d) = (
    command_fresh clear typed s,
    executes _ Command.fresh Names.fresh e,
    command_fresh_colors clear k gs last a b s ok c d,
  )
  execute-Done (Request.timer_request high e c) = (
    command_timer typed s,
    executes _ Command.timer Names.timer e,
    command_timer-SpeedName typed (nth_word gs last 1) high s (extract_token-line k 1 gs last ok) c,
  )
  execute-Done (Request.picture_request e) =
      (command_picture s, executes _ Command.picture Names.picture e, (_, refl, refl))
  execute-Done (Request.ball_help e c) = (
    record s { console = monitor_puts ball_usage s.console },
    executes _ Command.ball Names.ball e
        ∙ ball_help_lem (extract_token-line k 1 gs last ok ∙ ap (cut 25) c),
    refl,
  )
  execute-Done (Request.quote_request e) = (
    command_quote tick_count s,
    executes _ Command.quote Names.quote e,
    command_quote_lem tick_count s,
  )
  execute-Done (Request.name_request e a b c) = (
    record s { shell_name = nth_word gs last 1 },
    executes _ Command.name Names.name e
        ∙ ap (with_keys keys) (
            command_name_lem typed (nth_word gs last 1) s (extract_token-line k 1 gs last ok) a b
              c),
    refl,
  )
  execute-Done (Request.unknown e) =
      let (known, other) = parse_command_lem k gs last ok in
      (command_unknown (cut 25 (nth_word gs last 0)) s, ap run (other e), refl)

-- A line of words of at most 49 characters and Enter, typed into the shell, do what the words ask for:
-- `help` prints the list of commands; `fresh` with two colours makes them the shell's; `timer` with a
-- speed writes the divisor of that speed to the timer's ports; `picture` prints 16 strings; `ball help`
-- prints its usage; `quote` prints the quote that the tick count chooses; `name` with a word below 20
-- characters, not `help` or `masih`, makes it the shell's name; and a first word whose first 25
-- characters name no command is reported by them. Each changes no more of the session than this, but
-- `fresh` also the screen. The session is the one with the console of an editor that holds and shows the
-- line, and the keys behind Enter are left. The characters of the line are not 0, 17, 18, a backspace or
-- Enter, and the keys behind it not 0; the prompt ends at a cell whose number is 50 and more below
-- 2 ^ 16; and the command buffer holds nothing but zeros behind its first 0.
pub kshell_round-Done :
    (clear : Console → Console) (wakes : List Wake) (tick_count k : ℕ) (gs : List Gapped)
    (last keys : List ℕ) (sh : Shell)
    → words_ok gs last ≡ true
    → (r : Request (nth_word gs last)) → ZeroTail sh.cmd_buffer
    → all_letters (replicate k space ++ line gs last) ≡ true
    → length (replicate k space ++ line gs last) ≤ 49
    → ((i : ℕ) → get_or keys i 1 ≢ 0)
    → (prompt sh.session.shell_name sh.session.console).cursor + 50 < 2 ^ 16
    → (e : Editor) × (l : Line) × (s' : Session) × Shows
        (prompt sh.session.shell_name sh.session.console).cursor
        (view (prompt sh.session.shell_name sh.session.console)).glyph
        l
        e
      × (l.letters ≡ replicate k space ++ line gs last)
      × (kshell_round clear wakes tick_count
            ((replicate k space ++ line gs last) ++ (0x0a ∷ keys))
            sh
          ≡ some (record { session = s'; cmd_buffer = e.cmd_buffer }, keys))
      × Done r tick_count (shown_by e sh.session) s'
kshell_round-Done clear wakes tick_count k gs last keys sh ok r tail letters short rest room =
    let (e, l, shows, same, ends) =
      kshell_round_lem clear wakes tick_count (replicate k space ++ line gs last) keys sh tail
        letters short rest room in
    let (s', runs, does) =
      execute-Done clear wakes tick_count k gs last keys (shown_by e sh.session) ok r in
    (e, l, s', shows, same, ends ∙ ap (resumed e.cmd_buffer) runs, does)
