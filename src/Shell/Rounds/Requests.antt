-- ===== src/Shell/Rounds/Requests.antt =====
-- What each command of kernal/kernel/kshell.c is to do, by the words of its line.
use Prim.Native.String.{String}
use she_x_mini_operating_sys.Base.{
  ℕ, zero, suc, ◌%◌, ◌<◌, ◌≤◌, ◌≡◌, ◌≢◌, refl, ap, ◌∙◌, true, false, some, List, [], ◌∷◌, ◌++◌,
  ◌==◌, if◌then◌else◌, length, get_or, ltb, arith,
}
use she_x_mini_operating_sys.Console.{monitor_puts}
use she_x_mini_operating_sys.Timer.{set_timer}
use she_x_mini_operating_sys.Shell.{
  Command, extract_token, string_compare, help_word, fresh_word, timer_word, picture_word,
  ball_word, quote_word, name_word,
}
use she_x_mini_operating_sys.Shell.Tokens.{cut}
use she_x_mini_operating_sys.Shell.Laws.{Names, differs}
use she_x_mini_operating_sys.Shell.Commands.{
  Session, bytes, puts_all, string_copy, command_timer, command_name, command_quote,
}
use she_x_mini_operating_sys.Shell.Commands.Laws.{ColorName}

-- The names of the speeds of the timer, with the high byte of its divisor; the low byte is 0xff.
pub data SpeedName : List ℕ → ℕ → Type 0 where
  fast : SpeedName (bytes "fast") 0x3f
  medium : SpeedName (bytes "medium") 0x7f
  slow : SpeedName (bytes "slow") 0xff

-- A request by the words of a line.
pub data Request (word : ℕ → List ℕ) : Type 0 where
  help_request : word 0 ≡ help_word → Request word
  fresh_request :
      (a b : ℕ) → word 0 ≡ fresh_word → ColorName (word 1) a → ColorName (word 2) b → Request word
  timer_request : (high : ℕ) → word 0 ≡ timer_word → SpeedName (word 1) high → Request word
  picture_request : word 0 ≡ picture_word → Request word
  ball_help : word 0 ≡ ball_word → word 1 ≡ help_word → Request word
  quote_request : word 0 ≡ quote_word → Request word
  name_request :
      word 0 ≡ name_word
      → word 1 ≢ help_word
      → word 1 ≢ bytes "masih"
      → length (word 1) < 20
      → Request word
  unknown : ((w : List ℕ) (c : Command) → Names w c → cut 25 (word 0) ≢ w) → Request word

abbrev pub help_lines : List String
help_lines =
    "\nList of commands (use `command` help for usage):" ∷ "\nhelp" ∷ " fresh" ∷ " timer"
    ∷ " picture" ∷ " ball" ∷ " name\n" ∷ []

abbrev first_quotes : List String
first_quotes =
    "\tTap that ass and step on the gas" ∷ "\tAlways stay grounded to your roots"
    ∷ "\tSometimes change is necessary" ∷ []

abbrev pub quote_of : ℕ → String
quote_of n = get_or first_quotes n "\tTrust that good will happen"

-- What becomes of the session by a request; `tick_count` chooses the quote.
abbrev pub Done : {word : ℕ → List ℕ} → Request word → ℕ → Session → Session → Type 0
Done (Request.help_request e) tick_count s s' =
    s' ≡ record s { console = puts_all help_lines s.console }
Done (Request.fresh_request a b e c d) tick_count s s' =
    (s'.color_0 ≡ a) × (s'.color_1 ≡ b) × (s'.shell_name ≡ s.shell_name) × (s'.ports ≡ s.ports)
Done (Request.timer_request high e c) tick_count s s' =
    s' ≡ record s { ports = s.ports ++ (0x43, 0x36) ∷ (0x40, 0xff) ∷ (0x40, high) ∷ [] }
Done (Request.picture_request e) tick_count s s' =
    (lines : List String) × (length lines ≡ 16)
    × (s' ≡ record s { console = puts_all lines s.console })
Done (Request.ball_help e c) tick_count s s' = s' ≡ record s {
  console =
      monitor_puts (bytes "\nPlay with balls. Kick out the other ball to win! (w/a/s/d) (i/j/k/l)")
        s.console;
}
Done (Request.quote_request e) tick_count s s' =
    s' ≡ record s { console = puts_all (quote_of (tick_count % 5) ∷ []) s.console }
Done {word} (Request.name_request e a b c) tick_count s s' = s' ≡ record s { shell_name = word 1 }
Done {word} (Request.unknown e) tick_count s s' = s' ≡ record s {
  console =
      monitor_puts (cut 25 (word 0)) (monitor_puts (bytes " - Command not found: ") s.console);
}

-- `timer`, by its second word.
pub command_timer-SpeedName :
    (cmd_buffer w : List ℕ) (high : ℕ) (s : Session)
    → extract_token cmd_buffer 1 ≡ cut 25 w
    → SpeedName w high
    → command_timer cmd_buffer s
      ≡ record s { ports = s.ports ++ (0x43, 0x36) ∷ (0x40, 0xff) ∷ (0x40, high) ∷ [] }
unfolding command_timer string_compare bytes set_timer
command_timer-SpeedName cmd_buffer w high s e SpeedName.fast = rw e refl
command_timer-SpeedName cmd_buffer w high s e SpeedName.medium = rw e refl
command_timer-SpeedName cmd_buffer w high s e SpeedName.slow = rw e refl

quote_lem :
    (n : ℕ) (s : Session) (f : String → Session)
    → (if n == 0
        then f "\tTap that ass and step on the gas"
        else if n == 1
        then f "\tAlways stay grounded to your roots"
        else if n == 2
        then f "\tSometimes change is necessary"
        else f "\tTrust that good will happen")
      ≡ f (quote_of n)
quote_lem zero s f = refl
quote_lem (suc zero) s f = refl
quote_lem (suc (suc zero)) s f = refl
quote_lem (suc (suc (suc n))) s f =
    let n0 : (suc (suc (suc n)) == 0) ≡ false = ground arith in
    let n1 : (suc (suc (suc n)) == 1) ≡ false = ground arith in
    let n2 : (suc (suc (suc n)) == 2) ≡ false = ground arith in rw (n0, n1, n2) refl

pub command_quote_lem :
    (tick_count : ℕ) (s : Session)
    → command_quote tick_count s
      ≡ record s { console = puts_all (quote_of (tick_count % 5) ∷ []) s.console }
command_quote_lem tick_count s =
    quote_lem (tick_count % 5) s (λ q. record s { console = puts_all (q ∷ []) s.console })

cut_short : (n : ℕ) (xs : List ℕ) → length xs ≤ n → cut n xs ≡ xs
cut_short zero [] h = refl
cut_short zero (x ∷ xs) h = absurd (omega arith)
cut_short (suc n) [] h = refl
cut_short (suc n) (x ∷ xs) h = ap (λ ys. x ∷ ys) (cut_short n xs (omega arith))

string_copy_fresh : (xs : List ℕ) → string_copy [] xs ≡ xs
unfolding string_copy
string_copy_fresh [] = refl
string_copy_fresh (x ∷ xs) = ap (λ ys. x ∷ ys) (string_copy_fresh xs)

-- `name`, by its second word.
pub command_name_lem :
    (cmd_buffer w : List ℕ) (s : Session)
    → extract_token cmd_buffer 1 ≡ cut 25 w
    → w ≢ help_word
    → w ≢ bytes "masih"
    → length w < 20
    → command_name cmd_buffer s ≡ some (record s { shell_name = w })
unfolding command_name
command_name_lem cmd_buffer w s e no_help no_masih short =
    let token : extract_token cmd_buffer 1 ≡ w = e ∙ cut_short 25 w (omega arith) in
    let room : ltb (length w) 20 ≡ true = ground arith in
    rw (token, differs w help_word no_help, differs w (bytes "masih") no_masih, room)
      (ap (λ (n : List ℕ). some (record s { shell_name = n })) (string_copy_fresh w))
