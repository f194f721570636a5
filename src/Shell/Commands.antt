-- ===== src/Shell/Commands.antt =====
-- kernal/kernel/kshell.c: the commands of the shell on its static variables and on the screen. The
-- command line is the string in the command buffer. `clear`, which no file declares, is an argument.
pub mod Laws
use Prim.Native.Char.{code}
use Prim.Native.String.{String}
use she_x_mini_operating_sys.Base.{
  ℕ, zero, suc, ◌%◌, ◌+◌, Bool, true, false, Option, none, some, List, [], ◌∷◌, ◌++◌, ltb, ◌==◌,
  if◌then◌else◌, length, ◌>>>◌,
}
use she_x_mini_operating_sys.Console.{
  Console, monitor_puts, putc, set_cursor, set_fg_color, set_bg_color,
}
use she_x_mini_operating_sys.Timer.{set_timer}
use she_x_mini_operating_sys.Shell.{extract_token, string_compare, help_word}

-- The bytes of a literal.
unfoldable pub bytes : String → List ℕ
bytes String.[] = []
bytes (String.◌∷◌ c s) = code c ∷ bytes s

abbrev pub max_name_size : ℕ
max_name_size = 20

-- The static variables, the screen, and what was written to the ports of the timer.
pub record Session : Type 0 where
  pub color_0 : ℕ
  pub color_1 : ℕ
  pub shell_name : List ℕ
  pub console : Console
  pub ports : List (ℕ × ℕ)

pub puts_all : List String → Console → Console
unfolding bytes
puts_all [] c = c
puts_all (message ∷ messages) c = puts_all messages (monitor_puts (bytes message) c)

abbrev pub say : List String → Session → Session
say messages s = record s { console = puts_all messages s.console }

abbrev pub command_help : Session → Session
command_help s =
    say
      ("\nList of commands (use `command` help for usage):" ∷ "\nhelp" ∷ " fresh" ∷ " timer"
        ∷ " picture" ∷ " ball" ∷ " name\n" ∷ [])
      s

-- The names of the colours in the order of the tests, with their numbers.
abbrev pub color_names : List (String × ℕ)
color_names =
    ("black", 0)
    ∷ ("blue", 1)
    ∷ ("green", 2)
    ∷ ("cyan", 3)
    ∷ ("red", 4)
    ∷ ("magenta", 5)
    ∷ ("brown", 6)
    ∷ ("light_grey", 7)
    ∷ ("dark_grey", 8)
    ∷ ("light_blue", 9)
    ∷ ("light_green", 10)
    ∷ ("light_cyan", 11)
    ∷ ("light_red", 12)
    ∷ ("light_magenta", 13)
    ∷ ("light_brown", 14)
    ∷ ("white", 15)
    ∷ []

-- `if(string_compare(_tkn_buffer, name)) color[i] = number`, one after the other.
pub pick_color : List (String × ℕ) → List ℕ → ℕ → ℕ
unfolding bytes
pick_color [] token color = color
pick_color ((name, number) ∷ names) token color =
    pick_color names token (if string_compare token (bytes name) then number else color)

abbrev pub fresh_usage : List String
fresh_usage =
    "\tUsage: fresh c1 c2\ncolors:" ∷ "  black" ∷ "  blue" ∷ "  green" ∷ "  cyan" ∷ "  red"
    ∷ "  magenta" ∷ "  brown" ∷ "  light_grey" ∷ "  dark_grey" ∷ "  light_blue" ∷ "  light_green"
    ∷ "  light_cyan" ∷ "  light_red" ∷ "  light_magenta" ∷ "  light_brown" ∷ "  white" ∷ []

-- `for(int i=0;i<n;i++) putc(' ')`.
pub put_spaces : ℕ → Console → Console
put_spaces zero c = c
put_spaces (suc n) c = put_spaces n (putc b' ' c)

-- The end of `command_fresh`, with `clear`.
abbrev pub repaint : (Console → Console) → ℕ → ℕ → Console → Console
repaint clear color_0 color_1 c =
    let cleared = clear (set_bg_color color_1 (set_fg_color color_0 c)) in
    let bar = put_spaces 80 (set_bg_color color_0 (set_fg_color color_1 cleared)) in
    let titled =
      monitor_puts (bytes "KSOS KERNEL SHELL 0.01 (help displays commands)") (set_cursor 20 bar) in
    set_bg_color color_1 (set_fg_color color_0 titled)

abbrev pub painted : (Console → Console) → Session → Session
painted clear s = record s { console = repaint clear s.color_0 s.color_1 s.console }

unfoldable pub command_fresh : (Console → Console) → List ℕ → Session → Session
unfolding pick_color puts_all put_spaces bytes
command_fresh clear cmd_buffer s =
    let token_1 = extract_token cmd_buffer 1 in
    let s1 = record s { color_0 = pick_color color_names token_1 s.color_0 } in
    if string_compare token_1 help_word
    then say fresh_usage s1
    else (let token_2 = extract_token cmd_buffer 2 in
        let s2 = record s1 { color_1 = pick_color color_names token_2 s1.color_1 } in
        if string_compare token_2 help_word then say fresh_usage s2 else painted clear s2)

abbrev pub program : ℕ → Session → Session
program count s = record s { ports = s.ports ++ set_timer count }

unfoldable pub command_timer : List ℕ → Session → Session
unfolding puts_all bytes
command_timer cmd_buffer s =
    let token = extract_token cmd_buffer 1 in
    let fast = if string_compare token (bytes "fast") then program (0xffff >>> 2) s else s in
    let medium =
      if string_compare token (bytes "medium") then program (0xffff >>> 1) fast else fast in
    let slow = if string_compare token (bytes "slow") then program 0xffff medium else medium in
    if string_compare token help_word
    then say ("\tUsage: timer fast/medium/slow" ∷ []) slow
    else slow

abbrev pub command_picture : Session → Session
command_picture s =
    say
      ("\nx;;;.',,,,,,,,;,;ckO000000000OxddddxxxkkkkkkkkOOOOOOO00OOOO00OOOkx"
        ∷ "\nx;;'.,,,,,,,,,,,,',oOOOOO0000000OOO00OOOOOOOOOOOOO0OOO00OOOOOOxl::"
        ∷ "\nx;,.',,,,,,,,,,,,,,,;ldxO0000000000000OOO0000000000000OOOOOkoc;;,,"
        ∷ "\nx;'.,,,''','''''''',''lkO0000000000000OOO00OOOO0000000Okdoc;;;;;,,"
        ∷ "\nx,.''''''''','.....'':kOOOOOOO00000000OO00OOOOOkkOOOO0OOkc,;;;;;,,"
        ∷ "\nx..'''''''',,'....'',dOOOOddc,oOO0000OOOOOOOOddl':xOOOOOOkc,;;;;;;"
        ∷ "\no.'''......'',,,,;;':kOOOkc,..;kOOOOOOOOOOOOOo,'.'dOOOOOOOx;;:cccc"
        ∷ "\no.''.........,,,;;,'dOOOO0OdoldOOOkxxkOOOOOOOOxoldOOOOOOOOOl;ccccc"
        ∷ "\nd,'..........,,;;;',loxkO00000OOOOxl:lkOOOOOOOOOOOOkxxxkOOOx:ccccc"
        ∷ "\nx,,'''',,,,,;;;:;,.,::::dO0000000OOOOOOOOOOOOOOOOOdc::ccdOOkc:cccc"
        ∷ "\nx,,,,,,,,,,;:::;;..;ccc:dO000000OkolclodxkOOOOOOOkl:ccc:ckOOx;;:::"
        ∷ "\nx,,,,,,,,,,,,,,,,.;c::cokO000000Ol':odddlokOO000OOdccccldOOOOo;:::"
        ∷ "\nx,,,,,,,,,,,,,,,''ckkkOO00000000Od:ldxxdookOO0000OOOkkkkOOOOOk::cc"
        ∷ "\nx;;;;,,,;;;;;;;;;;,lOO00000000000OkolllllxOOOOOOOOOOOOOOOOOOOOo;::"
        ∷ "\nd,,;::cccccccccccc:;oOOO0000OOOO00OOOOOOOOOOOOOOOOOOOOOOOOOOOOx;;;"
        ∷ "\noo'',,,;;:::::::;,,,;dkkkkkkkkkkkkkkkkkkkkkkkkkkkkkkkkkkkkkkkkx:,," ∷ [])
      s

-- `string_copy` writes over the first characters of a string and copies no 0.
unfoldable pub string_copy : List ℕ → List ℕ → List ℕ
string_copy strd [] = strd
string_copy [] (c ∷ strs) = c ∷ string_copy [] strs
string_copy (d ∷ strd) (c ∷ strs) = c ∷ string_copy strd strs

-- The end of `command_name`; `none` where the name leaves no 0 in `_shell_name`, or writes past it.
abbrev pub rename : List ℕ → Session → Option Session
rename token s =
    if ltb (length token) max_name_size
    then some (record s { shell_name = string_copy [] token })
    else none

unfoldable pub command_name : List ℕ → Session → Option Session
unfolding puts_all bytes string_copy
command_name cmd_buffer s =
    let token = extract_token cmd_buffer 1 in
    if string_compare token help_word
    then some (say ("\tUsage: name string" ∷ []) s)
    else if string_compare token (bytes "masih")
    then rename (string_copy token (bytes "asshole")) s
    else rename token s

-- `get_tick_count()` is an argument.
abbrev pub command_quote : ℕ → Session → Session
command_quote tick_count s =
    let sel = tick_count % 5 in
    if sel == 0
    then say ("\tTap that ass and step on the gas" ∷ []) s
    else if sel == 1
    then say ("\tAlways stay grounded to your roots" ∷ []) s
    else if sel == 2
    then say ("\tSometimes change is necessary" ∷ []) s
    else say ("\tTrust that good will happen" ∷ []) s

-- What `parse_command` prints of a first word that is no command.
abbrev pub command_unknown : List ℕ → Session → Session
command_unknown token s = record s {
  console = monitor_puts token (monitor_puts (bytes " - Command not found: ") s.console);
}
