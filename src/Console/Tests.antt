-- ===== src/Console/Tests.antt =====
-- Runs of the console of kernal/driver/dadio.c, and the theorems on it at concrete inputs.
use she_x_mini_operating_sys.Base.{ℕ, ◌≡◌, refl, List, [], ◌∷◌, inr, if◌then◌else◌, ◌==◌, arith}
use she_x_mini_operating_sys.Console.{
  Console, monitor_puts, putc, chars, hex_loop, skip_loop, hex_string, put_loop, put_step,
}
use she_x_mini_operating_sys.Console.Screen.{view, settle, show_all, view-monitor_puts}
use she_x_mini_operating_sys.Console.Laws.{put_one, view-putc}
use she_x_mini_operating_sys.Console.Numbers.{hexadecimal, lead, hex_string_lem}

-- The cursor stands in the last line.
abbrev last_line : Console
last_line = record { text = λ q. 0; cursor = 1930; current_color = 0xf8 }

abbrev two_lines : List ℕ
two_lines = b'a' ∷ 0x09 ∷ b'b' ∷ 0x0a ∷ b'c' ∷ []

wraps : (monitor_puts two_lines last_line).cursor ≡ 1
unfolding monitor_puts put_step put_loop
wraps = refl

abbrev stack_bytes : ℕ → ℕ
stack_bytes i = b'?'

prints_rubbish :
    hex_string stack_bytes 0x1234567
    ≡ b'?' ∷ b'x' ∷ b'1' ∷ b'2' ∷ b'3' ∷ b'4' ∷ b'5' ∷ b'6' ∷ b'7' ∷ []
unfolding hex_string hex_loop skip_loop chars
prints_rubbish = refl

prints_short : hex_string stack_bytes 0xbeef ≡ b'0' ∷ b'x' ∷ b'B' ∷ b'E' ∷ b'E' ∷ b'F' ∷ []
unfolding hex_string hex_loop skip_loop chars
prints_short = refl

view-monitor_puts_example :
    view (monitor_puts two_lines last_line) ≡ settle (show_all 0xf8 (view last_line) two_lines)
view-monitor_puts_example = view-monitor_puts two_lines last_line (omega arith) (omega arith)

view-putc_example : view (putc 0x08 last_line) ≡ settle (put_one 0xf8 (view last_line) 0x08)
view-putc_example = view-putc 0x08 last_line (omega arith)

hex_string_lem_example :
    hex_string stack_bytes 0x1234567
    ≡ (if lead stack_bytes 7 == 0 then [] else lead stack_bytes 7 ∷ b'x' ∷ hexadecimal 7 0x1234567)
hex_string_lem_example =
    hex_string_lem stack_bytes 7 0x1234567 (omega arith) (omega arith)
      (omega arith, inr (omega arith))
