-- ===== src/Shell/Editor.antt =====
-- kernal/kernel/kshell.c: the loop of `kshell` that collects a command line from the characters of the
-- keyboard. Each step ends with the `i++` of the loop.
pub mod Line
pub mod Cells
pub mod Laws
pub mod Backspace
pub mod Flush
pub mod Reading
use she_x_mini_operating_sys.Base.{
  ℕ, zero, suc, ◌+◌, ◌-◌, ◌*◌, Bool, true, false, ◌&&◌, List, [], ◌∷◌, ltb, ◌==◌, if◌then◌else◌,
  update, sub32,
}
use she_x_mini_operating_sys.Console.{Console, get_cursor, set_cursor, putc, monitor_puts, chars}

abbrev pub max_command_size : ℕ
max_command_size = 50

-- The memory from `_cmd_buffer` on, the counter of the loop, and the screen.
pub record Editor : Type 0 where
  pub cmd_buffer : ℕ → ℕ
  pub i : ℕ
  pub console : Console

-- The branch for the arrow to the left, 17.
abbrev pub key_left : Editor → Editor
key_left e =
    if e.i == 0
    then e
    else record e { i = e.i - 1; console = set_cursor (sub32 (get_cursor e.console) 1) e.console }

-- The branch for the arrow to the right, 18.
abbrev pub key_right : Editor → Editor
key_right e =
    if (e.i == 0) && (e.cmd_buffer e.i == 0)
    then e
    else if e.cmd_buffer e.i == 0
    then record e { console = set_cursor (get_cursor e.console) e.console }
    else record e { i = e.i + 1; console = set_cursor (get_cursor e.console + 1) e.console }

-- `_cmd_buffer[k] = _cmd_buffer[k+1]; putc(_cmd_buffer[k])`.
abbrev pub shift_one : ℕ → Editor → Editor
shift_one k e = record e {
  cmd_buffer = update e.cmd_buffer k (e.cmd_buffer (k + 1));
  console = putc (e.cmd_buffer (k + 1)) e.console;
}

-- The loop that closes the gap; the buffer's size is fuel enough.
unfoldable pub shift_loop : ℕ → ℕ → Editor → Editor
shift_loop zero k e = e
shift_loop (suc fuel) k e =
    let rest = shift_loop fuel (k + 1) (shift_one k e) in if e.cmd_buffer k == 0 then e else rest

-- What a backspace does inside the line, with the cursor where the gap is, `k` letters into the line.
abbrev pub close_gap : ℕ → Editor → Editor
close_gap k e =
    let closed = shift_loop max_command_size k e in
    record closed { i = k; console = set_cursor (get_cursor e.console) closed.console }

-- The branch for `\b`.
abbrev pub key_back : Editor → Editor
key_back e =
    let erased = record e { console = putc 0x08 e.console } in
    if e.i == 0
    then e
    else if e.cmd_buffer e.i == 0
    then record erased { i = e.i - 1; cmd_buffer = update e.cmd_buffer (e.i - 1) 0 }
    else close_gap (e.i - 1) erased

-- The branch for the other characters.
abbrev pub key_char : ℕ → Editor → Editor
key_char input e = record {
  cmd_buffer = update e.cmd_buffer e.i input;
  i = e.i + 1;
  console = putc input e.console;
}

-- Whether the loop goes on, has met `\n`, or has ended at its bound.
pub data KeyStep : Type 0 where
  reading : Editor → KeyStep
  entered : Editor → KeyStep
  full : Editor → KeyStep

abbrev pub while_bounded : Editor → KeyStep
while_bounded e = if ltb e.i max_command_size then reading e else full e

unfoldable pub key_step : ℕ → Editor → KeyStep
key_step input e =
    if input == 17
    then while_bounded (key_left e)
    else if input == 18
    then while_bounded (key_right e)
    else if input == 0x08
    then while_bounded (key_back e)
    else if input == 0x0a
    then entered e
    else while_bounded (key_char input e)

-- How a loop has ended, with the characters that it leaves.
pub record Read : Type 0 where
  pub outcome : KeyStep
  pub remaining : List ℕ

-- What follows a character, with the rest of the loop as an argument.
abbrev pub read_after : (Editor → Read) → List ℕ → KeyStep → Read
read_after rest inputs (reading e) = rest e
read_after rest inputs (entered e) = record { outcome = entered e; remaining = inputs }
read_after rest inputs (full e) = record { outcome = full e; remaining = inputs }

-- The loop on the characters that `get_monitor_char` returns.
unfoldable pub read_loop : Editor → List ℕ → Read
read_loop e [] = record { outcome = reading e; remaining = [] }
read_loop e (input ∷ inputs) = read_after (λ e'. read_loop e' inputs) inputs (key_step input e)

-- The loop of `flush_command_buffer`, with the bytes that are left as its counter.
unfoldable pub flush_loop : ℕ → ℕ → (ℕ → ℕ) → ℕ → ℕ
flush_loop zero i buffer = buffer
flush_loop (suc left) i buffer =
    let rest = flush_loop left (suc i) (update buffer i 0) in if buffer i == 0 then buffer else rest

abbrev pub flush_command_buffer : (ℕ → ℕ) → ℕ → ℕ
flush_command_buffer buffer = flush_loop max_command_size 0 buffer

-- The three messages in front of a line.
abbrev pub prompt : List ℕ → Console → Console
prompt shell_name c =
    monitor_puts (b' ' ∷ b'>' ∷ []) (monitor_puts shell_name (monitor_puts (0x0a ∷ []) c))

-- One round of the outer loop up to the call of `parse_command`.
unfoldable pub read_command : List ℕ → Editor → List ℕ → Read
read_command shell_name e inputs =
    read_loop
      (record {
        cmd_buffer = flush_command_buffer e.cmd_buffer;
        i = 0;
        console = prompt shell_name e.console;
      })
      inputs

-- The command line as the string in the buffer.
abbrev pub command_line : Editor → List ℕ
command_line e = chars max_command_size e.cmd_buffer 0
