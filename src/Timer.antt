-- ===== src/Timer.antt =====
-- kernal/driver/timer.c: the tick counter, the pole that turns in the corner of the screen, the
-- programming of the timer, and the wait for a tick.
pub mod Laws
mod Tests
use she_x_mini_operating_sys.Base.{
  ℕ, zero, suc, ◌+◌, ◌*◌, ◌/◌, ◌%◌, ◌^◌, Bool, true, false, Option, none, some, List, [], ◌∷◌, ◌==◌,
  if◌then◌else◌, update, u8, u32, ◌>>>◌, bit_and,
}

-- The static state, and the text memory that the handler draws in.
pub record Timer : Type 0 where
  pub tick_counter : ℕ
  pub is_timer_interrupt : Bool
  pub text : ℕ → ℕ

-- The `switch` of `rotate_pole`: `|`, `/`, `-`, `\` and again, and `|` for any other character.
abbrev pub turned : ℕ → ℕ
turned c = if c == b'|' then b'/' else if c == b'/' then b'-' else if c == b'-' then 0x5c else b'|'

pub rotate_pole : ℕ → ℕ → (ℕ → ℕ) → ℕ → ℕ
rotate_pole x y text = let sym = 2 * (y * 80 + x) in update text sym (turned (text sym))

pub timer_handler : Timer → Timer
unfolding rotate_pole
timer_handler t = record {
  tick_counter = u32 (t.tick_counter + 1);
  is_timer_interrupt = true;
  text = rotate_pole 79 0 t.text;
}

abbrev pub timer_control_port : ℕ
timer_control_port = 0x43

abbrev pub timer_data_port : ℕ
timer_data_port = 0x40

-- The writes to ports, each a port and the byte that the port takes of the value.
unfoldable pub set_timer : ℕ → List (ℕ × ℕ)
set_timer count =
    (timer_control_port, 0x36)
    ∷ (timer_data_port, u8 (bit_and count 0xff))
    ∷ (timer_data_port, u8 (count >>> 8))
    ∷ []

-- The loop of `wait_for_timer`. `wakes` lists what each return of `kernel_wait` has done to the state;
-- `none` when the list ends first.
pub wait_loop : Timer → List (Timer → Timer) → Option (Timer × List (Timer → Timer))
wait_loop t [] = none
wait_loop t (interrupt ∷ wakes) =
    let t' = interrupt t in
    let again = wait_loop t' wakes in
    if t'.is_timer_interrupt then some (record t' { is_timer_interrupt = false }, wakes) else again

pub wait_for_timer : Timer → List (Timer → Timer) → Option (Timer × List (Timer → Timer))
unfolding wait_loop
wait_for_timer t wakes = wait_loop (record t { is_timer_interrupt = false }) wakes
