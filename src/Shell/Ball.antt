-- ===== src/Shell/Ball.antt =====
-- kernal/kernel/kshell.c: the game of `command_ball`. A turn of its loop is what `kernel_wait` woke for:
-- a key, a tick of the timer, or both.
pub mod Laws
pub mod Play
use she_x_mini_operating_sys.Base.{
  ℕ, ◌+◌, ◌*◌, Bool, true, false, ◌&&◌, ◌||◌, Option, none, some, List, [], ◌∷◌, ◌==◌,
  if◌then◌else◌, update,
}
use she_x_mini_operating_sys.Base.Int.{
  ℤ, pos, negsuc, pos_part, neg_part, difference, ◌+ℤ◌, ltb_ℤ, eqb_ℤ,
}

pub record Ball : Type 0 where
  pub x : ℤ
  pub y : ℤ
  pub x_dir : ℤ
  pub y_dir : ℤ

-- The two balls, and the bytes from `__VGA_text_memory` on.
pub record Game : Type 0 where
  pub ball1 : Ball
  pub ball2 : Ball
  pub text : ℕ → ℕ

-- `dir += -1; if (dir < -1) dir = -1`, and its counterpart.
abbrev pub slower : ℤ → ℤ
slower dir = let next = dir +ℤ negsuc 0 in if ltb_ℤ next (negsuc 0) then negsuc 0 else next

abbrev pub faster : ℤ → ℤ
faster dir = let next = dir +ℤ pos 1 in if ltb_ℤ (pos 1) next then pos 1 else next

-- The four keys of a ball: up, down, left and right.
abbrev pub steer : ℕ → ℕ → ℕ → ℕ → ℕ → Ball → Ball
steer up down left right input b =
    if input == up
    then record b { y_dir = slower b.y_dir }
    else if input == down
    then record b { y_dir = faster b.y_dir }
    else if input == left
    then record b { x_dir = slower b.x_dir }
    else if input == right
    then record b { x_dir = faster b.x_dir }
    else b

-- The `switch` on the latest character; no two of its eight cases are equal.
abbrev pub game_key : ℕ → Game → Game
game_key input g = record g {
  ball1 = steer b'w' b's' b'a' b'd' input g.ball1;
  ball2 = steer b'i' b'k' b'j' b'l' input g.ball2;
}

-- `vga_pointer[2*x+(160*y)] = c`; a negative index is in front of the text memory, here `none`.
abbrev pub poke_at : ℤ → ℕ → (ℕ → ℕ) → Option (ℕ → ℕ)
poke_at (pos offset) c text = some (update text offset c)
poke_at (negsuc offset) c text = none

abbrev pub poke : Ball → ℕ → (ℕ → ℕ) → Option (ℕ → ℕ)
poke b c text =
    poke_at
      (difference (2 * pos_part b.x + 160 * pos_part b.y) (2 * neg_part b.x + 160 * neg_part b.y)) c
      text

-- The bytes of both balls, the second after the first.
abbrev pub stored : Game → Option (ℕ → ℕ) → Option Game
stored g none = none
stored g (some text) = some (record g { text = text })

abbrev pub poke_second : ℕ → Game → Option (ℕ → ℕ) → Option Game
poke_second c2 g none = none
poke_second c2 g (some text) = stored g (poke g.ball2 c2 text)

abbrev pub poke_both : ℕ → ℕ → Game → Option Game
poke_both c1 c2 g = poke_second c2 g (poke g.ball1 c1 g.text)

abbrev pub moved : Ball → Ball
moved b = record b { x = b.x +ℤ b.x_dir; y = b.y +ℤ b.y_dir }

-- The first ball moves; where it meets the second, the two change their directions; the second moves.
abbrev pub move_balls : Game → Game
move_balls g =
    let b1 = moved g.ball1 in
    let b2 = g.ball2 in
    if eqb_ℤ b1.x b2.x && eqb_ℤ b1.y b2.y
    then record g {
      ball1 = record b1 { x_dir = b2.x_dir; y_dir = b2.y_dir };
      ball2 = moved (record b2 { x_dir = b1.x_dir; y_dir = b1.y_dir });
    }
    else record g { ball1 = b1; ball2 = moved b2 }

abbrev pub is_out : Ball → Bool
is_out b = eqb_ℤ b.x (pos 80) || ltb_ℤ b.x (pos 0) || ltb_ℤ b.y (pos 0) || eqb_ℤ b.y (pos 25)

-- The game goes on, a player has lost, or a byte in front of the text memory was written.
pub data Turn : Type 0 where
  playing : Game → Turn
  p1_loses : Game → Turn
  p2_loses : Game → Turn
  outside : Turn

abbrev pub drawn : Option Game → Turn
drawn none = outside
drawn (some g) = playing g

-- The tests after the move, and the drawing of the balls.
abbrev pub judge : Game → Turn
judge g =
    if is_out g.ball1
    then p1_loses g
    else if is_out g.ball2
    then p2_loses g
    else drawn (poke_both b'o' b'*' g)

abbrev pub after_erasing : Option Game → Turn
after_erasing none = outside
after_erasing (some g) = judge (move_balls g)

abbrev pub game_tick : Game → Turn
game_tick g = after_erasing (poke_both 0 0 g)

-- What woke the processor: the latest character, if there was a key, and whether there was a tick.
pub record Wake : Type 0 where
  pub key : Option ℕ
  pub tick : Bool

abbrev pub keyed : Option ℕ → Game → Game
keyed none g = g
keyed (some input) g = game_key input g

abbrev pub timed : Bool → Game → Turn
timed true g = game_tick g
timed false g = playing g

abbrev pub game_step : Wake → Game → Turn
game_step w g = timed w.tick (keyed w.key g)

-- The loop, until a player has lost or the list of wakes ends.
abbrev pub go_on : (Game → Turn) → Turn → Turn
go_on rest (playing g) = rest g
go_on rest (p1_loses g) = p1_loses g
go_on rest (p2_loses g) = p2_loses g
go_on rest outside = outside

unfoldable pub game_loop : List Wake → Game → Turn
game_loop [] g = playing g
game_loop (w ∷ wakes) g = go_on (game_loop wakes) (game_step w g)

abbrev pub new_game : (ℕ → ℕ) → Game
new_game text = record {
  ball1 = record { x = pos 0; y = pos 0; x_dir = pos 0; y_dir = pos 0 };
  ball2 = record { x = pos 79; y = pos 24; x_dir = pos 0; y_dir = pos 0 };
  text = text;
}
