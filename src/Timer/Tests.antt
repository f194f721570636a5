-- ===== src/Timer/Tests.antt =====
-- kernal/driver/timer.c at concrete states.
use she_x_mini_operating_sys.Base.{◌≡◌, refl, false, arith}
use she_x_mini_operating_sys.Timer.{Timer, timer_handler}
use she_x_mini_operating_sys.Timer.Laws.{ticks, Ticked, ticks-Ticked}

abbrev last_tick : Timer
last_tick = record { tick_counter = 0xffff_ffff; is_timer_interrupt = false; text = λ i. 0x2d }

-- The counter starts again at 0, and the pole, at its third picture, turns to the fourth.
ticks-Ticked_example : Ticked 2 last_tick (ticks 2 last_tick)
ticks-Ticked_example = ticks-Ticked 2 last_tick (omega arith)

wraps : (ticks 1 last_tick).tick_counter ≡ 0
unfolding timer_handler
wraps = refl
