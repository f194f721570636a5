-- ===== src/Timer/Laws.antt =====
-- Many ticks of kernal/driver/timer.c, the divisor of the timer, and the wait.
use she_x_mini_operating_sys.Base.{
  ℕ, zero, suc, ◌+◌, ◌*◌, ◌%◌, ◌^◌, ◌<◌, ◌≡◌, ◌≢◌, refl, ap, sym, ◌∙◌, false, some, List, [], ◌∷◌,
  ◌++◌, replicate, arith, update_ne, get_or, u8, ◌>>>◌, bit_and,
}
use she_x_mini_operating_sys.Base.Masks.{bit_and_low}
use she_x_mini_operating_sys.Timer.{
  Timer, turned, rotate_pole, timer_handler, set_timer, wait_loop, wait_for_timer,
}

abbrev pub ticks : ℕ → Timer → Timer
ticks zero t = t
ticks (suc n) t = timer_handler (ticks n t)

-- The four pictures of the pole in their order.
abbrev pub pole : ℕ → ℕ
pole k = get_or (b'|' ∷ b'/' ∷ b'-' ∷ 0x5c ∷ []) (k % 4) 0

-- What `n` ticks have done to `t`.
pub record Ticked (n : ℕ) (t t' : Timer) : Type 0 where
  pub count : t'.tick_counter ≡ (t.tick_counter + n) % 2 ^ 32
  pub elsewhere : (i : ℕ) → i ≢ 158 → t'.text i ≡ t.text i
  pub picture : (k : ℕ) → t.text 158 ≡ pole k → t'.text 158 ≡ pole (k + n)

pole_below : (r : ℕ) → r < 4 → turned (pole r) ≡ pole (r + 1)
pole_below zero h = refl
pole_below (suc zero) h = refl
pole_below (suc (suc zero)) h = refl
pole_below (suc (suc (suc zero))) h = refl
pole_below (suc (suc (suc (suc r)))) h = absurd (omega arith)

abbrev picture_at : ℕ → ℕ
picture_at r = get_or (b'|' ∷ b'/' ∷ b'-' ∷ 0x5c ∷ []) r 0

pole_turns : (k : ℕ) → turned (pole k) ≡ pole (k + 1)
pole_turns k =
    let same : k % 4 % 4 ≡ k % 4 = omega arith in
    let next : (k % 4 + 1) % 4 ≡ (k + 1) % 4 = omega arith in
    ap (λ r. turned (picture_at r)) (sym same)
    ∙ pole_below (k % 4) (omega arith)
    ∙ ap picture_at next

-- After `n` ticks the counter has gone up by `n`, modulo 2 ^ 32, and no cell of the screen but the
-- pole's has changed; a pole that stood at one of its four pictures has turned `n` times.
pub ticks-Ticked : (n : ℕ) (t : Timer) → t.tick_counter < 2 ^ 32 → Ticked n t (ticks n t)
unfolding timer_handler rotate_pole
ticks-Ticked zero t h = record {
  count = omega arith;
  elsewhere = λ i other. refl;
  picture = λ k e. e ∙ ap pole (omega arith);
}
ticks-Ticked (suc n) t h =
    let before = ticks-Ticked n t h in
    record {
      count = omega (arith, before.count);
      elsewhere = λ i other.
          update_ne (ticks n t).text 158 i _ (λ e. other (sym e)) ∙ before.elsewhere i other;
      picture = λ k e. ap turned (before.picture k e) ∙ pole_turns (k + n) ∙ ap pole (omega arith);
    }

-- The two bytes that `set_timer` writes to the data port are the low and the high byte of the divisor.
pub set_timer_lem :
    (count : ℕ)
    → count < 2 ^ 16
    → (low high : ℕ) → low < 256
    → high < 256
    → count ≡ low + 256 * high
    → set_timer count ≡ (0x43, 0x36) ∷ (0x40, low) ∷ (0x40, high) ∷ []
unfolding set_timer
set_timer_lem count h low high hl hh e =
    let first : u8 (bit_and count 0xff) ≡ low = omega (arith, bit_and_low 8 count) in
    let second : u8 (count >>> 8) ≡ high = omega arith in rw (first, second)

wait_skips :
    (n : ℕ) (t : Timer) (wakes : List (Timer → Timer))
    → wait_loop
        (record t { is_timer_interrupt = false })
        (replicate n (λ s. s) ++ timer_handler ∷ wakes)
      ≡ some (record (timer_handler t) { is_timer_interrupt = false }, wakes)
unfolding wait_loop timer_handler
wait_skips zero t wakes = refl
wait_skips (suc n) t wakes = wait_skips n t wakes

-- `wait_for_timer` sleeps through any number of other interrupts, and returns after one tick.
pub wait_for_timer_lem :
    (n : ℕ) (t : Timer) (wakes : List (Timer → Timer))
    → wait_for_timer t (replicate n (λ s. s) ++ timer_handler ∷ wakes)
      ≡ some (record (timer_handler t) { is_timer_interrupt = false }, wakes)
unfolding wait_for_timer timer_handler
wait_for_timer_lem n t wakes = wait_skips n t wakes
