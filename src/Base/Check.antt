-- ===== src/Base/Check.antt =====
-- A test of every number below a bound, by evaluation.
use she_x_mini_operating_sys.Base.Defs.{ℕ, zero, suc, ◌<◌, ◌≡◌, Bool, true, false, arith}
use she_x_mini_operating_sys.Base.Tests.{if◌then◌else◌}

module _ (test : ℕ → Bool) where
  unfoldable pub passes_below : ℕ → Bool
  passes_below zero = true
  passes_below (suc bound) = if test bound then passes_below bound else false

  pub passes : (bound : ℕ) → passes_below bound ≡ true → (i : ℕ) → i < bound → test i ≡ true
  unfolding passes_below
  passes zero all i below = absurd (omega arith)
  passes (suc bound) all i below = ground (arith, passes bound _ i)
