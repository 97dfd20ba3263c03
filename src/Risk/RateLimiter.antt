-- ===== src/Risk/RateLimiter.antt =====
-- `_TokenRateLimiter` of risk/risk_engine.py: two sliding windows of the times of accepted orders.
-- `now` is the reading of `time.monotonic()`.
pub mod Window
pub mod Bound
use binbot.Base.{ℕ, Bool, true, false, List, [], ◌∷◌, ◌++◌, ℤ, pos, leb_ℤ, length, if◌then◌else◌}
use binbot.Float.{Float, ◌-F◌, ◌<F◌, ◌≤F◌, lit}

pub record TokenRateLimiter (F : Type 0) : Type 0 where
  pub max_per_second : F
  pub max_per_minute : ℤ
  pub second_window : List F
  pub minute_window : List F

-- The reason that `try_acquire` gives, an f-string by its values.
pub data Reason (F : Type 0) : Type 0 where
  ok : Reason F
  rate_per_second : ℕ → F → Reason F
  rate_per_minute : ℕ → ℤ → Reason F

module _ {F : Type 0} ⦃f : Float F⦄ where
  -- The loop that drops what is older than `span` from the left of a window.
  unfoldable pub drop_old : F → F → List F → List F
  drop_old span now [] = []
  drop_old span now (t ∷ ts) = if span <F now -F t then drop_old span now ts else t ∷ ts

  unfoldable pub try_acquire : F → TokenRateLimiter F → (Bool × Reason F) × TokenRateLimiter F
  try_acquire now l =
      let l' = record l {
        second_window = drop_old (lit 1) now l.second_window;
        minute_window = drop_old (lit 60) now l.minute_window;
      } in
      let n = length l'.second_window in
      let m = length l'.minute_window in
      if l.max_per_second ≤F f.of_int (pos n)
      then ((false, rate_per_second n l.max_per_second), l')
      else if leb_ℤ l.max_per_minute (pos m)
      then ((false, rate_per_minute m l.max_per_minute), l')
      else (
        (true, ok),
        record l' {
          second_window = l'.second_window ++ now ∷ [];
          minute_window = l'.minute_window ++ now ∷ [];
        },
      )
