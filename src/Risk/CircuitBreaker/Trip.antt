-- ===== src/Risk/CircuitBreaker/Trip.antt =====
-- When `update` of risk/circuit_breaker.py reports a trip.
use binbot.Base.{◌≡◌, ◌↔◌, ◌⊎◌, true, false, arith, ok}
use binbot.Float.{Float, ◌≤F◌, ◌-F◌, ◌*F◌, ◌/F◌, lit, max, IsOrdered}
use binbot.Core.Events.{DateTime, date}
use binbot.Risk.CircuitBreaker.{DrawdownCircuitBreaker, update}

module _ {F : Type 0} ⦃f : Float F⦄ where
  -- A call of `update` returns True exactly when it takes the breaker from running to halted.
  pub update_trips :
      (equity : F) (now : DateTime) (b : DrawdownCircuitBreaker F)
      → ((update equity now b).0 ≡ ok true)
        ↔ ((b.halted ≡ false) × ((update equity now b).1.halted ≡ true))
  unfolding update
  update_trips equity now b = (λ h. ground arith, λ h. ground arith)

  -- The losses that `update` compares with the limit: from the start, and from the peak.
  abbrev pub loss_pct : F → F → F
  loss_pct base equity = (base -F equity) /F base *F lit 100

  max-ge : IsOrdered F → (a b c : F) → (c ≤F max a b) ≡ true → ((c ≤F a) ≡ true) ⊎ ((c ≤F b) ≡ true)
  max-ge laws a b c h = ground arith

  ge-max_left : IsOrdered F → (a b c : F) → (c ≤F a) ≡ true → (c ≤F max a b) ≡ true
  ge-max_left laws a b c h =
      ground (arith, laws.lt-eq-not-le a b, laws.le_trans c a b, laws.le_total a b)

  ge-max_right : IsOrdered F → (a b c : F) → (c ≤F b) ≡ true → (c ≤F max a b) ≡ true
  ge-max_right laws a b c h = ground (arith, laws.lt-eq-not-le a b, laws.le_trans c b a)

  -- On a day that has begun, with bases that are not 0, a running breaker trips exactly when the loss from the
  -- session's start or the loss from its peak, the present equity included, reaches the limit.
  pub update_trips_iff_loss :
      IsOrdered F
      → (equity : F) (now : DateTime) (b : DrawdownCircuitBreaker F) → date now ≡ b.session_date
      → b.halted ≡ false
      → f.equal b.starting_equity (lit 0) ≡ false
      → f.equal (max b.peak_equity equity) (lit 0) ≡ false
      → ((update equity now b).0 ≡ ok true) ↔ (
          ((b.max_daily_drawdown_pct ≤F loss_pct b.starting_equity equity) ≡ true)
          ⊎ ((b.max_daily_drawdown_pct ≤F loss_pct (max b.peak_equity equity) equity) ≡ true))
  unfolding update
  update_trips_iff_loss laws equity now b today running start peak = (
    λ h. ground (
      arith,
      max-ge laws (loss_pct b.starting_equity equity) (loss_pct (max b.peak_equity equity) equity)
          b.max_daily_drawdown_pct,
    ),
    λ h. ground (
      arith,
      ge-max_left laws (loss_pct b.starting_equity equity)
          (loss_pct (max b.peak_equity equity) equity) b.max_daily_drawdown_pct,
      ge-max_right laws (loss_pct b.starting_equity equity)
          (loss_pct (max b.peak_equity equity) equity) b.max_daily_drawdown_pct,
    ),
  )
