-- ===== src/Tests/CircuitBreaker.antt =====
-- risk/circuit_breaker.py at concrete inputs.
use binbot.Base.{ℕ, ◌≡◌, true, false, List, [], ◌∷◌, ℤ, ok, refl, if◌then◌else◌, ◌-ℤ◌, ◌*ℤ◌}
use binbot.Float.Fixed.{fixed, units}
use binbot.Core.Events.{DateTime, date}
use binbot.Risk.CircuitBreaker.{DrawdownCircuitBreaker, nothing, create, update, snapshot, restore}
use binbot.Risk.CircuitBreaker.Session.{feed, one_report_a_day}
use binbot.Risk.CircuitBreaker.Recovery.{restore_goes_on}
use binbot.Risk.CircuitBreaker.Drawdown.{IsValid}

-- A breaker of 3 percent on 1000, on day 1.
abbrev breaker : DrawdownCircuitBreaker ℤ
breaker = record {
  max_daily_drawdown_pct = units 3;
  starting_equity = units 1000;
  session_date = 1;
  peak_equity = units 1000;
  halted = false;
  halt_reason = nothing;
  auto_reset_pending = false;
}

abbrev at_day : ℕ → DateTime
at_day d = d

abbrev day1 : DateTime
day1 = 86400000001

abbrev day2 : DateTime
day2 = 172800000000

abbrev fall : List (ℤ × DateTime)
fall = (units 1100, day1) ∷ (units 500, day1) ∷ (units 400, day1) ∷ []

create_run : create (units 3) (units 1000) 1 ≡ ok breaker
unfolding create
create_run = refl

feed_run : (feed fall breaker).0 ≡ 1
unfolding feed update date ◌-ℤ◌ ◌*ℤ◌
feed_run = refl

abbrev halted_breaker : DrawdownCircuitBreaker ℤ
halted_breaker = record breaker { halted = true }

one_report_a_day_example :
    (feed fall breaker).0
    ≡ (if breaker.halted then 0 else if (feed fall breaker).1.halted then 1 else 0)
unfolding date
one_report_a_day_example = one_report_a_day fall breaker (refl, (refl, (refl, tt)))

restore_goes_on_example :
    ((feed fall (restore (snapshot halted_breaker) breaker)).0 ≡ (feed fall halted_breaker).0)
    × (snapshot (feed fall (restore (snapshot halted_breaker) breaker)).1
        ≡ snapshot (feed fall halted_breaker).1)
restore_goes_on_example = restore_goes_on fall halted_breaker breaker refl

breaker-IsValid : IsValid breaker
breaker-IsValid = record { start_positive = refl; start_le_peak = refl }
