-- ===== src/Tests/RateLimiter.antt =====
-- The rate limiter of risk/risk_engine.py at concrete inputs.
use binbot.Base.{
  ◌≡◌, ◌↔◌, true, false, List, [], ◌∷◌, ◌++◌, ℤ, pos, leb_ℤ, ◌≤ℤ◌, length, refl, ◌-ℤ◌,
}
use binbot.Float.{◌≤F◌}
use binbot.Float.Fixed.{fixed, units, fixed-IsOrdered, fixed-IsMonotone}
use binbot.Risk.RateLimiter.{try_acquire, drop_old}
use binbot.Risk.RateLimiter.Bound.{fresh_limiter, attempts, recent, acquire_by_history, rate_bound}

-- Ten a second and two a minute: the third attempt is refused, and the fourth passes after the first is too old.
abbrev times : List ℤ
times = units 0 ∷ units 5 ∷ units 7 ∷ []

attempts_run : (attempts times [] (fresh_limiter (units 10) (pos 2))).0 ≡ units 0 ∷ units 5 ∷ []
unfolding attempts fresh_limiter try_acquire drop_old ◌-ℤ◌
attempts_run = refl

acquire_by_history_example :
    let (past, l) = attempts times [] (fresh_limiter (units 10) (pos 2)) in
    ((try_acquire (units 61) l).0.0 ≡ true) ↔ (
      ((units 10 ≤F fixed.of_int (pos (length (recent (units 1) (units 61) past)))) ≡ false)
      × (leb_ℤ (pos 2) (pos (length (recent (units 60) (units 61) past))) ≡ false))
acquire_by_history_example =
    acquire_by_history fixed-IsOrdered fixed-IsMonotone (units 0) (units 10) (pos 2) times
      (units 61) (refl, (refl, (refl, tt))) refl

rate_bound_example :
    let past = (attempts times [] (fresh_limiter (units 10) (pos 2))).0 in
    (pos (length (recent (units 60) (units 61) (past ++ units 61 ∷ []))) ≤ℤ pos 2)
    × ((units 10 ≤F fixed.of_int (pos (length (recent (units 1) (units 61) past)))) ≡ false)
unfolding attempts fresh_limiter try_acquire drop_old ◌-ℤ◌
rate_bound_example =
    rate_bound fixed-IsOrdered fixed-IsMonotone (units 0) (units 10) (pos 2) times (units 61)
      (refl, (refl, (refl, tt))) refl refl
