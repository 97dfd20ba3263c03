-- ===== src/Risk/CircuitBreaker/Recovery.antt =====
-- `snapshot` and `restore` of risk/circuit_breaker.py: a breaker that comes back from its snapshot
-- goes on as the one that was saved.
use binbot.Base.{◌≡◌, List, [], ◌∷◌, arith, refl}
use binbot.Float.{Float}
use binbot.Core.Events.{DateTime}
use binbot.Risk.CircuitBreaker.{DrawdownCircuitBreaker, update, snapshot, restore}
use binbot.Risk.CircuitBreaker.Session.{feed}

-- Breakers that differ at most in the unread flag.
pub record Alike {F : Type 0} (b c : DrawdownCircuitBreaker F) : Type 0 where
  pub limit : b.max_daily_drawdown_pct ≡ c.max_daily_drawdown_pct
  pub start : b.starting_equity ≡ c.starting_equity
  pub day : b.session_date ≡ c.session_date
  pub peak : b.peak_equity ≡ c.peak_equity
  pub halt : b.halted ≡ c.halted
  pub reason : b.halt_reason ≡ c.halt_reason

module _ {F : Type 0} ⦃f : Float F⦄ where
  update-Alike :
      (equity : F) (now : DateTime) (b c : DrawdownCircuitBreaker F)
      → Alike b c
      → ((update equity now b).0 ≡ (update equity now c).0)
        × Alike (update equity now b).1 (update equity now c).1
  unfolding update
  update-Alike equity now b c same = ground arith

  feed-Alike :
      (es : List (F × DateTime)) (b c : DrawdownCircuitBreaker F)
      → Alike b c
      → ((feed es b).0 ≡ (feed es c).0) × Alike (feed es b).1 (feed es c).1
  unfolding feed
  feed-Alike [] b c same = (refl, same)
  feed-Alike ((equity, now) ∷ rest) b c same =
      let (first, same') = update-Alike equity now b c same in
      let (later, same'') = feed-Alike rest (update equity now b).1 (update equity now c).1 same' in
      (rw (first, later), same'')

  -- A breaker with the same limit, restored from the snapshot of another, reports the same trips over any
  -- later updates as the saved one would have, and stands at the same snapshot after them, a halt included.
  pub restore_goes_on :
      (es : List (F × DateTime)) (b c : DrawdownCircuitBreaker F)
      → b.max_daily_drawdown_pct ≡ c.max_daily_drawdown_pct
      → ((feed es (restore (snapshot b) c)).0 ≡ (feed es b).0)
        × (snapshot (feed es (restore (snapshot b) c)).1 ≡ snapshot (feed es b).1)
  unfolding snapshot restore
  restore_goes_on es b c limit =
      let c' : DrawdownCircuitBreaker F = restore (snapshot b) c in
      let (n, same) = feed-Alike es c' b (ground arith) in (n, ground arith)
