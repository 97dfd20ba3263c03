-- ===== src/Risk/CircuitBreaker/Session.antt =====
-- A trading day of risk/circuit_breaker.py: the halt lasts, the report is made once, the next day
-- begins afresh.
use binbot.Base.{
  ℕ, ◌+◌, ◌≡◌, ◌≢◌, Bool, true, false, List, [], ◌∷◌, arith, Result, ok, err, All, if◌then◌else◌,
  refl,
}
use binbot.Float.{Float}
use binbot.Core.Events.{DateTime, Date, date}
use binbot.Risk.CircuitBreaker.{DrawdownCircuitBreaker, nothing, update, consume_auto_reset_flag}

-- A result that reports a trip counts 1.
abbrev pub reports : Result Bool → ℕ
reports (ok true) = 1
reports (ok false) = 0
reports (err e) = 0

module _ {F : Type 0} ⦃f : Float F⦄ where
  -- The caller's loop: each equity with its time, and the number of trips reported.
  unfoldable pub feed :
      List (F × DateTime) → DrawdownCircuitBreaker F → ℕ × DrawdownCircuitBreaker F
  feed [] b = (0, b)
  feed ((equity, now) ∷ rest) b =
      let (r, b') = update equity now b in let (n, b'') = feed rest b' in (reports r + n, b'')

  abbrev pub SameDay : Date → List (F × DateTime) → Type 0
  SameDay day = All (λ e. date e.1 ≡ day)

  module _ (equity : F) (now : DateTime) (b : DrawdownCircuitBreaker F)
      (today : date now ≡ b.session_date) where
    pub update_keeps_day : (update equity now b).1.session_date ≡ b.session_date
    unfolding update
    update_keeps_day = ground arith

    pub update_halted :
        b.halted ≡ true
        → ((update equity now b).0 ≡ ok false)
          × ((update equity now b).1.halted ≡ true)
          × ((update equity now b).1.halt_reason ≡ b.halt_reason)
    unfolding update
    update_halted h = ground arith

    reports-update :
        b.halted ≡ false
        → (reports (update equity now b).0 ≡ (if (update equity now b).1.halted then 1 else 0))
    unfolding update
    reports-update h = ground arith

  -- While the day lasts a halted breaker stays halted for the same reason, and no call reports a trip again.
  pub halt_lasts :
      (es : List (F × DateTime)) (b : DrawdownCircuitBreaker F)
      → SameDay b.session_date es
      → b.halted ≡ true
      → ((feed es b).0 ≡ 0)
        × ((feed es b).1.halted ≡ true)
        × ((feed es b).1.halt_reason ≡ b.halt_reason)
  unfolding feed
  halt_lasts [] b d h = (refl, h, refl)
  halt_lasts ((equity, now) ∷ rest) b d h =
      let today : date now ≡ b.session_date = d.0 in
      let (_, b') = update equity now b in
      let same : b'.session_date ≡ b.session_date = update_keeps_day equity now b today in
      ground (arith, update_halted equity now b today h, halt_lasts rest b' (rw same d.1))

  -- Over any updates of the breaker's day, with nothing but updates in between: none reports a trip if the breaker is
  -- halted at their start, whatever has halted it; else one does, and only one, exactly if it is halted at their end.
  pub one_report_a_day :
      (es : List (F × DateTime)) (b : DrawdownCircuitBreaker F)
      → SameDay b.session_date es
      → (feed es b).0 ≡ (if b.halted then 0 else if (feed es b).1.halted then 1 else 0)
  unfolding feed
  one_report_a_day [] b d = ground arith
  one_report_a_day ((equity, now) ∷ rest) b d =
      let today : date now ≡ b.session_date = d.0 in
      let (_, b') = update equity now b in
      let same : b'.session_date ≡ b.session_date = update_keeps_day equity now b today in
      ground (
        arith,
        reports-update equity now b today,
        update_halted equity now b today,
        halt_lasts rest b' (rw same d.1),
        one_report_a_day rest b' (rw same d.1),
      )

  -- The first update of another day returns False and starts over from its equity, whether or not the breaker was
  -- halted; the flag is then read as True once, and as False the next time. On the same day an update leaves the flag.
  pub rollover_once :
      (equity : F) (now : DateTime) (b : DrawdownCircuitBreaker F)
      → date now ≢ b.session_date
      → let (r, b') = update equity now b in
        let (flag, b'') = consume_auto_reset_flag b' in
        (r ≡ ok false)
        × (b'.halted ≡ false)
        × (b'.halt_reason ≡ nothing)
        × (b'.starting_equity ≡ equity)
        × (b'.peak_equity ≡ equity)
        × (b'.session_date ≡ date now)
        × (flag ≡ true)
        × ((consume_auto_reset_flag (update equity now b'').1).0 ≡ false)
  unfolding update consume_auto_reset_flag
  rollover_once equity now b other = ground arith
