-- ===== src/Risk/CircuitBreaker.antt =====
-- risk/circuit_breaker.py: the drawdown kill switch. Log lines are left out; a method that may raise
-- returns its result beside the state that it leaves.
pub mod Trip
pub mod Session
pub mod Recovery
pub mod Drawdown
use binbot.Base.{
  ℕ, Bool, true, false, Option, none, some, String, Result, ok, err, value_error, ◌>>=◌, ◌==◌, ◌&&◌,
  not, if◌then◌else◌,
}
use binbot.Float.{Float, ◌-F◌, ◌*F◌, ◌<F◌, ◌≤F◌, lit, divide, max}
use binbot.Core.Events.{DateTime, Date, date}

-- `_halt_reason`: "", the text of an operator, or the f-string of `update` by its values
pub data HaltReason (F : Type 0) : Type 0 where
  nothing : HaltReason F
  told : String → HaltReason F
  daily_drawdown : F → F → F → F → F → HaltReason F

pub record DrawdownCircuitBreaker (F : Type 0) : Type 0 where
  pub max_daily_drawdown_pct : F
  pub starting_equity : F
  pub session_date : Date
  pub peak_equity : F
  pub halted : Bool
  pub halt_reason : HaltReason F
  pub auto_reset_pending : Bool

-- What `snapshot` returns.
pub record Snapshot (F : Type 0) : Type 0 where
  pub session_date : Date
  pub starting_equity : F
  pub peak_equity : F
  pub halted : Bool
  pub halt_reason : HaltReason F

module _ {F : Type 0} ⦃f : Float F⦄ where
  -- The constructor with `__post_init__`.
  unfoldable pub create : F → F → Date → Result (DrawdownCircuitBreaker F)
  create max_pct equity today =
      if equity ≤F lit 0
      then err (value_error "starting_equity must be positive")
      else if not ((lit 0 <F max_pct) && (max_pct ≤F lit 100))
      then err (value_error "max_daily_drawdown_pct must be in (0, 100]")
      else ok (record {
        max_daily_drawdown_pct = max_pct;
        starting_equity = equity;
        session_date = today;
        peak_equity = equity;
        halted = false;
        halt_reason = nothing;
        auto_reset_pending = false;
      })

  -- `session_date or datetime.now(timezone.utc).date()`
  unfoldable pub reset_session :
      F → Option Date → DateTime → DrawdownCircuitBreaker F → DrawdownCircuitBreaker F
  reset_session equity day now b = record b {
    starting_equity = equity;
    peak_equity = equity;
    session_date = elim day [ none ↦ date now | some d ↦ d ];
    halted = false;
    halt_reason = nothing;
  }

  -- The larger of the losses from the start and from the peak, in percent.
  unfoldable pub drawdown_pct : F → DrawdownCircuitBreaker F → Result F
  drawdown_pct equity b = do
    from_start ← divide (b.starting_equity -F equity) b.starting_equity
    from_peak ← divide (b.peak_equity -F equity) b.peak_equity
    ok (max (from_start *F lit 100) (from_peak *F lit 100))

  -- The end of `update`, from the test of the drawdown on.
  unfoldable pub trip :
      Result F → F → DrawdownCircuitBreaker F → Result Bool × DrawdownCircuitBreaker F
  trip (err e) equity b = (err e, b)
  trip (ok pct) equity b =
      if b.max_daily_drawdown_pct ≤F pct
      then (
        ok true,
        record b {
          halted = true;
          halt_reason =
              daily_drawdown pct b.max_daily_drawdown_pct equity b.starting_equity b.peak_equity;
        },
      )
      else (ok false, b)

  unfoldable pub update :
      F → DateTime → DrawdownCircuitBreaker F → Result Bool × DrawdownCircuitBreaker F
  unfolding reset_session drawdown_pct trip
  update equity now b =
      if date now == b.session_date
      then (let b' = record b { peak_equity = max b.peak_equity equity } in
          if b'.halted then (ok false, b') else trip (drawdown_pct equity b') equity b')
      else (
        ok false,
        record (reset_session equity (some (date now)) now b) { auto_reset_pending = true },
      )

unfoldable pub consume_auto_reset_flag :
    {F : Type 0} → DrawdownCircuitBreaker F → Bool × DrawdownCircuitBreaker F
consume_auto_reset_flag b = (b.auto_reset_pending, record b { auto_reset_pending = false })

unfoldable pub snapshot : {F : Type 0} → DrawdownCircuitBreaker F → Snapshot F
snapshot b = record {
  session_date = b.session_date;
  starting_equity = b.starting_equity;
  peak_equity = b.peak_equity;
  halted = b.halted;
  halt_reason = b.halt_reason;
}

unfoldable pub restore :
    {F : Type 0} → Snapshot F → DrawdownCircuitBreaker F → DrawdownCircuitBreaker F
restore s b = record b {
  session_date = s.session_date;
  starting_equity = s.starting_equity;
  peak_equity = s.peak_equity;
  halted = s.halted;
  halt_reason = s.halt_reason;
}

unfoldable pub force_halt :
    {F : Type 0} → String → DrawdownCircuitBreaker F → DrawdownCircuitBreaker F
force_halt reason b = record b { halted = true; halt_reason = told reason }
