-- ===== src/Execution/Trailing.antt =====
-- The decision of execution/position_monitor.py on one position: its return on margin, the trailing level
-- and the reason to close, if there is one.
use binbot.Base.{ℕ, Option, none, some, pos, Result, ok, ◌>>=◌, if◌then◌else◌, String}
use binbot.Float.{Float, ◌+F◌, ◌-F◌, ◌*F◌, ◌/F◌, ◌<F◌, ◌≤F◌, lit, divide, max}
use binbot.Core.Enums.{OrderSide}

-- `PositionDetail` of execution/binance_broker.py
pub record PositionDetail (F : Type 0) : Type 0 where
  pub symbol : String
  pub side : OrderSide
  pub quantity : ℕ
  pub entry_price : F
  pub mark_price : F
  pub unrealized_pnl : F

-- The arguments of the constructor that the checks read.
pub record Thresholds (F : Type 0) : Type 0 where
  pub stop_loss_equity_pct : F
  pub leverage : F
  pub trailing_arm_pct : F
  pub trailing_base_pct : F
  pub trailing_step_pct : F
  pub trailing_step_increment_pct : F
  pub hard_cap_pct : F

-- `reason`, an f-string by its values.
pub data CloseReason (F : Type 0) : Type 0 where
  stop_loss : F → F → CloseReason F
  profit_cap : F → F → CloseReason F
  trailing_profit : F → F → F → CloseReason F

module _ {F : Type 0} ⦃f : Float F⦄ where
  -- `max(self._peak_roi_pct.get(symbol, roi_pct), roi_pct)`
  abbrev pub peak_after : Option F → F → F
  peak_after none roi = max roi roi
  peak_after (some peak) roi = max peak roi

module _ {F : Type 0} ⦃f : Float F⦄ (c : Thresholds F) where
  -- `_trailing_stop_level`; a step increment of 0 raises.
  unfoldable pub trailing_stop_level : F → Result F
  trailing_stop_level peak_roi_pct = do
    ratio ← divide (peak_roi_pct -F c.trailing_arm_pct) c.trailing_step_increment_pct
    ok (c.trailing_base_pct +F f.of_int (f.floor ratio) *F c.trailing_step_pct)

  unfoldable pub margin_usdt : F → PositionDetail F → F
  margin_usdt step_size d =
      if lit 0 <F c.leverage
      then f.of_int (pos d.quantity) *F step_size *F d.entry_price /F c.leverage
      else lit 0

  unfoldable pub roi_pct : F → PositionDetail F → F
  unfolding margin_usdt
  roi_pct step_size d =
      let margin = margin_usdt step_size d in
      if lit 0 <F margin then d.unrealized_pnl /F margin *F lit 100 else lit 0

  -- The chain of tests at the end of the loop's body, on the frozen stop-loss, the return and the peak.
  unfoldable pub decide : F → F → F → F → Result (Option (CloseReason F))
  decide pnl stop roi peak =
      if pnl ≤F f.minus stop
      then ok (some (stop_loss pnl stop))
      else if c.hard_cap_pct ≤F roi
      then ok (some (profit_cap roi c.hard_cap_pct))
      else if c.trailing_arm_pct ≤F peak
      then (do
        level ← trailing_stop_level peak
        ok (if roi ≤F level then some (trailing_profit roi level peak) else none))
      else ok none
