-- ===== src/Tests/Monitor.antt =====
-- execution/position_monitor.py at concrete inputs, with the thresholds of
-- tests/test_position_monitor.py.
use binbot.Base.{
  member, suc, ◌≤◌, ◌≡◌, refl, true, Option, none, some, String, List, [], ◌∷◌, ℤ, pos, negsuc,
  String_discrete, ◌+ℤ◌, ◌-ℤ◌, ◌*ℤ◌,
}
use binbot.Float.{lit}
use binbot.Float.Fixed.{fixed, units}
use binbot.Dict.{get, put}
use binbot.Core.Enums.{buy, sell}
use binbot.Execution.Trailing.{
  PositionDetail, Thresholds, stop_loss, trailing_profit, trailing_stop_level, margin_usdt, roi_pct,
  decide,
}
use binbot.Execution.PositionMonitor.{
  Responses, PositionMonitor, create, loop, check_once, check_positions, check_position, judge,
  first_seen, close_position, book, forget_all, arms, notifies, submits,
}
use binbot.Execution.PositionMonitor.Closing.{submit_count, closed_at_most_once}
use binbot.Execution.PositionMonitor.Frozen.{stop_loss_frozen}
use binbot.Execution.PositionMonitor.Unprotected.{equity_failure_unprotected}

abbrev thresholds : Thresholds ℤ
thresholds = record {
  stop_loss_equity_pct = units 25;
  leverage = units 15;
  trailing_arm_pct = units 30;
  trailing_base_pct = units 20;
  trailing_step_pct = units 2;
  trailing_step_increment_pct = units 5;
  hard_cap_pct = units 80;
}

abbrev detail : ℤ → PositionDetail ℤ
detail pnl = record {
  symbol = "BTCUSDT";
  side = buy;
  quantity = 15;
  entry_price = units 100;
  mark_price = units 100;
  unrealized_pnl = pnl;
}

abbrev answers : Option ℤ → Responses ℤ
answers equity = record {
  equity = λ s. equity;
  placed = λ s. some (some "stop1");
  cancels = λ s. true;
  notified = λ s. true;
  submitted = λ s. true;
}

abbrev step_size : String → ℤ
step_size s = units 1

-- On a margin of 100, the return rises to 42%, where the trailing level is 24%, and falls back to 23%.
trailing_run :
    (loop step_size
      ((answers (some (units 1000)), some (detail (units 42) ∷ []))
        ∷ (answers (some (units 5)), some (detail (units 23) ∷ []))
        ∷ (answers none, some (detail (units 10) ∷ []))
        ∷ [])
      (create thresholds)).actions
    ≡ arms "BTCUSDT" buy (units 100) 15 (units 250)
      ∷ notifies "BTCUSDT" (trailing_profit (units 23) (units 24) (units 42))
      ∷ submits "BTCUSDT" sell 15
      ∷ []
unfolding loop check_once check_positions check_position judge first_seen close_position book
    forget_all trailing_stop_level margin_usdt roi_pct decide get put String_discrete ◌+ℤ◌ ◌-ℤ◌ ◌*ℤ◌
trailing_run = refl

-- Held at a stop-loss of 250 with a peak of 10%.
abbrev held : PositionMonitor ℤ
held = record (create thresholds) {
  positions = ("BTCUSDT", pos 15) ∷ [];
  peak_roi_pct = ("BTCUSDT", units 10) ∷ [];
  position_stop_loss_usdt = ("BTCUSDT", units 250) ∷ [];
}

abbrev polls : List (Responses ℤ × Option (List (PositionDetail ℤ)))
polls =
    (answers none, some (detail (units 42) ∷ []))
    ∷ (answers (some (units 5)), some (detail (units 23) ∷ []))
    ∷ (answers none, none)
    ∷ []

closed_at_most_once_example :
    (submit_count "BTCUSDT" (loop step_size polls held).actions
      ≤ suc (submit_count "BTCUSDT" held.actions))
    × (member "BTCUSDT" held.closing ≡ true
        → submit_count "BTCUSDT" (loop step_size polls held).actions
          ≤ submit_count "BTCUSDT" held.actions)
unfolding String_discrete
closed_at_most_once_example = closed_at_most_once step_size "BTCUSDT" polls held (refl, (refl, tt))

stop_loss_frozen_example :
    get (loop step_size polls held).position_stop_loss_usdt "BTCUSDT"
    ≡ get held.position_stop_loss_usdt "BTCUSDT"
unfolding String_discrete
stop_loss_frozen_example = stop_loss_frozen step_size "BTCUSDT" polls held refl (refl, (refl, tt))

equity_failure_unprotected_example :
    (loop step_size
      ((answers none, some (detail (units 3) ∷ []))
        ∷ (answers (some (units 1000)), some (detail (negsuc 9) ∷ []))
        ∷ [])
      (create thresholds)).actions
    ≡ notifies "BTCUSDT" (stop_loss (negsuc 9) (lit 0)) ∷ submits "BTCUSDT" sell 15 ∷ []
equity_failure_unprotected_example =
    equity_failure_unprotected step_size thresholds (detail (units 3)) (answers none)
      (answers (some (units 1000))) (negsuc 9) refl refl refl
