-- ===== src/Execution/PositionMonitor.antt =====
-- `PositionMonitor._check_once` of execution/position_monitor.py. What the exchange answers during a check
-- comes in as `Responses`, an answer `none` being an exception, which ends the check where it stands; the
-- calls that act on the world are recorded in order. `previous_symbols - current_symbols`, a set, is walked
-- in the order of the earlier positions. A poll is what `_loop` does in one round.
pub mod Closing
pub mod Frozen
pub mod Steps
pub mod Peak
pub mod Unprotected
use binbot.Base.{
  member, ℕ, ◌+◌, Bool, true, false, not, Option, none, some, String, List, [], ◌∷◌, ◌++◌, ℤ, pos,
  neg, negsuc, nat_abs, ltb_ℤ, map, filter, any, Result, ok, err, Error, call_failed, ◌>>=◌, str_eq,
  if◌then◌else◌,
}
use binbot.Float.{Float, ◌*F◌, ◌/F◌, lit}
use binbot.Dict.{Dict, get, put, remove, get_or, keys}
use binbot.Core.Enums.{OrderSide, buy, sell, is_buy}
use binbot.Execution.Trailing.{PositionDetail, Thresholds, CloseReason, roi_pct, peak_after, decide}

pub data Action (F : Type 0) : Type 0 where
  arms : String → OrderSide → F → ℕ → F → Action F
  disarms : String → String → Action F
  notifies : String → CloseReason F → Action F
  submits : String → OrderSide → ℕ → Action F

pub record Responses (F : Type 0) : Type 0 where
  -- `get_account_equity` when a position is first seen
  pub equity : String → Option F
  -- `place_stop_loss`: the id of the order, if one was placed
  pub placed : String → Option (Option String)
  -- whether `cancel_stop_loss`, `on_close_event` and `submit` return
  pub cancels : String → Bool
  pub notified : String → Bool
  pub submitted : String → Bool

pub record PositionMonitor (F : Type 0) : Type 0 where
  pub thresholds : Thresholds F
  pub positions : Dict ℤ
  pub closing : List String
  pub native_stop_order_id : Dict String
  pub peak_roi_pct : Dict F
  pub position_stop_loss_usdt : Dict F
  pub actions : List (Action F)

-- The constructor.
abbrev pub create : {F : Type 0} → Thresholds F → PositionMonitor F
create c = record {
  thresholds = c;
  positions = [];
  closing = [];
  native_stop_order_id = [];
  peak_roi_pct = [];
  position_stop_loss_usdt = [];
  actions = [];
}

module _ {F : Type 0} where
  abbrev pub act : Action F → PositionMonitor F → PositionMonitor F
  act a m = record m { actions = m.actions ++ a ∷ [] }

  -- The signed lots of a position.
  abbrev pub signed_lots : PositionDetail F → ℤ
  signed_lots d = if is_buy d.side then pos d.quantity else neg (pos d.quantity)

  unfoldable pub book : List (PositionDetail F) → Dict ℤ → Dict ℤ
  book [] p = p
  book (d ∷ ds) p = book ds (put p d.symbol (signed_lots d))

  -- `_close_position`
  unfoldable pub close_position :
      Responses F
      → String
      → ℤ
      → CloseReason F
      → PositionMonitor F
      → Result (Unit {0}) × PositionMonitor F
  close_position r symbol qty reason m =
      let side = if ltb_ℤ (pos 0) qty then sell else buy in
      let m₁ = act (notifies symbol reason) (record m { closing = symbol ∷ m.closing }) in
      if r.notified symbol
      then (
        if r.submitted symbol then ok tt else err call_failed,
        act (submits symbol side (nat_abs qty)) m₁,
      )
      else (err call_failed, m₁)

  -- `_disarm_native_stop` with the two `pop`s that follow it
  unfoldable pub forget_found :
      Responses F
      → String
      → Option String
      → PositionMonitor F
      → Result (Unit {0}) × PositionMonitor F
  forget_found r symbol none m = (
    ok tt,
    record m {
      peak_roi_pct = remove m.peak_roi_pct symbol;
      position_stop_loss_usdt = remove m.position_stop_loss_usdt symbol;
    },
  )
  forget_found r symbol (some id) m =
      let m₁ =
        act (disarms symbol id)
          (record m { native_stop_order_id = remove m.native_stop_order_id symbol }) in
      if r.cancels symbol
      then (
        ok tt,
        record m₁ {
          peak_roi_pct = remove m.peak_roi_pct symbol;
          position_stop_loss_usdt = remove m.position_stop_loss_usdt symbol;
        },
      )
      else (err call_failed, m₁)

  unfoldable pub forget :
      Responses F → String → PositionMonitor F → Result (Unit {0}) × PositionMonitor F
  unfolding forget_found
  forget r symbol m = forget_found r symbol (get m.native_stop_order_id symbol) m

  -- A chain of actions of which each may raise.
  abbrev pub then_do :
      Result (Unit {0}) × PositionMonitor F
      → (PositionMonitor F → Result (Unit {0}) × PositionMonitor F)
      → Result (Unit {0}) × PositionMonitor F
  then_do (ok _, m) k = k m
  then_do (err e, m) k = (err e, m)

  -- `_arm_native_stop`, on what the broker answers.
  abbrev pub arm_placed :
      String → Option (Option String) → PositionMonitor F → Result (Unit {0}) × PositionMonitor F
  arm_placed symbol none m = (err call_failed, m)
  arm_placed symbol (some none) m = (ok tt, m)
  arm_placed symbol (some (some id)) m =
      (ok tt, record m { native_stop_order_id = put m.native_stop_order_id symbol id })

  -- What a check does with its decision.
  abbrev pub close_for :
      Responses F
      → String
      → Result (Option (CloseReason F))
      → PositionMonitor F
      → Result (Unit {0}) × PositionMonitor F
  close_for r symbol (err e) m = (err e, m)
  close_for r symbol (ok none) m = (ok tt, m)
  close_for r symbol (ok (some reason)) m =
      close_position r symbol (get_or m.positions symbol (pos 0)) reason m

  unfoldable pub forget_all :
      Responses F → List String → PositionMonitor F → Result (Unit {0}) × PositionMonitor F
  forget_all r [] m = (ok tt, m)
  forget_all r (s ∷ ss) m = then_do (forget r s m) (forget_all r ss)

-- `step_size_lookup` is taken to find the symbol, whose filters are loaded.
module _ {F : Type 0} ⦃f : Float F⦄ (step_size : String → F) where
  -- A position seen for the first time: the stop-loss is frozen and the native stop armed.
  unfoldable pub first_seen :
      Responses F
      → PositionDetail F
      → Option F
      → PositionMonitor F
      → Result (Unit {0}) × PositionMonitor F
  first_seen r d none m = (err call_failed, m)
  first_seen r d (some equity) m =
      let max_loss = equity *F m.thresholds.stop_loss_equity_pct /F lit 100 in
      arm_placed d.symbol (r.placed d.symbol) (
        act (arms d.symbol d.side d.entry_price d.quantity max_loss)
          (record m { position_stop_loss_usdt = put m.position_stop_loss_usdt d.symbol max_loss }))

  -- The body of the loop from the stop-loss on.
  unfoldable pub judge :
      Responses F → PositionDetail F → PositionMonitor F → Result (Unit {0}) × PositionMonitor F
  judge r d m =
      let stop = get_or m.position_stop_loss_usdt d.symbol (lit 0) in
      let roi = roi_pct m.thresholds (step_size d.symbol) d in
      let peak = peak_after (get m.peak_roi_pct d.symbol) roi in
      close_for r d.symbol (decide m.thresholds d.unrealized_pnl stop roi peak)
        (record m { peak_roi_pct = put m.peak_roi_pct d.symbol peak })

  unfoldable pub check_position :
      Responses F
      → List String
      → PositionDetail F
      → PositionMonitor F
      → Result (Unit {0}) × PositionMonitor F
  check_position r previous d m =
      if member d.symbol m.closing
      then (ok tt, m)
      else if member d.symbol previous
      then judge r d m
      else then_do (first_seen r d (r.equity d.symbol) m) (judge r d)

  unfoldable pub check_positions :
      Responses F
      → List String
      → List (PositionDetail F)
      → PositionMonitor F
      → Result (Unit {0}) × PositionMonitor F
  check_positions r previous [] m = (ok tt, m)
  check_positions r previous (d ∷ ds) m =
      then_do (check_position r previous d m) (check_positions r previous ds)

  unfoldable pub check_once :
      Responses F
      → List (PositionDetail F)
      → PositionMonitor F
      → Result (Unit {0}) × PositionMonitor F
  check_once r details m =
      let current = map (λ d. d.symbol) details in
      let previous = keys m.positions in
      then_do
        (check_positions r previous details (record m {
          closing = filter (λ s. member s current) m.closing;
          positions = book details [];
        }))
        (forget_all r (filter (λ s. not (member s current)) previous))

  -- `_loop`: an exception ends the round. `none` is a `get_position_details` that raises.
  unfoldable pub loop :
      List (Responses F × Option (List (PositionDetail F))) → PositionMonitor F → PositionMonitor F
  loop [] m = m
  loop ((r, none) ∷ polls) m = loop polls m
  loop ((r, some details) ∷ polls) m = loop polls (check_once r details m).1
