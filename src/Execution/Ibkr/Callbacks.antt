-- ===== src/Execution/Ibkr/Callbacks.antt =====
-- The callbacks of execution/ibkr_broker.py: what an error, a fill and a change of status put into the queue.
use Prim.Native.String.{◌++◌ as str_append}
use binbot.Base.{
  Bool, false, none, some, String, ℤ, pos, pos_part, map, ltb_ℤ, ok, str_eq, if◌then◌else◌, ◌==◌,
}
use binbot.Float.{Float, FloatMath, ◌-F◌, lit, sum}
use binbot.Dict.{get_or}
use binbot.Core.Enums.{OrderStatus, submitted, rejected, buy, sell}
use binbot.Core.Events.{DateTime, ExecutionEvent, maker, taker}
use binbot.Execution.Orders.{BrokerEvent, acked, refused, executed}
use binbot.Execution.Ibkr.{IbkrBroker, Trade, Fill, Outcome, put_nowait, int, ib_status_map}

abbrev pub is_two : ℤ → Bool
is_two (pos n) = n == 2
is_two _ = false

abbrev pub is_zero : ℤ → Bool
is_zero (pos n) = n == 0
is_zero _ = false

module _ {F : Type 0} (str : ℤ → String) where
  abbrev pub correlation_of : ℤ → IbkrBroker F → String
  correlation_of order_id b = get_or b.correlation_by_order_id (str order_id) ""

  unfoldable pub error_event : DateTime → ℤ → ℤ → String → IbkrBroker F → BrokerEvent F
  error_event now req_id error_code error_string b = refused (record {
    ts = now;
    order_id = str req_id;
    correlation_id = correlation_of req_id b;
    symbol = "";
    reason = str_append "IBKR error " (str_append (str error_code) (str_append ": " error_string));
  })

  unfoldable pub on_error : DateTime → ℤ → ℤ → String → IbkrBroker F → Outcome (Unit {0}) F
  unfolding error_event put_nowait
  on_error now req_id error_code error_string b =
      if ltb_ℤ error_code (pos 400)
      then (ok tt, b)
      else put_nowait (error_event now req_id error_code error_string b) b

  -- `_on_order_status` by the status that it maps to.
  unfoldable pub status_event : DateTime → OrderStatus → Trade F → IbkrBroker F → BrokerEvent F
  status_event now rejected trade b = refused (record {
    ts = now;
    order_id = str trade.order_id;
    correlation_id = correlation_of trade.order_id b;
    symbol = trade.symbol;
    reason = trade.status;
  })
  status_event now status trade b = acked (record {
    ts = now;
    order_id = str trade.order_id;
    correlation_id = correlation_of trade.order_id b;
    symbol = trade.symbol;
    status = status;
    broker_order_id = if is_zero trade.perm_id then none else some (str trade.perm_id);
  })

  unfoldable pub on_order_status : DateTime → Trade F → IbkrBroker F → Outcome (Unit {0}) F
  unfolding status_event put_nowait
  on_order_status now trade b =
      put_nowait (status_event now (get_or ib_status_map trade.status submitted) trade b) b

module _ {F : Type 0} ⦃f : Float F⦄ ⦃m : FloatMath F⦄ (str : ℤ → String) where
  -- Share counts are not negative; a negative count would be 0 here.
  unfoldable pub execution_of : DateTime → Trade F → Fill F → IbkrBroker F → ExecutionEvent F
  unfolding int
  execution_of now trade fill b =
      let cumulative = sum (map (λ (x : Fill F). x.shares) trade.fills) in
      record {
        ts = now;
        order_id = str trade.order_id;
        correlation_id = correlation_of str trade.order_id b;
        symbol = trade.symbol;
        side = if str_eq trade.action "BUY" then buy else sell;
        fill_quantity = pos_part (int fill.shares);
        fill_price = fill.price;
        cumulative_quantity = pos_part (int cumulative);
        remaining_quantity = pos_part (int (trade.total_quantity -F cumulative));
        commission = elim fill.commission [ none ↦ lit 0 | some c ↦ c ];
        liquidity = if is_two fill.liquidity then maker else taker;
        expected_price = none;
      }

  unfoldable pub on_exec_details : DateTime → Trade F → Fill F → IbkrBroker F → Outcome (Unit {0}) F
  unfolding execution_of put_nowait
  on_exec_details now trade fill b = put_nowait (executed (execution_of now trade fill b)) b
