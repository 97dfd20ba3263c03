-- ===== src/Tests/Binance.antt =====
-- execution/binance_broker.py at concrete inputs. A lot of BTCUSDT is a thousandth.
use binbot.Base.{
  ℕ, zero, suc, ◌≡◌, refl, true, false, String, [], ◌∷◌, none, some, ℤ, pos, negsuc,
  String_discrete, ok, ◌*ℤ◌, ◌+ℤ◌, ◌-ℤ◌, ne_of_str_eq, ◌++◌, length, All,
}
use binbot.Float.Fixed.{fixed, fixed-IsOrdered, fixed_math, units}
use binbot.Float.{◌≤F◌, max}
use binbot.Execution.Binance.Backoff.{connect_loop, failures, connect_loop_ends}
use binbot.Dict.{get, put}
use binbot.Core.Enums.{buy, sell, market, gtc, OrderSide}
use binbot.Execution.Orders.{BrokerOrderRequest, Says}
use binbot.Execution.PositionMonitor.{book}
use binbot.Execution.Binance.{
  BinanceFuturesBroker, SymbolFilters, create_stop, lots_to_quantity, quantity_to_lots,
}
use binbot.Execution.Binance.Symbols.{Answers}
use binbot.Execution.Binance.Leverage.{configure_leverage_and_margin}
use binbot.Execution.Binance.Account.{
  PositionInformation, get_positions, positions_from, note_position, get_position_details,
}
use binbot.Execution.Binance.Sending.{place_order, place_found, register, send_registered, send}
use binbot.Execution.Binance.Stops.{place_stop_loss, stop_price, stop_client_id}
use binbot.Execution.Binance.UserStream.{
  OrderUpdate, order_trade_update, handle_user_stream_message, handle_oca_fill,
}
use binbot.Execution.Binance.Keeping.{Placement}
use binbot.Execution.Binance.Replies.{place_all, place_order-message}
use binbot.Execution.Binance.Agreement.{get_positions-eq-book}
use binbot.Execution.Binance.Caps.{Configured, configure-Configured}
use binbot.Execution.Binance.Protection.{cancel_returned, stop_calls, place_stop_loss-cancelled}
use binbot.Execution.Binance.Answered.{IsAnswered, place_order-IsAnswered}
use binbot.Execution.Binance.Oca.{places, run, after_fill, oca_fill_cancels_once}

abbrev filters : SymbolFilters ℤ
filters = record {
  symbol = "BTCUSDT";
  tick_size = pos 100;
  step_size = pos 1;
  min_qty = pos 2;
  min_notional = units 5;
  quantity_precision = 3;
  price_precision = 1;
}

abbrev pub connected : BinanceFuturesBroker ℤ
connected = record {
  symbols = "BTCUSDT" ∷ [];
  leverage = 2;
  margin_type = "ISOLATED";
  filters = ("BTCUSDT", filters) ∷ [];
  exchange_info_by_symbol = [];
  configured_leverage_margin = [];
  event_queue = [];
  client_order_to_correlation = [];
  client_order_to_internal_id = [];
  order_symbol = [];
  oca_groups = [];
  order_to_oca_group = [];
  calls = [];
}

abbrev pub show : ℤ → String
show a = "0.001"

abbrev order : String → OrderSide → ℕ → BrokerOrderRequest ℤ
order id side quantity = record {
  order_id = id;
  correlation_id = "c1";
  symbol = "BTCUSDT";
  side = side;
  quantity = quantity;
  order_type = market;
  limit_price = none;
  time_in_force = gtc;
  oca_group = some "oca";
  oca_type = 1;
}

abbrev placement : String → OrderSide → Placement ℤ
placement id side = record { now = 1; answer = none; request = order id side 5 }

abbrev filled_update : OrderUpdate ℤ
filled_update = record {
  c = "a1";
  s = "BTCUSDT";
  side = "BUY";
  exec_type = "TRADE";
  order_status = "FILLED";
  l = pos 5;
  z = pos 5;
  q = pos 5;
  trade_time_ms = 7;
  last_price = units 100;
  n = none;
  m = false;
  i = "4711";
}

abbrev position : PositionInformation ℤ
position = record {
  symbol = "BTCUSDT";
  position_amt = negsuc 6;
  entry_price = units 100;
  mark_price = units 99;
  unrealized_profit = pos 7;
}

abbrev pub capped : Answers ℤ
capped = record {
  info = none;
  accepts = λ s n. elim n [ zero ↦ false | suc k ↦ elim k [ zero ↦ true | suc _ ↦ false ] ];
  bracket = λ s. some 1;
}

short : get_positions (position ∷ []) connected ≡ ("BTCUSDT", negsuc 6) ∷ []
unfolding get_positions positions_from note_position quantity_to_lots get put String_discrete ◌*ℤ◌
    ◌+ℤ◌
short = refl

place_order-message_example :
    let b' = place_all show (placement "a1" buy ∷ placement "a2" sell ∷ []) connected in
    Says "a1" "c1" b'.event_queue
      (handle_user_stream_message 9 (order_trade_update filled_update) b').1.event_queue
unfolding get put lots_to_quantity String_discrete ◌*ℤ◌
place_order-message_example =
    place_order-message show (placement "a1" buy) (placement "a2" sell ∷ []) filters _ 9
      filled_update connected refl refl (ne_of_str_eq "a2" "a1" refl, tt) refl refl refl

oca_fill_cancels_once_example :
    let before =
      run show (places (placement "a1" buy) ∷ places (placement "a2" sell) ∷ []) connected in
    let b' = handle_oca_fill "a1" before in
    (b' ≡ after_fill "a1" "oca" ("a1" ∷ "a2" ∷ []) before)
    × ((later : String)
        → get b'.order_to_oca_group later ≡ some "oca"
        → (handle_oca_fill later b').calls ≡ b'.calls)
unfolding run place_order place_found register send_registered send lots_to_quantity get put
    String_discrete ◌*ℤ◌
oca_fill_cancels_once_example =
    oca_fill_cancels_once show (places (placement "a1" buy) ∷ places (placement "a2" sell) ∷ [])
      connected "a1" "oca" ("a1" ∷ "a2" ∷ []) refl refl refl

get_positions-eq-book_example :
    get_positions (position ∷ []) connected
    ≡ book (get_position_details (position ∷ []) connected) []
get_positions-eq-book_example = get_positions-eq-book (position ∷ []) connected

configure-Configured_example :
    let outcome = configure_leverage_and_margin capped "BTCUSDT" 2 "ISOLATED" connected in
    Configured capped "BTCUSDT" 2 "ISOLATED" outcome
    × ((answers' : Answers ℤ) (leverage' : ℕ) (margin_type' : String)
        → outcome.0 ≡ ok tt
        → configure_leverage_and_margin answers' "BTCUSDT" leverage' margin_type' outcome.1
          ≡ outcome)
unfolding get
configure-Configured_example = configure-Configured capped "BTCUSDT" 2 "ISOLATED" connected refl

place_stop_loss-cancelled_example :
    let stop = create_stop "BTCUSDT" "SELL" (pos 98000) (stop_client_id 5000000 "BTCUSDT") in
    cancel_returned "BTCUSDT" (
      place_stop_loss 5000000
        (some (some "4712"))
        "BTCUSDT"
        true
        (units 100)
        (pos 5)
        (pos 10)
        connected)
    ≡ record connected { calls = stop_calls "BTCUSDT" (some (some "4712")) stop }
unfolding get lots_to_quantity stop_price String_discrete ◌+ℤ◌ ◌-ℤ◌ ◌*ℤ◌
place_stop_loss-cancelled_example =
    place_stop_loss-cancelled 5000000 (some (some "4712")) "BTCUSDT" true (units 100) (pos 5)
      (pos 10) filters connected refl refl refl refl

place_order-IsAnswered_example :
    IsAnswered show 1
      (some "-1003")
      (order "a1" buy 5)
      connected
      (get connected.filters "BTCUSDT")
      (place_order show 1 (some "-1003") (order "a1" buy 5) connected)
place_order-IsAnswered_example =
    place_order-IsAnswered show 1 (some "-1003") (order "a1" buy 5) connected

connect_loop_ends_example :
    let p = connect_loop (units 60) (units 2) (failures 2 ++ true ∷ false ∷ []) in
    (p.connected ≡ true)
    × (length p.sleeps ≡ 2)
    × All (λ d. d ≤F max (units 2) (units 60) ≡ true) p.sleeps
connect_loop_ends_example = connect_loop_ends fixed-IsOrdered (units 60) (units 2) 2 (false ∷ [])
