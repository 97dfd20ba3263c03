-- ===== src/Tests/Ibkr.antt =====
-- execution/ibkr_broker.py at concrete inputs.
use text.Mathlib.TextLemmas.{nil≢cons}
use binbot.Base.{
  ℕ, zero, suc, ◌≡◌, ◌≢◌, refl, true, false, String, List, [], ◌∷◌, none, some, ℤ, pos, negsuc,
  String_discrete, ◌-ℤ◌, ok, err, value_error, ne_of_str_eq, map, length,
}
use binbot.Float.Fixed.{fixed, fixed_math, units}
use binbot.Dict.{get, put}
use binbot.Core.Enums.{buy, market, gtc}
use binbot.Execution.Orders.{BrokerOrderRequest, Says, managed}
use binbot.Execution.OrderManager.{OrderLifecycleManager, consume}
use binbot.Execution.Ibkr.{IbkrBroker, Contract, Trade, Fill, put_nowait}
use binbot.Execution.Ibkr.Heartbeat.{beat, reconciled}
use binbot.Execution.Ibkr.Sending.{
  place_order, send, qualify_future, qualify_found, qualified_first,
}
use binbot.Execution.Ibkr.Callbacks.{on_error, on_order_status, on_exec_details}
use binbot.Execution.Ibkr.Runs.{Act, placing, filling, changing, failing, act, run}
use binbot.Execution.Ibkr.Told.{place_order-Says}
use binbot.Execution.Ibkr.Unheard.{adapter_unheard}

abbrev connected : IbkrBroker ℤ
connected = record {
  futures_exchange = "CME";
  futures_currency = "USD";
  reconnect_backoff_s = units 2;
  reconnect_backoff_max_s = units 60;
  heartbeat_timeout_s = units 15;
  event_queue = [];
  trades_by_order_id = [];
  correlation_by_order_id = [];
  contracts = [];
  last_heartbeat_ok = units 100;
  reconnecting = false;
  calls = [];
}

abbrev es : Contract
es = record { symbol = "ES"; exchange = "CME"; currency = "USD" }

abbrev request : BrokerOrderRequest ℤ
request = record {
  order_id = "";
  correlation_id = "c1";
  symbol = "ES";
  side = buy;
  quantity = 3;
  order_type = market;
  limit_price = none;
  time_in_force = gtc;
  oca_group = none;
  oca_type = 1;
}

abbrev fill : Fill ℤ
fill = record { shares = units 2; price = units 50; commission = none; liquidity = pos 2 }

abbrev trade : Trade ℤ
trade = record {
  order_id = pos 0;
  perm_id = pos 9;
  action = "BUY";
  total_quantity = units 3;
  symbol = "ES";
  status = "Submitted";
  fills = fill ∷ [];
}

abbrev other_trade : Trade ℤ
other_trade = record trade { order_id = pos 1 }

-- Texts of strokes.
abbrev strokes : ℕ → String
strokes zero = "1"
strokes (suc n) = String.◌∷◌ "1" (strokes n)

abbrev str : ℤ → String
str (pos n) = strokes n
str (negsuc n) = String.◌∷◌ "-" (strokes n)

empty≢str : (k : ℤ) → "" ≢ str k
unfolding String_discrete
empty≢str (pos zero) e = ne_of_str_eq "" "1" refl e
empty≢str (pos (suc n)) e = absurd (nil≢cons e)
empty≢str (negsuc n) e = absurd (nil≢cons e)

abbrev manager : OrderLifecycleManager ℕ ℤ
manager = record {
  broker_calls = [];
  event_bus = record {
    queue = [];
    queue_maxsize = 2;
    subscribers = λ t. [];
    global_subscribers = [];
    running = true;
    published_count = 0;
    dropped_count = 0;
  };
  slippage_tracker = record { records = [] };
  orders =
      (
        "",
        managed "" 0
            (record {
              ts = 0;
              symbol = "ES";
              strategy_id = "scanner";
              side = buy;
              strength = units 1;
              target_quantity = pos 3;
              order_type = market;
              limit_price = none;
              time_in_force = gtc;
              correlation_id = "c1";
              oca_group = none;
            })
            none,
      )
      ∷ [];
  uuids_drawn = 1;
}

-- The order is placed, is filled, and fails.
abbrev acts : List (Act ℤ)
acts =
    placing request (ok (es ∷ [])) trade
    ∷ filling 5 trade fill
    ∷ failing 6 (pos 0) (pos 201) "Order rejected"
    ∷ failing 7 (pos 0) (pos 2104) "farm"
    ∷ []

queue_after : length (run str acts connected).event_queue ≡ 2
unfolding run act place_order qualify_future qualify_found qualified_first send on_exec_details
    on_error put_nowait get String_discrete
queue_after = refl

unqualified :
    (place_order str request (ok []) trade connected).0
    ≡ err (value_error "could not qualify futures contract for symbol=ES")
unfolding place_order qualify_future qualify_found qualified_first send get
unqualified = refl

stale_beat :
    (beat
      (record {
        answers = false;
        now = units 116;
        attempts = false ∷ true ∷ [];
        connected_at = units 120;
        positions = some (record { symbol = "ES"; position = negsuc 1999 } ∷ []);
      })
      connected).0
    ≡ reconciled (("ES", negsuc 1) ∷ [])
unfolding beat ◌-ℤ◌ put
stale_beat = refl

place_order-Says_example :
    let b' =
      run str (placing request (ok (es ∷ [])) trade ∷ changing 4 other_trade ∷ []) connected in
    Says "1" "c1" b'.event_queue (on_error str 5 (pos 0) (pos 500) "lost" b').1.event_queue
    × Says "1" "c1" b'.event_queue (on_order_status str 5 trade b').1.event_queue
    × Says "1" "c1" b'.event_queue (on_exec_details str 5 trade fill b').1.event_queue
unfolding run act place_order qualify_future qualify_found qualified_first send on_order_status
    put_nowait get
place_order-Says_example =
    place_order-Says str request (ok (es ∷ [])) trade (changing 4 other_trade ∷ []) connected 5
      (pos 500) "lost" trade fill refl (tt, tt) refl refl refl

adapter_unheard_example :
    consume (map (λ e. (8, e)) (run str acts connected).event_queue) manager ≡ manager
adapter_unheard_example = adapter_unheard str acts connected 8 manager refl (λ k. (empty≢str k, tt))
