-- ===== src/Tests/Orders.antt =====
-- execution/order_manager.py at concrete inputs.
use mathlib.Core.Option
use text.Mathlib.TextLemmas.{nil≢cons, cons-ne-nil, tail-eq_of_cons-eq}
use binbot.Base.{
  ℕ, zero, suc, ◌+◌, ◌≡◌, true, false, none, some, String, List, [], ◌∷◌, arith, refl, ℤ, pos,
  String_discrete, ap, ◌*ℤ◌,
}
use binbot.Float.Fixed.{fixed, units}
use binbot.Dict.{get, put}
use binbot.Core.Enums.{cancel_pending, buy, sell, market, day, filled, is_terminal}
use binbot.Core.Events.{DateTime, SignalEvent, OrderAckEvent, ExecutionEvent, unknown}
use binbot.Core.EventBus.{EventBus, publish}
use binbot.Execution.Orders.{ManagedOrder, acked, executed, apply_event, managed, is_open}
use binbot.Execution.OrderManager.{OrderLifecycleManager, submit, cancel, handle_broker_event}
use binbot.Execution.OrderManager.Fills.{
  Balanced, fills_total, apply_fills, fills_add_up, over_and_open_again,
}
use binbot.Execution.OrderManager.Book.{IsIssued}

abbrev signal : SignalEvent ℤ
signal = record {
  ts = 0;
  symbol = "ES";
  strategy_id = "scanner";
  side = buy;
  strength = units 1;
  target_quantity = pos 5;
  order_type = market;
  limit_price = none;
  time_in_force = day;
  correlation_id = "c1";
  oca_group = none;
}

abbrev bus : EventBus ℕ ℤ
bus = record {
  queue = [];
  queue_maxsize = 2;
  subscribers = λ t. [];
  global_subscribers = [];
  running = true;
  published_count = 0;
  dropped_count = 0;
}

abbrev pub manager : OrderLifecycleManager ℕ ℤ
manager = record {
  broker_calls = [];
  event_bus = bus;
  slippage_tracker = record { records = [] };
  orders = [];
  uuids_drawn = 0;
}

-- Ids of growing length.
abbrev pub uuid : ℕ → String
uuid zero = ""
uuid (suc n) = String.◌∷◌ "a" (uuid n)

uuid_distinct : (i j : ℕ) → uuid i ≡ uuid j → i ≡ j
uuid_distinct zero zero e = refl
uuid_distinct zero (suc j) e = absurd (nil≢cons e)
uuid_distinct (suc i) zero e = absurd (cons-ne-nil _ _ e)
uuid_distinct (suc i) (suc j) e = ap suc (uuid_distinct i j (tail-eq_of_cons-eq e))

abbrev order : ManagedOrder ℤ
order = managed "" 0 signal none

abbrev fill : ℕ → ℕ → ℕ → ExecutionEvent ℤ
fill quantity cumulative remaining = record {
  ts = 1;
  order_id = "";
  correlation_id = "c1";
  symbol = "ES";
  side = buy;
  fill_quantity = quantity;
  fill_price = units 10;
  cumulative_quantity = cumulative;
  remaining_quantity = remaining;
  commission = units 0;
  liquidity = unknown;
  expected_price = none;
}

abbrev stream : List (DateTime × ExecutionEvent ℤ)
stream = ◌∷◌ (1, fill 2 2 3) (◌∷◌ (2, fill 3 5 0) [])

submit_then_fill :
    Option.map
      (λ (o : ManagedOrder ℤ). o.status)
      (get
        (handle_broker_event 1 (executed (fill 5 5 0)) (submit uuid 0 signal none manager).1).orders
        "")
    ≡ some filled
unfolding submit handle_broker_event publish get put String_discrete ◌*ℤ◌
submit_then_fill = refl

fills_add_up_example :
    ((apply_fills stream order).filled_quantity ≡ 0 + fills_total stream)
    × ((apply_fills stream order).quantity ≡ 5)
    × Balanced (apply_fills stream order)
unfolding apply_event
fills_add_up_example =
    fills_add_up stream order (omega arith, (λ h. cc, λ h. absurd (omega arith)))
      (
        record { adds = omega arith; rest = omega arith },
        (record { adds = omega arith; rest = omega arith }, tt),
      )

abbrev filled_order : ManagedOrder ℤ
filled_order = record order { status = filled }

abbrev after_fill : OrderLifecycleManager ℕ ℤ
after_fill = record manager { orders = ◌∷◌ ("", filled_order) [] }

over_and_open_again_example :
    ((o' : ManagedOrder ℤ) × (get (cancel "" after_fill).orders "" ≡ some o')
      × (o'.status ≡ cancel_pending)
      × (is_open o' ≡ true))
    × ((now : DateTime) (e : OrderAckEvent)
        → e.order_id ≡ ""
        → is_terminal e.status ≡ false
        → (o' : ManagedOrder ℤ) × (get (handle_broker_event now (acked e) after_fill).orders ""
            ≡ some o')
          × (o'.status ≡ e.status)
          × (is_open o' ≡ true))
unfolding get String_discrete
over_and_open_again_example = over_and_open_again "" filled_order after_fill refl refl

manager-IsIssued : IsIssued uuid uuid_distinct manager
unfolding get
manager-IsIssued = record { drawn = λ j o h. cc }

abbrev pair : List (SignalEvent ℤ)
pair = ◌∷◌ signal (◌∷◌ (record signal { side = sell }) [])
