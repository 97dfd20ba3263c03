-- ===== src/Tests/Universe.antt =====
-- data/binance_universe_feed.py at concrete inputs.
use binbot.Base.{◌≡◌, refl, true, List, [], ◌∷◌, none, some, ℤ, arith, String_discrete, ◌*ℤ◌, ◌-ℤ◌}
use binbot.Float.Fixed.{fixed, units}
use binbot.Dict.{get_or, get, put}
use binbot.Core.Events.{EventType}
use binbot.Core.EventBus.{EventBus, Handler, publish}
use binbot.Data.UniverseFeed.{
  UniverseFeed, quote, malformed, handle_items, handle_message, stream, trim, append_trimmed,
  price_change_pct, span, requests, pause, batches, kline_limit, backfill_one, append_rows,
  latest_price,
}
use binbot.Data.UniverseFeed.Streams.{Messages, points, window_of, stream-eq-window}
use binbot.Data.UniverseFeed.Batches.{requested, is_paced, backfill_paced}

abbrev no_handlers : EventType → List (Handler (Unit {0}) ℤ)
no_handlers t = []

abbrev bus : EventBus (Unit {0}) ℤ
bus = record {
  queue = [];
  queue_maxsize = 0;
  subscribers = no_handlers;
  global_subscribers = [];
  running = true;
  published_count = 0;
  dropped_count = 0;
}

-- Windows of ten seconds.
abbrev fresh : UniverseFeed (Unit {0}) ℤ
fresh = record {
  event_bus = bus;
  price_window = 10000000;
  funding_window = 10000000;
  price_history = [];
  funding_history = [];
  latest_prices = [];
  message_count = 0;
}

abbrev messages : Messages ℤ
messages =
    (1000000, some (quote "BTCUSDT" (units 100) (units 1) ∷ malformed ∷ []))
    ∷ (2000000, none)
    ∷ (
      3000000,
      some (quote "ETHUSDT" (units 7) (units 2) ∷ quote "BTCUSDT" (units 110) (units 3) ∷ []),
    )
    ∷ (12000000, some (quote "BTCUSDT" (units 121) (units 2) ∷ []))
    ∷ []

-- The first price has left the window, and the change is from 110 to 121.
change : price_change_pct "BTCUSDT" (stream messages fresh) ≡ some (units 10)
unfolding price_change_pct span stream handle_message handle_items append_trimmed trim get put
    publish String_discrete ◌*ℤ◌ ◌-ℤ◌
change = refl

paused :
    batches 3 1 ("A" ∷ "B" ∷ "C" ∷ [])
    ≡ requests ("A" ∷ "B" ∷ []) ∷ pause ∷ requests ("C" ∷ []) ∷ []
unfolding batches
paused = refl

quarter_hour : kline_limit 900000000 ≡ 16
unfolding kline_limit
quarter_hour = refl

backfilled :
    latest_price "BTCUSDT"
      (backfill_one "BTCUSDT" (some ((1, units 5) ∷ (2, units 6) ∷ [], (1, units 1) ∷ [])) fresh)
    ≡ some (units 6)
unfolding latest_price backfill_one append_rows append_trimmed trim get put String_discrete
backfilled = refl

stream-eq-window_example :
    (get_or (stream messages fresh).price_history "BTCUSDT" []
      ≡ window_of 10000000 (points (λ p r. p) "BTCUSDT" messages))
    × (get_or (stream messages fresh).funding_history "BTCUSDT" []
        ≡ window_of 10000000 (points (λ p r. r) "BTCUSDT" messages))
stream-eq-window_example =
    stream-eq-window messages "BTCUSDT" fresh
      (omega arith, (omega arith, (omega arith, (omega arith, tt)))) refl refl

backfill_paced_example :
    (requested (batches 3 1 ("A" ∷ "B" ∷ "C" ∷ [])) ≡ "A" ∷ "B" ∷ "C" ∷ [])
    × (is_paced 2 true (batches 3 1 ("A" ∷ "B" ∷ "C" ∷ [])) ≡ true)
backfill_paced_example = backfill_paced 1 ("A" ∷ "B" ∷ "C" ∷ [])
