-- ===== src/Server/Dashboard/Charts.antt =====
-- The candles of server/dashboard_bridge.py: what is charted, the history that is fetched once, the cache.
use binbot.Base.{
  ◌/◌, ◌==◌, Bool, true, false, Option, none, some, String, List, [], ◌∷◌, ◌++◌, keep_last, member,
  length, ltb, str_eq, if◌then◌else◌,
}
use binbot.Dict.{get_or, put, contains}
use binbot.Core.Events.{BarEvent}
use binbot.Execution.TradeTracker.{TradeTracker}
use binbot.Execution.Binance.Account.{Candle}
use binbot.Server.Dashboard.{DashboardBridge, candle, candles_backfill, broadcast}

module _ {F : Type 0} where
  abbrev pub is_open_in : String → Option (TradeTracker F) → Bool
  is_open_in symbol none = false
  is_open_in symbol (some t) = contains t.open_trades symbol

  unfoldable pub wants_chart_for : String → DashboardBridge F → Bool
  wants_chart_for symbol b =
      if str_eq symbol b.chart_symbol then true else is_open_in symbol b.trade_tracker

  -- The candles that the provider answers with; none where it raises.
  abbrev pub store_backfill :
      (String → Bool) → String → Option (List (Candle F)) → DashboardBridge F → DashboardBridge F
  store_backfill alive symbol none b = b
  store_backfill alive symbol (some []) b = b
  store_backfill alive symbol (some (c ∷ candles)) b =
      broadcast alive (candles_backfill symbol (c ∷ candles)) (record b {
        candles_by_symbol = put b.candles_by_symbol symbol (keep_last 1600 (c ∷ candles));
      })

  unfoldable pub backfill_candles_once :
      (String → Bool) → Option (List (Candle F)) → String → DashboardBridge F → DashboardBridge F
  unfolding broadcast
  backfill_candles_once alive answer symbol b =
      if member symbol b.backfilled_symbols
      then b
      else if b.has_klines
      then store_backfill alive symbol answer
          (record b { backfilled_symbols = b.backfilled_symbols ++ symbol ∷ [] })
      else b

  -- A candle of the time of the last one replaces it.
  unfoldable pub add_candle : Candle F → List (Candle F) → List (Candle F)
  add_candle c [] = c ∷ []
  add_candle c (last ∷ []) = if last.time == c.time then c ∷ [] else last ∷ c ∷ []
  add_candle c (x ∷ y ∷ cache) = x ∷ add_candle c (y ∷ cache)

  -- `del cache[0]` beyond 1600 candles; a replacement does not lengthen the cache.
  abbrev pub drop_first : List (Candle F) → List (Candle F)
  drop_first [] = []
  drop_first (x ∷ xs) = xs

  unfoldable pub cache_candle : Candle F → List (Candle F) → List (Candle F)
  unfolding add_candle
  cache_candle c cache =
      let cache' = add_candle c cache in
      if ltb (length cache) (length cache')
      then (if ltb 1600 (length cache') then drop_first cache' else cache')
      else cache'

  abbrev pub candle_payload : BarEvent F → Candle F
  candle_payload event = record {
    time = event.ts / 1000000;
    open_price = event.open_price;
    high = event.high;
    low = event.low;
    close = event.close;
    volume = event.volume;
  }

  abbrev pub push_candle : (String → Bool) → BarEvent F → DashboardBridge F → DashboardBridge F
  push_candle alive event b =
      let c = candle_payload event in
      broadcast alive (candle event.symbol c) (record b {
        candles_by_symbol =
            put b.candles_by_symbol event.symbol
              (cache_candle c (get_or b.candles_by_symbol event.symbol []));
      })

  -- The branch of a bar.
  unfoldable pub on_bar_event :
      (String → Bool)
      → Option (List (Candle F))
      → BarEvent F
      → DashboardBridge F
      → DashboardBridge F
  unfolding broadcast backfill_candles_once wants_chart_for cache_candle
  on_bar_event alive answer event b =
      if wants_chart_for event.symbol b
      then push_candle alive event (backfill_candles_once alive answer event.symbol b)
      else b
