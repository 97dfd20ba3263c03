-- ===== src/Tests/Bars.antt =====
-- data/bar_aggregator.py at concrete inputs.
use binbot.Base.{ℕ, ◌*◌, ◌≡◌, refl, List, [], ◌∷◌, none, ℤ, arith, String_discrete, ◌+ℤ◌, ◌*ℤ◌}
use binbot.Float.Fixed.{fixed, units}
use binbot.Dict.{get, put}
use binbot.Core.Events.{TickEvent, mid}
use binbot.Data.BarAggregator.{
  BarAggregator, on_ticks, on_tick, bucket_of, next_bar, update_bar, finalize, vwap, flush,
}
use binbot.Data.BarAggregator.Buckets.{IsRising, bars_rise}

-- A trade of ten at a price, some seconds after the epoch.
abbrev trade_at : ℕ → ℕ → TickEvent ℤ
trade_at seconds price = record {
  ts = seconds * 1000000;
  symbol = "ES";
  bid = units 0;
  ask = units 0;
  bid_size = 0;
  ask_size = 0;
  last = units price;
  last_size = 10;
}

abbrev empty : BarAggregator ℤ
empty = record { timeframe_s = 60; open_bars = [] }

abbrev ticks : List (TickEvent ℤ)
ticks = trade_at 61 100 ∷ trade_at 90 110 ∷ trade_at 119 90 ∷ trade_at 120 95 ∷ trade_at 185 96 ∷ []

-- The bar of the second minute, with its volume-weighted price.
first_bar :
    (on_ticks (trade_at 61 100 ∷ trade_at 90 110 ∷ trade_at 119 90 ∷ trade_at 120 95 ∷ []) empty).0
    ≡ record {
      ts = 60000000;
      symbol = "ES";
      timeframe_s = 60;
      open_price = units 100;
      high = units 110;
      low = units 90;
      close = units 90;
      volume = units 30;
      vwap = units 100;
    }
      ∷ []
unfolding on_ticks on_tick bucket_of next_bar update_bar finalize vwap mid get put String_discrete
    ◌+ℤ◌ ◌*ℤ◌
first_bar = refl

flush-empty : (flush "ES" empty).0 ≡ none
unfolding flush get
flush-empty = refl

bars_rise_example : IsRising "ES" 0 (on_ticks ticks empty).0
bars_rise_example =
    bars_rise 59 "ES" ticks
      (omega arith, (omega arith, (omega arith, (omega arith, (omega arith, tt)))))
