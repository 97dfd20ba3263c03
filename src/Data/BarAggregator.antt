-- ===== src/Data/BarAggregator.antt =====
-- data/bar_aggregator.py: ticks into bars of a fixed timeframe. Times are microseconds, so a bucket is a
-- multiple of the timeframe in microseconds.
pub mod Bounds
pub mod Buckets
use binbot.Base.{
  ℕ, zero, suc, ◌*◌, ◌/◌, ◌==◌, not, Bool, Option, none, some, String, List, [], ◌∷◌, ◌++◌, ℤ, pos,
  Result, ok, err, zero_division, if◌then◌else◌,
}
use binbot.Float.{Float, ◌+F◌, ◌*F◌, ◌/F◌, ◌<F◌, lit, max, min}
use binbot.Dict.{Dict, get, put, remove}
use binbot.Core.Events.{DateTime, TickEvent, BarEvent, mid}

pub record OpenBar (F : Type 0) : Type 0 where
  pub bucket_start : DateTime
  pub symbol : String
  pub open_price : F
  pub high : F
  pub low : F
  pub close : F
  pub volume : F
  pub dollar_volume : F

pub record BarAggregator (F : Type 0) : Type 0 where
  pub timeframe_s : ℕ
  pub open_bars : Dict (OpenBar F)

-- `_bucket_start`; a timeframe of 0 raises.
unfoldable pub bucket_of : ℕ → DateTime → Result DateTime
bucket_of zero ts = err zero_division
bucket_of (suc n) ts = ok (ts / (suc n * 1000000) * (suc n * 1000000))

module _ {F : Type 0} where
  abbrev pub completed : Result (Option (BarEvent F)) → List (BarEvent F)
  completed (ok (some b)) = b ∷ []
  completed (ok none) = []
  completed (err e) = []

module _ {F : Type 0} ⦃f : Float F⦄ where
  -- `_OpenBar.update`
  unfoldable pub update_bar : OpenBar F → F → ℕ → OpenBar F
  update_bar b price size = record b {
    high = max b.high price;
    low = min b.low price;
    close = price;
    volume = b.volume +F lit size;
    dollar_volume = b.dollar_volume +F price *F lit size;
  }

  unfoldable pub vwap : OpenBar F → F
  vwap b = if lit 0 <F b.volume then b.dollar_volume /F b.volume else b.close

  abbrev pub start_bar : DateTime → String → F → OpenBar F
  start_bar bucket symbol price = record {
    bucket_start = bucket;
    symbol = symbol;
    open_price = price;
    high = price;
    low = price;
    close = price;
    volume = lit 0;
    dollar_volume = lit 0;
  }

  -- `_finalize`
  unfoldable pub finalize : ℕ → OpenBar F → BarEvent F
  unfolding vwap
  finalize timeframe b = record {
    ts = b.bucket_start;
    symbol = b.symbol;
    timeframe_s = timeframe;
    open_price = b.open_price;
    high = b.high;
    low = b.low;
    close = b.close;
    volume = b.volume;
    vwap = vwap b;
  }

  abbrev pub tick_price : TickEvent F → F
  tick_price tick = if lit 0 <F tick.last then tick.last else mid tick

  -- The completed bar and the open one, which takes the tick.
  unfoldable pub next_bar :
      ℕ → DateTime → TickEvent F → Option (OpenBar F) → Option (BarEvent F) × OpenBar F
  next_bar timeframe bucket tick none = (
    none,
    update_bar (start_bar bucket tick.symbol (tick_price tick)) (tick_price tick) tick.last_size,
  )
  next_bar timeframe bucket tick (some b) =
      if b.bucket_start == bucket then (none, update_bar b (tick_price tick) tick.last_size) else (
        some (finalize timeframe b),
        update_bar (start_bar bucket tick.symbol (tick_price tick)) (tick_price tick)
            tick.last_size,
      )

  abbrev pub on_tick_at :
      TickEvent F
      → BarAggregator F
      → Result DateTime
      → Result (Option (BarEvent F)) × BarAggregator F
  on_tick_at tick a (err e) = (err e, a)
  on_tick_at tick a (ok bucket) =
      let (completed, b) = next_bar a.timeframe_s bucket tick (get a.open_bars tick.symbol) in
      (ok completed, record a { open_bars = put a.open_bars tick.symbol b })

  unfoldable pub on_tick :
      TickEvent F → BarAggregator F → Result (Option (BarEvent F)) × BarAggregator F
  on_tick tick a = on_tick_at tick a (bucket_of a.timeframe_s tick.ts)

  abbrev pub flush_found : ℕ → Option (OpenBar F) → Option (BarEvent F)
  flush_found timeframe none = none
  flush_found timeframe (some b) = some (finalize timeframe b)

  unfoldable pub flush : String → BarAggregator F → Option (BarEvent F) × BarAggregator F
  flush symbol a = (
    flush_found a.timeframe_s (get a.open_bars symbol),
    record a { open_bars = remove a.open_bars symbol },
  )

  -- The bars that come out of a run of ticks.
  unfoldable pub on_ticks :
      List (TickEvent F) → BarAggregator F → List (BarEvent F) × BarAggregator F
  on_ticks [] a = ([], a)
  on_ticks (tick ∷ ticks) a =
      let (r, a₁) = on_tick tick a in
      let (bars, a₂) = on_ticks ticks a₁ in (completed r ++ bars, a₂)
