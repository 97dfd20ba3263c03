-- ===== src/Data/BarAggregator/Bounds.antt =====
-- The prices of a bar.
use binbot.Base.{
  ◌≡◌, refl, Bool, true, false, Option, none, some, String, ok, err, arith, ℕ, List, [], ◌∷◌, All,
  All-append, ◌==◌, Result, if◌then◌else◌,
}
use binbot.Float.{max_left, max_right, min_left, min_right, Float, IsOrdered, ◌≤F◌}
use binbot.Dict.{get, put, get-put}
use binbot.Core.Events.{DateTime, TickEvent, BarEvent}
use binbot.Data.BarAggregator.{
  OpenBar, BarAggregator, update_bar, start_bar, finalize, next_bar, on_tick, on_tick_at, on_ticks,
  completed, tick_price, bucket_of,
}

module _ {F : Type 0} ⦃f : Float F⦄ where
  -- The low is at most every other price of a bar, the high at least.
  abbrev pub IsBounded : OpenBar F → Type 0
  IsBounded b =
      (b.low ≤F b.open_price ≡ true)
      × (b.open_price ≤F b.high ≡ true)
      × (b.low ≤F b.close ≡ true)
      × (b.close ≤F b.high ≡ true)

  abbrev pub IsBoundedBar : BarEvent F → Type 0
  IsBoundedBar b =
      (b.low ≤F b.open_price ≡ true)
      × (b.open_price ≤F b.high ≡ true)
      × (b.low ≤F b.close ≡ true)
      × (b.close ≤F b.high ≡ true)

  abbrev pub AllOpen : (OpenBar F → Type 0) → BarAggregator F → Type 0
  AllOpen P a = (s : String) (b : OpenBar F) → get a.open_bars s ≡ some b → P b

  module _ (laws : IsOrdered F) where
    update_bar-IsBounded :
        (b : OpenBar F) (price : F) (size : ℕ) → IsBounded b → IsBounded (update_bar b price size)
    unfolding update_bar
    update_bar-IsBounded b price size (lo, oh, _, _) = (
      laws.le_trans _ _ _ (min_left laws b.low price) lo,
      laws.le_trans _ _ _ oh (max_left laws b.high price),
      min_right laws b.low price,
      max_right laws b.high price,
    )

    start_bar-IsBounded :
        (bucket : DateTime) (symbol : String) (price : F)
        → IsBounded (start_bar bucket symbol price)
    start_bar-IsBounded bucket symbol price = let r = laws.le_refl price in (r, r, r, r)

    -- What a step gives: the completed bar, if any, and the open one, are within their bounds.
    abbrev pub Gives : Option (BarEvent F) × OpenBar F → Type 0
    Gives x = ((c : BarEvent F) → x.0 ≡ some c → IsBoundedBar c) × IsBounded x.1

    finalize-IsBounded :
        (timeframe : ℕ) (b : OpenBar F) (c : BarEvent F)
        → IsBounded b
        → some (finalize timeframe b) ≡ some c
        → IsBoundedBar c
    unfolding finalize
    finalize-IsBounded timeframe b c k e = ground arith

    same_or_next-IsBounded :
        (timeframe : ℕ) (same : Bool) (b b₁ b₂ : OpenBar F)
        → IsBounded b
        → IsBounded b₁
        → IsBounded b₂
        → Gives (if same then (none, b₁) else (some (finalize timeframe b), b₂))
    same_or_next-IsBounded timeframe true b b₁ b₂ k k₁ k₂ = (λ c e. ground arith, k₁)
    same_or_next-IsBounded timeframe false b b₁ b₂ k k₁ k₂ =
        (λ c e. finalize-IsBounded timeframe b c k e, k₂)

    next_bar-IsBounded :
        (timeframe : ℕ) (bucket : DateTime) (tick : TickEvent F) (o : Option (OpenBar F))
        → ((b : OpenBar F) → o ≡ some b → IsBounded b)
        → Gives (next_bar timeframe bucket tick o)
    unfolding next_bar
    next_bar-IsBounded timeframe bucket tick none h = (
      λ c e. ground arith,
      update_bar-IsBounded _ _ _ (start_bar-IsBounded bucket tick.symbol (tick_price tick)),
    )
    next_bar-IsBounded timeframe bucket tick (some b) h =
        same_or_next-IsBounded timeframe (b.bucket_start == bucket) b _ _ (h b refl)
          (update_bar-IsBounded _ _ _ (h b refl))
          (update_bar-IsBounded _ _ _ (start_bar-IsBounded bucket tick.symbol (tick_price tick)))

    put-IsBounded :
        (a : BarAggregator F) (s : String) (b : OpenBar F)
        → AllOpen IsBounded a
        → IsBounded b
        → AllOpen IsBounded (record a { open_bars = put a.open_bars s b })
    put-IsBounded a s b h k j c e = ground (arith, get-put a.open_bars s j b, h j c)

    completed-IsBounded :
        (o : Option (BarEvent F))
        → ((c : BarEvent F) → o ≡ some c → IsBoundedBar c)
        → All IsBoundedBar (completed (ok o))
    completed-IsBounded none h = tt
    completed-IsBounded (some c) h = (h c refl, tt)

    on_tick_at-IsBounded :
        (tick : TickEvent F) (a : BarAggregator F) (bucket : Result DateTime)
        → AllOpen IsBounded a
        → All IsBoundedBar (completed (on_tick_at tick a bucket).0)
          × AllOpen IsBounded (on_tick_at tick a bucket).1
    on_tick_at-IsBounded tick a (err e) h = (tt, h)
    on_tick_at-IsBounded tick a (ok bucket) h =
        let g =
          next_bar-IsBounded a.timeframe_s bucket tick (get a.open_bars tick.symbol)
            (h tick.symbol) in
        (completed-IsBounded _ g.0, put-IsBounded a tick.symbol _ h g.1)

    -- Every bar that a run of ticks completes, and every bar it leaves open, has its low at most and its
    -- high at least the open and the close, if this held of the open bars before.
    pub bars-IsBounded :
        (ticks : List (TickEvent F)) (a : BarAggregator F)
        → AllOpen IsBounded a
        → All IsBoundedBar (on_ticks ticks a).0 × AllOpen IsBounded (on_ticks ticks a).1
    unfolding on_ticks on_tick
    bars-IsBounded [] a h = (tt, h)
    bars-IsBounded (tick ∷ ticks) a h =
        let one = on_tick_at-IsBounded tick a (bucket_of a.timeframe_s tick.ts) h in
        let rest =
          bars-IsBounded ticks (on_tick_at tick a (bucket_of a.timeframe_s tick.ts)).1 one.1 in
        (All-append IsBoundedBar _ _ one.0 rest.0, rest.1)
