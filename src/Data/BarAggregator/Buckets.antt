-- ===== src/Data/BarAggregator/Buckets.antt =====
-- The buckets of a run of ticks.
use binbot.Base.{
  ℕ, suc, ◌*◌, ◌/◌, ◌≤◌, ◌<◌, ◌≡◌, ◌≢◌, refl, sym, ap, ◌∙◌, subst, Bool, true, false, Option, none,
  some, String, List, [], ◌∷◌, ◌++◌, ok, arith, ◌==◌, str_eq, if◌then◌else◌,
}
use native.Mathlib.Nat.{div-mul-le_self, le-div_iff_mul-le, mul-le-mul_right}
use binbot.Float.{Float}
use binbot.Dict.{get, put, get-put}
use binbot.Core.Events.{DateTime, TickEvent, BarEvent}
use binbot.Data.BarAggregator.{
  OpenBar, BarAggregator, update_bar, finalize, next_bar, on_tick, on_tick_at, bucket_of, on_ticks,
  completed,
}

-- The start of the bucket of a time.
abbrev pub floor_to : ℕ → DateTime → DateTime
floor_to k ts = ts / k * k

floor_to-le : (k ts : ℕ) → floor_to k ts ≤ ts
floor_to-le k ts = div-mul-le_self ts k

floor_to_mono : (k s t : ℕ) → 0 < k → s ≤ t → floor_to k s ≤ floor_to k t
floor_to_mono k s t p h =
    let q : s / k ≤ t / k = (le-div_iff_mul-le p).1 (let e = div-mul-le_self s k in omega arith) in
    mul-le-mul_right k q

module _ {F : Type 0} where
  -- Times that do not fall, from a first one on.
  abbrev pub IsSorted : DateTime → List (TickEvent F) → Type 0
  IsSorted now [] = Unit
  IsSorted now (tick ∷ ticks) = (now ≤ tick.ts) × IsSorted tick.ts ticks

  -- The bars of s have rising times, from lo on.
  abbrev pub IsRising : String → DateTime → List (BarEvent F) → Type 0
  IsRising s lo [] = Unit
  IsRising s lo (b ∷ bars) =
      if str_eq b.symbol s then (lo ≤ b.ts) × IsRising s (suc b.ts) bars else IsRising s lo bars

  -- What a step does to the open bar of its symbol.
  abbrev Steps : String → DateTime → Option (OpenBar F) → Option (BarEvent F) × OpenBar F → Type 0
  Steps s bucket o x =
      (x.1.symbol ≡ s)
      × (x.1.bucket_start ≡ bucket)
      × ((c : BarEvent F)
          → x.0 ≡ some c
          → (b : OpenBar F) × (o ≡ some b)
            × (c.ts ≡ b.bucket_start)
            × (c.symbol ≡ s)
            × (b.bucket_start ≢ bucket))

  -- Before the ticks from `now` on: what is open started at lo at the earliest and now at the latest.
  abbrev IsReady : ℕ → String → DateTime → DateTime → BarAggregator F → Type 0
  IsReady k s lo now a =
      (lo ≤ floor_to k now)
      × ((j : String) (b : OpenBar F) → get a.open_bars j ≡ some b → b.symbol ≡ j)
      × ((b : OpenBar F)
          → get a.open_bars s ≡ some b
          → (lo ≤ b.bucket_start) × (b.bucket_start ≤ floor_to k now))

  IsRising-completed :
      (s : String) (lo : DateTime) (o : Option (BarEvent F)) (bars : List (BarEvent F))
      → (o ≡ none → IsRising s lo bars)
      → ((c : BarEvent F) → o ≡ some c → c.symbol ≢ s → IsRising s lo bars)
      → ((c : BarEvent F) → o ≡ some c → c.symbol ≡ s → (lo ≤ c.ts) × IsRising s (suc c.ts) bars)
      → IsRising s lo (completed (ok o) ++ bars)
  IsRising-completed s lo none bars h₀ h₁ h₂ = h₀ refl
  IsRising-completed s lo (some c) bars h₀ h₁ h₂ = ground (arith, h₁ c refl, h₂ c refl)

  IsReady-next :
      (k : ℕ) (s : String) (lo lo' now : DateTime) (tick : TickEvent F) (a : BarAggregator F)
      (b : OpenBar F)
      → 0 < k
      → IsReady k s lo now a
      → now ≤ tick.ts
      → b.symbol ≡ tick.symbol
      → b.bucket_start ≡ floor_to k tick.ts
      → lo' ≤ floor_to k tick.ts
      → (tick.symbol ≢ s → lo' ≡ lo)
      → IsReady k s lo' tick.ts (record a { open_bars = put a.open_bars tick.symbol b })
  IsReady-next k s lo lo' now tick a b p (l, names, held) t e₁ e₂ l' same =
      let mono = floor_to_mono k now tick.ts p t in
      (
        l',
        (λ j c g. ground (arith, get-put a.open_bars tick.symbol j b, names j c)),
        λ c g. ground (arith, get-put a.open_bars tick.symbol s b, held c, mono),
      )

  same_or_next-Steps :
      (s : String) (bucket : DateTime) (same : Bool) (b b₁ b₂ : OpenBar F) (c : BarEvent F)
      → same ≡ (b.bucket_start == bucket)
      → b.symbol ≡ s
      → b₁.symbol ≡ s
      → b₁.bucket_start ≡ b.bucket_start
      → b₂.symbol ≡ s
      → b₂.bucket_start ≡ bucket
      → c.ts ≡ b.bucket_start
      → c.symbol ≡ s
      → Steps s bucket (some b) (if same then (none, b₁) else (some c, b₂))
  same_or_next-Steps s bucket true b b₁ b₂ c e h h₁ g₁ h₂ g₂ t k =
      (h₁, ground arith, λ d e. ground arith)
  same_or_next-Steps s bucket false b b₁ b₂ c e h h₁ g₁ h₂ g₂ t k =
      (h₂, g₂, λ d q. (b, refl, ground arith, ground arith, ground arith))

module _ {F : Type 0} ⦃f : Float F⦄ where
  next_bar-Steps :
      (timeframe : ℕ) (bucket : DateTime) (tick : TickEvent F) (o : Option (OpenBar F))
      → ((b : OpenBar F) → o ≡ some b → b.symbol ≡ tick.symbol)
      → Steps tick.symbol bucket o (next_bar timeframe bucket tick o)
  unfolding next_bar update_bar finalize
  next_bar-Steps timeframe bucket tick none h = (refl, refl, λ c e. ground arith)
  next_bar-Steps timeframe bucket tick (some b) h =
      same_or_next-Steps tick.symbol bucket (b.bucket_start == bucket) b _ _ (finalize timeframe b)
        refl (h b refl) (h b refl) refl refl refl refl (h b refl)

  -- The ticks of a run from a state on, in the bucket of the next one.
  rising :
      (n : ℕ) (s : String) (lo now : DateTime) (ticks : List (TickEvent F)) (a : BarAggregator F)
      → a.timeframe_s ≡ suc n
      → IsSorted now ticks
      → IsReady (suc n * 1000000) s lo now a
      → IsRising s lo (on_ticks ticks a).0
  unfolding on_ticks on_tick bucket_of
  rising n s lo now [] a e o h = tt
  rising n s lo now (tick ∷ ticks) a e o h =
      let k = suc n * 1000000 in
      let bucket = floor_to k tick.ts in
      let x = next_bar a.timeframe_s bucket tick (get a.open_bars tick.symbol) in
      let a' = record a { open_bars = put a.open_bars tick.symbol x.1 } in
      let mono = floor_to_mono k now tick.ts (omega arith) o.0 in
      let steps =
        next_bar-Steps a.timeframe_s bucket tick (get a.open_bars tick.symbol) (h.1 tick.symbol) in
      let go : (lo' : DateTime)
          → lo' ≤ bucket
          → (tick.symbol ≢ s → lo' ≡ lo)
          → IsRising s lo' (on_ticks ticks a').0 =
        λ lo' l same.
          rising n s lo' tick.ts ticks a' e o.1
            (IsReady-next k s lo lo' now tick a x.1 (omega arith) h o.0 steps.0 steps.1 l same) in
      let stay = go lo (omega (arith, h.0, mono)) (λ _. refl) in
      subst
        (λ r.
          IsRising s lo
            (completed (on_tick_at tick a r).0 ++ (on_ticks ticks (on_tick_at tick a r).1).0))
        (ap (λ t. bucket_of t tick.ts) (sym e))
        (IsRising-completed s lo x.0 (on_ticks ticks a').0 (λ _. stay) (λ c _ _. stay)
          (λ c g same.
            let (b, q, t, name, ne) = steps.2 c g in
            let here : tick.symbol ≡ s = sym name ∙ same in
            let held = h.2 b (ap (get a.open_bars) (sym here) ∙ q) in
            (
              omega arith,
              go (suc c.ts) (ground (arith, held, mono, ne, t)) (λ no. absurd (no here)),
            )))

  -- Fed with ticks whose times do not fall, a fresh aggregator completes the bars of each symbol in strictly
  -- rising order of their times, so at most one for a bucket.
  pub bars_rise :
      (n : ℕ) (s : String) (ticks : List (TickEvent F))
      → IsSorted 0 ticks
      → IsRising s 0 (on_ticks ticks (record { timeframe_s = suc n; open_bars = [] })).0
  unfolding get
  bars_rise n s ticks o =
      rising n s 0 0 ticks _ refl o (omega arith, (λ j b e. ground arith), λ b e. ground arith)
