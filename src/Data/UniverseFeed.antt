-- ===== src/Data/UniverseFeed.antt =====
-- data/binance_universe_feed.py: the rolling windows of prices and funding rates. A message comes in as the time of
-- its arrival and its payload; the answers of the exchange in a backfill come in the order of their arrival.
pub mod Windows
pub mod Streams
pub mod Batches
use binbot.Base.{
  take, drop, ℕ, zero, suc, ◌+◌, ◌-◌, ◌*◌, ◌/◌, Bool, true, false, Option, none, some, String, List,
  [], ◌∷◌, ◌++◌, get_last?, ltb, leb, length, if◌then◌else◌, ◌||◌,
}
use binbot.Float.{Float, ◌-F◌, ◌*F◌, ◌/F◌, ◌==F◌, lit}
use binbot.Dict.{Dict, get, put, get_or}
use binbot.Core.Events.{DateTime, TickEvent, on_tick}
use binbot.Core.EventBus.{EventBus, publish}

abbrev pub History : Type 0 → Type 0
History F = List (DateTime × F)

pub record UniverseFeed (W F : Type 0) : Type 0 where
  pub event_bus : EventBus W F
  -- `timedelta`s in microseconds
  pub price_window : ℕ
  pub funding_window : ℕ
  pub price_history : Dict (History F)
  pub funding_history : Dict (History F)
  pub latest_prices : Dict F
  pub message_count : ℕ

-- An item of a payload, by its fields "s", "p" and "r".
pub data Item (F : Type 0) : Type 0 where
  quote : String → F → F → Item F
  malformed : Item F

-- `window * 0.9`, rounded to microseconds
abbrev pub nine_tenths : ℕ → ℕ
nine_tenths window = (window * 9 + 5) / 10

module _ {F : Type 0} where
  -- The `while` of `_append_trimmed`: the points before ts - window go.
  unfoldable pub trim : ℕ → DateTime → History F → History F
  trim window ts [] = []
  trim window ts ((t, v) ∷ history) =
      let rest = trim window ts history in if ltb (t + window) ts then rest else (t, v) ∷ history

  unfoldable pub append_trimmed : ℕ → DateTime → F → History F → History F
  unfolding trim
  append_trimmed window ts value history = trim window ts (history ++ (ts, value) ∷ [])

  abbrev pub append_for : ℕ → DateTime → String → F → Dict (History F) → Dict (History F)
  append_for window ts symbol value d =
      put d symbol (append_trimmed window ts value (get_or d symbol []))

  -- The oldest and the latest point of a history of two points that spans enough of its window.
  unfoldable pub span : ℕ → History F → Option ((DateTime × F) × (DateTime × F))
  span window [] = none
  span window (oldest ∷ []) = none
  span window (oldest ∷ next ∷ rest) = elim (get_last? (next ∷ rest)) [
    | none ↦ none
    | some latest ↦
        if ltb latest.0 (oldest.0 + nine_tenths window) then none else some (oldest, latest)
  ]

module _ {W F : Type 0} where
  unfoldable pub latest_price : String → UniverseFeed W F → Option F
  latest_price symbol u = get u.latest_prices symbol

  -- The rate now and at the start of the window.
  unfoldable pub funding_trend : String → UniverseFeed W F → Option (F × F)
  funding_trend symbol u = elim (span u.funding_window (get_or u.funding_history symbol [])) [
    | none ↦ none
    | some (oldest, latest) ↦ some (latest.1, oldest.1)
  ]

module _ {W F : Type 0} ⦃f : Float F⦄ where
  unfoldable pub price_change_pct : String → UniverseFeed W F → Option F
  price_change_pct symbol u = elim (span u.price_window (get_or u.price_history symbol [])) [
    | none ↦ none
    | some (oldest, latest) ↦
        if oldest.1 ==F lit 0 then none else some ((latest.1 -F oldest.1) /F oldest.1 *F lit 100)
  ]

module _ {F : Type 0} where
  abbrev pub tick_of : DateTime → String → F → TickEvent F
  tick_of now symbol price = record {
    ts = now;
    symbol = symbol;
    bid = price;
    ask = price;
    bid_size = 0;
    ask_size = 0;
    last = price;
    last_size = 0;
  }

module _ {W F : Type 0} where
  unfoldable pub handle_items : DateTime → List (Item F) → UniverseFeed W F → UniverseFeed W F
  handle_items now [] u = u
  handle_items now (malformed ∷ items) u = handle_items now items u
  handle_items now (quote symbol price funding_rate ∷ items) u = handle_items now items (record u {
    price_history = append_for u.price_window now symbol price u.price_history;
    funding_history = append_for u.funding_window now symbol funding_rate u.funding_history;
    latest_prices = put u.latest_prices symbol price;
    event_bus = publish u.event_bus (on_tick (tick_of now symbol price));
  })

  abbrev pub count_message : UniverseFeed W F → UniverseFeed W F
  count_message u = record u { message_count = u.message_count + 1 }

  -- `_handle_message`; a payload that is no list is dropped.
  unfoldable pub handle_message :
      DateTime → Option (List (Item F)) → UniverseFeed W F → UniverseFeed W F
  handle_message now none u = u
  handle_message now (some items) u = count_message (handle_items now items u)

  -- The messages of `_stream`.
  unfoldable pub stream :
      List (DateTime × Option (List (Item F))) → UniverseFeed W F → UniverseFeed W F
  stream [] u = u
  stream ((now, payload) ∷ messages) u = stream messages (handle_message now payload u)

-- The minutes of klines that cover a window.
unfoldable pub kline_limit : ℕ → ℕ
kline_limit window =
    let limit = (window + 59999999) / 60000000 + 1 in if ltb 2 limit then limit else 2

-- A row of klines by its milliseconds and its close.
abbrev pub Rows : Type 0 → Type 0
Rows F = List (ℕ × F)

module _ {F : Type 0} where
  unfoldable pub append_rows : ℕ → String → Rows F → Dict (History F) → Dict (History F)
  append_rows window symbol [] d = d
  append_rows window symbol ((ms, close) ∷ rows) d =
      append_rows window symbol rows (append_for window (ms * 1000) symbol close d)

  abbrev pub last_close : String → Option (ℕ × F) → Dict F → Dict F
  last_close symbol none d = d
  last_close symbol (some row) d = put d symbol row.1

module _ {W F : Type 0} where
  -- `backfill_one`: the klines of prices and of premiums, or an exception.
  unfoldable pub backfill_one :
      String → Option (Rows F × Rows F) → UniverseFeed W F → UniverseFeed W F
  backfill_one symbol none u = u
  backfill_one symbol (some (prices, premiums)) u = record u {
    price_history = append_rows u.price_window symbol prices u.price_history;
    latest_prices = last_close symbol (get_last? prices) u.latest_prices;
    funding_history = append_rows u.funding_window symbol premiums u.funding_history;
  }

-- A step of `backfill`: a batch of requests, or a pause.
pub data Step : Type 0 where
  requests : List String → Step
  pause : Step

-- The loop over the batches, of size n + 1, on as many rounds as there are symbols.
unfoldable pub batches : ℕ → ℕ → List String → List Step
batches zero n symbols = []
batches (suc rounds) n [] = []
batches (suc rounds) n (s ∷ symbols) =
    let more = drop n symbols in
    let rest = batches rounds n more in
    requests (s ∷ take n symbols) ∷ (if ltb 0 (length more) then pause ∷ rest else [])
