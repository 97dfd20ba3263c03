-- ===== src/Execution/Binance/Symbols.antt =====
-- The symbols of execution/binance_broker.py: their filters, their leverage and margin type, and the universe that
-- a scanner walks. What the exchange answers is a record, `none` being an exception.
use Prim.Native.String.{◌++◌ as str_append}
use binbot.Base.{
  ℕ, Bool, true, false, Option, none, some, String, List, [], ◌∷◌, Result, ok, err, Error,
  call_failed, value_error, if◌then◌else◌,
}
use binbot.Float.{Float, lit}
use binbot.Dict.{Dict, get, put, contains}
use binbot.Execution.Binance.{
  BinanceFuturesBroker, SymbolFilters, SymbolInfo, Filter, price_filter, lot_size, notional_filter,
  other_filter, exchange_info, request_of,
}

pub record Answers (F : Type 0) : Type 0 where
  -- `futures_exchange_info`, indexed by symbol
  pub info : Option (Dict (SymbolInfo F))
  -- whether `futures_change_leverage` returns
  pub accepts : String → ℕ → Bool
  -- the first "initialLeverage" of `futures_leverage_bracket`
  pub bracket : String → Option ℕ

-- What a method does: it returns or raises, in the state that it leaves.
abbrev pub Outcome : Type 0 → Type 0 → Type 0
Outcome A F = Result A × BinanceFuturesBroker F

module _ {A B F : Type 0} where
  abbrev pub and_then : Outcome A F → (A → BinanceFuturesBroker F → Outcome B F) → Outcome B F
  and_then (ok a, b) next = next a b
  and_then (err e, b) next = (err e, b)

module _ {F : Type 0} where
  unfoldable pub refresh_exchange_info : Answers F → BinanceFuturesBroker F → Outcome (Unit {0}) F
  refresh_exchange_info answers b = elim answers.info [
    | none ↦ (err call_failed, request_of exchange_info b)
    | some infos ↦ (ok tt, record (request_of exchange_info b) { exchange_info_by_symbol = infos })
  ]

  abbrev pub is_empty : Dict (SymbolInfo F) → Bool
  is_empty [] = true
  is_empty (info ∷ infos) = false

  abbrev pub refresh_if : Bool → Answers F → BinanceFuturesBroker F → Outcome (Unit {0}) F
  refresh_if true answers b = refresh_exchange_info answers b
  refresh_if false answers b = (ok tt, b)

module _ {F : Type 0} where
  -- The loop of `_parse_filters`: a later entry overwrites an earlier one.
  abbrev pub apply_filter : Filter F → SymbolFilters F → SymbolFilters F
  apply_filter (price_filter tick_size) filt = record filt { tick_size = tick_size }
  apply_filter (lot_size step_size min_qty) filt = record filt {
    step_size = step_size;
    min_qty = min_qty;
  }
  apply_filter (notional_filter none) filt = filt
  apply_filter (notional_filter (some notional)) filt = record filt { min_notional = notional }
  apply_filter other_filter filt = filt

  abbrev pub apply_filters : List (Filter F) → SymbolFilters F → SymbolFilters F
  apply_filters [] filt = filt
  apply_filters (f ∷ filters) filt = apply_filters filters (apply_filter f filt)

abbrev pub not_found : String → Error
not_found symbol =
    value_error (str_append "symbol " (str_append symbol " not found on Binance Futures"))

module _ {F : Type 0} ⦃f : Float F⦄ where
  unfoldable pub parse_filters : String → SymbolInfo F → SymbolFilters F
  parse_filters symbol data_of = apply_filters data_of.filters (record {
    symbol = symbol;
    tick_size = lit 0;
    step_size = lit 0;
    min_qty = lit 0;
    min_notional = lit 0;
    quantity_precision = data_of.quantity_precision;
    price_precision = data_of.price_precision;
  })

  -- The filters of one symbol, from the indexed information.
  abbrev pub load_filters : String → BinanceFuturesBroker F → Outcome (Unit {0}) F
  load_filters symbol b = elim (get b.exchange_info_by_symbol symbol) [
    | none ↦ (err (not_found symbol), b)
    | some info ↦ (ok tt, record b { filters = put b.filters symbol (parse_filters symbol info) })
  ]

  abbrev pub load_each : List String → BinanceFuturesBroker F → Outcome (Unit {0}) F
  load_each [] b = (ok tt, b)
  load_each (symbol ∷ symbols) b = and_then (load_filters symbol b) (λ u. load_each symbols)

  unfoldable pub load_symbol_filters : Answers F → BinanceFuturesBroker F → Outcome (Unit {0}) F
  unfolding refresh_exchange_info
  load_symbol_filters answers b =
      and_then (refresh_if (is_empty b.exchange_info_by_symbol) answers b)
        (λ u b'. load_each b'.symbols b')

  -- The loop of `load_all_filters`.
  unfoldable pub load_missing :
      Dict (SymbolInfo F) → Dict (SymbolFilters F) → Dict (SymbolFilters F)
  load_missing [] filters = filters
  load_missing ((symbol, info) ∷ infos) filters =
      load_missing infos (
        if contains filters symbol then filters else put filters symbol (parse_filters symbol info))

  unfoldable pub load_all_filters : Answers F → BinanceFuturesBroker F → Outcome (Unit {0}) F
  unfolding refresh_exchange_info load_missing
  load_all_filters answers b =
      and_then (refresh_if (is_empty b.exchange_info_by_symbol) answers b) (λ u b'.
        (ok tt, record b' { filters = load_missing b'.exchange_info_by_symbol b'.filters }))
