-- ===== src/Execution/Binance/Leverage.antt =====
-- The leverage and the margin type of a symbol, which execution/binance_broker.py sets before its first order.
use binbot.Base.{
  ℕ, not, Option, none, some, String, List, [], ◌∷◌, ltb, ok, err, call_failed, key_error,
  if◌then◌else◌,
}
use binbot.Float.{Float}
use binbot.Dict.{get, put, contains}
use binbot.Execution.Binance.{
  BinanceFuturesBroker, SymbolFilters, change_margin_type, change_leverage, leverage_bracket,
  request_of,
}
use binbot.Execution.Binance.Symbols.{
  Answers, Outcome, and_then, refresh_if, load_filters, load_symbol_filters,
}

module _ {F : Type 0} where
  abbrev pub remember : String → ℕ → String → BinanceFuturesBroker F → BinanceFuturesBroker F
  remember symbol leverage margin_type b = record b {
    configured_leverage_margin = put b.configured_leverage_margin symbol (leverage, margin_type);
  }

  -- The handler of a refused leverage, by what `_max_leverage_for` returns.
  unfoldable pub cap_leverage :
      Answers F → String → ℕ → String → Option ℕ → BinanceFuturesBroker F → Outcome (Unit {0}) F
  cap_leverage answers symbol leverage margin_type none b = (err call_failed, b)
  cap_leverage answers symbol leverage margin_type (some max_leverage) b =
      if ltb max_leverage leverage
      then (if answers.accepts symbol max_leverage
          then (
            ok tt,
            remember symbol max_leverage margin_type
                (request_of (change_leverage symbol max_leverage) b),
          )
          else (err call_failed, request_of (change_leverage symbol max_leverage) b))
      else (err call_failed, b)

  unfoldable pub configure_leverage_and_margin :
      Answers F → String → ℕ → String → BinanceFuturesBroker F → Outcome (Unit {0}) F
  unfolding cap_leverage
  configure_leverage_and_margin answers symbol leverage margin_type b =
      let b' =
        request_of (change_leverage symbol leverage)
          (request_of (change_margin_type symbol margin_type) b) in
      if contains b.configured_leverage_margin symbol
      then (ok tt, b)
      else if answers.accepts symbol leverage
      then (ok tt, remember symbol leverage margin_type b')
      else cap_leverage answers symbol leverage margin_type (answers.bracket symbol)
          (request_of (leverage_bracket symbol) b')

  -- The loop of `_configure_symbols`.
  unfoldable pub configure_each :
      Answers F → List String → BinanceFuturesBroker F → Outcome (Unit {0}) F
  unfolding configure_leverage_and_margin
  configure_each answers [] b = (ok tt, b)
  configure_each answers (symbol ∷ symbols) b =
      and_then (configure_leverage_and_margin answers symbol b.leverage b.margin_type b)
        (λ u. configure_each answers symbols)

module _ {F : Type 0} ⦃f : Float F⦄ where
  -- `connect` once the client is there, up to the user stream.
  unfoldable pub prepare : Answers F → BinanceFuturesBroker F → Outcome (Unit {0}) F
  unfolding load_symbol_filters configure_each
  prepare answers b =
      and_then (load_symbol_filters answers b) (λ u b'. configure_each answers b'.symbols b')

  abbrev pub ready_filters : Answers F → String → BinanceFuturesBroker F → Outcome (Unit {0}) F
  ready_filters answers symbol b =
      if contains b.filters symbol
      then (ok tt, b)
      else and_then (refresh_if (not (contains b.exchange_info_by_symbol symbol)) answers b)
          (λ u. load_filters symbol)

  -- `ensure_symbol_ready`, with the filters that it returns.
  unfoldable pub ensure_symbol_ready :
      Answers F → String → ℕ → String → BinanceFuturesBroker F → Outcome (SymbolFilters F) F
  unfolding configure_leverage_and_margin
  ensure_symbol_ready answers symbol leverage margin_type b =
      and_then (ready_filters answers symbol b) (λ u b'.
        and_then (configure_leverage_and_margin answers symbol leverage margin_type b') (λ v b''.
          elim (get b''.filters symbol) [
            | none ↦ (err key_error, b'')
            | some filt ↦ (ok filt, b'')
          ]))
