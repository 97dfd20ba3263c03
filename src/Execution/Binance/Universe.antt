-- ===== src/Execution/Binance/Universe.antt =====
-- The universe of symbols that a scanner walks, in execution/binance_broker.py.
use Prim.Native.String.{compare}
use Prim.Native.Nat.{Ordering}
use binbot.Base.{
  Bool, true, false, Option, none, some, String, List, [], ◌∷◌, ok, str_eq, if◌then◌else◌, ◌&&◌,
  ◌||◌,
}
use binbot.Dict.{Dict}
use binbot.Execution.Binance.{BinanceFuturesBroker, SymbolInfo}
use binbot.Execution.Binance.Symbols.{
  Answers, Outcome, and_then, refresh_exchange_info, refresh_if, is_empty,
}

-- Python's order of texts, and `sorted` on different texts.
abbrev pub before : String → String → Bool
before s t = elim (compare s t) [ Ordering.gt ↦ false | _ ↦ true ]

abbrev pub insert : String → List String → List String
insert s [] = s ∷ []
insert s (t ∷ ts) = let rest = insert s ts in if before s t then s ∷ t ∷ ts else t ∷ rest

abbrev pub sorted : List String → List String
sorted [] = []
sorted (s ∷ ss) = insert s (sorted ss)

abbrev pub is_text : String → Option String → Bool
is_text text none = false
is_text text (some other) = str_eq other text

module _ {F : Type 0} where
  unfoldable pub is_tradeable : SymbolInfo F → Bool
  is_tradeable info =
      is_text "TRADING" info.status
      && (is_text "PERPETUAL" info.contract_type && is_text "USDT" info.quote_asset)

  abbrev pub tradeable : Dict (SymbolInfo F) → List String
  unfolding is_tradeable
  tradeable [] = []
  tradeable ((symbol, info) ∷ infos) =
      let rest = tradeable infos in if is_tradeable info then symbol ∷ rest else rest

  unfoldable pub get_usdt_perpetual_universe :
      Answers F → Bool → BinanceFuturesBroker F → Outcome (List String) F
  unfolding refresh_exchange_info
  get_usdt_perpetual_universe answers force_refresh b =
      and_then (refresh_if (force_refresh || is_empty b.exchange_info_by_symbol) answers b)
        (λ u b'. (ok (sorted (tradeable b'.exchange_info_by_symbol)), b'))
