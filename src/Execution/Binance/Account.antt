-- ===== src/Execution/Binance/Account.antt =====
-- The account's positions as execution/binance_broker.py reads them from `futures_position_information`.
use binbot.Base.{
  ℕ, ◌/◌, Option, none, some, String, List, [], ◌∷◌, ℤ, pos, neg, map, if◌then◌else◌, ltb,
}
use binbot.Float.{Float, FloatMath, ◌<F◌, ◌==F◌, lit}
use binbot.Dict.{Dict, get, put}
use binbot.Core.Enums.{buy, sell}
use binbot.Execution.Trailing.{PositionDetail}
use binbot.Execution.Binance.{SymbolFilters, BinanceFuturesBroker, quantity_to_lots}

pub record PositionInformation (F : Type 0) : Type 0 where
  pub symbol : String
  pub position_amt : F
  pub entry_price : F
  pub mark_price : F
  pub unrealized_profit : F

-- A candle of the chart; its volume is 0.
pub record Candle (F : Type 0) : Type 0 where
  pub time : ℕ
  pub open_price : F
  pub high : F
  pub low : F
  pub close : F
  pub volume : F

module _ {F : Type 0} ⦃f : Float F⦄ where
  -- `abs`
  abbrev pub absolute : F → F
  absolute amt = if amt <F lit 0 then f.minus amt else amt

module _ {F : Type 0} ⦃f : Float F⦄ ⦃m : FloatMath F⦄ where
  -- The body of the loop of `get_positions`, by the filters of the symbol.
  unfoldable pub note_position : Option (SymbolFilters F) → PositionInformation F → Dict ℤ → Dict ℤ
  note_position none p result = result
  note_position (some filt) p result =
      let lots = pos (quantity_to_lots filt (absolute p.position_amt)) in
      if p.position_amt ==F lit 0
      then result
      else put result p.symbol (if lit 0 <F p.position_amt then lots else neg lots)

  unfoldable pub positions_from :
      Dict (SymbolFilters F) → List (PositionInformation F) → Dict ℤ → Dict ℤ
  unfolding note_position
  positions_from filters [] result = result
  positions_from filters (p ∷ positions) result =
      positions_from filters positions (note_position (get filters p.symbol) p result)

  unfoldable pub get_positions : List (PositionInformation F) → BinanceFuturesBroker F → Dict ℤ
  unfolding positions_from
  get_positions positions b = positions_from b.filters positions []

  abbrev pub detail_of : SymbolFilters F → PositionInformation F → PositionDetail F
  detail_of filt p = record {
    symbol = p.symbol;
    side = if lit 0 <F p.position_amt then buy else sell;
    quantity = quantity_to_lots filt (absolute p.position_amt);
    entry_price = p.entry_price;
    mark_price = p.mark_price;
    unrealized_pnl = p.unrealized_profit;
  }

  -- The loop of `get_position_details`.
  unfoldable pub add_detail :
      Option (SymbolFilters F)
      → PositionInformation F
      → List (PositionDetail F)
      → List (PositionDetail F)
  add_detail none p rest = rest
  add_detail (some filt) p rest = if p.position_amt ==F lit 0 then rest else detail_of filt p ∷ rest

  unfoldable pub details_from :
      Dict (SymbolFilters F) → List (PositionInformation F) → List (PositionDetail F)
  unfolding add_detail
  details_from filters [] = []
  details_from filters (p ∷ positions) =
      add_detail (get filters p.symbol) p (details_from filters positions)

  unfoldable pub get_position_details :
      List (PositionInformation F) → BinanceFuturesBroker F → List (PositionDetail F)
  unfolding details_from
  get_position_details positions b = details_from b.filters positions

module _ {F : Type 0} ⦃f : Float F⦄ where
  -- The comprehension of `get_position_pnl`: a later entry of a symbol wins.
  unfoldable pub pnl_from : List (PositionInformation F) → Dict F → Dict F
  pnl_from [] result = result
  pnl_from (p ∷ positions) result =
      let skipped = pnl_from positions result in
      let kept = pnl_from positions (put result p.symbol p.unrealized_profit) in
      if p.position_amt ==F lit 0 then skipped else kept

  unfoldable pub get_position_pnl : List (PositionInformation F) → Dict F
  unfolding pnl_from
  get_position_pnl positions = pnl_from positions []

  -- A row of klines by its milliseconds and prices, to a candle in seconds.
  unfoldable pub candle_of : ℕ × F × F × F × F → Candle F
  candle_of (ms, open_price, high, low, close) = record {
    time = ms / 1000;
    open_price = open_price;
    high = high;
    low = low;
    close = close;
    volume = lit 0;
  }

  -- `get_mark_price_klines`: the rows come by a limit of at most 1500.
  unfoldable pub get_mark_price_klines : (ℕ → List (ℕ × F × F × F × F)) → ℕ → List (Candle F)
  unfolding candle_of
  get_mark_price_klines rows limit = map candle_of (rows (if ltb 1500 limit then 1500 else limit))
