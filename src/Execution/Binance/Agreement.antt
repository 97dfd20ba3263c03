-- ===== src/Execution/Binance/Agreement.antt =====
-- The two readings of the account's positions in execution/binance_broker.py, against each other.
use binbot.Base.{◌≡◌, refl, sym, ◌∙◌, Option, none, some, List, [], ◌∷◌, ℤ, arith}
use binbot.Float.{Float, FloatMath}
use binbot.Dict.{Dict, get}
use binbot.Execution.Trailing.{PositionDetail}
use binbot.Execution.PositionMonitor.{book}
use binbot.Execution.Binance.{SymbolFilters, BinanceFuturesBroker}
use binbot.Execution.Binance.Account.{
  PositionInformation, positions_from, note_position, add_detail, get_positions, details_from,
  get_position_details,
}

module _ {F : Type 0} ⦃f : Float F⦄ ⦃m : FloatMath F⦄ where
  book-add_detail :
      (o : Option (SymbolFilters F)) (p : PositionInformation F) (rest : List (PositionDetail F))
      (result : Dict ℤ)
      → book (add_detail o p rest) result ≡ book rest (note_position o p result)
  unfolding add_detail note_position book
  book-add_detail none p rest result = refl
  book-add_detail (some filt) p rest result = ground arith

  positions_from-eq-book :
      (filters : Dict (SymbolFilters F)) (positions : List (PositionInformation F))
      (result : Dict ℤ)
      → positions_from filters positions result ≡ book (details_from filters positions) result
  unfolding positions_from details_from book
  positions_from-eq-book filters [] result = refl
  positions_from-eq-book filters (p ∷ positions) result =
      let o = get filters p.symbol in
      positions_from-eq-book filters positions (note_position o p result)
      ∙ sym (book-add_detail o p (details_from filters positions) result)

  -- Of the same answer of the exchange, the book of lots that the risk engine is given at a recovery and in the live
  -- script is that of the positions that the position monitor watches: the signed lots of each detail, by its symbol.
  pub get_positions-eq-book :
      (positions : List (PositionInformation F)) (b : BinanceFuturesBroker F)
      → get_positions positions b ≡ book (get_position_details positions b) []
  unfolding get_positions get_position_details
  get_positions-eq-book positions b = positions_from-eq-book b.filters positions []
