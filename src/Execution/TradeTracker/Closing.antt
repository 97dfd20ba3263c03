-- ===== src/Execution/TradeTracker/Closing.antt =====
-- When execution/trade_tracker.py reports a closed trade, and what it reports.
use Prim.Native.Nat.{min}
use binbot.Base.{◌+◌, ◌≤◌, ◌<◌, ◌≡◌, ◌≢◌, ◌⊎◌, none, some, String, [], ◌∷◌, ◌++◌, arith, ok, refl}
use binbot.Float.{Float, IsMonotone}
use binbot.Dict.{get, get-put_self, get-remove_self}
use binbot.Core.Events.{ExecutionEvent}
use binbot.Execution.TradeTracker.{
  TradeTracker, OpenTrade, ClosedTrade, on_execution, on_execution_with, close_part, closed_trade,
}
use binbot.Execution.TradeTracker.Positions.{scale_in_ok, quantity-close_part}

closed_trade-close_part :
    {F : Type 0} ⦃f : Float F⦄ (m : F) (event : ExecutionEvent F) (trade : OpenTrade F)
    → let c = closed_trade event (close_part m event trade) in
      (c.quantity ≡ trade.exit_quantity + min event.fill_quantity trade.quantity)
      × (c.entry_price ≡ trade.avg_entry_price)
      × (c.entry_ts ≡ trade.entry_ts)
      × (c.side ≡ trade.side)
unfolding closed_trade close_part
closed_trade-close_part m event trade = (refl, refl, refl, refl)

module _ {F : Type 0} ⦃f : Float F⦄ (laws : IsMonotone F) (multiplier_lookup : String → F)
    (event : ExecutionEvent F) (t : TradeTracker F) (trade : OpenTrade F)
    (present : get t.open_trades event.symbol ≡ some trade) (held : 0 < trade.quantity) where
  -- With a trade open for its symbol, a fill reports a closed trade exactly when it is on the other side and
  -- covers all that is held; then no trade of the symbol is open any more and the report is the new last
  -- entry of the history. The report's quantity is all that was ever closed: what was held and what had been
  -- closed before. Otherwise a trade stays open, and the history as it was.
  pub on_execution_closes :
      let (r, t') = on_execution multiplier_lookup event t in
      (event.side ≢ trade.side
        → trade.quantity ≤ event.fill_quantity
        → (c : ClosedTrade F) × (r ≡ ok (some c))
          × (get t'.open_trades event.symbol ≡ none)
          × (t'.closed_trades ≡ t.closed_trades ++ c ∷ [])
          × (c.quantity ≡ trade.quantity + trade.exit_quantity)
          × (c.entry_price ≡ trade.avg_entry_price)
          × (c.entry_ts ≡ trade.entry_ts)
          × (c.side ≡ trade.side))
      × ((event.side ≡ trade.side)
            ⊎ (event.side ≢ trade.side) × (event.fill_quantity < trade.quantity)
          → (r ≡ ok none)
            × (get t'.open_trades event.symbol ≢ none)
            × (t'.closed_trades ≡ t.closed_trades))
  unfolding on_execution on_execution_with
  on_execution_closes =
      let m = multiplier_lookup event.symbol in
      let (trade', scaled, quantity, side, _) = scale_in_ok event laws trade held in
      let left = quantity-close_part event m trade in
      (
        λ other covers.
            let (all, price, entered, leg) = closed_trade-close_part m event trade in
            (
              closed_trade event (close_part m event trade),
              ground (arith, present, left),
              ground (arith, present, left, get-remove_self t.open_trades event.symbol),
              ground (arith, present, left),
              omega (arith, all),
              price,
              entered,
              leg,
            ),
        λ stays. (
          ground (arith, scaled, present, left),
          ground (
            arith,
            scaled,
            present,
            left,
            get-put_self t.open_trades event.symbol trade',
            get-put_self t.open_trades event.symbol (close_part m event trade),
          ),
          ground (arith, scaled, present, left),
        ),
      )
