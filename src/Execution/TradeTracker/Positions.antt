-- ===== src/Execution/TradeTracker/Positions.antt =====
-- The book of open trades of execution/trade_tracker.py against the fills.
use Prim.Native.Nat.{min}
use binbot.Base.{
  ℕ, suc, ◌+◌, ◌-◌, ◌<◌, ◌≡◌, ◌≢◌, false, Option, none, some, String, arith, ℤ, pos, ◌+ℤ◌, neg,
  Error, ok, err, refl, String_discrete,
}
use binbot.Float.{Float, lit, IsMonotone}
use binbot.Dict.{get, get-put, get-remove, get-put_self, get-remove_self}
use binbot.Core.Enums.{OrderSide, buy, sell}
use binbot.Core.Events.{ExecutionEvent}
use binbot.Execution.TradeTracker.{
  TradeTracker, OpenTrade, on_execution, on_execution_with, open_first, scale_in, close_part,
}

-- A quantity on a side, as a signed number.
abbrev pub signed_by : OrderSide → ℕ → ℤ
signed_by buy n = pos n
signed_by sell n = neg (pos n)

module _ {F : Type 0} where
  abbrev pub Holds : Option (OpenTrade F) → Type 0
  Holds none = Unit
  Holds (some trade) = 0 < trade.quantity

  -- Every open trade holds something.
  abbrev pub IsValid : TradeTracker F → Type 0
  IsValid t = (symbol : String) → Holds (get t.open_trades symbol)

  -- The signed quantity of an open trade, 0 of none.
  abbrev pub signed : Option (OpenTrade F) → ℤ
  signed none = pos 0
  signed (some trade) = signed_by trade.side trade.quantity

  abbrev pub position : TradeTracker F → String → ℤ
  position t symbol = signed (get t.open_trades symbol)

  -- `signed_fill`
  abbrev pub signed_fill : ExecutionEvent F → ℤ
  signed_fill event = signed_by event.side event.fill_quantity

  -- A closing fill of more than is held.
  abbrev pub Oversized : ExecutionEvent F → Option (OpenTrade F) → Type 0
  Oversized event none = ⊥
  Oversized event (some trade) = (event.side ≢ trade.side) × (trade.quantity < event.fill_quantity)

module _ {F : Type 0} ⦃f : Float F⦄ (event : ExecutionEvent F) where
  signed-open_first : signed (some (open_first event)) ≡ signed_fill event
  unfolding open_first
  signed-open_first = ground arith

  -- Scaling in divides by a quantity that is not 0.
  pub scale_in_ok :
      IsMonotone F
      → (trade : OpenTrade F) → 0 < trade.quantity
      → (trade' : OpenTrade F) × (scale_in event trade ≡ ok trade')
        × (trade'.quantity ≡ trade.quantity + event.fill_quantity)
        × (trade'.side ≡ trade.side)
        × (trade'.exit_quantity ≡ trade.exit_quantity)
  unfolding scale_in
  scale_in_ok laws trade h =
      let n : ℕ = trade.quantity + event.fill_quantity - 1 in
      let e : trade.quantity + event.fill_quantity ≡ suc n = omega arith in
      let nz : f.equal (f.of_int (pos (trade.quantity + event.fill_quantity))) (lit 0) ≡ false =
        rw e (laws.of_int_nonzero n) in
      rw (scale_in, nz) (_, refl, refl, refl, refl)

  pub quantity-close_part :
      (multiplier : F) (trade : OpenTrade F)
      → let trade' = close_part multiplier event trade in
        (trade'.quantity ≡ trade.quantity - event.fill_quantity)
        × (trade'.side ≡ trade.side)
        × (trade'.exit_quantity ≡ trade.exit_quantity + min event.fill_quantity trade.quantity)
  unfolding close_part
  quantity-close_part multiplier trade = (omega arith, refl, refl)

module _ {F : Type 0} ⦃f : Float F⦄ (multiplier : F) (event : ExecutionEvent F) where
  -- The entry of the event's symbol after the event.
  abbrev entry : Option (OpenTrade F) → TradeTracker F → Option (OpenTrade F)
  entry o t = get (on_execution_with multiplier event o t).1.open_trades event.symbol

  others :
      (o : Option (OpenTrade F)) (t : TradeTracker F) (j : String)
      → j ≢ event.symbol
      → get (on_execution_with multiplier event o t).1.open_trades j ≡ get t.open_trades j
  unfolding on_execution_with
  others none t j h = grind (arith, get-put, get-remove)
  others (some trade) t j h = grind (arith, get-put, get-remove)

  entry-position :
      (o : Option (OpenTrade F)) (t : TradeTracker F)
      → get t.open_trades event.symbol ≡ o
      → Holds o
      → IsMonotone F
      → ¬ Oversized event o
      → signed (entry o t) ≡ signed o +ℤ signed_fill event
  unfolding on_execution_with ◌+ℤ◌
  entry-position none t e v laws h =
      ground
        (arith, signed-open_first event, get-put_self t.open_trades event.symbol (open_first event))
  entry-position (some trade) t e v laws h =
      let (trade', scaled, quantity, side, _) = scale_in_ok event laws trade v in
      ground (
        arith,
        scaled,
        quantity,
        side,
        quantity-close_part event multiplier trade,
        get-put_self t.open_trades event.symbol trade',
        get-put_self t.open_trades event.symbol (close_part multiplier event trade),
        get-remove_self t.open_trades event.symbol,
      )

  entry-Oversized :
      (trade : OpenTrade F) (t : TradeTracker F)
      → 0 < trade.quantity
      → Oversized event (some trade)
      → signed (entry (some trade) t) ≡ pos 0
  unfolding on_execution_with
  entry-Oversized trade t v h = ground (
    arith,
    quantity-close_part event multiplier trade,
    get-remove_self t.open_trades event.symbol,
  )

  entry-Holds :
      (o : Option (OpenTrade F)) (t : TradeTracker F)
      → get t.open_trades event.symbol ≡ o
      → Holds o
      → IsMonotone F
      → Holds (entry o t) × ((e : Error) → (on_execution_with multiplier event o t).0 ≢ err e)
  unfolding on_execution_with open_first
  entry-Holds none t e v laws = (
    ground (arith, get-put_self t.open_trades event.symbol (open_first event)),
    λ x. ground arith,
  )
  entry-Holds (some trade) t e v laws =
      let (trade', scaled, quantity, side, _) = scale_in_ok event laws trade v in
      (
        ground (
          arith,
          scaled,
          quantity,
          quantity-close_part event multiplier trade,
          get-put_self t.open_trades event.symbol trade',
          get-put_self t.open_trades event.symbol (close_part multiplier event trade),
          get-remove_self t.open_trades event.symbol,
        ),
        λ x. ground (arith, scaled),
      )

module _ {F : Type 0} ⦃f : Float F⦄ (laws : IsMonotone F) (multiplier_lookup : String → F)
    (event : ExecutionEvent F) (t : TradeTracker F) where
  -- From a book in which every open trade holds something no fill raises, and the book stays so.
  pub on_execution_total :
      IsValid t
      → ((e : Error) → (on_execution multiplier_lookup event t).0 ≢ err e)
        × IsValid (on_execution multiplier_lookup event t).1
  unfolding on_execution
  on_execution_total v =
      let m = multiplier_lookup event.symbol in
      let o = get t.open_trades event.symbol in
      let (holds, returns) = entry-Holds m event o t refl (v event.symbol) laws in
      (
        returns,
        λ j. elim (String_discrete j event.symbol) [
          | yes same ↦ rw same holds
          | no other ↦ rw (others m event o t j other) (v j)
        ],
      )

  -- A fill moves the position of its symbol by its signed quantity, unless it closes more than is held: then
  -- the symbol is flat and the excess is dropped. The entries of all other symbols stay.
  pub on_execution_position :
      IsValid t
      → (¬ Oversized event (get t.open_trades event.symbol)
          → position (on_execution multiplier_lookup event t).1 event.symbol
            ≡ position t event.symbol +ℤ signed_fill event)
        × (Oversized event (get t.open_trades event.symbol)
            → position (on_execution multiplier_lookup event t).1 event.symbol ≡ pos 0)
        × ((j : String)
            → j ≢ event.symbol
            → get (on_execution multiplier_lookup event t).1.open_trades j ≡ get t.open_trades j)
  unfolding on_execution
  on_execution_position v =
      let m = multiplier_lookup event.symbol in
      let o = get t.open_trades event.symbol in
      (
        entry-position m event o t refl (v event.symbol) laws,
        oversized m event o t (v event.symbol),
        others m event o t,
      )
    where
      oversized :
          (m : F) (event : ExecutionEvent F) (o : Option (OpenTrade F)) (t : TradeTracker F)
          → Holds o
          → Oversized event o
          → signed (entry m event o t) ≡ pos 0
      oversized m event none t v h = absurd h
      oversized m event (some trade) t v h = entry-Oversized m event trade t v h
