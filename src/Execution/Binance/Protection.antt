-- ===== src/Execution/Binance/Protection.antt =====
-- A native stop from its placing to its cancelling.
use Prim.Native.String.append
use Prim.Native.String.{◌++◌ as str_append}
use binbot.Base.{
  ◌≡◌, refl, ap, ◌/◌, ◌∙◌, Bool, true, false, Option, none, some, String, List, [], ◌∷◌, ◌++◌, ℤ,
  pos, leb_ℤ, if◌then◌else◌, append_assoc, arith,
}
use binbot.Float.{Float, FloatMath, ◌≤F◌, lit}
use binbot.Dict.{get}
use binbot.Core.Enums.{buy, sell}
use binbot.Core.Events.{DateTime}
use binbot.Execution.Binance.{
  BinanceFuturesBroker, SymbolFilters, Call, create_stop, cancel_by_id, request_of, side_value,
  lots_to_quantity, truncate,
}
use binbot.Execution.Binance.Stops.{
  place_stop_loss, stop_found, stop_price, raw_stop_price, stop_client_id, stop_id, is_int,
  only_digits, decimal, cancel_stop_loss,
}

side_value_close :
    (is_long : Bool)
    → side_value (if is_long then sell else buy) ≡ (if is_long then "SELL" else "BUY")
side_value_close true = refl
side_value_close false = refl

is_int_of_only_digits : (text : String) → only_digits text ≡ false → is_int text ≡ false
is_int_of_only_digits text h = ground (arith, h)

-- The adapter's own id of a stop begins with a letter.
only_digits-truncate : (text : String) → only_digits (truncate 36 (str_append "sl-" text)) ≡ false
only_digits-truncate text = ap (λ t. only_digits (truncate 36 t)) (λ i. append.cons "s" "l-" text i)

is_int-stop_client_id :
    (now : DateTime) (symbol : String) → is_int (stop_client_id now symbol) ≡ false
is_int-stop_client_id now symbol =
    is_int_of_only_digits (stop_client_id now symbol)
      (only_digits-truncate (str_append symbol (str_append "-" (decimal 20 (now / 1000)))))

module _ {F : Type 0} where
  -- What the monitor does with the id that it was given.
  unfoldable pub cancel_returned :
      String → Option String × BinanceFuturesBroker F → BinanceFuturesBroker F
  cancel_returned symbol (none, b) = b
  cancel_returned symbol (some order_id, b) = cancel_stop_loss symbol order_id b

  -- One stop, and a cancellation of it by the exchange's own id, if there is one.
  abbrev pub stop_calls : String → Option (Option String) → Call F → List (Call F)
  stop_calls symbol (some (some order_id)) stop =
      stop ∷ (if is_int order_id then cancel_by_id symbol order_id ∷ [] else [])
  stop_calls symbol _ stop = stop ∷ []

  after_cancel :
      (k : Bool) (stop cancel : Call F) (b : BinanceFuturesBroker F)
      → (if k then request_of cancel (request_of stop b) else request_of stop b)
        ≡ record b { calls = b.calls ++ stop ∷ (if k then cancel ∷ [] else []) }
  after_cancel true stop cancel b =
      ap (λ cs. record b { calls = cs }) (append_assoc b.calls (stop ∷ []) (cancel ∷ []))
  after_cancel false stop cancel b = refl

  cancel_returned-stop_id :
      (now : DateTime) (symbol : String) (answer : Option (Option String)) (stop : Call F)
      (b : BinanceFuturesBroker F)
      → cancel_returned symbol (stop_id answer (stop_client_id now symbol), request_of stop b)
        ≡ record b { calls = b.calls ++ stop_calls symbol answer stop }
  unfolding cancel_returned cancel_stop_loss
  cancel_returned-stop_id now symbol none stop b = refl
  cancel_returned-stop_id now symbol (some none) stop b = rw (is_int-stop_client_id now symbol) refl
  cancel_returned-stop_id now symbol (some (some order_id)) stop b =
      after_cancel (is_int order_id) stop (cancel_by_id symbol order_id) b

module _ {F : Type 0} ⦃f : Float F⦄ ⦃m : FloatMath F⦄ where
  stop_found_placed :
      (now : DateTime) (answer : Option (Option String)) (symbol : String) (is_long : Bool)
      (entry_price : F) (lots : ℤ) (max_loss : F) (filt : SymbolFilters F)
      (b : BinanceFuturesBroker F)
      → let q = lots_to_quantity filt lots in
        let price = stop_price filt is_long (raw_stop_price is_long entry_price max_loss q) in
        let id = stop_client_id now symbol in
        leb_ℤ lots (pos 0) ≡ false
        → (q ≤F lit 0) ≡ false
        → (price ≤F lit 0) ≡ false
        → stop_found now answer symbol is_long entry_price lots max_loss (some filt) b ≡ (
          stop_id answer id,
          request_of (create_stop symbol (if is_long then "SELL" else "BUY") price id) b,
        )
  unfolding stop_found
  stop_found_placed now answer symbol is_long entry_price lots max_loss filt b h k l =
      rw (h, k, l, side_value_close is_long) refl

  -- A stop for a symbol with filters whose quantity in lots, real quantity and price are positive is asked for exactly
  -- once, on the side that closes the position. Cancelled by the id that was returned, the exchange is asked to cancel it
  -- exactly where it has answered with an id of its own, of digits; where the call has raised, or the answer has no id,
  -- no cancellation is sent. Nothing else of the adapter changes.
  pub place_stop_loss-cancelled :
      (now : DateTime) (answer : Option (Option String)) (symbol : String) (is_long : Bool)
      (entry_price : F) (lots : ℤ) (max_loss : F) (filt : SymbolFilters F)
      (b : BinanceFuturesBroker F)
      → get b.filters symbol ≡ some filt
      → leb_ℤ lots (pos 0) ≡ false
      → (lots_to_quantity filt lots ≤F lit 0) ≡ false
      → (stop_price filt is_long
            (raw_stop_price is_long entry_price max_loss (lots_to_quantity filt lots))
          ≤F lit 0)
        ≡ false
      → let price =
          stop_price filt is_long
            (raw_stop_price is_long entry_price max_loss (lots_to_quantity filt lots)) in
        let side : String = if is_long then "SELL" else "BUY" in
        let stop = create_stop symbol side price (stop_client_id now symbol) in
        cancel_returned symbol
          (place_stop_loss now answer symbol is_long entry_price lots max_loss b)
        ≡ record b { calls = b.calls ++ stop_calls symbol answer stop }
  unfolding place_stop_loss
  place_stop_loss-cancelled now answer symbol is_long entry_price lots max_loss filt b found h k l =
      ap
        (λ o.
          cancel_returned symbol
            (stop_found now answer symbol is_long entry_price lots max_loss o b))
        found
      ∙ ap (cancel_returned symbol)
          (stop_found_placed now answer symbol is_long entry_price lots max_loss filt b h k l)
      ∙ cancel_returned-stop_id now symbol answer _ b
