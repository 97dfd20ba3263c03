-- ===== src/Execution/Binance/Stops.antt =====
-- The native stops of execution/binance_broker.py.
use Prim.Native.String.{◌++◌ as str_append}
use Prim.Native.Char.{code}
use binbot.Base.{
  ℕ, zero, suc, ◌/◌, ◌%◌, Bool, true, not, Option, none, some, String, ℤ, pos, leb_ℤ, ltb, leb,
  ◌==◌, str_eq, if◌then◌else◌, ◌&&◌,
}
use binbot.Float.{Float, FloatMath, ◌+F◌, ◌-F◌, ◌*F◌, ◌/F◌, ◌<F◌, ◌≤F◌, lit}
use binbot.Dict.{get}
use binbot.Core.Enums.{buy, sell}
use binbot.Core.Events.{DateTime}
use binbot.Execution.Binance.{
  BinanceFuturesBroker, SymbolFilters, create_stop, cancel_by_id, request_of, side_value, truncate,
  lots_to_quantity,
}

-- `str` of a time of at most 20 digits.
abbrev pub digit : ℕ → String
digit n =
    if n == 0
    then "0"
    else if n == 1
    then "1"
    else if n == 2
    then "2"
    else if n == 3
    then "3"
    else if n == 4
    then "4"
    else if n == 5
    then "5"
    else if n == 6
    then "6"
    else if n == 7
    then "7"
    else if n == 8
    then "8"
    else "9"

abbrev pub decimal : ℕ → ℕ → String
decimal zero n = ""
decimal (suc digits) n =
    let front = decimal digits (n / 10) in
    str_append (if ltb n 10 then "" else front) (digit (n % 10))

-- Whether `int(text)` returns, for a text without signs, spaces and underscores.
abbrev pub only_digits : String → Bool
only_digits String.[] = true
only_digits (String.◌∷◌ c text) = leb 48 (code c) && (leb (code c) 57 && only_digits text)

abbrev pub is_int : String → Bool
is_int text = not (str_eq text "") && only_digits text

-- What is returned for an answer: `none` where the call raises, and else the "orderId", if it is there.
abbrev pub stop_id : Option (Option String) → String → Option String
stop_id none client_order_id = none
stop_id (some none) client_order_id = some client_order_id
stop_id (some (some order_id)) client_order_id = some order_id

module _ {F : Type 0} where
  unfoldable pub cancel_stop_loss :
      String → String → BinanceFuturesBroker F → BinanceFuturesBroker F
  cancel_stop_loss symbol order_id b =
      if is_int order_id then request_of (cancel_by_id symbol order_id) b else b

abbrev pub stop_client_id : DateTime → String → String
stop_client_id now symbol =
    truncate 36 (str_append "sl-" (str_append symbol (str_append "-" (decimal 20 (now / 1000)))))

module _ {F : Type 0} ⦃f : Float F⦄ ⦃m : FloatMath F⦄ where
  -- The stop price is rounded towards the entry.
  unfoldable pub stop_price : SymbolFilters F → Bool → F → F
  stop_price filt is_long raw_price =
      if lit 0 <F filt.tick_size
      then (let steps =
            if is_long
            then m.ceil (raw_price /F filt.tick_size)
            else f.floor (raw_price /F filt.tick_size) in
          m.round_to (f.of_int steps *F filt.tick_size) (pos filt.price_precision))
      else m.round_to raw_price (pos filt.price_precision)

  abbrev pub raw_stop_price : Bool → F → F → F → F
  raw_stop_price is_long entry_price max_loss_usdt real_qty =
      let loss_per_unit = max_loss_usdt /F real_qty in
      if is_long then entry_price -F loss_per_unit else entry_price +F loss_per_unit

  -- `place_stop_loss` by the filters of the symbol.
  unfoldable pub stop_found :
      DateTime
      → Option (Option String)
      → String
      → Bool
      → F
      → ℤ
      → F
      → Option (SymbolFilters F)
      → BinanceFuturesBroker F
      → Option String × BinanceFuturesBroker F
  unfolding stop_price
  stop_found now answer symbol is_long entry_price quantity_lots max_loss_usdt none b = (none, b)
  stop_found now answer symbol is_long entry_price quantity_lots max_loss_usdt (some filt) b =
      let real_qty = lots_to_quantity filt quantity_lots in
      let price =
        stop_price filt is_long (raw_stop_price is_long entry_price max_loss_usdt real_qty) in
      let client_order_id = stop_client_id now symbol in
      let close_side = if is_long then sell else buy in
      if leb_ℤ quantity_lots (pos 0)
      then (none, b)
      else if real_qty ≤F lit 0
      then (none, b)
      else if price ≤F lit 0
      then (none, b)
      else (
        stop_id answer client_order_id,
        request_of (create_stop symbol (side_value close_side) price client_order_id) b,
      )

  unfoldable pub place_stop_loss :
      DateTime
      → Option (Option String)
      → String
      → Bool
      → F
      → ℤ
      → F
      → BinanceFuturesBroker F
      → Option String × BinanceFuturesBroker F
  unfolding stop_found
  place_stop_loss now answer symbol is_long entry_price quantity_lots max_loss_usdt b =
      stop_found now answer symbol is_long entry_price quantity_lots max_loss_usdt
        (get b.filters symbol) b
