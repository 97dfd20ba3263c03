-- ===== src/Execution/Binance.antt =====
-- execution/binance_broker.py: the adapter of Binance USDT-M futures, from its connection on. Calls of the exchange are
-- recorded in order, without `recvWindow`, which is the same in all of them; answers are arguments. Sets are
-- lists without duplicates. The event queue holds what is put into it; its bound of 10,000 makes a writer wait.
pub mod Account
pub mod Symbols
pub mod Leverage
pub mod Universe
pub mod Keeping
pub mod Replies
pub mod Answered
pub mod Protection
pub mod Caps
pub mod Backoff
pub mod Agreement
pub mod Oca
pub mod Sending
pub mod Stops
pub mod UserStream
use Prim.Native.String
use binbot.Base.{
  ℕ, zero, suc, ◌*◌, ◌++◌, Bool, true, false, Option, none, some, String, List, [], ◌∷◌, ℤ, pos,
  pos_part, Result, ok, err, key_error, if◌then◌else◌,
}
use binbot.Float.{Float, FloatMath, ◌+F◌, ◌*F◌, ◌/F◌, ◌<F◌, ◌≤F◌, lit}
use binbot.Dict.{Dict, get}
use binbot.Core.Enums.{
  OrderSide, buy, sell, OrderType, market, limit, stop, stop_limit, market_on_close, TimeInForce,
  day, gtc, ioc, fok, OrderStatus, acknowledged, partially_filled, filled, cancelled, expired,
  rejected,
}
use binbot.Execution.Orders.{BrokerEvent}

-- `side.value`
abbrev pub side_value : OrderSide → String
side_value buy = "BUY"
side_value sell = "SELL"

abbrev pub order_type_map : OrderType → String
order_type_map market = "MARKET"
order_type_map limit = "LIMIT"
order_type_map stop = "STOP_MARKET"
order_type_map stop_limit = "STOP"
order_type_map market_on_close = "MARKET"

abbrev pub tif_map : TimeInForce → String
tif_map day = "GTC"
tif_map gtc = "GTC"
tif_map ioc = "IOC"
tif_map fok = "FOK"

abbrev pub order_status_map : Dict OrderStatus
order_status_map =
    ("NEW", acknowledged)
    ∷ ("PARTIALLY_FILLED", partially_filled)
    ∷ ("FILLED", filled)
    ∷ ("CANCELED", cancelled)
    ∷ ("EXPIRED", expired)
    ∷ ("REJECTED", rejected)
    ∷ []

-- `text[:n]`
abbrev pub truncate : ℕ → String → String
truncate zero text = ""
truncate (suc n) String.[] = ""
truncate (suc n) (String.◌∷◌ c text) = String.◌∷◌ c (truncate n text)

pub record SymbolFilters (F : Type 0) : Type 0 where
  pub symbol : String
  pub tick_size : F
  pub step_size : F
  pub min_qty : F
  pub min_notional : F
  pub quantity_precision : ℕ
  pub price_precision : ℕ

-- An entry of "filters" by its "filterType"; a MIN_NOTIONAL may lack its "notional".
pub data Filter (F : Type 0) : Type 0 where
  price_filter : F → Filter F
  lot_size : F → F → Filter F
  notional_filter : Option F → Filter F
  other_filter : Filter F

-- A symbol's entry in the exchange information.
pub record SymbolInfo (F : Type 0) : Type 0 where
  pub status : Option String
  pub contract_type : Option String
  pub quote_asset : Option String
  pub filters : List (Filter F)
  pub quantity_precision : ℕ
  pub price_precision : ℕ

-- The arguments of `futures_create_order`.
pub record OrderParams (F : Type 0) : Type 0 where
  pub symbol : String
  pub side : String
  pub order_type : String
  pub quantity : F
  pub new_client_order_id : String
  pub price : Option F
  pub time_in_force : Option String

-- The calls of the exchange. A stop is the `futures_create_order` that closes the position.
pub data Call (F : Type 0) : Type 0 where
  exchange_info : Call F
  change_margin_type : String → String → Call F
  change_leverage : String → ℕ → Call F
  leverage_bracket : String → Call F
  create_order : OrderParams F → Call F
  create_stop : String → String → F → String → Call F
  cancel_by_client_id : String → String → Call F
  cancel_by_id : String → String → Call F
  cancel_all_open_orders : String → Call F

pub record BinanceFuturesBroker (F : Type 0) : Type 0 where
  pub symbols : List String
  pub leverage : ℕ
  pub margin_type : String
  pub filters : Dict (SymbolFilters F)
  pub exchange_info_by_symbol : Dict (SymbolInfo F)
  pub configured_leverage_margin : Dict (ℕ × String)
  pub event_queue : List (BrokerEvent F)
  pub client_order_to_correlation : Dict String
  pub client_order_to_internal_id : Dict String
  pub order_symbol : Dict String
  pub oca_groups : Dict (List String)
  pub order_to_oca_group : Dict String
  pub calls : List (Call F)

module _ {F : Type 0} where
  abbrev pub request_of : Call F → BinanceFuturesBroker F → BinanceFuturesBroker F
  request_of c b = record b { calls = b.calls ++ c ∷ [] }

  abbrev pub put_event : BrokerEvent F → BinanceFuturesBroker F → BinanceFuturesBroker F
  put_event e b = record b { event_queue = b.event_queue ++ e ∷ [] }

module _ {F : Type 0} ⦃f : Float F⦄ ⦃m : FloatMath F⦄ where
  -- 1e-9 is the quotient of 1 by 10^9.
  unfoldable pub round_step : F → F → F
  round_step value step =
      if step ≤F lit 0
      then value
      else m.round_to (f.of_int (f.floor (value /F step +F lit 1 /F lit 1000000000)) *F step)
          (pos 12)

  -- The two conversions, by the filters of the symbol; quantities are not negative.
  unfoldable pub lots_to_quantity : SymbolFilters F → ℤ → F
  lots_to_quantity filt lots =
      m.round_to (f.of_int lots *F filt.step_size) (pos filt.quantity_precision)

  unfoldable pub quantity_to_lots : SymbolFilters F → F → ℕ
  quantity_to_lots filt quantity =
      if filt.step_size ≤F lit 0
      then pos_part (m.round_int quantity)
      else pos_part (m.round_int (quantity /F filt.step_size))

module _ {F : Type 0} where
  -- `_filters[symbol]`, and `get_step_size`; a missing key raises.
  abbrev pub step_of : Option (SymbolFilters F) → Result F
  step_of none = err key_error
  step_of (some filt) = ok filt.step_size

  unfoldable pub get_step_size : String → BinanceFuturesBroker F → Result F
  get_step_size symbol b = step_of (get b.filters symbol)
