-- ===== src/Execution/Ibkr/Sending.antt =====
-- The orders that execution/ibkr_broker.py sends and cancels.
use Prim.Native.String.{◌++◌ as str_append}
use binbot.Base.{
  Option, none, some, String, List, [], ◌∷◌, ℤ, Result, ok, err, value_error, str_eq, if◌then◌else◌,
}
use binbot.Dict.{get, put}
use binbot.Execution.Orders.{BrokerOrderRequest}
use binbot.Execution.Ibkr.{
  IbkrBroker, Contract, IbOrder, Trade, Outcome, call, qualify_contracts, ib_place_order,
  watch_status, ib_cancel_order, req_global_cancel, order_type_map, tif_map, action_of,
}

-- `if request.oca_group`: a group without a name is none.
abbrev pub group_name : Option String → Option String
group_name none = none
group_name (some group) = if str_eq group "" then none else some group

module _ {F : Type 0} where
  -- A contract that is not cached, by the contracts that the library returns.
  unfoldable pub qualified_first :
      String → Result (List Contract) → IbkrBroker F → Outcome Contract F
  qualified_first symbol (err e) b = (err e, b)
  qualified_first symbol (ok []) b =
      (err (value_error (str_append "could not qualify futures contract for symbol=" symbol)), b)
  qualified_first symbol (ok (contract ∷ _)) b =
      (ok contract, record b { contracts = put b.contracts symbol contract })

  abbrev pub future : String → IbkrBroker F → Contract
  future symbol b = record {
    symbol = symbol;
    exchange = b.futures_exchange;
    currency = b.futures_currency;
  }

  unfoldable pub qualify_found :
      String → Result (List Contract) → Option Contract → IbkrBroker F → Outcome Contract F
  unfolding qualified_first
  qualify_found symbol answer (some contract) b = (ok contract, b)
  qualify_found symbol answer none b =
      qualified_first symbol answer (call (qualify_contracts (future symbol b)) b)

  unfoldable pub qualify_future :
      String → Result (List Contract) → IbkrBroker F → Outcome Contract F
  unfolding qualify_found
  qualify_future symbol answer b = qualify_found symbol answer (get b.contracts symbol) b

  unfoldable pub order_of : BrokerOrderRequest F → IbOrder F
  order_of r = record {
    action = action_of r.side;
    order_type = order_type_map r.order_type;
    total_quantity = r.quantity;
    tif = tif_map r.time_in_force;
    lmt_price = r.limit_price;
    oca_group = group_name r.oca_group;
    oca_type = elim (group_name r.oca_group) [ none ↦ none | some _ ↦ some r.oca_type ];
  }

module _ {F : Type 0} (str : ℤ → String) where
  -- From `placeOrder` on, which returns the trade.
  unfoldable pub send :
      BrokerOrderRequest F → Trade F → Result Contract → IbkrBroker F → Outcome (Unit {0}) F
  unfolding order_of
  send r trade (err e) b = (err e, b)
  send r trade (ok contract) b =
      let order_id = str trade.order_id in
      (
        ok tt,
        call (watch_status trade) (record (call (ib_place_order contract (order_of r)) b) {
          correlation_by_order_id = put b.correlation_by_order_id order_id r.correlation_id;
          trades_by_order_id = put b.trades_by_order_id order_id trade;
        }),
      )

  unfoldable pub place_order :
      BrokerOrderRequest F → Result (List Contract) → Trade F → IbkrBroker F → Outcome (Unit {0}) F
  unfolding send qualify_future
  place_order r answer trade b =
      let (contract, b') = qualify_future r.symbol answer b in send r trade contract b'

module _ {F : Type 0} where
  -- `cancel_order` by the trade found.
  unfoldable pub cancel_found : Option (Trade F) → IbkrBroker F → IbkrBroker F
  cancel_found none b = b
  cancel_found (some trade) b = call (ib_cancel_order trade) b

  unfoldable pub cancel_order : String → IbkrBroker F → IbkrBroker F
  unfolding cancel_found
  cancel_order order_id b = cancel_found (get b.trades_by_order_id order_id) b

  unfoldable pub cancel_all : IbkrBroker F → IbkrBroker F
  cancel_all b = call req_global_cancel b
