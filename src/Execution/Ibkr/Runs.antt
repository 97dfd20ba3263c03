-- ===== src/Execution/Ibkr/Runs.antt =====
-- Runs of execution/ibkr_broker.py: the methods that the order manager calls and the library's callbacks, in any order.
-- An exception leaves the state that it finds, and the run goes on.
use binbot.Base.{String, List, [], ◌∷◌, ℤ, Result}
use binbot.Float.{Float, FloatMath}
use binbot.Core.Events.{DateTime}
use binbot.Execution.Orders.{BrokerOrderRequest}
use binbot.Execution.Ibkr.{IbkrBroker, Contract, Trade, Fill}
use binbot.Execution.Ibkr.Sending.{place_order, cancel_order, cancel_all}
use binbot.Execution.Ibkr.Callbacks.{on_error, on_order_status, on_exec_details}

pub data Act (F : Type 0) : Type 0 where
  placing : BrokerOrderRequest F → Result (List Contract) → Trade F → Act F
  cancelling : String → Act F
  cancelling_all : Act F
  failing : DateTime → ℤ → ℤ → String → Act F
  filling : DateTime → Trade F → Fill F → Act F
  changing : DateTime → Trade F → Act F

module _ {F : Type 0} ⦃f : Float F⦄ ⦃m : FloatMath F⦄ (str : ℤ → String) where
  unfoldable pub act : Act F → IbkrBroker F → IbkrBroker F
  unfolding place_order cancel_order cancel_all on_error on_order_status on_exec_details
  act (placing r answer trade) b = (place_order str r answer trade b).1
  act (cancelling order_id) b = cancel_order order_id b
  act cancelling_all b = cancel_all b
  act (failing now req_id error_code error_string) b =
      (on_error str now req_id error_code error_string b).1
  act (filling now trade fill) b = (on_exec_details str now trade fill b).1
  act (changing now trade) b = (on_order_status str now trade b).1

  unfoldable pub run : List (Act F) → IbkrBroker F → IbkrBroker F
  unfolding act
  run [] b = b
  run (a ∷ acts) b = run acts (act a b)
