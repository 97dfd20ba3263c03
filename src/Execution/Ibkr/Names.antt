-- ===== src/Execution/Ibkr/Names.antt =====
-- The ids that the events of execution/ibkr_broker.py carry: the library's number of the order, as a text, and the
-- correlation id of the request that was placed under it.
use binbot.Base.{
  ◌≡◌, ◌≢◌, refl, ap, ◌∙◌, false, Option, none, some, String, List, [], ◌∷◌, ◌++◌, ℤ, arith,
  if-cases, leb, length, Result, ok, err,
}
use binbot.Dict.{Dict, get, get-put_self, get-put_ne}
use binbot.Core.Enums.{
  OrderStatus, submitted, pending_new, acknowledged, partially_filled, filled, cancel_pending,
  cancelled, rejected, expired,
}
use binbot.Core.Events.{DateTime}
use binbot.Execution.Orders.{BrokerOrderRequest, BrokerEvent, event_order_id, event_correlation_id}
use binbot.Execution.Ibkr.{IbkrBroker, Contract, Trade, Outcome, put_nowait}
use binbot.Execution.Ibkr.Sending.{
  place_order, send, qualify_future, qualify_found, qualified_first, cancel_found,
}
use binbot.Execution.Ibkr.Callbacks.{status_event, correlation_of}

module _ {F : Type 0} where
  correlations-qualified_first :
      (symbol : String) (answer : Result (List Contract)) (b : IbkrBroker F)
      → let b' = (qualified_first symbol answer b).1 in
        (b'.correlation_by_order_id ≡ b.correlation_by_order_id) × (b'.event_queue ≡ b.event_queue)
  unfolding qualified_first
  correlations-qualified_first symbol (err e) b = (refl, refl)
  correlations-qualified_first symbol (ok []) b = (refl, refl)
  correlations-qualified_first symbol (ok (contract ∷ contracts)) b = (refl, refl)

  correlations-qualify_found :
      (symbol : String) (answer : Result (List Contract)) (found : Option Contract)
      (b : IbkrBroker F)
      → let b' = (qualify_found symbol answer found b).1 in
        (b'.correlation_by_order_id ≡ b.correlation_by_order_id) × (b'.event_queue ≡ b.event_queue)
  unfolding qualify_found
  correlations-qualify_found symbol answer (some contract) b = (refl, refl)
  correlations-qualify_found symbol answer none b = correlations-qualified_first symbol answer _

  pub correlations-cancel_found :
      (found : Option (Trade F)) (b : IbkrBroker F)
      → ((cancel_found found b).correlation_by_order_id ≡ b.correlation_by_order_id)
        × ((cancel_found found b).event_queue ≡ b.event_queue)
  unfolding cancel_found
  correlations-cancel_found none b = (refl, refl)
  correlations-cancel_found (some trade) b = (refl, refl)

  -- A queue that is not full takes the event; nothing else changes.
  pub put_nowait-cases :
      (P : IbkrBroker F → Type 0) (e : BrokerEvent F) (b : IbkrBroker F)
      → P b
      → P (record b { event_queue = b.event_queue ++ e ∷ [] })
      → P (put_nowait e b).1
  unfolding put_nowait
  put_nowait-cases P e b h k =
      if-cases (λ (x : Outcome (Unit {0}) F). P x.1) (leb 10000 (length b.event_queue)) _ _ (λ t. h)
        (λ f. k)

  pub event_queue-put_nowait :
      (e : BrokerEvent F) (b : IbkrBroker F)
      → leb 10000 (length b.event_queue) ≡ false
      → (put_nowait e b).1.event_queue ≡ b.event_queue ++ e ∷ []
  unfolding put_nowait
  event_queue-put_nowait e b room = ground (arith, room)

module _ {F : Type 0} (str : ℤ → String) where
  event_queue-send :
      (r : BrokerOrderRequest F) (trade : Trade F) (contract : Result Contract) (b : IbkrBroker F)
      → (send str r trade contract b).1.event_queue ≡ b.event_queue
  unfolding send
  event_queue-send r trade (err e) b = refl
  event_queue-send r trade (ok contract) b = refl

  pub event_queue-place_order :
      (r : BrokerOrderRequest F) (answer : Result (List Contract)) (trade : Trade F)
      (b : IbkrBroker F)
      → (place_order str r answer trade b).1.event_queue ≡ b.event_queue
  unfolding place_order qualify_future
  event_queue-place_order r answer trade b =
      let (contract, b') = qualify_future r.symbol answer b in
      event_queue-send r trade contract b'
      ∙ (correlations-qualify_found r.symbol answer (get b.contracts r.symbol) b).1

  -- The orders placed under the number n carry this correlation id.
  abbrev pub Knows : ℤ → String → IbkrBroker F → Type 0
  Knows n correlation b = get b.correlation_by_order_id (str n) ≡ some correlation

  Knows-send :
      (n : ℤ) (correlation : String) (r : BrokerOrderRequest F) (trade : Trade F)
      (contract : Result Contract) (b : IbkrBroker F)
      → str trade.order_id ≢ str n
      → Knows n correlation b
      → Knows n correlation (send str r trade contract b).1
  unfolding send
  Knows-send n correlation r trade (err e) b apart h = h
  Knows-send n correlation r trade (ok contract) b apart h =
      get-put_ne b.correlation_by_order_id (str trade.order_id) (str n) r.correlation_id apart ∙ h

  pub Knows-place_order :
      (n : ℤ) (correlation : String) (r : BrokerOrderRequest F) (answer : Result (List Contract))
      (trade : Trade F) (b : IbkrBroker F)
      → str trade.order_id ≢ str n
      → Knows n correlation b
      → Knows n correlation (place_order str r answer trade b).1
  unfolding place_order qualify_future
  Knows-place_order n correlation r answer trade b apart h =
      let (contract, b') = qualify_future r.symbol answer b in
      let same = correlations-qualify_found r.symbol answer (get b.contracts r.symbol) b in
      Knows-send n correlation r trade contract b' apart
        (ap (λ (d : Dict String). get d (str n)) same.0 ∙ h)

  Knows-send_self :
      (r : BrokerOrderRequest F) (trade : Trade F) (contract : Result Contract) (b : IbkrBroker F)
      → (send str r trade contract b).0 ≡ ok tt
      → Knows trade.order_id r.correlation_id (send str r trade contract b).1
  unfolding send
  Knows-send_self r trade (err e) b h = ground (arith, h)
  Knows-send_self r trade (ok contract) b h =
      get-put_self b.correlation_by_order_id (str trade.order_id) r.correlation_id

  pub Knows-place_order_self :
      (r : BrokerOrderRequest F) (answer : Result (List Contract)) (trade : Trade F)
      (b : IbkrBroker F)
      → (place_order str r answer trade b).0 ≡ ok tt
      → Knows trade.order_id r.correlation_id (place_order str r answer trade b).1
  unfolding place_order
  Knows-place_order_self r answer trade b h =
      let (contract, b') = qualify_future r.symbol answer b in Knows-send_self r trade contract b' h

module _ {F : Type 0} (str : ℤ → String) where
  pub ids-status_event :
      (now : DateTime) (status : OrderStatus) (trade : Trade F) (b : IbkrBroker F)
      → (event_order_id (status_event str now status trade b) ≡ str trade.order_id)
        × (event_correlation_id (status_event str now status trade b)
            ≡ correlation_of str trade.order_id b)
  unfolding status_event
  ids-status_event now pending_new trade b = (refl, refl)
  ids-status_event now submitted trade b = (refl, refl)
  ids-status_event now acknowledged trade b = (refl, refl)
  ids-status_event now partially_filled trade b = (refl, refl)
  ids-status_event now filled trade b = (refl, refl)
  ids-status_event now cancel_pending trade b = (refl, refl)
  ids-status_event now cancelled trade b = (refl, refl)
  ids-status_event now rejected trade b = (refl, refl)
  ids-status_event now expired trade b = (refl, refl)

  pub known_correlation :
      (n : ℤ) (correlation : String) (b : IbkrBroker F)
      → Knows str n correlation b
      → correlation_of str n b ≡ correlation
  known_correlation n correlation b h = ground (arith, h)
