-- ===== src/Execution/Ibkr/Told.antt =====
-- What the adapter of execution/ibkr_broker.py says of an order that it placed.
use binbot.Base.{
  ◌≡◌, ◌≢◌, refl, ap, ◌∙◌, subst, false, String, List, [], ◌∷◌, ℤ, pos, All, arith, if-cases, leb,
  ltb_ℤ, length, Result, ok,
}
use binbot.Float.{Float, FloatMath}
use binbot.Dict.{get, get_or}
use binbot.Core.Enums.{submitted}
use binbot.Core.Events.{DateTime}
use binbot.Execution.Orders.{BrokerOrderRequest, executed, Says}
use binbot.Execution.Ibkr.{IbkrBroker, Contract, Trade, Fill, Outcome, put_nowait, ib_status_map}
use binbot.Execution.Ibkr.Sending.{place_order, cancel_order, cancel_all}
use binbot.Execution.Ibkr.Callbacks.{
  on_error, error_event, on_order_status, status_event, on_exec_details, execution_of,
}
use binbot.Execution.Ibkr.Names.{
  Knows, Knows-place_order, Knows-place_order_self, put_nowait-cases, event_queue-put_nowait,
  ids-status_event, known_correlation, correlations-cancel_found,
}
use binbot.Execution.Ibkr.Runs.{
  Act, placing, cancelling, cancelling_all, failing, filling, changing, act, run,
}

module _ {F : Type 0} ⦃f : Float F⦄ ⦃m : FloatMath F⦄ (str : ℤ → String) where
  -- The act places no order under the number n.
  abbrev pub IsApart : ℤ → Act F → Type 0
  IsApart n (placing r answer trade) = str trade.order_id ≢ str n
  IsApart n _ = Unit {0}

  Knows-act :
      (n : ℤ) (correlation : String) (a : Act F) (b : IbkrBroker F)
      → IsApart n a
      → Knows str n correlation b
      → Knows str n correlation (act str a b)
  unfolding act on_error on_order_status on_exec_details cancel_order cancel_all
  Knows-act n correlation (placing r answer trade) b apart h =
      Knows-place_order str n correlation r answer trade b apart h
  Knows-act n correlation (cancelling order_id) b apart h =
      ap (λ d. get d (str n)) (correlations-cancel_found (get b.trades_by_order_id order_id) b).0
      ∙ h
  Knows-act n correlation cancelling_all b apart h = h
  Knows-act n correlation (failing now req_id error_code error_string) b apart h =
      if-cases (λ (x : Outcome (Unit {0}) F). Knows str n correlation x.1)
        (ltb_ℤ error_code (pos 400)) _ _ (λ t. h)
        (λ f. put_nowait-cases (Knows str n correlation) _ b h h)
  Knows-act n correlation (filling now trade fill) b apart h =
      put_nowait-cases (Knows str n correlation) _ b h h
  Knows-act n correlation (changing now trade) b apart h =
      put_nowait-cases (Knows str n correlation) _ b h h

  Knows-run :
      (n : ℤ) (correlation : String) (acts : List (Act F)) (b : IbkrBroker F)
      → All (IsApart n) acts
      → Knows str n correlation b
      → Knows str n correlation (run str acts b)
  unfolding run
  Knows-run n correlation [] b apart h = h
  Knows-run n correlation (a ∷ acts) b apart h =
      Knows-run n correlation acts (act str a b) apart.1 (Knows-act n correlation a b apart.0 h)

  Says-on_error :
      (n : ℤ) (correlation : String) (b : IbkrBroker F) (now : DateTime) (error_code : ℤ)
      (error_string : String)
      → leb 10000 (length b.event_queue) ≡ false
      → Knows str n correlation b
      → ltb_ℤ error_code (pos 400) ≡ false
      → Says
          (str n)
          correlation
          b.event_queue
          (on_error str now n error_code error_string b).1.event_queue
  unfolding on_error error_event
  Says-on_error n correlation b now error_code error_string room h severe =
      let e = error_event str now n error_code error_string b in
      if-cases
        (λ (x : Outcome (Unit {0}) F). Says (str n) correlation b.event_queue x.1.event_queue)
        (ltb_ℤ error_code (pos 400)) (ok tt, b) (put_nowait e b) (λ t. ground (arith, t, severe))
        (λ f. (e, (event_queue-put_nowait e b room, refl, known_correlation str n correlation b h)))

  Says-on_order_status :
      (correlation : String) (b : IbkrBroker F) (now : DateTime) (trade : Trade F)
      → leb 10000 (length b.event_queue) ≡ false
      → Knows str trade.order_id correlation b
      → Says
          (str trade.order_id)
          correlation
          b.event_queue
          (on_order_status str now trade b).1.event_queue
  unfolding on_order_status
  Says-on_order_status correlation b now trade room h =
      let status = get_or ib_status_map trade.status submitted in
      let ids = ids-status_event str now status trade b in
      let e = status_event str now status trade b in
      (
        e,
        (
          event_queue-put_nowait e b room,
          ids.0,
          ids.1 ∙ known_correlation str trade.order_id correlation b h,
        ),
      )

  Says-on_exec_details :
      (correlation : String) (b : IbkrBroker F) (now : DateTime) (trade : Trade F) (fill : Fill F)
      → leb 10000 (length b.event_queue) ≡ false
      → Knows str trade.order_id correlation b
      → Says
          (str trade.order_id)
          correlation
          b.event_queue
          (on_exec_details str now trade fill b).1.event_queue
  unfolding on_exec_details execution_of
  Says-on_exec_details correlation b now trade fill room h =
      let e = executed (execution_of str now trade fill b) in
      (
        e,
        (
          event_queue-put_nowait e b room,
          refl,
          known_correlation str trade.order_id correlation b h,
        ),
      )

  -- Once `place_order` has returned, and whatever calls and callbacks follow that place no other order under the same
  -- number, an error of a code of at least 400, a change of status and a fill that the library reports of the order each
  -- put exactly one event into a queue that is not full, under the text of the library's number and with the correlation
  -- id of the request.
  pub place_order-Says :
      (r : BrokerOrderRequest F) (answer : Result (List Contract)) (placed : Trade F)
      (later : List (Act F)) (b : IbkrBroker F) (now : DateTime) (error_code : ℤ)
      (error_string : String) (trade : Trade F) (fill : Fill F)
      → (place_order str r answer placed b).0 ≡ ok tt
      → All (IsApart placed.order_id) later
      → leb 10000 (length (run str (placing r answer placed ∷ later) b).event_queue) ≡ false
      → ltb_ℤ error_code (pos 400) ≡ false
      → placed.order_id ≡ trade.order_id
      → let b' = run str (placing r answer placed ∷ later) b in
        let order_id = str trade.order_id in
        Says order_id r.correlation_id b'.event_queue
          (on_error str now trade.order_id error_code error_string b').1.event_queue
        × Says order_id r.correlation_id b'.event_queue
            (on_order_status str now trade b').1.event_queue
        × Says order_id r.correlation_id b'.event_queue
            (on_exec_details str now trade fill b').1.event_queue
  unfolding run act
  place_order-Says r answer placed later b now error_code error_string trade fill h apart room
        severe same =
      let b' = run str (placing r answer placed ∷ later) b in
      let knows =
        subst (λ n. Knows str n r.correlation_id b') same
          (Knows-run placed.order_id r.correlation_id later (place_order str r answer placed b).1
            apart (Knows-place_order_self str r answer placed b h)) in
      (
        Says-on_error trade.order_id r.correlation_id b' now error_code error_string room knows
            severe,
        Says-on_order_status r.correlation_id b' now trade room knows,
        Says-on_exec_details r.correlation_id b' now trade fill room knows,
      )
