-- ===== src/Execution/Ibkr/Unheard.antt =====
-- The events of execution/ibkr_broker.py at the order manager of execution/order_manager.py, which looks its orders up
-- by its own ids.
use binbot.Base.{
  ◌≡◌, ◌≢◌, refl, sym, ap, ◌∙◌, subst, none, String, List, [], ◌∷◌, ◌++◌, ℤ, pos, All, arith,
  if-cases, map, ltb_ℤ,
}
use binbot.Float.{Float, FloatMath}
use binbot.Dict.{Dict, get, get_or, keys}
use binbot.Core.Enums.{submitted}
use binbot.Core.Events.{DateTime}
use binbot.Execution.Orders.{BrokerEvent, event_order_id}
use binbot.Execution.OrderManager.{
  OrderLifecycleManager, consume, handle_broker_event, handle_found,
}
use binbot.Execution.Ibkr.{IbkrBroker, Outcome, put_nowait, ib_status_map}
use binbot.Execution.Ibkr.Sending.{cancel_order, cancel_all}
use binbot.Execution.Ibkr.Callbacks.{
  on_error, error_event, on_order_status, on_exec_details, execution_of,
}
use binbot.Execution.Ibkr.Names.{
  put_nowait-cases, event_queue-place_order, ids-status_event, correlations-cancel_found,
}
use binbot.Execution.Ibkr.Runs.{
  Act, placing, cancelling, cancelling_all, failing, filling, changing, act, run,
}

module _ {F : Type 0} (str : ℤ → String) where
  -- The event names its order by a number's text.
  abbrev pub IsNumbered : BrokerEvent F → Type 0
  IsNumbered e = (k : ℤ) × (event_order_id e ≡ str k)

  abbrev pub AllNumbered : IbkrBroker F → Type 0
  AllNumbered b = All IsNumbered b.event_queue

  All-snoc :
      (es : List (BrokerEvent F)) (e : BrokerEvent F)
      → All IsNumbered es
      → IsNumbered e
      → All IsNumbered (es ++ e ∷ [])
  All-snoc [] e h k = (k, tt)
  All-snoc (x ∷ es) e h k = (h.0, All-snoc es e h.1 k)

  AllNumbered-put_nowait :
      (e : BrokerEvent F) (b : IbkrBroker F)
      → IsNumbered e
      → AllNumbered b
      → AllNumbered (put_nowait e b).1
  AllNumbered-put_nowait e b k h = put_nowait-cases AllNumbered e b h (All-snoc b.event_queue e h k)

module _ {F : Type 0} ⦃f : Float F⦄ ⦃m : FloatMath F⦄ (str : ℤ → String) where
  AllNumbered-act :
      (a : Act F) (b : IbkrBroker F) → AllNumbered str b → AllNumbered str (act str a b)
  unfolding act on_error error_event on_order_status on_exec_details execution_of cancel_order
      cancel_all
  AllNumbered-act (placing r answer trade) b h =
      subst (All (IsNumbered str)) (sym (event_queue-place_order str r answer trade b)) h
  AllNumbered-act (cancelling order_id) b h =
      subst (All (IsNumbered str))
        (sym (correlations-cancel_found (get b.trades_by_order_id order_id) b).1) h
  AllNumbered-act cancelling_all b h = h
  AllNumbered-act (failing now req_id error_code error_string) b h =
      if-cases (λ (x : Outcome (Unit {0}) F). AllNumbered str x.1) (ltb_ℤ error_code (pos 400)) _ _
        (λ t. h) (λ f. AllNumbered-put_nowait str _ b (req_id, refl) h)
  AllNumbered-act (filling now trade fill) b h =
      AllNumbered-put_nowait str _ b (trade.order_id, refl) h
  AllNumbered-act (changing now trade) b h =
      AllNumbered-put_nowait str _ b
        (
          trade.order_id,
          (ids-status_event str now (get_or ib_status_map trade.status submitted) trade b).0,
        )
        h

  AllNumbered-run :
      (acts : List (Act F)) (b : IbkrBroker F)
      → AllNumbered str b
      → AllNumbered str (run str acts b)
  unfolding run
  AllNumbered-run [] b h = h
  AllNumbered-run (a ∷ acts) b h = AllNumbered-run acts (act str a b) (AllNumbered-act a b h)

get_absent : {V : Type 0} (d : Dict V) (k : String) → All (λ j. j ≢ k) (keys d) → get d k ≡ none
unfolding get
get_absent [] k h = refl
get_absent ((j, v) ∷ d) k h = ground (arith, h.0, get_absent d k h.1)

module _ {W F : Type 0} ⦃f : Float F⦄ (str : ℤ → String) where
  -- None of the manager's ids is a number's text.
  abbrev pub AreUuids : OrderLifecycleManager W F → Type 0
  AreUuids o = (k : ℤ) → All (λ id. id ≢ str k) (keys o.orders)

  consume_unknown :
      (now : DateTime) (es : List (BrokerEvent F)) (o : OrderLifecycleManager W F)
      → AreUuids o
      → All (IsNumbered str) es
      → consume (map (λ e. (now, e)) es) o ≡ o
  unfolding consume handle_broker_event handle_found
  consume_unknown now [] o u h = refl
  consume_unknown now (e ∷ es) o u h =
      let absent = ap (get o.orders) h.0.1 ∙ get_absent o.orders (str h.0.0) (u h.0.0) in
      ap (λ found. consume (map (λ e. (now, e)) es) (handle_found now e found o)) absent
      ∙ consume_unknown now es o u h.1

module _ {W F : Type 0} ⦃f : Float F⦄ ⦃m : FloatMath F⦄ (str : ℤ → String) where
  -- From an empty queue, whatever is placed and cancelled through the adapter and whatever the library reports, an order manager of whose ids
  -- none is a number's text ignores every event of the adapter's queue: its orders, the slippage and the bus stay as they
  -- were, fills and rejections of its own orders included.
  pub adapter_unheard :
      (acts : List (Act F)) (b : IbkrBroker F) (now : DateTime) (o : OrderLifecycleManager W F)
      → b.event_queue ≡ []
      → AreUuids str o
      → consume (map (λ e. (now, e)) (run str acts b).event_queue) o ≡ o
  adapter_unheard acts b now o started u =
      consume_unknown str now (run str acts b).event_queue o u
        (AllNumbered-run str acts b (subst (All (IsNumbered str)) (sym started) tt))
