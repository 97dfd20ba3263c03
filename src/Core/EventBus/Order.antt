-- ===== src/Core/EventBus/Order.antt =====
-- The order of delivery of core/event_bus.py.
use mathlib.Core.List.{foldl}
use binbot.Base.{
  ◌≡◌, true, some, List, [], ◌∷◌, arith, length, refl, if◌then◌else◌, All, All-append,
}
use binbot.Core.Events.{Event, EventType, event_type}
use binbot.Core.EventBus.{
  EventBus, Handler, run_handlers, handlers, dispatch, dispatch_from, dispatch_next, join,
}

module _ {W F : Type 0} where
  -- A handler that publishes nothing.
  abbrev pub IsQuiet : Handler W F → Type 0
  IsQuiet h = (e : Event F) (w : W) → (h e w).publishes ≡ []

  -- The world after some handlers: each acts in turn, up to the first that raises.
  abbrev pub act : List (Handler W F) → Event F → W → W
  act [] e w = w
  act (h ∷ hs) e w =
      let later = act hs e (h e w).world in if (h e w).raised then (h e w).world else later

  run_handlers_quiet :
      (hs : List (Handler W F)) (e : Event F) (w : W) (b : EventBus W F)
      → All IsQuiet hs
      → run_handlers hs e w b ≡ (act hs e w, b)
  unfolding run_handlers
  run_handlers_quiet [] e w b q = refl
  run_handlers_quiet (h ∷ hs) e w b q =
      rw (q.0 e w) (ground (arith, run_handlers_quiet hs e (h e w).world b q.1))

  -- With handlers that publish nothing, `join` takes as many rounds as events are queued. It delivers every queued
  -- event, in the order of publication, to the handlers of its type and then to the global ones, a handler
  -- that raises ending its own event only, and leaves the queue empty and the counts as they were.
  pub join_delivers_in_order :
      (q : List (Event F)) (w : W) (b : EventBus W F)
      → b.queue ≡ q
      → b.running ≡ true
      → ((t : EventType) → All IsQuiet (b.subscribers t))
      → All IsQuiet b.global_subscribers
      → join (length q) w b
        ≡ some (foldl (λ v e. act (handlers b e) e v) w q, record b { queue = [] })
  unfolding join dispatch_next dispatch_from dispatch
  join_delivers_in_order [] w b e r s g = ground arith
  join_delivers_in_order (x ∷ q) w b e r s g =
      let b' : EventBus W F = record b { queue = q } in
      let quiet = run_handlers_quiet (handlers b x) x w b' (
        All-append IsQuiet (b.subscribers (event_type x)) b.global_subscribers (s (event_type x))
          g) in
      ground (arith, quiet, join_delivers_in_order q (act (handlers b x) x w) b' refl r s g)
