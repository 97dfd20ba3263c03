-- ===== src/Core/EventBus.antt =====
-- core/event_bus.py: the ordered queue of events and its dispatch loop, without the Redis fan-out.
-- A handler acts on a world of its own, publishes, and may raise.
pub mod Order
pub mod Counts
use mathlib.Core.List.{foldl}
use binbot.Base.{
  ℕ, zero, suc, ◌+◌, Bool, true, false, Option, none, some, List, [], ◌∷◌, ◌++◌, ltb, leb, ◌==◌,
  ◌&&◌, length, if◌then◌else◌,
}
use binbot.Core.Events.{Event, EventType, event_type}

-- What a handler did: the world that it leaves, what it published, and whether it raised.
pub record Outcome (W F : Type 0) : Type 0 where
  pub world : W
  pub publishes : List (Event F)
  pub raised : Bool

abbrev pub Handler : Type 0 → Type 0 → Type 0
Handler W F = Event F → W → Outcome W F

pub record EventBus (W F : Type 0) : Type 0 where
  pub queue : List (Event F)
  pub queue_maxsize : ℕ
  pub subscribers : EventType → List (Handler W F)
  pub global_subscribers : List (Handler W F)
  pub running : Bool
  pub published_count : ℕ
  pub dropped_count : ℕ

module _ {W F : Type 0} where
  -- `Queue.full()`: a maxsize of 0 is no bound.
  abbrev pub full : EventBus W F → Bool
  full b = ltb 0 b.queue_maxsize && leb b.queue_maxsize (length b.queue)

  unfoldable pub publish : EventBus W F → Event F → EventBus W F
  publish b event =
      if full b
      then record b { dropped_count = b.dropped_count + 1 }
      else record b { queue = b.queue ++ event ∷ []; published_count = b.published_count + 1 }

  -- `none` while the queue has no room.
  unfoldable pub publish_and_wait : EventBus W F → Event F → Option (EventBus W F)
  publish_and_wait b event =
      if full b
      then none
      else some
          (record b { queue = b.queue ++ event ∷ []; published_count = b.published_count + 1 })

  unfoldable pub subscribe_all : Handler W F → EventBus W F → EventBus W F
  subscribe_all handler b = record b { global_subscribers = b.global_subscribers ++ handler ∷ [] }

  -- The handlers in order; an exception ends the dispatch of this event and is logged.
  unfoldable pub run_handlers : List (Handler W F) → Event F → W → EventBus W F → W × EventBus W F
  run_handlers [] event w b = (w, b)
  run_handlers (handler ∷ rest) event w b =
      let o = handler event w in
      let b' = foldl publish b o.publishes in
      let later = run_handlers rest event o.world b' in if o.raised then (o.world, b') else later

  -- The event type's subscribers, then the global ones.
  abbrev pub handlers : EventBus W F → Event F → List (Handler W F)
  handlers b event = b.subscribers (event_type event) ++ b.global_subscribers

  unfoldable pub dispatch : Event F → W → EventBus W F → W × EventBus W F
  unfolding run_handlers
  dispatch event w b = run_handlers (handlers b event) event w b

  -- One round of `_dispatch_loop` on the queue's head; `none` while it waits or has stopped.
  unfoldable pub dispatch_from : List (Event F) → W → EventBus W F → Option (W × EventBus W F)
  dispatch_from [] w b = none
  dispatch_from (event ∷ rest) w b =
      if b.running then some (dispatch event w (record b { queue = rest })) else none

  unfoldable pub dispatch_next : W → EventBus W F → Option (W × EventBus W F)
  unfolding dispatch_from
  dispatch_next w b = dispatch_from b.queue w b

  -- `join`: rounds until the queue is empty; `none` if they do not suffice or the loop is stopped.
  unfoldable pub join : ℕ → W → EventBus W F → Option (W × EventBus W F)
  unfolding dispatch_next
  join zero w b = if length b.queue == 0 then some (w, b) else none
  join (suc rounds) w b =
      if length b.queue == 0
      then some (w, b)
      else elim (dispatch_next w b) [ none ↦ none | some (w', b') ↦ join rounds w' b' ]
