-- ===== src/Tests/Bus.antt =====
-- core/event_bus.py at concrete inputs.
use binbot.Base.{ℕ, ◌≡◌, Bool, true, false, some, List, [], ◌∷◌, ◌++◌, arith, refl, foldl, ℤ, All}
use binbot.Core.Events.{Event, on_heartbeat, heartbeat, EventType}
use binbot.Core.EventBus.{
  EventBus, Handler, join, dispatch, handlers, publish, dispatch_next, dispatch_from, run_handlers,
}
use binbot.Core.EventBus.Order.{act, IsQuiet, join_delivers_in_order}
use binbot.Core.EventBus.Counts.{
  Turn, publishes, round, History, take_turn, run, Accounts, bus-Accounts,
}

-- A world that is a log of numbers. Handler `n` writes its number; 7 raises after that.
abbrev writes : ℕ → Bool → Handler (List ℕ) ℤ
writes n raises e w = record { world = w ++ n ∷ []; publishes = []; raised = raises }

-- A handler that publishes the event that it got once more.
abbrev echo : Handler (List ℕ) ℤ
echo e w = record { world = w; publishes = e ∷ []; raised = false }

abbrev subscribed : EventType → List (Handler (List ℕ) ℤ)
subscribed heartbeat = writes 1 false ∷ writes 7 true ∷ writes 2 false ∷ []
subscribed _ = []

abbrev beat : ℕ → Event ℤ
beat t = on_heartbeat (record { ts = t; source = "s"; healthy = true })

abbrev two_beats : List (Event ℤ)
two_beats = beat 1 ∷ beat 2 ∷ []

abbrev bus : List (Handler (List ℕ) ℤ) → List (Event ℤ) → EventBus (List ℕ) ℤ
bus global queue = record {
  queue = queue;
  queue_maxsize = 2;
  subscribers = subscribed;
  global_subscribers = global;
  running = true;
  published_count = 0;
  dropped_count = 0;
}

join_run : join 2 [] (bus [] two_beats) ≡ some (1 ∷ 7 ∷ 1 ∷ 7 ∷ [], bus [] [])
unfolding join dispatch
join_run = refl

subscribed-IsQuiet : (t : EventType) → All IsQuiet (subscribed t)
subscribed-IsQuiet heartbeat = (λ e w. refl, (λ e w. refl, (λ e w. refl, tt)))
subscribed-IsQuiet _ = tt

join_delivers_in_order_example :
    join 2 [] (bus [] two_beats)
    ≡ some (foldl (λ v e. act (handlers (bus [] two_beats) e) e v) [] two_beats, bus [] [])
join_delivers_in_order_example =
    join_delivers_in_order two_beats [] (bus [] two_beats) refl refl subscribed-IsQuiet tt

abbrev turns : List (Turn ℤ)
turns = publishes (beat 1) ∷ publishes (beat 2) ∷ publishes (beat 3) ∷ round ∷ round ∷ []

abbrev fresh : History ℤ
fresh = record { accepted = []; dispatched = [] }

-- The third event finds no room, and a handler that raises keeps the echo from running.
echoed :
    (run turns (fresh, [], bus (echo ∷ []) [])).0
    ≡ record { accepted = two_beats; dispatched = two_beats }
unfolding run take_turn publish dispatch_next dispatch_from dispatch run_handlers
echoed = refl

bus-Accounts_example : let (h, _, b) = run turns (fresh, [], bus (echo ∷ []) []) in Accounts 2 h b
bus-Accounts_example =
    bus-Accounts 2 (omega arith) turns (fresh, [], bus (echo ∷ []) [])
      (record { in_order = refl; counted = refl; bound = refl; bounded = omega arith })
