-- ===== src/Core/EventBus/Counts.antt =====
-- What core/event_bus.py accepts, queues and dispatches, over any schedule of publishers and rounds.
use mathlib.Core.List.{foldl}
use binbot.Base.{
  ℕ, ◌+◌, ◌≤◌, ◌<◌, ◌≡◌, Bool, true, false, Option, none, some, List, [], ◌∷◌, ◌++◌, arith, length,
  length-append, refl, sym, ap, ◌∙◌, append_assoc, append-nil, if◌then◌else◌,
}
use binbot.Core.Events.{Event}
use binbot.Core.EventBus.{
  EventBus, Handler, full, publish, publish_and_wait, run_handlers, handlers, dispatch,
  dispatch_from, dispatch_next,
}

-- What can happen next: some task publishes, or the dispatch loop makes a round.
pub data Turn (F : Type 0) : Type 0 where
  publishes : Event F → Turn F
  waits_to_publish : Event F → Turn F
  round : Turn F

-- The events that found room in the queue, and those that were dispatched, each in their order.
pub record History (F : Type 0) : Type 0 where
  pub accepted : List (Event F)
  pub dispatched : List (Event F)

-- A publisher that has to wait, and a round that has nothing to do, leave everything as it is.
abbrev stay : {A : Type 0} → A → Option A → A
stay a none = a
stay a (some a') = a'

abbrev accepts : {F : Type 0} → History F → List (Event F) → History F
accepts h es = record h { accepted = h.accepted ++ es }

module _ {W F : Type 0} where
  -- Of an event that is published: itself, if there is room.
  abbrev accepted_of : EventBus W F → Event F → List (Event F)
  accepted_of b e = if full b then [] else e ∷ []

  abbrev accepted_all : List (Event F) → EventBus W F → List (Event F)
  accepted_all [] b = []
  accepted_all (e ∷ es) b = accepted_of b e ++ accepted_all es (publish b e)

  -- Of the events that the handlers of one event publish.
  abbrev accepted_by : List (Handler W F) → Event F → W → EventBus W F → List (Event F)
  accepted_by [] e w b = []
  accepted_by (h ∷ hs) e w b =
      let later = accepted_by hs e (h e w).world (foldl publish b (h e w).publishes) in
      accepted_all (h e w).publishes b ++ (if (h e w).raised then [] else later)

  -- A round on this queue, if the loop runs.
  abbrev round_history : List (Event F) → W → EventBus W F → History F → History F
  round_history [] w b h = h
  round_history (e ∷ rest) w b h =
      if b.running
      then record {
        accepted = h.accepted ++ accepted_by (handlers b e) e w (record b { queue = rest });
        dispatched = h.dispatched ++ e ∷ [];
      }
      else h

  -- The history, the world and the bus, after a turn.
  unfoldable pub take_turn : Turn F → History F × W × EventBus W F → History F × W × EventBus W F
  take_turn (publishes e) (h, w, b) = (accepts h (accepted_of b e), w, publish b e)
  take_turn (waits_to_publish e) (h, w, b) =
      (accepts h (accepted_of b e), w, stay b (publish_and_wait b e))
  take_turn round (h, w, b) =
      let (w', b') = stay (w, b) (dispatch_next w b) in (round_history b.queue w b h, w', b')

  unfoldable pub run : List (Turn F) → History F × W × EventBus W F → History F × W × EventBus W F
  run [] s = s
  run (t ∷ ts) s = run ts (take_turn t s)

  -- The accepted events are those dispatched and then those queued, as many as are counted, and a bounded queue keeps
  -- its bound.
  pub record Accounts (most : ℕ) (h : History F) (b : EventBus W F) : Type 0 where
    pub in_order : h.accepted ≡ h.dispatched ++ b.queue
    pub counted : b.published_count ≡ length h.accepted
    pub bound : b.queue_maxsize ≡ most
    pub bounded : length b.queue ≤ most

  module _ (most : ℕ) (positive : 0 < most) where
    room :
        (b : EventBus W F) (h : History F)
        → Accounts most h b
        → full b ≡ false
        → length b.queue < most
    room b h a k = ground (arith, a.bound, k)

    take-Accounts :
        (h : History F) (b : EventBus W F) (e : Event F)
        → Accounts most h b
        → length b.queue < most
        → Accounts most
            (accepts h (e ∷ []))
            (record b { queue = b.queue ++ e ∷ []; published_count = b.published_count + 1 })
    take-Accounts h b e a k = record {
      in_order = ap (λ es. es ++ e ∷ []) a.in_order ∙ append_assoc h.dispatched b.queue (e ∷ []);
      counted = ground (arith, a.counted, length-append h.accepted (e ∷ []));
      bound = a.bound;
      bounded = ground (arith, k, length-append b.queue (e ∷ []));
    }

    drop-Accounts :
        (h : History F) (b : EventBus W F) → Accounts most h b → Accounts most (accepts h []) b
    drop-Accounts h b a = record {
      in_order = append-nil h.accepted ∙ a.in_order;
      counted = a.counted ∙ ap length (sym (append-nil h.accepted));
      bound = a.bound;
      bounded = a.bounded;
    }

    publish_if-Accounts :
        (h : History F) (b : EventBus W F) (e : Event F) (k : Bool)
        → Accounts most h b
        → (k ≡ false → length b.queue < most)
        → Accounts most (accepts h (if k then [] else e ∷ [])) (
            if k
            then record b { dropped_count = b.dropped_count + 1 }
            else record b { queue = b.queue ++ e ∷ []; published_count = b.published_count + 1 })
    publish_if-Accounts h b e true a r =
        drop-Accounts h (record b { dropped_count = b.dropped_count + 1 })
          (record {
            in_order = a.in_order;
            counted = a.counted;
            bound = a.bound;
            bounded = a.bounded;
          })
    publish_if-Accounts h b e false a r = take-Accounts h b e a (r refl)

    publish-Accounts :
        (h : History F) (b : EventBus W F) (e : Event F)
        → Accounts most h b
        → Accounts most (accepts h (accepted_of b e)) (publish b e)
    unfolding publish
    publish-Accounts h b e a = publish_if-Accounts h b e (full b) a (room b h a)

    wait_if-Accounts :
        (h : History F) (b : EventBus W F) (e : Event F) (k : Bool)
        → Accounts most h b
        → (k ≡ false → length b.queue < most)
        → Accounts most (accepts h (if k then [] else e ∷ [])) (
            stay b (
              if k
              then none
              else some (record b {
                queue = b.queue ++ e ∷ [];
                published_count = b.published_count + 1;
              })))
    wait_if-Accounts h b e true a r = drop-Accounts h b a
    wait_if-Accounts h b e false a r = take-Accounts h b e a (r refl)

    wait-Accounts :
        (h : History F) (b : EventBus W F) (e : Event F)
        → Accounts most h b
        → Accounts most (accepts h (accepted_of b e)) (stay b (publish_and_wait b e))
    unfolding publish_and_wait
    wait-Accounts h b e a = wait_if-Accounts h b e (full b) a (room b h a)

    -- Two additions are one.
    join-Accounts :
        (h : History F) (xs ys : List (Event F)) (b : EventBus W F)
        → Accounts most (accepts (accepts h xs) ys) b
        → Accounts most (accepts h (xs ++ ys)) b
    join-Accounts h xs ys b a =
        let e = append_assoc h.accepted xs ys in
        record {
          in_order = sym e ∙ a.in_order;
          counted = a.counted ∙ ap length e;
          bound = a.bound;
          bounded = a.bounded;
        }

    publish_all-Accounts :
        (h : History F) (es : List (Event F)) (b : EventBus W F)
        → Accounts most h b
        → Accounts most (accepts h (accepted_all es b)) (foldl publish b es)
    publish_all-Accounts h [] b a = drop-Accounts h b a
    publish_all-Accounts h (e ∷ es) b a =
        join-Accounts h (accepted_of b e) (accepted_all es (publish b e)) _ (
          publish_all-Accounts (accepts h (accepted_of b e)) es (publish b e)
            (publish-Accounts h b e a))

    raised-Accounts :
        (h : History F) (raised : Bool) (later : List (Event F)) (w : W) (b : EventBus W F)
        (rest : W × EventBus W F)
        → Accounts most h b
        → Accounts most (accepts h later) rest.1
        → Accounts most
            (accepts h (if raised then [] else later))
            (if raised then (w, b) else rest).1
    raised-Accounts h true later w b rest a k = drop-Accounts h b a
    raised-Accounts h false later w b rest a k = k

    run_handlers-Accounts :
        (h : History F) (hs : List (Handler W F)) (e : Event F) (w : W) (b : EventBus W F)
        → Accounts most h b
        → Accounts most (accepts h (accepted_by hs e w b)) (run_handlers hs e w b).1
    unfolding run_handlers
    run_handlers-Accounts h [] e w b a = drop-Accounts h b a
    run_handlers-Accounts h (k ∷ hs) e w b a =
        let es = accepted_all (k e w).publishes b in
        let b' = foldl publish b (k e w).publishes in
        let a' = publish_all-Accounts h (k e w).publishes b a in
        let later = accepted_by hs e (k e w).world b' in
        join-Accounts h es (if (k e w).raised then [] else later) _ (
          raised-Accounts (accepts h es) (k e w).raised later (k e w).world b'
            (run_handlers hs e (k e w).world b') a'
            (run_handlers-Accounts (accepts h es) hs e (k e w).world b' a'))

    running-Accounts :
        (h h' : History F) (running : Bool) (w : W) (b : EventBus W F) (r : W × EventBus W F)
        → Accounts most h b
        → Accounts most h' r.1
        → Accounts most
            (if running then h' else h)
            (stay (w, b) (if running then some r else none)).1
    running-Accounts h h' true w b r a a' = a'
    running-Accounts h h' false w b r a a' = a

    -- The head of the queue goes over to the dispatched ones.
    head-Accounts :
        (h : History F) (e : Event F) (rest : List (Event F)) (b : EventBus W F)
        → b.queue ≡ e ∷ rest
        → Accounts most h b
        → Accounts most
            (record h { dispatched = h.dispatched ++ e ∷ [] })
            (record b { queue = rest })
    head-Accounts h e rest b k a = record {
      in_order =
          a.in_order
          ∙ ap (λ q. h.dispatched ++ q) k
          ∙ sym (append_assoc h.dispatched (e ∷ []) rest);
      counted = a.counted;
      bound = a.bound;
      bounded = ground (arith, a.bounded, ap length k);
    }

    dispatch_from-Accounts :
        (h : History F) (q : List (Event F)) (w : W) (b : EventBus W F)
        → b.queue ≡ q
        → Accounts most h b
        → Accounts most (round_history q w b h) (stay (w, b) (dispatch_from q w b)).1
    unfolding dispatch_from dispatch
    dispatch_from-Accounts h [] w b k a = a
    dispatch_from-Accounts h (e ∷ rest) w b k a =
        let b' = record b { queue = rest } in
        running-Accounts h _ b.running w b (run_handlers (handlers b e) e w b') a (
          run_handlers-Accounts (record h { dispatched = h.dispatched ++ e ∷ [] }) (handlers b e) e
            w b' (head-Accounts h e rest b k a))

  take_turn-Accounts :
      (most : ℕ)
      → 0 < most
      → (t : Turn F) (s : History F × W × EventBus W F) → Accounts most s.0 s.2
      → Accounts most (take_turn t s).0 (take_turn t s).2
  unfolding take_turn dispatch_next
  take_turn-Accounts most positive (publishes e) (h, w, b) a =
      publish-Accounts most positive h b e a
  take_turn-Accounts most positive (waits_to_publish e) (h, w, b) a =
      wait-Accounts most positive h b e a
  take_turn-Accounts most positive round (h, w, b) a =
      dispatch_from-Accounts most positive h b.queue w b refl a

  -- For a bound above 0, from a state in which it holds, such as a new bus, and over every schedule of publishers and
  -- rounds, whatever the handlers do: the events that found room when they were published, in their order, are exactly those that have been dispatched and then those still queued, there are as many
  -- of them as published_count says, and a bounded queue never holds more than its bound.
  pub bus-Accounts :
      (most : ℕ)
      → 0 < most
      → (ts : List (Turn F)) (s : History F × W × EventBus W F) → Accounts most s.0 s.2
      → Accounts most (run ts s).0 (run ts s).2
  unfolding run
  bus-Accounts most positive [] s a = a
  bus-Accounts most positive (t ∷ ts) s a =
      bus-Accounts most positive ts (take_turn t s) (take_turn-Accounts most positive t s a)
