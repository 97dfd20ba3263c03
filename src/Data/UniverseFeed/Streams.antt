-- ===== src/Data/UniverseFeed/Streams.antt =====
-- The feed after a stream of messages, against the points that the messages carried.
use binbot.Base.{
  ℕ, ◌≤◌, ◌≡◌, refl, sym, ap, ◌∙◌, subst, Option, none, some, String, List, [], ◌∷◌, ◌++◌, arith,
  if◌then◌else◌, if-cases, append-nil, append_assoc, str_eq, eq_of_str_eq, ne_of_str_eq,
}
use binbot.Dict.{Dict, get, get_or, get_or-put_self, get_or-put_ne}
use binbot.Core.Events.{DateTime}
use binbot.Data.UniverseFeed.{
  History, UniverseFeed, Item, quote, malformed, append_trimmed, append_for, handle_items,
  handle_message, count_message, stream,
}
use binbot.Data.UniverseFeed.Windows.{recent, IsRising, IsRising-append, append_trimmed-eq-recent}

abbrev pub Messages : Type 0 → Type 0
Messages F = List (DateTime × Option (List (Item F)))

module _ {F : Type 0} (pick : F → F → F) where
  -- The points of one symbol in a payload, and in all messages, in the order of their arrival.
  unfoldable pub item_points : String → DateTime → List (Item F) → History F
  item_points s now [] = []
  item_points s now (malformed ∷ items) = item_points s now items
  item_points s now (quote symbol price rate ∷ items) =
      let rest = item_points s now items in
      if str_eq symbol s then (now, pick price rate) ∷ rest else rest

  unfoldable pub points : String → Messages F → History F
  points s [] = []
  points s ((now, none) ∷ messages) = points s messages
  points s ((now, some items) ∷ messages) = item_points s now items ++ points s messages

  -- What the messages do to one of the feed's histories.
  unfoldable fill_items : ℕ → DateTime → List (Item F) → Dict (History F) → Dict (History F)
  fill_items w now [] d = d
  fill_items w now (malformed ∷ items) d = fill_items w now items d
  fill_items w now (quote symbol price rate ∷ items) d =
      fill_items w now items (append_for w now symbol (pick price rate) d)

  unfoldable fill : ℕ → Messages F → Dict (History F) → Dict (History F)
  fill w [] d = d
  fill w ((now, none) ∷ messages) d = fill w messages d
  fill w ((now, some items) ∷ messages) d = fill w messages (fill_items w now items d)

-- The time of the last point.
abbrev pub last_from : {F : Type 0} → DateTime → History F → DateTime
last_from t [] = t
last_from t (p ∷ history) = last_from p.0 history

module _ {F : Type 0} where
  -- The points within the window before the last one.
  abbrev pub window_of : ℕ → History F → History F
  window_of w all = recent w (last_from 0 all) all

  -- Messages arrive one after the other.
  abbrev pub IsInOrder : DateTime → Messages F → Type 0
  IsInOrder lo [] = Unit
  IsInOrder lo ((now, payload) ∷ messages) = (lo ≤ now) × IsInOrder now messages

  last_from-append :
      (t ts : DateTime) (v : F) (all : History F) → last_from t (all ++ (ts, v) ∷ []) ≡ ts
  last_from-append t ts v [] = refl
  last_from-append t ts v (p ∷ all) = last_from-append p.0 ts v all

  -- The history of a symbol is the window of the points so far, which came up to a time.
  abbrev Holds : ℕ → DateTime → String → History F → Dict (History F) → Type 0
  Holds w now s all d =
      (IsRising 0 (last_from 0 all) all × (last_from 0 all ≤ now))
      × (get_or d s [] ≡ window_of w all)

  Holds-append :
      (w t now : ℕ) (s : String) (v : F) (all : History F) (d : Dict (History F))
      → t ≤ now
      → Holds w t s all d
      → Holds w now s (all ++ (now, v) ∷ []) (append_for w now s v d)
  Holds-append w t now s v all d k h =
      let last = last_from-append 0 now v all in
      let before : last_from 0 all ≤ now = omega (arith, h.0.1) in
      let rising = IsRising-append 0 (last_from 0 all) now v all h.0.0 before in
      (
        (subst (λ hi. IsRising 0 hi (all ++ (now, v) ∷ [])) (sym last) rising, omega (arith, last)),
        get_or-put_self d s (append_trimmed w now v (get_or d s [])) []
            ∙ ap (append_trimmed w now v) h.1
            ∙ append_trimmed-eq-recent w (last_from 0 all) now v all h.0.0 before
            ∙ ap (λ (hi : DateTime). recent w hi (all ++ (now, v) ∷ [])) (sym last),
      )

module _ {F : Type 0} (pick : F → F → F) where
  Holds-later :
      (w t now : ℕ) (s : String) (all : History F) (d : Dict (History F))
      → t ≤ now
      → Holds w t s all d
      → Holds w now s all d
  Holds-later w t now s all d k h = ((h.0.0, omega (arith, h.0.1)), h.1)

  Holds-fill_items :
      (w now : ℕ) (s : String) (items : List (Item F)) (all : History F) (d : Dict (History F))
      → Holds w now s all d
      → Holds w now s (all ++ item_points pick s now items) (fill_items pick w now items d)
  unfolding item_points fill_items
  Holds-fill_items w now s [] all d h = subst (λ xs. Holds w now s xs d) (sym (append-nil all)) h
  Holds-fill_items w now s (malformed ∷ items) all d h = Holds-fill_items w now s items all d h
  Holds-fill_items w now s (quote symbol price rate ∷ items) all d h =
      let v = pick price rate in
      let rest = item_points pick s now items in
      let d' = append_for w now symbol v d in
      let d'' = fill_items pick w now items d' in
      if-cases (λ (xs : History F). Holds w now s (all ++ xs) d'') (str_eq symbol s)
        ((now, v) ∷ rest) rest
        (λ t.
          subst (λ xs. Holds w now s xs d'') (append_assoc all ((now, v) ∷ []) rest)
            (Holds-fill_items w now s items (all ++ (now, v) ∷ []) d' (
              subst (λ k. Holds w now s (all ++ (now, v) ∷ []) (append_for w now k v d))
                (sym (eq_of_str_eq symbol s t))
                (Holds-append w now now s v all d (omega arith) h))))
        (λ f. Holds-fill_items w now s items all d' (
          h.0,
          get_or-put_ne d symbol s (append_trimmed w now v (get_or d symbol [])) []
                (ne_of_str_eq symbol s f)
              ∙ h.1,
        ))

  Holds-fill :
      (w t : ℕ) (s : String) (messages : Messages F) (all : History F) (d : Dict (History F))
      → IsInOrder t messages
      → Holds w t s all d
      → get_or (fill pick w messages d) s [] ≡ window_of w (all ++ points pick s messages)
  unfolding points fill
  Holds-fill w t s [] all d k h = h.1 ∙ ap (window_of w) (sym (append-nil all))
  Holds-fill w t s ((now, none) ∷ messages) all d k h =
      Holds-fill w now s messages all d k.1 (Holds-later w t now s all d k.0 h)
  Holds-fill w t s ((now, some items) ∷ messages) all d k h =
      let more = item_points pick s now items in
      Holds-fill w now s messages (all ++ more) (fill_items pick w now items d) k.1
        (Holds-fill_items w now s items all d (Holds-later w t now s all d k.0 h))
      ∙ ap (window_of w) (append_assoc all more (points pick s messages))

  get_or-fill :
      (w t : ℕ) (s : String) (messages : Messages F)
      → IsInOrder t messages
      → get_or (fill pick w messages []) s [] ≡ window_of w (points pick s messages)
  unfolding get
  get_or-fill w t s messages k =
      Holds-fill w t s messages [] [] k ((omega arith, omega arith), refl)

module _ {W F : Type 0} where
  -- Each of the feed's two histories, for itself.
  histories-handle_items :
      (now : DateTime) (items : List (Item F)) (u : UniverseFeed W F)
      → ((handle_items now items u).price_history
          ≡ fill_items (λ p r. p) u.price_window now items u.price_history)
        × ((handle_items now items u).funding_history
            ≡ fill_items (λ p r. r) u.funding_window now items u.funding_history)
        × ((handle_items now items u).price_window ≡ u.price_window)
        × ((handle_items now items u).funding_window ≡ u.funding_window)
  unfolding handle_items fill_items
  histories-handle_items now [] u = (refl, refl, refl, refl)
  histories-handle_items now (malformed ∷ items) u = histories-handle_items now items u
  histories-handle_items now (quote symbol p r ∷ items) u = histories-handle_items now items _

  histories-stream :
      (messages : Messages F) (u : UniverseFeed W F)
      → ((stream messages u).price_history
          ≡ fill (λ p r. p) u.price_window messages u.price_history)
        × ((stream messages u).funding_history
            ≡ fill (λ p r. r) u.funding_window messages u.funding_history)
  unfolding stream handle_message fill
  histories-stream [] u = (refl, refl)
  histories-stream ((now, none) ∷ messages) u = histories-stream messages u
  histories-stream ((now, some items) ∷ messages) u =
      let h = histories-handle_items now items u in
      let later = histories-stream messages (count_message (handle_items now items u)) in
      (
        later.0
            ∙ ap (λ w. fill (λ p r. p) w messages (handle_items now items u).price_history) h.2
            ∙ ap (fill (λ p r. p) u.price_window messages) h.0,
        later.1
            ∙ ap (λ w. fill (λ p r. r) w messages (handle_items now items u).funding_history) h.3
            ∙ ap (fill (λ p r. r) u.funding_window messages) h.1,
      )

  -- A feed without history that takes in messages whose times do not fall keeps of every symbol exactly the prices that
  -- came within the price window before the symbol's last one, and the funding rates within theirs, in their order.
  pub stream-eq-window :
      (messages : Messages F) (s : String) (u : UniverseFeed W F)
      → IsInOrder 0 messages
      → u.price_history ≡ []
      → u.funding_history ≡ []
      → (get_or (stream messages u).price_history s []
          ≡ window_of u.price_window (points (λ p r. p) s messages))
        × (get_or (stream messages u).funding_history s []
            ≡ window_of u.funding_window (points (λ p r. r) s messages))
  stream-eq-window messages s u k e g =
      let h = histories-stream messages u in
      (
        ap (λ d. get_or d s []) (h.0 ∙ ap (fill (λ p r. p) u.price_window messages) e)
            ∙ get_or-fill (λ p r. p) u.price_window 0 s messages k,
        ap (λ d. get_or d s []) (h.1 ∙ ap (fill (λ p r. r) u.funding_window messages) g)
            ∙ get_or-fill (λ p r. r) u.funding_window 0 s messages k,
      )
