-- ===== src/Risk/RateLimiter/Bound.antt =====
-- The limiter of risk/risk_engine.py against the whole history of the orders that it accepted.
use binbot.Base.{
  filter-append, ℕ, ◌≡◌, ◌↔◌, Bool, true, false, List, [], ◌∷◌, ◌++◌, arith, filter, refl, ◌∙◌,
  Bool-cases, inl, inr, ℤ, pos, ◌≤ℤ◌, leb_ℤ, length, length-append,
}
use binbot.Float.{Float, ◌-F◌, ◌≤F◌, lit, IsOrdered, IsMonotone}
use binbot.Risk.RateLimiter.{TokenRateLimiter, drop_old, try_acquire}
use binbot.Risk.RateLimiter.Window.{fresh, Rising, filter-filter, fresh_later, drop_old-eq-filter}

module _ {F : Type 0} ⦃f : Float F⦄ where
  -- `_second_window` and `_minute_window` start empty.
  unfoldable pub fresh_limiter : F → ℤ → TokenRateLimiter F
  fresh_limiter per_second per_minute = record {
    max_per_second = per_second;
    max_per_minute = per_minute;
    second_window = [];
    minute_window = [];
  }

  -- A run of attempts, with the times of the accepted ones, oldest first.
  abbrev accepted : Bool → F → List F → List F
  accepted true now past = past ++ now ∷ []
  accepted false now past = past

  unfoldable pub attempts : List F → List F → TokenRateLimiter F → List F × TokenRateLimiter F
  attempts [] past l = (past, l)
  attempts (now ∷ later) past l =
      let (answer, l') = try_acquire now l in attempts later (accepted answer.0 now past) l'

  -- The accepted times that lie within `span` before `now`.
  abbrev pub recent : F → F → List F → List F
  recent span now past = filter (fresh span now) past

  -- Every time of the list is at most `now`.
  abbrev UpTo : F → List F → Type 0
  UpTo now [] = Unit
  UpTo now (t ∷ ts) = ((t ≤F now) ≡ true) × UpTo now ts

  -- A rising list, by the bound of its tail.
  abbrev Ascending : List F → Type 0
  Ascending [] = Unit
  Ascending (t ∷ ts) = Rising t ts

  Rising-append :
      (t0 now : F) (ts : List F)
      → Rising t0 ts
      → (t0 ≤F now) ≡ true
      → UpTo now ts
      → Rising t0 (ts ++ now ∷ [])
  Rising-append t0 now [] r h u = (h, tt)
  Rising-append t0 now (t ∷ ts) r h u = (r.0, Rising-append t now ts r.1 u.0 u.1)

  one_more :
      (ts : List F) (t : F) (n : ℤ)
      → leb_ℤ n (pos (length ts)) ≡ false
      → pos (length (ts ++ t ∷ [])) ≤ℤ n
  one_more ts t n h = rw (length-append ts (t ∷ [])) (ground arith)

  module _ (order : IsOrdered F) (mono : IsMonotone F) (floor_time : F) where
    -- What the windows hold after the attempt at `now`: the recent part of the history.
    record Agrees (now : F) (past : List F) (l : TokenRateLimiter F) : Type 0 where
      rising : Rising floor_time past
      up_to : UpTo now past
      started : (floor_time ≤F now) ≡ true
      seconds : l.second_window ≡ recent (lit 1) now past
      minutes : l.minute_window ≡ recent (lit 60) now past

    UpTo-later : (now later : F) (ts : List F) → (now ≤F later) ≡ true → UpTo now ts → UpTo later ts
    UpTo-later now later [] h u = tt
    UpTo-later now later (t ∷ ts) h u =
        (order.le_trans t now later u.0 h, UpTo-later now later ts h u.1)

    UpTo-append : (now : F) (ts : List F) → UpTo now ts → UpTo now (ts ++ now ∷ [])
    UpTo-append now [] u = (order.le_refl now, tt)
    UpTo-append now (t ∷ ts) u = (u.0, UpTo-append now ts u.1)

    Rising-filter : (t0 : F) (p : F → Bool) (ts : List F) → Rising t0 ts → Rising t0 (filter p ts)
    Rising-filter t0 p [] r = tt
    Rising-filter t0 p (t ∷ ts) r = elim (Bool-cases (p t)) [
      | inl keep ↦ rw keep (r.0, Rising-filter t p ts r.1)
      | inr skip ↦ rw skip (Rising-lower t0 t (filter p ts) r.0 (Rising-filter t p ts r.1))
    ]
      where
        Rising-lower : (s t : F) (us : List F) → (s ≤F t) ≡ true → Rising t us → Rising s us
        Rising-lower s t [] h k = tt
        Rising-lower s t (u ∷ us) h k = (order.le_trans s t u h k.0, k.1)

    -- A window that agreed with the history agrees again once it is trimmed.
    drop_old-recent :
        (span now later : F) (past : List F)
        → Rising floor_time past
        → (now ≤F later) ≡ true
        → drop_old span later (recent span now past) ≡ recent span later past
    drop_old-recent span now later past r h =
        drop_old-eq-filter order mono span later floor_time (recent span now past)
          (Rising-filter floor_time (fresh span now) past r)
        ∙ filter-filter (fresh span now) (fresh span later) past
            (λ t k. fresh_later order mono span now later t h k)

    fresh_self : (n : ℕ) (now : F) → fresh (lit n) now now ≡ true
    fresh_self n now = rw (
      order.lt-eq-not-le (lit n) (now -F now),
      mono.sub_self now,
      mono.of_int_mono (pos 0) (pos n) (omega arith),
    )

    recent_self :
        (n : ℕ) (now : F) (past : List F)
        → recent (lit n) now (past ++ now ∷ []) ≡ recent (lit n) now past ++ now ∷ []
    recent_self n now past =
        rw (filter-append (fresh (lit n) now) past (now ∷ []), fresh_self n now)

    -- One attempt, by the windows trimmed at its time.
    module _ (now later : F) (past : List F) (l : TokenRateLimiter F) (g : Agrees now past l)
        (h : (now ≤F later) ≡ true) where
      trimmed_seconds : drop_old (lit 1) later l.second_window ≡ recent (lit 1) later past
      trimmed_seconds = rw g.seconds (drop_old-recent (lit 1) now later past g.rising h)

      trimmed_minutes : drop_old (lit 60) later l.minute_window ≡ recent (lit 60) later past
      trimmed_minutes = rw g.minutes (drop_old-recent (lit 60) now later past g.rising h)

      try_acquire_iff : ((try_acquire later l).0.0 ≡ true) ↔ (
          ((l.max_per_second ≤F f.of_int (pos (length (recent (lit 1) later past)))) ≡ false)
          × (leb_ℤ l.max_per_minute (pos (length (recent (lit 60) later past))) ≡ false))
      unfolding try_acquire
      try_acquire_iff = rw (trimmed_seconds, trimmed_minutes) (λ k. ground arith, λ k. ground arith)

      try_acquire-windows :
          let (answer, l') = try_acquire later l in
          (l'.second_window ≡ recent (lit 1) later (accepted answer.0 later past))
          × (l'.minute_window ≡ recent (lit 60) later (accepted answer.0 later past))
          × (l'.max_per_second ≡ l.max_per_second)
          × (l'.max_per_minute ≡ l.max_per_minute)
      unfolding try_acquire
      try_acquire-windows = ground (
        arith,
        trimmed_seconds,
        trimmed_minutes,
        recent_self 1 later past,
        recent_self 60 later past,
      )

      later_start : (floor_time ≤F later) ≡ true
      later_start = order.le_trans floor_time now later g.started h

      accepted-Rising : (b : Bool) → Rising floor_time (accepted b later past)
      accepted-Rising true =
          Rising-append floor_time later past g.rising later_start
            (UpTo-later now later past h g.up_to)
      accepted-Rising false = g.rising

      accepted-UpTo : (b : Bool) → UpTo later (accepted b later past)
      accepted-UpTo true = UpTo-append later past (UpTo-later now later past h g.up_to)
      accepted-UpTo false = UpTo-later now later past h g.up_to

      try_acquire-Agrees :
          let (answer, l') = try_acquire later l in Agrees later (accepted answer.0 later past) l'
      try_acquire-Agrees =
          let (answer, l') = try_acquire later l in
          record {
            rising = accepted-Rising answer.0;
            up_to = accepted-UpTo answer.0;
            started = later_start;
            seconds = try_acquire-windows.0;
            minutes = try_acquire-windows.1;
          }

    abbrev last_or : F → List F → F
    last_or now [] = now
    last_or now (t ∷ ts) = last_or t ts

    attempts-Agrees :
        (ts : List F) (now : F) (past : List F) (l : TokenRateLimiter F)
        → Agrees now past l
        → Rising now ts
        → let (past', l') = attempts ts past l in
          Agrees (last_or now ts) past' l'
          × (l'.max_per_second ≡ l.max_per_second)
          × (l'.max_per_minute ≡ l.max_per_minute)
    unfolding attempts
    attempts-Agrees [] now past l g r = (g, refl, refl)
    attempts-Agrees (t ∷ ts) now past l g r =
        let (answer, l') = try_acquire t l in
        let w = try_acquire-windows now t past l g r.0 in
        let ih =
          attempts-Agrees ts t (accepted answer.0 t past) l' (try_acquire-Agrees now t past l g r.0)
            r.1 in
        (ih.0, ih.1 ∙ w.2, ih.2 ∙ w.3)

    ran :
        (per_second : F) (per_minute : ℤ) (ts : List F)
        → Rising floor_time ts
        → let (past, l) = attempts ts [] (fresh_limiter per_second per_minute) in
          Agrees (last_or floor_time ts) past l
          × (l.max_per_second ≡ per_second)
          × (l.max_per_minute ≡ per_minute)
    unfolding fresh_limiter
    ran per_second per_minute ts r =
        attempts-Agrees ts floor_time [] (fresh_limiter per_second per_minute)
          (record {
            rising = tt;
            up_to = tt;
            started = order.le_refl floor_time;
            seconds = refl;
            minutes = refl;
          })
          r

    -- After any run of attempts at rising times, the next attempt is accepted exactly when the orders accepted in the
    -- second and in the minute before it are below the two limits: refusals spend nothing, and the windows
    -- forget nothing that counts.
    pub acquire_by_history :
        (per_second : F) (per_minute : ℤ) (ts : List F) (later : F)
        → Rising floor_time ts
        → (last_or floor_time ts ≤F later) ≡ true
        → let (past, l) = attempts ts [] (fresh_limiter per_second per_minute) in
          ((try_acquire later l).0.0 ≡ true) ↔ (
            ((per_second ≤F f.of_int (pos (length (recent (lit 1) later past)))) ≡ false)
            × (leb_ℤ per_minute (pos (length (recent (lit 60) later past))) ≡ false))
    acquire_by_history per_second per_minute ts later r h =
        let (past, l) = attempts ts [] (fresh_limiter per_second per_minute) in
        let (agrees, second, minute) = ran per_second per_minute ts r in
        rw (second, minute) at (try_acquire_iff (last_or floor_time ts) later past l agrees h)

    -- After any run of attempts at rising times, an accepted attempt brings the orders accepted within the last
    -- 60 seconds to at most `max_per_minute`, itself included, and finds those of the last second below
    -- `max_per_second`.
    pub rate_bound :
        (per_second : F) (per_minute : ℤ) (ts : List F) (later : F)
        → Rising floor_time ts
        → (last_or floor_time ts ≤F later) ≡ true
        → let (past, l) = attempts ts [] (fresh_limiter per_second per_minute) in
          (try_acquire later l).0.0 ≡ true
          → (pos (length (recent (lit 60) later (past ++ later ∷ []))) ≤ℤ per_minute)
            × ((per_second ≤F f.of_int (pos (length (recent (lit 1) later past)))) ≡ false)
    rate_bound per_second per_minute ts later r h ok =
        let (past, l) = attempts ts [] (fresh_limiter per_second per_minute) in
        let (below_second, below_minute) =
          (acquire_by_history per_second per_minute ts later r h).0 ok in
        (
          rw (recent_self 60 later past)
              (one_more (recent (lit 60) later past) later per_minute below_minute),
          below_second,
        )
