-- ===== src/Risk/RateLimiter/Window.antt =====
-- Dropping from the left of a rising window keeps exactly the times that are not too old.
use binbot.Base.{◌≡◌, Bool, true, not, List, [], ◌∷◌, arith, filter, refl, ap}
use binbot.Float.{Float, ◌-F◌, ◌<F◌, ◌≤F◌, IsOrdered, IsMonotone}
use binbot.Risk.RateLimiter.{drop_old}

module _ {F : Type 0} ⦃f : Float F⦄ where
  -- `t` is within `span` of `now`.
  abbrev pub fresh : F → F → F → Bool
  fresh span now t = not (span <F now -F t)

  -- The times rise from `t0` on.
  abbrev pub Rising : F → List F → Type 0
  Rising t0 [] = Unit
  Rising t0 (t ∷ ts) = ((t0 ≤F t) ≡ true) × Rising t ts

  pub filter-filter :
      (p q : F → Bool) (ts : List F)
      → ((t : F) → q t ≡ true → p t ≡ true)
      → filter q (filter p ts) ≡ filter q ts
  filter-filter p q [] h = refl
  filter-filter p q (t ∷ ts) h = ground (arith, h t, filter-filter p q ts h)

  module _ (order : IsOrdered F) (mono : IsMonotone F) (span : F) where
    -- What is fresh later was fresh before.
    pub fresh_later :
        (now later t : F)
        → (now ≤F later) ≡ true
        → fresh span later t ≡ true
        → fresh span now t ≡ true
    fresh_later now later t h k = ground (
      arith,
      order.lt-eq-not-le span (later -F t),
      order.lt-eq-not-le span (now -F t),
      order.le_trans (now -F t) (later -F t) span,
      mono.sub_mono_left now later t h,
    )

    -- What comes after a fresh time is fresh.
    fresh_after :
        (now t u : F) → (t ≤F u) ≡ true → fresh span now t ≡ true → fresh span now u ≡ true
    fresh_after now t u h k = ground (
      arith,
      order.lt-eq-not-le span (now -F t),
      order.lt-eq-not-le span (now -F u),
      order.le_trans (now -F u) (now -F t) span,
      mono.sub_anti_right t u now h,
    )

    filter_all_fresh :
        (now t : F) (ts : List F)
        → Rising t ts
        → fresh span now t ≡ true
        → filter (fresh span now) ts ≡ ts
    filter_all_fresh now t [] r h = refl
    filter_all_fresh now t (u ∷ us) r h =
        let k : fresh span now u ≡ true = fresh_after now t u r.0 h in
        rw k (ap (◌∷◌ u) (filter_all_fresh now u us r.1 k))

    pub drop_old-eq-filter :
        (now t0 : F) (ts : List F)
        → Rising t0 ts
        → drop_old span now ts ≡ filter (fresh span now) ts
    unfolding drop_old
    drop_old-eq-filter now t0 [] r = refl
    drop_old-eq-filter now t0 (t ∷ ts) r =
        ground (arith, drop_old-eq-filter now t ts r.1, filter_all_fresh now t ts r.1)
