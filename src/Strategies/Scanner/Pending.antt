-- ===== src/Strategies/Scanner/Pending.antt =====
-- A pending entry keeps a second one away.
use binbot.Base.{
  member, if-cases, ℕ, suc, ◌+◌, ◌≡◌, ◌≢◌, refl, sym, ap, ◌∙◌, Bool, true, false, not, Option, none,
  some, String, List, [], ◌∷◌, ◌++◌, ℤ, pos, leb_ℤ, length, filter, Result, ok, err, arith, str_eq,
  if◌then◌else◌,
}
use binbot.Float.{Float, ◌-F◌, ◌<F◌, lit}
use binbot.Dict.{Dict, get, keys, get-put_ne}
use binbot.Core.Enums.{OrderSide}
use binbot.Core.Events.{BarEvent, SignalEvent}
use binbot.Strategies.BaseStrategy.{is_wanted}
use binbot.Strategies.Scanner.{
  Scanner, Market, evaluate_entry, prune, occupied, order_lots, signal, enter, on_bar, dispatch_bar,
  is_stale, dispatch_bars,
}
use binbot.Strategies.Scanner.Entry.{member-append, member-filter_out}

module _ {F : Type 0} where
  -- The signals for a symbol.
  abbrev pub signal_count : String → List (SignalEvent F) → ℕ
  signal_count s [] = 0
  signal_count s (x ∷ xs) = if str_eq x.symbol s then suc (signal_count s xs) else signal_count s xs

  signal_count-append :
      (s : String) (xs ys : List (SignalEvent F))
      → signal_count s (xs ++ ys) ≡ signal_count s xs + signal_count s ys
  signal_count-append s [] ys = omega arith
  signal_count-append s (x ∷ xs) ys = ground (arith, signal_count-append s xs ys)

  member-keys : (d : Dict F) (s : String) (t : F) → get d s ≡ some t → member s (keys d) ≡ true
  unfolding get
  member-keys [] s t h = ground arith
  member-keys ((j, v) ∷ d) s t h = ground (arith, member-keys d s t)

  member-occupied :
      (held : List String) (d : Dict F) (s : String) (t : F)
      → member s held ≡ false
      → get d s ≡ some t
      → member s (occupied held d) ≡ true
  member-occupied held d s t h g =
      let free : String → Bool = λ u. not (member u held) in
      member-append s held (filter free (keys d))
      ∙ (let e = member-filter_out s held (keys d) h in let k = member-keys d s t g in ground arith)

  abbrev After : String → F → ℕ → Result (Unit {0}) × Scanner F → Type 0
  After s t n y = (get y.1.pending_entries s ≡ some t) × (signal_count s y.1.signals ≡ n)

  -- s is pending since t and has had n signals.
  abbrev pub IsPending : String → F → ℕ → Scanner F → Type 0
  IsPending s t n x = (get x.pending_entries s ≡ some t) × (signal_count s x.signals ≡ n)

module _ {F : Type 0} ⦃f : Float F⦄ where
  get-prune :
      (held : List String) (now : F) (d : Dict F) (s : String) (t : F)
      → is_stale held now s t ≡ false
      → get d s ≡ some t
      → get (prune held now d) s ≡ some t
  unfolding get prune
  get-prune held now [] s t h g = g
  get-prune held now ((j, v) ∷ d) s t h g =
      let k : j ≡ s → v ≡ t → is_stale held now j v ≡ false =
        λ e e'. ap (λ u. is_stale held now u v) e ∙ ap (is_stale held now s) e' ∙ h in
      ground (arith, get-prune held now d s t h)

  enter-IsPending :
      (w : Market F) (bar : BarEvent F) (side : Option OrderSide) (lots : Result ℤ) (s : String)
      (t : F) (n : ℕ) (x : Scanner F)
      → bar.symbol ≢ s
      → IsPending s t n x
      → IsPending s t n (enter w bar side lots x).1
  enter-IsPending w bar none lots s t n x h k = k
  enter-IsPending w bar (some side) (err e) s t n x h k = k
  enter-IsPending w bar (some side) (ok lots) s t n x h k =
      if-cases (After s t n) (leb_ℤ lots (pos 0)) _ _ (λ _. k)
        (λ _. (
          get-put_ne x.pending_entries bar.symbol s w.monotonic_at_entry h ∙ k.0,
          (let e = signal_count-append s x.signals (signal x w bar.symbol side lots ∷ []) in
              ground arith),
        ))

  on_bar-IsPending :
      (w : Market F) (bar : BarEvent F) (s : String) (t : F) (n : ℕ) (x : Scanner F)
      → member s w.open_symbols ≡ false
      → (lit 10 <F w.monotonic -F t) ≡ false
      → IsPending s t n x
      → IsPending s t n (on_bar w bar x).1
  unfolding on_bar
  on_bar-IsPending w bar s t n x h l k =
      let pending = prune w.open_symbols w.monotonic x.pending_entries in
      let x₁ = record x { pending_entries = pending } in
      let occ = occupied w.open_symbols pending in
      let side = evaluate_entry w.price_change_pct w.funding_trend x.params.price_jump_pct in
      let lots = order_lots w x.params bar.close in
      let full = leb_ℤ x.params.max_open_positions (pos (length occ)) in
      let g = get-prune w.open_symbols w.monotonic x.pending_entries s t (ground arith) k.0 in
      let P : Result (Unit {0}) × Scanner F → Type 0 = λ y. IsPending s t n y.1 in
      if-cases P (member bar.symbol occ) (ok tt, x₁)
        (if full then (ok tt, x₁) else enter w bar side lots x₁) (λ _. (g, k.1))
        (λ free.
          if-cases P full (ok tt, x₁) (enter w bar side lots x₁) (λ _. (g, k.1))
            (λ _.
              enter-IsPending w bar side lots s t n x₁
                (λ e.
                  let m = member-occupied w.open_symbols pending s t h g in
                  let q : true ≡ false = sym m ∙ ap (λ u. member u occ) (sym e) ∙ free in
                  ground arith)
                (g, k.1)))

  -- Every bar finds s not held, and at most ten seconds since t.
  abbrev pub IsWaiting : String → F → List (Market F × BarEvent F) → Type 0
  IsWaiting s t [] = Unit
  IsWaiting s t ((w, bar) ∷ bars) =
      ((member s w.open_symbols ≡ false) × ((lit 10 <F w.monotonic -F t) ≡ false))
      × IsWaiting s t bars

  -- A pending symbol stays pending and gets no further signal, over any bars that find it not yet held within
  -- ten seconds of its entry.
  pub no_second_entry :
      (s : String) (t : F) (bars : List (Market F × BarEvent F)) (x : Scanner F)
      → get x.pending_entries s ≡ some t
      → IsWaiting s t bars
      → (get (dispatch_bars bars x).pending_entries s ≡ some t)
        × (signal_count s (dispatch_bars bars x).signals ≡ signal_count s x.signals)
  unfolding dispatch_bars dispatch_bar
  no_second_entry s t [] x g h = (g, refl)
  no_second_entry s t ((w, bar) ∷ bars) x g h =
      let one =
        if-cases (After s t (signal_count s x.signals)) (is_wanted x.base bar.symbol)
          (on_bar w bar x) (ok tt, x) (λ _. on_bar-IsPending w bar s t _ x h.0.0 h.0.1 (g, refl))
          (λ _. (g, refl)) in
      let rest = no_second_entry s t bars (dispatch_bar w bar x).1 one.0 h.1 in
      (rest.0, rest.1 ∙ one.1)
