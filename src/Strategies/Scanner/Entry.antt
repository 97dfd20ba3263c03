-- ===== src/Strategies/Scanner/Entry.antt =====
-- When a bar leads to a signal.
use binbot.Base.{
  filter-append, member, if-cases, suc, ◌≡◌, refl, sym, ap, ◌∙◌, ◌⊎◌, inl, inr, Bool, true, false,
  not, Option, none, some, String, List, [], ◌∷◌, ◌++◌, ℤ, pos, ◌≤ℤ◌, leb_ℤ, length, length-append,
  filter, Result, ok, err, ◌||◌, arith, if◌then◌else◌,
}
use binbot.Float.{Float, ◌<F◌, ◌≤F◌, lit}
use binbot.Dict.{Dict, put, keys}
use binbot.Core.Enums.{OrderSide, buy, sell}
use binbot.Core.Events.{BarEvent, SignalEvent}
use binbot.Strategies.BaseStrategy.{is_wanted}
use binbot.Strategies.Scanner.{
  Scanner, Market, evaluate_entry, prune, occupied, order_lots, signal, enter, on_bar, dispatch_bar,
}

keys-put_new :
    {V : Type 0} (d : Dict V) (k : String) (v : V)
    → member k (keys d) ≡ false
    → keys (put d k v) ≡ keys d ++ k ∷ []
unfolding put
keys-put_new [] k v h = refl
keys-put_new ((j, w) ∷ d) k v h = ground (arith, keys-put_new d k v)

pub member-append :
    (s : String) (xs ys : List String) → member s (xs ++ ys) ≡ (member s xs || member s ys)
member-append s [] ys = refl
member-append s (x ∷ xs) ys = ground (arith, member-append s xs ys)

pub member-filter_out :
    (s : String) (held xs : List String)
    → member s held ≡ false
    → member s (filter (λ t. not (member t held)) xs) ≡ member s xs
member-filter_out s held [] h = refl
member-filter_out s held (x ∷ xs) h =
    let k : s ≡ x → member x held ≡ false = λ e. ap (λ u. member u held) (sym e) ∙ h in
    ground (arith, member-filter_out s held xs h)

-- An entry occupies one more place.
length-occupied :
    {F : Type 0} (held : List String) (pending : Dict F) (s : String) (t : F)
    → member s (occupied held pending) ≡ false
    → (member s held ≡ false)
      × (length (occupied held (put pending s t)) ≡ suc (length (occupied held pending)))
length-occupied held pending s t h =
    let free : String → Bool = λ t. not (member t held) in
    let split = member-append s held (filter free (keys pending)) in
    let out : member s held ≡ false = ground arith in
    let new : member s (keys pending) ≡ false =
      (let e = member-filter_out s held (keys pending) out in ground arith) in
    let one : filter free (s ∷ []) ≡ s ∷ [] = ground arith in
    let rest = filter free (keys pending) in
    let e = length-append held (rest ++ s ∷ []) in
    let e' = length-append rest (s ∷ []) in
    let e'' = length-append held rest in
    (
      out,
      ap (λ ks. length (held ++ filter free ks)) (keys-put_new pending s t new)
          ∙ ap (λ ks. length (held ++ ks)) (filter-append free (keys pending) (s ∷ []))
          ∙ ap (λ ks. length (held ++ (rest ++ ks))) one
          ∙ omega (arith, e, e', e''),
    )

module _ {F : Type 0} ⦃f : Float F⦄ where
  -- The market conditions of an entry on a side.
  abbrev pub IsSetup : Market F → F → OrderSide → Type 0
  IsSetup w jump side =
      (change now start : F) × (w.price_change_pct ≡ some change)
      × (w.funding_trend ≡ some (now, start))
      × (side ≡ buy → (jump ≤F change ≡ true) × (now <F start ≡ true))
      × (side ≡ sell
          → (change ≤F f.minus jump ≡ true) × (start <F lit 0 ≡ true) × (start <F now ≡ true))

  evaluate_entry-IsSetup :
      (w : Market F) (jump : F) (change : Option F) (funding : Option (F × F)) (side : OrderSide)
      → w.price_change_pct ≡ change
      → w.funding_trend ≡ funding
      → evaluate_entry change funding jump ≡ some side
      → IsSetup w jump side
  unfolding evaluate_entry
  evaluate_entry-IsSetup w jump none funding side e g h = ground arith
  evaluate_entry-IsSetup w jump (some change) none side e g h = ground arith
  evaluate_entry-IsSetup w jump (some change) (some (now, start)) side e g h =
      (change, now, start, e, g, (λ b. ground arith), λ b. ground arith)

  -- What an entry promises.
  abbrev pub IsEntry : Market F → BarEvent F → Scanner F → Scanner F → Type 0
  IsEntry w bar s s' =
      (sig : SignalEvent F) × (s'.signals ≡ s.signals ++ sig ∷ [])
      × (sig.symbol ≡ bar.symbol)
      × (pos 1 ≤ℤ sig.target_quantity)
      × IsSetup w s.params.price_jump_pct sig.side
      × (member bar.symbol w.open_symbols ≡ false)
      × (pos (length (occupied w.open_symbols s'.pending_entries)) ≤ℤ s.params.max_open_positions)

  enter_if-IsEntry :
      (w : Market F) (bar : BarEvent F) (side : OrderSide) (lots : ℤ) (s : Scanner F) (b : Bool)
      → leb_ℤ lots (pos 0) ≡ b
      → IsSetup w s.params.price_jump_pct side
      → (member bar.symbol w.open_symbols ≡ false)
        × (length (occupied w.open_symbols (put s.pending_entries bar.symbol w.monotonic_at_entry))
            ≡ suc (length (occupied w.open_symbols s.pending_entries)))
      → leb_ℤ s.params.max_open_positions (pos (length (occupied w.open_symbols s.pending_entries)))
        ≡ false
      → let s' = record s {
        pending_entries = put s.pending_entries bar.symbol w.monotonic_at_entry;
        signals = s.signals ++ signal s w bar.symbol side lots ∷ [];
      } in
        let x : Result (Unit {0}) × Scanner F = if b then (ok tt, s) else (ok tt, s') in
        (x.1.signals ≡ s.signals) ⊎ IsEntry w bar s x.1
  enter_if-IsEntry w bar side lots s true e k m l = inl refl
  enter_if-IsEntry w bar side lots s false e k m l =
      let g = m.1 in
      inr (signal s w bar.symbol side lots, refl, refl, ground arith, k, m.0, ground arith)

  enter-IsEntry :
      (w : Market F) (bar : BarEvent F) (side : Option OrderSide) (lots : Result ℤ) (s : Scanner F)
      → evaluate_entry w.price_change_pct w.funding_trend s.params.price_jump_pct ≡ side
      → member bar.symbol (occupied w.open_symbols s.pending_entries) ≡ false
      → leb_ℤ s.params.max_open_positions (pos (length (occupied w.open_symbols s.pending_entries)))
        ≡ false
      → ((enter w bar side lots s).1.signals ≡ s.signals)
        ⊎ IsEntry w bar s (enter w bar side lots s).1
  enter-IsEntry w bar none lots s h m l = inl refl
  enter-IsEntry w bar (some side) (err e) s h m l = inl refl
  enter-IsEntry w bar (some side) (ok lots) s h m l =
      enter_if-IsEntry w bar side lots s (leb_ℤ lots (pos 0)) refl
        (evaluate_entry-IsSetup w _ w.price_change_pct w.funding_trend side refl refl h)
        (length-occupied w.open_symbols s.pending_entries bar.symbol w.monotonic_at_entry m) l

  -- A bar of a strategy leads to no signal, or to one for its symbol of at least one lot, in a setup for
  -- its side, for a wanted symbol of an active strategy that is neither held nor pending; the held and
  -- pending symbols are then at most max_open_positions.
  pub dispatch_bar-IsEntry :
      (w : Market F) (bar : BarEvent F) (s : Scanner F)
      → ((dispatch_bar w bar s).1.signals ≡ s.signals)
        ⊎ (s.base.active ≡ true)
          × (member bar.symbol s.base.symbols ≡ true)
          × (member bar.symbol
                (occupied w.open_symbols (prune w.open_symbols w.monotonic s.pending_entries))
              ≡ false)
          × IsEntry w bar s (dispatch_bar w bar s).1
  unfolding dispatch_bar is_wanted on_bar
  dispatch_bar-IsEntry w bar s =
      let pending = prune w.open_symbols w.monotonic s.pending_entries in
      let m = member bar.symbol (occupied w.open_symbols pending) in
      let P : Result (Unit {0}) × Scanner F → Type 0 = λ x.
        (x.1.signals ≡ s.signals)
        ⊎ (s.base.active ≡ true)
          × (member bar.symbol s.base.symbols ≡ true)
          × (m ≡ false)
          × IsEntry w bar s x.1 in
      if-cases P (is_wanted s.base bar.symbol) _ _
        (λ wanted.
          if-cases P m _ _ (λ _. inl refl)
            (λ free.
              if-cases P _ _ _ (λ _. inl refl)
                (λ room.
                  elim (enter-IsEntry w bar
                    (evaluate_entry w.price_change_pct w.funding_trend s.params.price_jump_pct)
                    (order_lots w s.params bar.close) (record s { pending_entries = pending }) refl
                    free room) [
                      | inl e ↦ inl e
                      | inr k ↦ inr (ground arith, ground arith, free, k)
                    ])))
        (λ _. inl refl)
