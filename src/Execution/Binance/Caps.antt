-- ===== src/Execution/Binance/Caps.antt =====
-- The leverage that a symbol is configured with.
use binbot.Base.{
  ℕ, ◌<◌, ◌≡◌, ◌⊎◌, refl, true, Option, none, some, String, arith, ltb, if-cases, if◌then◌else◌, ok,
  err, call_failed, inl, inr,
}
use binbot.Dict.{get, contains, get-put_self}
use binbot.Execution.Binance.{
  BinanceFuturesBroker, request_of, change_leverage, change_margin_type, leverage_bracket,
}
use binbot.Execution.Binance.Symbols.{Answers, Outcome}
use binbot.Execution.Binance.Leverage.{configure_leverage_and_margin, cap_leverage, remember}

module _ {F : Type 0} where
  -- The leverage that the exchange runs the symbol with: the one asked for, or else its lower bracket.
  abbrev pub IsEffective : Answers F → String → ℕ → ℕ → Type 0
  IsEffective answers symbol leverage n =
      (answers.accepts symbol n ≡ true)
      × ((n ≡ leverage) ⊎ ((answers.bracket symbol ≡ some n) × (n < leverage)))

  -- What a return notes is in force, and an exception leaves no note.
  abbrev pub Configured : Answers F → String → ℕ → String → Outcome (Unit {0}) F → Type 0
  Configured answers symbol leverage margin_type (err e, b) =
      get b.configured_leverage_margin symbol ≡ none
  Configured answers symbol leverage margin_type (ok u, b) =
      (n : ℕ) × (IsEffective answers symbol leverage n
        × (get b.configured_leverage_margin symbol ≡ some (n, margin_type)))

  Configured-cap_leverage :
      (answers : Answers F) (symbol : String) (leverage : ℕ) (margin_type : String) (o : Option ℕ)
      (b : BinanceFuturesBroker F)
      → get b.configured_leverage_margin symbol ≡ none
      → answers.bracket symbol ≡ o
      → Configured answers symbol leverage margin_type
          (cap_leverage answers symbol leverage margin_type o b)
  unfolding cap_leverage
  Configured-cap_leverage answers symbol leverage margin_type none b h e = h
  Configured-cap_leverage answers symbol leverage margin_type (some n) b h e =
      let b' = request_of (change_leverage symbol n) b in
      if-cases (Configured answers symbol leverage margin_type) (ltb n leverage)
        (if answers.accepts symbol n
          then (ok tt, remember symbol n margin_type b')
          else (err call_failed, b'))
        (err call_failed, b)
        (λ less.
          if-cases (Configured answers symbol leverage margin_type) (answers.accepts symbol n)
            (ok tt, remember symbol n margin_type b') (err call_failed, b')
            (λ t. (
              n,
              (
                (t, inr (e, ground arith)),
                get-put_self b.configured_leverage_margin symbol (n, margin_type),
              ),
            ))
            (λ f. h))
        (λ f. h)

  Configured-configure :
      (answers : Answers F) (symbol : String) (leverage : ℕ) (margin_type : String)
      (b : BinanceFuturesBroker F)
      → get b.configured_leverage_margin symbol ≡ none
      → Configured answers symbol leverage margin_type
          (configure_leverage_and_margin answers symbol leverage margin_type b)
  unfolding configure_leverage_and_margin
  Configured-configure answers symbol leverage margin_type b h =
      let b' =
        request_of (change_leverage symbol leverage)
          (request_of (change_margin_type symbol margin_type) b) in
      let capped =
        cap_leverage answers symbol leverage margin_type (answers.bracket symbol)
          (request_of (leverage_bracket symbol) b') in
      if-cases (Configured answers symbol leverage margin_type)
        (contains b.configured_leverage_margin symbol) (ok tt, b)
        (if answers.accepts symbol leverage
          then (ok tt, remember symbol leverage margin_type b')
          else capped)
        (λ t. ground (arith, t, h))
        (λ f.
          if-cases (Configured answers symbol leverage margin_type)
            (answers.accepts symbol leverage) (ok tt, remember symbol leverage margin_type b')
            capped
            (λ t. (
              leverage,
              (
                (t, inl refl),
                get-put_self b.configured_leverage_margin symbol (leverage, margin_type),
              ),
            ))
            (λ g.
              Configured-cap_leverage answers symbol leverage margin_type (answers.bracket symbol)
                (request_of (leverage_bracket symbol) b') h refl))

  configure_again :
      (answers : Answers F) (symbol : String) (leverage : ℕ) (margin_type : String)
      (b : BinanceFuturesBroker F) (v : ℕ × String)
      → get b.configured_leverage_margin symbol ≡ some v
      → configure_leverage_and_margin answers symbol leverage margin_type b ≡ (ok tt, b)
  unfolding configure_leverage_and_margin
  configure_again answers symbol leverage margin_type b v h =
      if-cases (λ (x : Outcome (Unit {0}) F). x ≡ (ok tt, b))
        (contains b.configured_leverage_margin symbol) (ok tt, b) _ (λ t. refl)
        (λ f. ground (arith, f, h))

  again_from_Configured :
      (answers answers' : Answers F) (symbol : String) (leverage leverage' : ℕ)
      (margin_type margin_type' : String) (x : Outcome (Unit {0}) F)
      → Configured answers symbol leverage margin_type x
      → x.0 ≡ ok tt
      → configure_leverage_and_margin answers' symbol leverage' margin_type' x.1 ≡ x
  again_from_Configured answers answers' symbol leverage leverage' margin_type margin_type'
        (err e, b) h k =
      ground (arith, k)
  again_from_Configured answers answers' symbol leverage leverage' margin_type margin_type'
        (ok u, b) h k =
      configure_again answers' symbol leverage' margin_type' b (h.0, margin_type) h.1.1

  -- A symbol without a configuration: where the method returns, the exchange accepted the leverage that is noted, and that is
  -- the one asked for or, below it, the symbol's own bracket; where it raises, nothing is noted. After a call that
  -- has returned, a second one for the symbol, whatever it asks for and the exchange answers, returns at once and changes
  -- nothing.
  pub configure-Configured :
      (answers : Answers F) (symbol : String) (leverage : ℕ) (margin_type : String)
      (b : BinanceFuturesBroker F)
      → get b.configured_leverage_margin symbol ≡ none
      → let outcome = configure_leverage_and_margin answers symbol leverage margin_type b in
        Configured answers symbol leverage margin_type outcome
        × ((answers' : Answers F) (leverage' : ℕ) (margin_type' : String)
            → outcome.0 ≡ ok tt
            → configure_leverage_and_margin answers' symbol leverage' margin_type' outcome.1
              ≡ outcome)
  configure-Configured answers symbol leverage margin_type b h =
      let first = Configured-configure answers symbol leverage margin_type b h in
      (
        first,
        λ answers' leverage' margin_type' k.
            again_from_Configured answers answers' symbol leverage leverage' margin_type
              margin_type' (configure_leverage_and_margin answers symbol leverage margin_type b)
              first k,
      )
