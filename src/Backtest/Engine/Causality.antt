-- ===== src/Backtest/Engine/Causality.antt =====
-- No bar's fills depend on what a strategy makes of that bar or of a later one.
use binbot.Base.{
  ◌+◌, ◌≤◌, ◌≡◌, refl, sym, ap, ◌∙◌, Bool, true, false, List, [], ◌∷◌, ◌++◌, arith, length,
  length-append, if-cases, Result, ok, err, if◌then◌else◌,
}
use binbot.Float.{Float, FloatMath}
use binbot.Core.Events.{BarEvent, SignalEvent}
use binbot.Risk.Engine.{check_order}
use binbot.Risk.CircuitBreaker.{DrawdownCircuitBreaker, update}
use binbot.Backtest.Fills.{Costs}
use binbot.Backtest.Impact.{MarketImpactParams}
use binbot.Backtest.Simulator.{place_order}
use binbot.Backtest.Engine.{
  BacktestEngine, Outside, submit_if, on_signal, on_signals, drain, halt_if, settle, simulate,
  react, step, continue, run_bars, account_of, join_bus, roll_session, note_bar,
}

module _ {F : Type 0} where
  if_agree :
      (b : Bool) (x y z : Result (Unit {0}) × BacktestEngine F)
      → y.1.broker.account ≡ z.1.broker.account
      → (λ (r : Result (Unit {0}) × BacktestEngine F). r.1.broker.account) (if b then x else y)
        ≡ (λ (r : Result (Unit {0}) × BacktestEngine F). r.1.broker.account) (if b then x else z)
  if_agree true x y z h = refl
  if_agree false x y z h = h

module _ {F : Type 0} ⦃f : Float F⦄ (out : Outside F) where
  -- A signal changes neither the broker's account nor, before the end of a bar, anything that the account rests on.
  account-submit_if :
      (event : SignalEvent F) (passed : Bool) (s : BacktestEngine F)
      → (submit_if out event passed s).broker.account ≡ s.broker.account
  unfolding submit_if place_order
  account-submit_if event false s = refl
  account-submit_if event true s = refl

  account-on_signals :
      (events : List (SignalEvent F)) (s : BacktestEngine F)
      → (on_signals out events s).broker.account ≡ s.broker.account
  unfolding on_signals on_signal
  account-on_signals [] s = refl
  account-on_signals (event ∷ events) s =
      let checked = check_order (out.monotonic s.signals_seen) event (account_of s) s.risk_engine in
      account-on_signals events (on_signal out event s)
      ∙ account-submit_if event checked.0.passed (record s { risk_engine = checked.1 })

  account-halt_if :
      (x : Result Bool × DrawdownCircuitBreaker F) (s : BacktestEngine F)
      → (halt_if x s).1.broker.account ≡ s.broker.account
  account-halt_if (err e, breaker) s = refl
  account-halt_if (ok tripped, breaker) s = refl

  account-settle :
      (bar : BarEvent F) (s : BacktestEngine F) → (settle bar s).1.broker.account ≡ s.broker.account
  unfolding settle
  account-settle bar s =
      account-halt_if (update s.broker.account.equity bar.ts s.risk_engine.circuit_breaker) _

module _ {F : Type 0} ⦃f : Float F⦄ ⦃g : FloatMath F⦄ (p : MarketImpactParams F) (c : Costs F)
    (out : Outside F) where
  account-react :
      (signals : List (SignalEvent F)) (bar : BarEvent F) (x : Result (Unit {0}) × BacktestEngine F)
      → (react p c out signals bar x).1.broker.account ≡ x.1.broker.account
  unfolding drain react settle
  account-react signals bar (err e, s) = refl
  account-react signals bar (ok u, s) =
      let drained = drain (out.now s.signals_seen) s in
      account-settle out bar (join_bus (on_signals out signals drained))
      ∙ account-on_signals out signals drained

  -- After a bar the account is what the broker made of the bar before any strategy heard of it.
  account-step :
      (signals : List (SignalEvent F)) (bar : BarEvent F) (s : BacktestEngine F)
      → (step p c out signals bar s).1.broker.account
        ≡ (simulate p c out bar (note_bar bar (roll_session bar s))).1.broker.account
  unfolding step
  account-step signals bar s =
      account-react signals bar (simulate p c out bar (note_bar bar (roll_session bar s)))

  account-last :
      (x : Result (Unit {0}) × BacktestEngine F)
      → (continue p c out x (λ s. (ok tt, s))).1.broker.account ≡ x.1.broker.account
  account-last (err e, s) = refl
  account-last (ok u, s) =
      if-cases (λ (y : Result (Unit {0}) × BacktestEngine F). y.1.broker.account ≡ s.broker.account)
        s.halted (ok tt, s) (ok tt, s) (λ t. refl) (λ e. refl)

  continue_agree :
      (x : Result (Unit {0}) × BacktestEngine F)
      (next next' : BacktestEngine F → Result (Unit {0}) × BacktestEngine F)
      → ((s : BacktestEngine F) → (next s).1.broker.account ≡ (next' s).1.broker.account)
      → (continue p c out x next).1.broker.account ≡ (continue p c out x next').1.broker.account
  continue_agree (err e, s) next next' h = refl
  continue_agree (ok u, s) next next' h = if_agree s.halted (ok tt, s) (next s) (next' s) (h s)

  -- Two strategies that signal the same on every run of bars shorter than the one that ends with the last bar leave, after that
  -- bar, the same account: equity, positions, trades and fills. So no order is filled on the bar that caused it,
  -- nor on an earlier one.
  pub run_bars-IsCausal :
      (strategy strategy' : List (BarEvent F) → List (SignalEvent F))
      (bars seen : List (BarEvent F)) (last : BarEvent F) (s : BacktestEngine F)
      → ((past : List (BarEvent F))
          → length past ≤ length seen + length bars
          → strategy past ≡ strategy' past)
      → (run_bars p c out strategy seen (bars ++ last ∷ []) s).1.broker.account
        ≡ (run_bars p c out strategy' seen (bars ++ last ∷ []) s).1.broker.account
  unfolding run_bars
  run_bars-IsCausal strategy strategy' [] seen last s h =
      let seen' = seen ++ last ∷ [] in
      account-last (step p c out (strategy seen') last s)
      ∙ account-step (strategy seen') last s
      ∙ sym (account-step (strategy' seen') last s)
      ∙ sym (account-last (step p c out (strategy' seen') last s))
  run_bars-IsCausal strategy strategy' (bar ∷ bars) seen last s h =
      let seen' = seen ++ bar ∷ [] in
      let same : length seen' ≡ length seen + 1 = length-append seen (bar ∷ []) in
      let next =
        λ (s' : BacktestEngine F). run_bars p c out strategy' seen' (bars ++ last ∷ []) s' in
      continue_agree (step p c out (strategy seen') bar s)
        (λ s'. run_bars p c out strategy seen' (bars ++ last ∷ []) s') next
        (λ s'.
          run_bars-IsCausal strategy strategy' bars seen' last s'
            (λ past k. h past (omega (arith, same, k))))
      ∙ ap (λ signals. (continue p c out (step p c out signals bar s) next).1.broker.account)
          (h seen' (omega (arith, same)))
