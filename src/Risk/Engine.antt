-- ===== src/Risk/Engine.antt =====
-- `RiskEngine` of risk/risk_engine.py: the chain of pre-trade checks. A check raises `RiskViolation`
-- or returns; what it wrote before it raised stays written.
pub mod Gate
pub mod Limits
use binbot.Base.{
  ℕ, Bool, true, false, Option, none, some, String, ℤ, pos, ◌+ℤ◌, ◌*ℤ◌, nat_abs, ltb_ℤ, leb_ℤ, leb,
  not, if◌then◌else◌,
}
use binbot.Float.{Float, ◌+F◌, ◌-F◌, ◌*F◌, ◌/F◌, ◌<F◌, ◌≤F◌, lit}
use binbot.Dict.{Dict, get, put, get_or}
use binbot.Core.Enums.{OrderSide, sign}
use binbot.Core.Events.{SignalEvent}
use binbot.Risk.CircuitBreaker.{DrawdownCircuitBreaker, HaltReason}
use binbot.Risk.RateLimiter.{TokenRateLimiter, Reason, try_acquire}
use binbot.Risk.Margin.{MarginCalculator, MarginReason, MarginQuery, check_margin}

pub data Code : Type 0 where
  ok circuit_breaker_halted invalid_quantity fat_finger_order_size order_rate_limit : Code
  position_limit_breach no_reference_price notional_limit_breach no_equity : Code
  leverage_limit_breach margin_breach : Code

-- The message, an f-string by its values.
pub data Message (F : Type 0) : Type 0 where
  all_passed : Message F
  halted : HaltReason F → Message F
  non_positive_quantity : ℕ → Message F
  order_size : ℕ → ℤ → Message F
  order_rate : Reason F → Message F
  projected_position : ℕ → String → ℤ → Message F
  no_price : String → Message F
  order_notional : F → F → Message F
  equity_not_positive : Message F
  gross_leverage : F → F → Message F
  margin : MarginReason F → Message F

pub record RiskViolation (F : Type 0) : Type 0 where
  pub code : Code
  pub message : Message F

pub record RiskCheckResult (F : Type 0) : Type 0 where
  pub passed : Bool
  pub code : Code
  pub message : Message F
  pub approved_quantity : ℤ

pub record RiskEngine (F : Type 0) : Type 0 where
  pub max_contracts_per_order : ℤ
  pub max_contracts_per_symbol : ℤ
  pub max_position_notional_usd : F
  pub max_gross_leverage : F
  pub circuit_breaker : DrawdownCircuitBreaker F
  pub margin_calculator : MarginCalculator F
  pub rate_limiter : TokenRateLimiter F
  pub positions : Dict ℤ
  pub prices : Dict F
  pub contract_multipliers : Dict F

-- The named arguments of `check_order`.
pub record Account (F : Type 0) : Type 0 where
  pub account_equity : F
  pub gross_exposure_usd : F
  pub current_initial_margin_used : F
  pub current_maintenance_margin_used : F

pub data Checked (F A : Type 0) : Type 0 where
  passes : A → Checked F A
  raises : RiskViolation F → Checked F A

abbrev pub Check : Type 0 → Type 0 → Type 0
Check F A = RiskEngine F → Checked F A × RiskEngine F

infixl 5 ◌>>=◌ ◌>>◌
abbrev pub ◌>>=◌ : {F A B : Type 0} → Check F A → (A → Check F B) → Check F B
◌>>=◌ m k e = let (r, e') = m e in elim r [ passes a ↦ k a e' | raises v ↦ (raises v, e') ]

abbrev pub ◌>>◌ : {F A B : Type 0} → Check F A → Check F B → Check F B
m >> k = m >>= λ _. k

-- `if refused: raise RiskViolation(code, message)`
abbrev pub refuse_if : {F : Type 0} → Bool → Code → Message F → Check F Unit
refuse_if true c m e = (raises (record { code = c; message = m }), e)
refuse_if false c m e = (passes tt, e)

abbrev pub gets : {F A : Type 0} → (RiskEngine F → A) → Check F A
gets g e = (passes (g e), e)

-- The three setters.
unfoldable pub update_market_state : {F : Type 0} → String → F → RiskEngine F → RiskEngine F
update_market_state symbol price e = record e { prices = put e.prices symbol price }

unfoldable pub update_position : {F : Type 0} → String → ℤ → RiskEngine F → RiskEngine F
update_position symbol quantity e = record e { positions = put e.positions symbol quantity }

unfoldable pub set_contract_multiplier : {F : Type 0} → String → F → RiskEngine F → RiskEngine F
set_contract_multiplier symbol m e = record e {
  contract_multipliers = put e.contract_multipliers symbol m;
}

-- `signal.target_quantity * signal.side.sign`
unfoldable pub signed_quantity : {F : Type 0} → SignalEvent F → ℤ
signed_quantity s = s.target_quantity *ℤ sign s.side

abbrev pub current_position : {F : Type 0} → RiskEngine F → String → ℤ
current_position e symbol = get_or e.positions symbol (pos 0)

module _ {F : Type 0} ⦃f : Float F⦄ where
  unfoldable pub check_circuit_breaker : Check F Unit
  check_circuit_breaker e =
      refuse_if e.circuit_breaker.halted circuit_breaker_halted
        (halted e.circuit_breaker.halt_reason) e

  unfoldable pub check_fat_finger : SignalEvent F → Check F Unit
  check_fat_finger s = do
    let qty = nat_abs s.target_quantity
    refuse_if (leb qty 0) invalid_quantity (non_positive_quantity qty)
    most ← gets (λ e. e.max_contracts_per_order)
    refuse_if (ltb_ℤ most (pos qty)) fat_finger_order_size (order_size qty most)

  unfoldable pub check_rate_limit : F → Check F Unit
  check_rate_limit now e =
      let ((accepted, reason), l) = try_acquire now e.rate_limiter in
      refuse_if (not accepted) order_rate_limit (order_rate reason) (record e { rate_limiter = l })

  unfoldable pub check_position_limits : SignalEvent F → Check F Unit
  check_position_limits s e =
      let projected = nat_abs (current_position e s.symbol +ℤ signed_quantity s) in
      refuse_if (ltb_ℤ e.max_contracts_per_symbol (pos projected)) position_limit_breach
        (projected_position projected s.symbol e.max_contracts_per_symbol) e

  abbrev pub has_price : Option F → Bool
  has_price none = false
  has_price (some p) = not (p ≤F lit 0)

  abbrev pub notional : SignalEvent F → RiskEngine F → F
  notional s e =
      f.of_int (pos (nat_abs s.target_quantity))
      *F get_or e.prices s.symbol (lit 0)
      *F get_or e.contract_multipliers s.symbol (lit 1)

  unfoldable pub check_notional_limit : SignalEvent F → Check F F
  check_notional_limit s = do
    price ← gets (λ e. get e.prices s.symbol)
    refuse_if (not (has_price price)) no_reference_price (no_price s.symbol)
    n ← gets (notional s)
    most ← gets (λ e. e.max_position_notional_usd)
    refuse_if (most <F n) notional_limit_breach (order_notional n most)
    gets (λ e. n)

  unfoldable pub check_leverage : F → F → F → Check F Unit
  check_leverage gross_exposure_usd incremental_notional account_equity = do
    refuse_if (account_equity ≤F lit 0) no_equity equity_not_positive
    let leverage = (gross_exposure_usd +F incremental_notional) /F account_equity
    most ← gets (λ e. e.max_gross_leverage)
    refuse_if (most <F leverage) leverage_limit_breach (gross_leverage leverage most)

  abbrev pub margin_query : SignalEvent F → Account F → RiskEngine F → MarginQuery F
  margin_query s a e = record {
    symbol = s.symbol;
    additional_contracts = signed_quantity s;
    current_position_contracts = current_position e s.symbol;
    net_liquidation_value = a.account_equity;
    current_initial_margin_used = a.current_initial_margin_used;
    current_maintenance_margin_used = a.current_maintenance_margin_used;
  }

  unfoldable pub check_margin_used : SignalEvent F → Account F → Check F Unit
  check_margin_used s a e =
      let r = check_margin (margin_query s a e) e.margin_calculator in
      refuse_if (not r.passed) margin_breach (margin r.reason) e

  -- The body of the `try` in `check_order`; `now` is the time that the rate limiter reads.
  unfoldable pub checks : F → SignalEvent F → Account F → Check F Unit
  unfolding check_circuit_breaker check_fat_finger check_rate_limit check_position_limits
      check_notional_limit check_leverage check_margin_used
  checks now s a = do
    check_circuit_breaker
    check_fat_finger s
    check_rate_limit now
    check_position_limits s
    n ← check_notional_limit s
    check_leverage a.gross_exposure_usd n a.account_equity
    check_margin_used s a

  abbrev pub report : SignalEvent F → Checked F Unit → RiskCheckResult F
  report s (passes _) = record {
    passed = true;
    code = ok;
    message = all_passed;
    approved_quantity = s.target_quantity;
  }
  report s (raises v) = record {
    passed = false;
    code = v.code;
    message = v.message;
    approved_quantity = pos 0;
  }

  unfoldable pub check_order :
      F → SignalEvent F → Account F → RiskEngine F → RiskCheckResult F × RiskEngine F
  unfolding checks
  check_order now s a e = let (r, e') = checks now s a e in (report s r, e')
