-- ===== src/Risk/PositionSizing.antt =====
-- risk/position_sizing.py.
pub mod Sizes
use binbot.Base.{
  Bool, true, false, not, ℤ, pos, ltb_ℤ, Result, ok, err, value_error, ◌>>=◌, ◌&&◌, ◌||◌,
  if◌then◌else◌,
}
use binbot.Float.{Float, ◌-F◌, ◌*F◌, ◌/F◌, ◌<F◌, ◌≤F◌, lit, divide, max, min}

-- `max` and `min` of ints
abbrev pub max_ℤ : ℤ → ℤ → ℤ
max_ℤ a b = if ltb_ℤ a b then b else a

abbrev pub min_ℤ : ℤ → ℤ → ℤ
min_ℤ a b = if ltb_ℤ b a then b else a

pub record KellyInput (F : Type 0) : Type 0 where
  pub win_probability : F
  pub win_loss_ratio : F
  pub account_equity : F
  pub price : F
  pub contract_multiplier : F
  pub kelly_fraction_cap : F
  pub max_kelly_leverage : F

pub record VolatilityInput (F : Type 0) : Type 0 where
  pub account_equity : F
  pub target_annual_volatility_pct : F
  pub instrument_annual_volatility_pct : F
  pub price : F
  pub contract_multiplier : F
  pub max_leverage : F

module _ {F : Type 0} ⦃f : Float F⦄ where
  unfoldable pub kelly_position_size : KellyInput F → Result ℤ
  kelly_position_size i =
      if not ((lit 0 <F i.win_probability) && (i.win_probability <F lit 1))
      then err (value_error "win_probability must be in (0, 1)")
      else if i.win_loss_ratio ≤F lit 0
      then err (value_error "win_loss_ratio must be positive")
      else if (i.price ≤F lit 0)
          || ((i.contract_multiplier ≤F lit 0) || (i.account_equity ≤F lit 0))
      then err (value_error "price, contract_multiplier, account_equity must be positive")
      else (do
        odds ← divide (lit 1 -F i.win_probability) i.win_loss_ratio
        contracts ←
            divide
              (min (max (i.win_probability -F odds) (lit 0) *F i.kelly_fraction_cap)
                  i.max_kelly_leverage
                *F i.account_equity)
              (i.price *F i.contract_multiplier)
        ok (max_ℤ (f.floor contracts) (pos 0)))

  unfoldable pub target_volatility_position_size : VolatilityInput F → Result ℤ
  target_volatility_position_size i =
      if i.instrument_annual_volatility_pct ≤F lit 0
      then err (value_error "instrument_annual_volatility_pct must be positive")
      else if (i.price ≤F lit 0)
          || ((i.contract_multiplier ≤F lit 0) || (i.account_equity ≤F lit 0))
      then err (value_error "price, contract_multiplier, account_equity must be positive")
      else (do
        contracts ←
            divide (i.account_equity *F (i.target_annual_volatility_pct /F lit 100))
              (i.price *F i.contract_multiplier *F (i.instrument_annual_volatility_pct /F lit 100))
        by_leverage ← divide (i.account_equity *F i.max_leverage) (i.price *F i.contract_multiplier)
        ok (max_ℤ (min_ℤ (f.floor contracts) (f.floor by_leverage)) (pos 0)))
