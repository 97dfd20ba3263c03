-- ===== src/Tests/Sizing.antt =====
-- risk/position_sizing.py at concrete inputs.
use binbot.Base.{◌≡◌, refl, ℤ, pos, ok, ◌+ℤ◌, ◌-ℤ◌, ◌*ℤ◌}
use binbot.Float.Fixed.{fixed, units}
use binbot.Risk.PositionSizing.{
  KellyInput, VolatilityInput, kelly_position_size, target_volatility_position_size,
}

abbrev bet : KellyInput ℤ
bet = record {
  win_probability = pos 600;
  win_loss_ratio = units 2;
  account_equity = units 10000;
  price = units 100;
  contract_multiplier = units 1;
  kelly_fraction_cap = pos 500;
  max_kelly_leverage = units 1;
}

abbrev target : VolatilityInput ℤ
target = record {
  account_equity = units 10000;
  target_annual_volatility_pct = units 10;
  instrument_annual_volatility_pct = units 20;
  price = units 100;
  contract_multiplier = units 1;
  max_leverage = units 4;
}

-- A fraction of 0.2 of the equity buys twenty contracts; half the volatility of the equity, fifty.
sizes_run :
    (kelly_position_size bet ≡ ok (pos 20)) × (target_volatility_position_size target ≡ ok (pos 50))
unfolding kelly_position_size target_volatility_position_size ◌+ℤ◌ ◌-ℤ◌ ◌*ℤ◌
sizes_run = (refl, refl)
