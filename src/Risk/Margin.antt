-- ===== src/Risk/Margin.antt =====
-- risk/margin.py: the pre-trade margin check.
use binbot.Base.{
  Bool, false, Option, none, some, String, ℤ, pos, ◌+ℤ◌, nat_abs, ◌&&◌, if◌then◌else◌,
}
use binbot.Float.{Float, ◌+F◌, ◌-F◌, ◌*F◌, ◌/F◌, ◌≤F◌, lit}
use binbot.Dict.{Dict, get, put}

pub record MarginRequirement (F : Type 0) : Type 0 where
  pub symbol : String
  pub initial_margin_per_contract : F
  pub maintenance_margin_per_contract : F

-- The reason of a result, an f-string by its values.
pub data MarginReason (F : Type 0) : Type 0 where
  ok : MarginReason F
  no_schedule : String → MarginReason F
  insufficient : F → F → F → MarginReason F

pub record MarginCheckResult (F : Type 0) : Type 0 where
  pub passed : Bool
  pub reason : MarginReason F
  pub required_initial_margin : F
  pub required_maintenance_margin : F
  pub available_funds : F
  pub projected_excess_liquidity : F

pub record MarginCalculator (F : Type 0) : Type 0 where
  pub schedule : Dict (MarginRequirement F)
  pub initial_margin_buffer_pct : F
  pub maintenance_margin_buffer_pct : F

-- The named arguments of `check_order`.
pub record MarginQuery (F : Type 0) : Type 0 where
  pub symbol : String
  pub additional_contracts : ℤ
  pub current_position_contracts : ℤ
  pub net_liquidation_value : F
  pub current_initial_margin_used : F
  pub current_maintenance_margin_used : F

unfoldable pub set_requirement :
    {F : Type 0} → MarginRequirement F → MarginCalculator F → MarginCalculator F
set_requirement req c = record c { schedule = put c.schedule req.symbol req }

module _ {F : Type 0} ⦃f : Float F⦄ where
  -- A requirement per contract, for all contracts after the order, with its headroom.
  abbrev pub buffered : F → F → MarginQuery F → F
  buffered per_contract buffer_pct q =
      f.of_int (pos (nat_abs (q.current_position_contracts +ℤ q.additional_contracts)))
      *F per_contract
      *F (lit 1 +F buffer_pct /F lit 100)

  unfoldable pub check_against :
      Option (MarginRequirement F) → MarginQuery F → MarginCalculator F → MarginCheckResult F
  check_against none q c = record {
    passed = false;
    reason = no_schedule q.symbol;
    required_initial_margin = lit 0;
    required_maintenance_margin = lit 0;
    available_funds = q.net_liquidation_value -F q.current_initial_margin_used;
    projected_excess_liquidity = lit 0;
  }
  check_against (some req) q c =
      let initial = buffered req.initial_margin_per_contract c.initial_margin_buffer_pct q in
      let maintenance =
        buffered req.maintenance_margin_per_contract c.maintenance_margin_buffer_pct q in
      let excess = q.net_liquidation_value -F initial in
      let passed = (lit 0 ≤F excess) && (maintenance ≤F q.net_liquidation_value) in
      record {
        passed = passed;
        reason = if passed then ok else insufficient initial maintenance q.net_liquidation_value;
        required_initial_margin = initial;
        required_maintenance_margin = maintenance;
        available_funds = q.net_liquidation_value -F q.current_initial_margin_used;
        projected_excess_liquidity = excess;
      }

  -- `MarginCalculator.check_order`
  unfoldable pub check_margin : MarginQuery F → MarginCalculator F → MarginCheckResult F
  unfolding check_against
  check_margin q c = check_against (get c.schedule q.symbol) q c
