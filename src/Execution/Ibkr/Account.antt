-- ===== src/Execution/Ibkr/Account.antt =====
-- The account as execution/ibkr_broker.py reads it.
use binbot.Base.{String, List, [], ◌∷◌, ℤ, Result, ok, err, runtime_error, str_eq, if◌then◌else◌}
use binbot.Float.{Float, FloatMath, lit}
use binbot.Dict.{Dict, put}
use binbot.Execution.Ibkr.{int}

-- A row of the account summary, its value as a number.
pub record SummaryRow (F : Type 0) : Type 0 where
  pub tag : String
  pub value : F

pub record IbPosition (F : Type 0) : Type 0 where
  pub symbol : String
  pub position : F

module _ {F : Type 0} where
  -- The first row of the net liquidation value.
  unfoldable pub get_account_equity : List (SummaryRow F) → Result F
  get_account_equity [] = err (runtime_error "NetLiquidation not found in account summary")
  get_account_equity (row ∷ rows) =
      let rest = get_account_equity rows in
      if str_eq row.tag "NetLiquidation" then ok row.value else rest

  abbrev pub note_row : SummaryRow F → F × F → F × F
  note_row row (initial, maintenance) =
      if str_eq row.tag "InitMarginReq"
      then (row.value, maintenance)
      else (if str_eq row.tag "MaintMarginReq"
          then (initial, row.value)
          else (initial, maintenance))

  abbrev pub note_rows : List (SummaryRow F) → F × F → F × F
  note_rows [] usage = usage
  note_rows (row ∷ rows) usage = note_rows rows (note_row row usage)

module _ {F : Type 0} ⦃f : Float F⦄ where
  -- The last row of each requirement.
  unfoldable pub get_margin_usage : List (SummaryRow F) → F × F
  get_margin_usage rows = note_rows rows (lit 0, lit 0)

module _ {F : Type 0} ⦃f : Float F⦄ ⦃m : FloatMath F⦄ where
  abbrev pub positions_from : List (IbPosition F) → Dict ℤ → Dict ℤ
  positions_from [] d = d
  positions_from (p ∷ ps) d = positions_from ps (put d p.symbol (int p.position))

  unfoldable pub get_positions : List (IbPosition F) → Dict ℤ
  unfolding int
  get_positions ps = positions_from ps []

  unfoldable pub reconcile_state : List (IbPosition F) → Dict ℤ
  unfolding get_positions
  reconcile_state ps = get_positions ps
