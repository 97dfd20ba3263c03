-- ===== src/Execution/PositionMonitor/Unprotected.antt =====
-- A position whose first equity request raises.
use binbot.Base.{
  ◌≡◌, ap, ◌∙◌, true, none, some, String, [], ◌∷◌, pos, nat_abs, ltb_ℤ, arith, inl, inr,
  if◌then◌else◌, str_eq, Bool-cases,
}
use binbot.Float.{Float, ◌≤F◌, lit}
use binbot.Dict.{get, put, get_or}
use binbot.Core.Enums.{sell, buy}
use binbot.Execution.Trailing.{PositionDetail, Thresholds, stop_loss, decide}
use binbot.Execution.PositionMonitor.{
  notifies, submits, Responses, PositionMonitor, signed_lots, book, close_position, forget_all,
  first_seen, judge, check_position, check_positions, check_once, loop, create,
}

str_eq_self : (s : String) → str_eq s s ≡ true
str_eq_self s = ground arith

get_or_self : {V : Type 0} (k : String) (v w : V) → get_or ((k, v) ∷ []) k w ≡ v
unfolding get
get_or_self k v w = ground arith

module _ {F : Type 0} ⦃f : Float F⦄ (step_size : String → F) where
  -- The position is in the book, and nothing else has happened.
  abbrev only_booked : Thresholds F → PositionDetail F → PositionMonitor F
  only_booked c d = record (create c) { positions = (d.symbol, signed_lots d) ∷ [] }

  first_check :
      (c : Thresholds F) (d : PositionDetail F) (r : Responses F)
      → r.equity d.symbol ≡ none
      → (check_once step_size r (d ∷ []) (create c)).1 ≡ only_booked c d
  unfolding check_once check_positions check_position book put first_seen
  first_check c d r h = simp h

  second_check :
      (c : Thresholds F) (d : PositionDetail F) (r : Responses F)
      → r.notified d.symbol ≡ true
      → d.unrealized_pnl ≤F f.minus (lit 0) ≡ true
      → (check_once step_size r (d ∷ []) (only_booked c d)).1.actions
        ≡ notifies d.symbol (stop_loss d.unrealized_pnl (lit 0))
          ∷ submits d.symbol
              (if ltb_ℤ (pos 0) (signed_lots d) then sell else buy)
              (nat_abs (signed_lots d))
          ∷ []
  unfolding check_once check_positions check_position book put get judge decide close_position
      forget_all
  second_check c d r n l =
      let e = str_eq_self d.symbol in
      let g : get_or (book (d ∷ []) []) d.symbol (pos 0) ≡ signed_lots d =
        get_or_self d.symbol (signed_lots d) (pos 0) in
      elim (Bool-cases (r.submitted d.symbol)) [
        | inl b ↦ simp (e, g, n, l, b)
        | inr b ↦ simp (e, g, n, l, b)
      ]

  -- When the equity request raises as the only position is first seen, no native stop is armed, the frozen
  -- stop-loss stays missing and counts as 0: the next poll that finds no gain closes the position.
  pub equity_failure_unprotected :
      (c : Thresholds F) (d : PositionDetail F) (r r₂ : Responses F) (pnl : F)
      → r.equity d.symbol ≡ none
      → r₂.notified d.symbol ≡ true
      → pnl ≤F f.minus (lit 0) ≡ true
      → (loop step_size
          ((r, some (d ∷ [])) ∷ (r₂, some (record d { unrealized_pnl = pnl } ∷ [])) ∷ [])
          (create c)).actions
        ≡ notifies d.symbol (stop_loss pnl (lit 0))
          ∷ submits d.symbol
              (if ltb_ℤ (pos 0) (signed_lots d) then sell else buy)
              (nat_abs (signed_lots d))
          ∷ []
  unfolding loop
  equity_failure_unprotected c d r r₂ pnl h n l =
      ap (λ m. (check_once step_size r₂ (record d { unrealized_pnl = pnl } ∷ []) m).1.actions)
        (first_check c d r h)
      ∙ second_check c (record d { unrealized_pnl = pnl }) r₂ n l
