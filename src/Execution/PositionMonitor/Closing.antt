-- ===== src/Execution/PositionMonitor/Closing.antt =====
-- The orders with which the checks close a position.
use binbot.Base.{
  member, ℕ, suc, ◌≤◌, ◌<◌, ◌+◌, ◌≡◌, ◌⊎◌, inl, inr, true, false, Option, none, some, String, List,
  [], ◌∷◌, ◌++◌, ℤ, pos, nat_abs, ltb_ℤ, filter, Result, ok, err, str_eq, if◌then◌else◌, arith,
}
use binbot.Float.{Float, lit, ◌*F◌, ◌/F◌}
use binbot.Dict.{get}
use binbot.Core.Enums.{sell, buy}
use binbot.Execution.Trailing.{PositionDetail, CloseReason}
use binbot.Execution.PositionMonitor.Steps.{symbols, check_once-keeps}
use binbot.Execution.PositionMonitor.{
  Action, arms, disarms, notifies, submits, Responses, PositionMonitor, close_position,
  forget_found, forget, first_seen, judge, check_once, loop, close_for, arm_placed,
}

module _ {F : Type 0} where
  -- The submitted orders of a symbol.
  abbrev pub submit_count : String → List (Action F) → ℕ
  submit_count s [] = 0
  submit_count s (submits t _ _ ∷ xs) =
      if str_eq s t then suc (submit_count s xs) else submit_count s xs
  submit_count s (arms _ _ _ _ _ ∷ xs) = submit_count s xs
  submit_count s (disarms _ _ ∷ xs) = submit_count s xs
  submit_count s (notifies _ _ ∷ xs) = submit_count s xs

  pub submit_count-append :
      (s : String) (xs ys : List (Action F))
      → submit_count s (xs ++ ys) ≡ submit_count s xs + submit_count s ys
  submit_count-append s [] ys = omega arith
  submit_count-append s (submits t _ _ ∷ xs) ys = ground (arith, submit_count-append s xs ys)
  submit_count-append s (arms _ _ _ _ _ ∷ xs) ys = submit_count-append s xs ys
  submit_count-append s (disarms _ _ ∷ xs) ys = submit_count-append s xs ys
  submit_count-append s (notifies _ _ ∷ xs) ys = submit_count-append s xs ys

  -- Fewer than n orders, or n and the symbol is remembered.
  abbrev pub IsOnce : String → ℕ → PositionMonitor F → Type 0
  IsOnce s n m =
      (submit_count s m.actions < n) ⊎ (submit_count s m.actions ≤ n) × (member s m.closing ≡ true)

  module _ (s : String) (n : ℕ) where
    close_position-IsOnce :
        (r : Responses F) (t : String) (q : ℤ) (why : CloseReason F) (m : PositionMonitor F)
        → member t m.closing ≡ false
        → IsOnce s n m
        → IsOnce s n (close_position r t q why m).1
    unfolding close_position
    close_position-IsOnce r t q why m h k =
        let e = submit_count-append s m.actions (notifies t why ∷ []) in
        let side = if ltb_ℤ (pos 0) q then sell else buy in
        let e' =
          submit_count-append s (m.actions ++ notifies t why ∷ [])
            (submits t side (nat_abs q) ∷ []) in
        ground arith

    forget_found-IsOnce :
        (r : Responses F) (t : String) (id : Option String) (m : PositionMonitor F)
        → IsOnce s n m
        → IsOnce s n (forget_found r t id m).1
    unfolding forget_found
    forget_found-IsOnce r t none m k = k
    forget_found-IsOnce r t (some id) m k =
        let e = submit_count-append s m.actions (disarms t id ∷ []) in ground arith

    forget-IsOnce :
        (r : Responses F) (t : String) (m : PositionMonitor F)
        → IsOnce s n m
        → IsOnce s n (forget r t m).1
    unfolding forget
    forget-IsOnce r t m k = forget_found-IsOnce r t (get m.native_stop_order_id t) m k

module _ {F : Type 0} where
  -- Every answered poll reports the symbol.
  abbrev pub IsReported : String → List (Responses F × Option (List (PositionDetail F))) → Type 0
  IsReported s [] = Unit
  IsReported s ((r, none) ∷ polls) = IsReported s polls
  IsReported s ((r, some ds) ∷ polls) = (member s (symbols ds) ≡ true) × IsReported s polls

pub member-filter :
    (s : String) (cs xs : List String)
    → member s cs ≡ true
    → member s xs ≡ true
    → member s (filter (λ t. member t cs) xs) ≡ true
member-filter s cs [] h k = k
member-filter s cs (x ∷ xs) h k = ground (arith, member-filter s cs xs h)

module _ {F : Type 0} (s : String) (n : ℕ) where
  close_for-IsOnce :
      (r : Responses F) (t : String) (o : Result (Option (CloseReason F))) (m : PositionMonitor F)
      → member t m.closing ≡ false
      → IsOnce s n m
      → IsOnce s n (close_for r t o m).1
  close_for-IsOnce r t (err e) m h k = k
  close_for-IsOnce r t (ok none) m h k = k
  close_for-IsOnce r t (ok (some why)) m h k = close_position-IsOnce s n r t _ why m h k

  arm_placed-IsOnce :
      (t : String) (o : Option (Option String)) (m : PositionMonitor F)
      → IsOnce s n m
      → IsOnce s n (arm_placed t o m).1
  arm_placed-IsOnce t none m k = k
  arm_placed-IsOnce t (some none) m k = k
  arm_placed-IsOnce t (some (some id)) m k = k

module _ {F : Type 0} ⦃f : Float F⦄ (step_size : String → F) (s : String) (n : ℕ) where
  first_seen-IsOnce :
      (r : Responses F) (d : PositionDetail F) (o : Option F) (m : PositionMonitor F)
      → IsOnce s n m
      → IsOnce s n (first_seen step_size r d o m).1
  unfolding first_seen
  first_seen-IsOnce r d none m k = k
  first_seen-IsOnce r d (some equity) m k =
      let max_loss = equity *F m.thresholds.stop_loss_equity_pct /F lit 100 in
      let e =
        submit_count-append s m.actions
          (arms d.symbol d.side d.entry_price d.quantity max_loss ∷ []) in
      arm_placed-IsOnce s n d.symbol (r.placed d.symbol) _ (ground arith)

  judge-IsOnce :
      (r : Responses F) (d : PositionDetail F) (m : PositionMonitor F)
      → member d.symbol m.closing ≡ false
      → IsOnce s n m
      → IsOnce s n (judge step_size r d m).1
  unfolding judge
  judge-IsOnce r d m h k = close_for-IsOnce s n r d.symbol _ _ h k

  check_once-IsOnce :
      (r : Responses F) (ds : List (PositionDetail F)) (m : PositionMonitor F)
      → member s (symbols ds) ≡ true
      → IsOnce s n m
      → IsOnce s n (check_once step_size r ds m).1
  check_once-IsOnce r ds m h k =
      check_once-keeps step_size r (IsOnce s n) ds m (judge-IsOnce r)
        (λ d m _. first_seen-IsOnce r d (r.equity d.symbol) m) (λ t m _. forget-IsOnce s n r t m)
        (elim k [ inl e ↦ inl e | inr e ↦ inr (e.0, member-filter s (symbols ds) m.closing h e.1) ])

  loop-IsOnce :
      (polls : List (Responses F × Option (List (PositionDetail F)))) (m : PositionMonitor F)
      → IsReported s polls
      → IsOnce s n m
      → IsOnce s n (loop step_size polls m)
  unfolding loop
  loop-IsOnce [] m h k = k
  loop-IsOnce ((r, none) ∷ polls) m h k = loop-IsOnce polls m h k
  loop-IsOnce ((r, some ds) ∷ polls) m h k =
      loop-IsOnce polls _ h.1 (check_once-IsOnce r ds m h.0 k)

module _ {F : Type 0} ⦃f : Float F⦄ where
  -- Over any polls that report a symbol for as long as they last, whatever raises, at most one order
  -- closes it; and once it is in `_closing`, none does.
  pub closed_at_most_once :
      (step_size : String → F) (s : String)
      (polls : List (Responses F × Option (List (PositionDetail F)))) (m : PositionMonitor F)
      → IsReported s polls
      → (submit_count s (loop step_size polls m).actions ≤ suc (submit_count s m.actions))
        × (member s m.closing ≡ true
            → submit_count s (loop step_size polls m).actions ≤ submit_count s m.actions)
  closed_at_most_once step_size s polls m h = (
    elim (loop-IsOnce step_size s (suc (submit_count s m.actions)) polls m h (inl (omega arith))) [
      | inl e ↦ omega arith
      | inr e ↦ omega arith
    ],
    λ c.
        elim (loop-IsOnce step_size s (submit_count s m.actions) polls m h (inr (omega arith, c))) [
          | inl e ↦ omega arith
          | inr e ↦ omega arith
        ],
  )
