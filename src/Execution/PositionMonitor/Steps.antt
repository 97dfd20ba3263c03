-- ===== src/Execution/PositionMonitor/Steps.antt =====
-- What a check keeps when each of its steps does: the judgement of a position, the first sight of one and the
-- clean-up after one.
use binbot.Base.{
  member, ◌≡◌, ◌≢◌, refl, sym, ap, ◌∙◌, Bool, true, false, not, Option, none, some, String, List,
  [], ◌∷◌, map, filter, Result, ok, err, if◌then◌else◌, arith,
}
use binbot.Float.{Float}
use binbot.Dict.{keys}
use binbot.Execution.Trailing.{PositionDetail}
use binbot.Execution.PositionMonitor.{
  Responses, PositionMonitor, forget, forget_all, arm_placed, first_seen, judge, check_position,
  check_positions, check_once, then_do, book,
}

pub ne_of_member :
    (s t : String) (xs : List String) → member s xs ≡ true → member t xs ≡ false → t ≢ s
ne_of_member s t xs h k e =
    let q : true ≡ false = sym h ∙ ap (λ u. member u xs) (sym e) ∙ k in ground arith

module _ {F : Type 0} where
  -- The reported symbols.
  abbrev pub symbols : List (PositionDetail F) → List String
  symbols ds = map (λ d. d.symbol) ds

  then_do-keeps :
      (P Q : PositionMonitor F → Type 0) (x : Result (Unit {0}) × PositionMonitor F)
      (k : PositionMonitor F → Result (Unit {0}) × PositionMonitor F)
      → P x.1
      → ((m : PositionMonitor F) → P m → Q m)
      → ((m : PositionMonitor F) → P m → Q (k m).1)
      → Q (then_do x k).1
  then_do-keeps P Q (ok _, m) k h stop go = go m h
  then_do-keeps P Q (err e, m) k h stop go = stop m h

  unless-keeps :
      (P : PositionMonitor F → Type 0) (b : Bool) (m : PositionMonitor F)
      (x : Result (Unit {0}) × PositionMonitor F)
      → P m
      → (b ≡ false → P x.1)
      → P (if b then (ok tt, m) else x).1
  unless-keeps P true m x k h = k
  unless-keeps P false m x k h = h refl

  arm_placed-closing :
      (t : String) (o : Option (Option String)) (m : PositionMonitor F)
      → (arm_placed t o m).1.closing ≡ m.closing
  arm_placed-closing t none m = refl
  arm_placed-closing t (some none) m = refl
  arm_placed-closing t (some (some id)) m = refl

  forget_one-keeps :
      (P : PositionMonitor F → Type 0) (r : Responses F) (t : String) (rest : List String)
      (b : Bool)
      → (b ≡ false → (m : PositionMonitor F) → P m → P (forget r t m).1)
      → ((m : PositionMonitor F) → P m → P (forget_all r rest m).1)
      → (m : PositionMonitor F) → P m
      → P (forget_all r (if not b then t ∷ rest else rest) m).1
  unfolding forget_all
  forget_one-keeps P r t rest true gone go m k = go m k
  forget_one-keeps P r t rest false gone go m k =
      then_do-keeps P P (forget r t m) (forget_all r rest) (gone refl m k) (λ m k. k) go

  forget_all-keeps :
      (P : PositionMonitor F → Type 0) (r : Responses F) (current ts : List String)
      → ((t : String) (m : PositionMonitor F) → member t current ≡ false → P m → P (forget r t m).1)
      → (m : PositionMonitor F) → P m
      → P (forget_all r (filter (λ t. not (member t current)) ts) m).1
  unfolding forget_all
  forget_all-keeps P r current [] gone m k = k
  forget_all-keeps P r current (t ∷ ts) gone m k =
      forget_one-keeps P r t _ (member t current) (λ h m. gone t m h)
        (forget_all-keeps P r current ts gone) m k

  first_seen-closing :
      ⦃f : Float F⦄ (step_size : String → F) (r : Responses F) (d : PositionDetail F) (o : Option F)
      (m : PositionMonitor F)
      → (first_seen step_size r d o m).1.closing ≡ m.closing
  unfolding first_seen
  first_seen-closing step_size r d none m = refl
  first_seen-closing step_size r d (some equity) m =
      arm_placed-closing d.symbol (r.placed d.symbol) _

module _ {F : Type 0} ⦃f : Float F⦄ (step_size : String → F) (r : Responses F)
    (P : PositionMonitor F → Type 0) (previous : List String)
    (known : (d : PositionDetail F) (m : PositionMonitor F)
      → member d.symbol m.closing ≡ false
      → P m
      → P (judge step_size r d m).1)
    (new : (d : PositionDetail F) (m : PositionMonitor F)
      → member d.symbol previous ≡ false
      → P m
      → P (first_seen step_size r d (r.equity d.symbol) m).1) where
  seen-keeps :
      (d : PositionDetail F) (b : Bool) (m : PositionMonitor F)
      → member d.symbol m.closing ≡ false
      → member d.symbol previous ≡ b
      → P m
      → P
          (if b
            then judge step_size r d m
            else then_do (first_seen step_size r d (r.equity d.symbol) m) (judge step_size r d)).1
  seen-keeps d true m c h k = known d m c k
  seen-keeps d false m c h k =
      then_do-keeps (λ m. (member d.symbol m.closing ≡ false) × P m) P _ _
        (
          ap (member d.symbol) (first_seen-closing step_size r d (r.equity d.symbol) m) ∙ c,
          new d m h k,
        )
        (λ m k. k.1) (λ m k. known d m k.0 k.1)

  check_position-keeps :
      (d : PositionDetail F) (m : PositionMonitor F)
      → P m
      → P (check_position step_size r previous d m).1
  unfolding check_position
  check_position-keeps d m k =
      unless-keeps P (member d.symbol m.closing) m _ k
        (λ c. seen-keeps d (member d.symbol previous) m c refl k)

  check_positions-keeps :
      (ds : List (PositionDetail F)) (m : PositionMonitor F)
      → P m
      → P (check_positions step_size r previous ds m).1
  unfolding check_positions
  check_positions-keeps [] m k = k
  check_positions-keeps (d ∷ ds) m k =
      then_do-keeps P P _ _ (check_position-keeps d m k) (λ m k. k) (check_positions-keeps ds)

-- The state in which the loop over the positions starts.
abbrev pub booked : {F : Type 0} → List (PositionDetail F) → PositionMonitor F → PositionMonitor F
booked ds m = record m {
  closing = filter (λ s. member s (symbols ds)) m.closing;
  positions = book ds [];
}

pub check_once-keeps :
    {F : Type 0} ⦃f : Float F⦄ (step_size : String → F) (r : Responses F)
    (P : PositionMonitor F → Type 0) (ds : List (PositionDetail F)) (m : PositionMonitor F)
    → ((d : PositionDetail F) (m : PositionMonitor F)
        → member d.symbol m.closing ≡ false
        → P m
        → P (judge step_size r d m).1)
    → ((d : PositionDetail F) (n : PositionMonitor F)
        → member d.symbol (keys m.positions) ≡ false
        → P n
        → P (first_seen step_size r d (r.equity d.symbol) n).1)
    → ((t : String) (m : PositionMonitor F)
        → member t (symbols ds) ≡ false
        → P m
        → P (forget r t m).1)
    → P (booked ds m)
    → P (check_once step_size r ds m).1
unfolding check_once
check_once-keeps step_size r P ds m known new gone k =
    then_do-keeps P P _ _ (check_positions-keeps step_size r P (keys m.positions) known new ds _ k)
      (λ m k. k) (forget_all-keeps P r (symbols ds) (keys m.positions) gone)
