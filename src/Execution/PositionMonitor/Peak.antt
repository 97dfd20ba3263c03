-- ===== src/Execution/PositionMonitor/Peak.antt =====
-- The peak of a position's return.
use binbot.Base.{
  member, ◌≡◌, ◌≢◌, ap, ◌∙◌, true, Option, none, some, String, List, [], ◌∷◌, ℤ, Result, ok, err,
  arith, String_discrete,
}
use binbot.Float.{max_left, Float, IsOrdered, ◌≤F◌, max}
use binbot.Dict.{Dict, get, put, get-put_self, get-put_ne, get-remove_ne}
use binbot.Execution.Trailing.{PositionDetail, CloseReason, peak_after}
use binbot.Execution.PositionMonitor.Steps.{symbols, check_once-keeps, ne_of_member}
use binbot.Execution.PositionMonitor.Closing.{IsReported}
use binbot.Execution.PositionMonitor.{
  Responses, PositionMonitor, close_position, close_for, forget, forget_found, arm_placed,
  first_seen, judge, check_once, loop,
}

module _ {F : Type 0} ⦃f : Float F⦄ (s : String) (p : F) where
  -- The recorded peak of s is at least p.
  abbrev pub HasPeak : PositionMonitor F → Type 0
  HasPeak m = (q : F) × (get m.peak_roi_pct s ≡ some q) × (p ≤F q ≡ true)

  close_position-peak :
      (r : Responses F) (t : String) (q : ℤ) (why : CloseReason F) (m : PositionMonitor F)
      → (close_position r t q why m).1.peak_roi_pct ≡ m.peak_roi_pct
  unfolding close_position
  close_position-peak r t q why m = ground arith

  close_for-HasPeak :
      (r : Responses F) (t : String) (c : Result (Option (CloseReason F))) (m : PositionMonitor F)
      → HasPeak m
      → HasPeak (close_for r t c m).1
  close_for-HasPeak r t (err e) m k = k
  close_for-HasPeak r t (ok none) m k = k
  close_for-HasPeak r t (ok (some why)) m (q, e, l) =
      (q, ap (λ d. get d s) (close_position-peak r t _ why m) ∙ e, l)

  arm_placed-HasPeak :
      (t : String) (id : Option (Option String)) (m : PositionMonitor F)
      → HasPeak m
      → HasPeak (arm_placed t id m).1
  arm_placed-HasPeak t none m k = k
  arm_placed-HasPeak t (some none) m k = k
  arm_placed-HasPeak t (some (some id)) m k = k

  forget_found-HasPeak :
      (r : Responses F) (t : String) (id : Option String) (m : PositionMonitor F)
      → t ≢ s
      → HasPeak m
      → HasPeak (forget_found r t id m).1
  unfolding forget_found
  forget_found-HasPeak r t none m h (q, e, l) = (q, get-remove_ne m.peak_roi_pct t s h ∙ e, l)
  forget_found-HasPeak r t (some id) m h (q, e, l) =
      (q, (let g = get-remove_ne m.peak_roi_pct t s h in ground arith), l)

  first_seen-HasPeak :
      (step_size : String → F) (r : Responses F) (d : PositionDetail F) (o : Option F)
      (m : PositionMonitor F)
      → HasPeak m
      → HasPeak (first_seen step_size r d o m).1
  unfolding first_seen
  first_seen-HasPeak step_size r d none m k = k
  first_seen-HasPeak step_size r d (some equity) m k =
      arm_placed-HasPeak d.symbol (r.placed d.symbol) _ k

  put_peak-HasPeak :
      IsOrdered F
      → (t : String) (roi : F) (d : Dict F) → (q : F) × (get d s ≡ some q) × (p ≤F q ≡ true)
      → (q : F) × (get (put d t (peak_after (get d t) roi)) s ≡ some q) × (p ≤F q ≡ true)
  put_peak-HasPeak laws t roi d (q, e, l) = elim (String_discrete t s) [
    | yes h ↦ (
      max q roi,
      ap (λ u. get (put d u (peak_after (get d u) roi)) s) h
          ∙ get-put_self d s _
          ∙ ap (λ o. some (peak_after o roi)) e,
      laws.le_trans p q (max q roi) l (max_left laws q roi),
    )
    | no h ↦ (q, get-put_ne d t s _ h ∙ e, l)
  ]

module _ {F : Type 0} ⦃f : Float F⦄ (laws : IsOrdered F) (step_size : String → F) where
  check_once-HasPeak :
      (s : String) (p : F) (r : Responses F) (ds : List (PositionDetail F)) (m : PositionMonitor F)
      → member s (symbols ds) ≡ true
      → HasPeak s p m
      → HasPeak s p (check_once step_size r ds m).1
  unfolding judge forget
  check_once-HasPeak s p r ds m h k =
      check_once-keeps step_size r (HasPeak s p) ds m
        (λ d n _ j.
          close_for-HasPeak s p r d.symbol _ _
            (put_peak-HasPeak s p laws d.symbol _ n.peak_roi_pct j))
        (λ d n _ j. first_seen-HasPeak s p step_size r d _ n j)
        (λ t n e j. forget_found-HasPeak s p r t _ n (ne_of_member s t (symbols ds) h e) j) k

  -- Over any polls that report a position, whatever raises, its recorded peak never falls.
  pub peak_never_falls :
      (s : String) (p : F) (polls : List (Responses F × Option (List (PositionDetail F))))
      (m : PositionMonitor F)
      → get m.peak_roi_pct s ≡ some p
      → IsReported s polls
      → (q : F) × (get (loop step_size polls m).peak_roi_pct s ≡ some q) × (p ≤F q ≡ true)
  unfolding loop
  peak_never_falls s p [] m h k = (p, h, laws.le_refl p)
  peak_never_falls s p ((r, none) ∷ polls) m h k = peak_never_falls s p polls m h k
  peak_never_falls s p ((r, some ds) ∷ polls) m h k =
      let (q, e, l) = check_once-HasPeak s p r ds m k.0 (p, h, laws.le_refl p) in
      let (q', e', l') = peak_never_falls s q polls _ e k.1 in (q', e', laws.le_trans p q q' l l')
