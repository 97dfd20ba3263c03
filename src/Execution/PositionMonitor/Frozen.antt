-- ===== src/Execution/PositionMonitor/Frozen.antt =====
-- The stop-loss of a position, frozen when it is first seen.
use binbot.Base.{
  member, ◌≡◌, ◌≢◌, refl, ap, ◌∙◌, true, Option, none, some, String, List, [], ◌∷◌, ℤ, Result, ok,
  err, arith, ◌⊎◌, inl, inr,
}
use binbot.Float.{Float}
use binbot.Dict.{Dict, get, put, keys, get-put_ne, get-remove_ne}
use binbot.Execution.Trailing.{PositionDetail, CloseReason}
use binbot.Execution.PositionMonitor.Steps.{symbols, check_once-keeps, ne_of_member}
use binbot.Execution.PositionMonitor.Closing.{IsReported}
use binbot.Execution.PositionMonitor.{
  Responses, PositionMonitor, signed_lots, book, close_position, close_for, forget, forget_found,
  arm_placed, first_seen, judge, check_once, loop,
}

member-put_self :
    {V : Type 0} (d : Dict V) (k : String) (v : V) → member k (keys (put d k v)) ≡ true
unfolding put
member-put_self [] k v = ground arith
member-put_self ((j, w) ∷ d) k v = ground (arith, member-put_self d k v)

member-put :
    {V : Type 0} (d : Dict V) (k : String) (v : V) (s : String)
    → member s (keys d) ≡ true
    → member s (keys (put d k v)) ≡ true
unfolding put
member-put [] k v s h = ground arith
member-put ((j, w) ∷ d) k v s h = ground (arith, member-put d k v s)

member-book_old :
    {F : Type 0} (s : String) (ds : List (PositionDetail F)) (p : Dict ℤ)
    → member s (keys p) ≡ true
    → member s (keys (book ds p)) ≡ true
unfolding book
member-book_old s [] p h = h
member-book_old s (d ∷ ds) p h =
    member-book_old s ds (put p d.symbol (signed_lots d))
      (member-put p d.symbol (signed_lots d) s h)

member-cons :
    (s t : String) (xs : List String) → member s (t ∷ xs) ≡ true → (s ≡ t) ⊎ (member s xs ≡ true)
member-cons s t xs h = grind arith

member-book :
    {F : Type 0} (s : String) (ds : List (PositionDetail F)) (p : Dict ℤ)
    → member s (symbols ds) ≡ true
    → member s (keys (book ds p)) ≡ true
unfolding book
member-book s [] p h = ground arith
member-book s (d ∷ ds) p h =
    let old = member-book_old s ds (put p d.symbol (signed_lots d)) in
    let new = member-book s ds (put p d.symbol (signed_lots d)) in
    let self = member-put_self p d.symbol (signed_lots d) in
    elim (member-cons s d.symbol (symbols ds) h) [
      | inl e ↦ old (ap (λ t. member t (keys (put p d.symbol (signed_lots d)))) e ∙ self)
      | inr k ↦ new k
    ]

module _ {F : Type 0} (s : String) (o : Option F) (p : Dict ℤ) where
  -- The stop-loss of s is o, and the positions are p.
  abbrev IsFrozen : PositionMonitor F → Type 0
  IsFrozen m = (get m.position_stop_loss_usdt s ≡ o) × (m.positions ≡ p)

  close_position-IsFrozen :
      (r : Responses F) (t : String) (q : ℤ) (why : CloseReason F) (m : PositionMonitor F)
      → IsFrozen m
      → IsFrozen (close_position r t q why m).1
  unfolding close_position
  close_position-IsFrozen r t q why m k = ground arith

  close_for-IsFrozen :
      (r : Responses F) (t : String) (c : Result (Option (CloseReason F))) (m : PositionMonitor F)
      → IsFrozen m
      → IsFrozen (close_for r t c m).1
  close_for-IsFrozen r t (err e) m k = k
  close_for-IsFrozen r t (ok none) m k = k
  close_for-IsFrozen r t (ok (some why)) m k = close_position-IsFrozen r t _ why m k

  arm_placed-IsFrozen :
      (t : String) (id : Option (Option String)) (m : PositionMonitor F)
      → IsFrozen m
      → IsFrozen (arm_placed t id m).1
  arm_placed-IsFrozen t none m k = k
  arm_placed-IsFrozen t (some none) m k = k
  arm_placed-IsFrozen t (some (some id)) m k = k

  forget_found-IsFrozen :
      (r : Responses F) (t : String) (id : Option String) (m : PositionMonitor F)
      → t ≢ s
      → IsFrozen m
      → IsFrozen (forget_found r t id m).1
  unfolding forget_found
  forget_found-IsFrozen r t none m h k = (get-remove_ne m.position_stop_loss_usdt t s h ∙ k.0, k.1)
  forget_found-IsFrozen r t (some id) m h k =
      let e = get-remove_ne m.position_stop_loss_usdt t s h in ground arith

  forget-IsFrozen :
      (r : Responses F) (t : String) (m : PositionMonitor F)
      → t ≢ s
      → IsFrozen m
      → IsFrozen (forget r t m).1
  unfolding forget
  forget-IsFrozen r t m h k = forget_found-IsFrozen r t (get m.native_stop_order_id t) m h k

module _ {F : Type 0} ⦃f : Float F⦄ (step_size : String → F) where
  first_seen-IsFrozen :
      (s : String) (o : Option F) (p : Dict ℤ) (r : Responses F) (d : PositionDetail F)
      (e : Option F) (m : PositionMonitor F)
      → d.symbol ≢ s
      → IsFrozen s o p m
      → IsFrozen s o p (first_seen step_size r d e m).1
  unfolding first_seen
  first_seen-IsFrozen s o p r d none m h k = k
  first_seen-IsFrozen s o p r d (some equity) m h k =
      arm_placed-IsFrozen s o p d.symbol (r.placed d.symbol) _
        (get-put_ne m.position_stop_loss_usdt d.symbol s _ h ∙ k.0, k.1)

  judge-IsFrozen :
      (s : String) (o : Option F) (p : Dict ℤ) (r : Responses F) (d : PositionDetail F)
      (m : PositionMonitor F)
      → IsFrozen s o p m
      → IsFrozen s o p (judge step_size r d m).1
  unfolding judge
  judge-IsFrozen s o p r d m k = close_for-IsFrozen s o p r d.symbol _ _ k

  check_once-IsFrozen :
      (s : String) (r : Responses F) (ds : List (PositionDetail F)) (m : PositionMonitor F)
      → member s (symbols ds) ≡ true
      → member s (keys m.positions) ≡ true
      → IsFrozen s (get m.position_stop_loss_usdt s) (book ds []) (check_once step_size r ds m).1
  check_once-IsFrozen s r ds m h g =
      let P = IsFrozen s (get m.position_stop_loss_usdt s) (book ds []) in
      check_once-keeps step_size r P ds m (λ d m _. judge-IsFrozen s _ _ r d m)
        (λ d n e.
          first_seen-IsFrozen s _ _ r d _ n (ne_of_member s d.symbol (keys m.positions) g e))
        (λ t n e. forget-IsFrozen s _ _ r t n (ne_of_member s t (symbols ds) h e)) (refl, refl)

  -- The stop-loss of a known position stays what it was over any polls that report it, whatever the
  -- equity and whatever raises.
  pub stop_loss_frozen :
      (s : String) (polls : List (Responses F × Option (List (PositionDetail F))))
      (m : PositionMonitor F)
      → member s (keys m.positions) ≡ true
      → IsReported s polls
      → get (loop step_size polls m).position_stop_loss_usdt s ≡ get m.position_stop_loss_usdt s
  unfolding loop
  stop_loss_frozen s [] m h k = refl
  stop_loss_frozen s ((r, none) ∷ polls) m h k = stop_loss_frozen s polls m h k
  stop_loss_frozen s ((r, some ds) ∷ polls) m h k =
      let one = check_once-IsFrozen s r ds m k.0 h in
      stop_loss_frozen s polls _ (ap (λ p. member s (keys p)) one.1 ∙ member-book s ds [] k.0) k.1
      ∙ one.0
