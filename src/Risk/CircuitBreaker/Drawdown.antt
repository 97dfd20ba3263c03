-- ===== src/Risk/CircuitBreaker/Drawdown.antt =====
-- The bases of the drawdown in risk/circuit_breaker.py: the peak, and when the division can raise.
use binbot.Base.{
  ◌≡◌, ◌≢◌, true, false, List, [], ◌∷◌, arith, Error, ok, err, zero_division, refl, map, foldl, ◌⊎◌,
}
use binbot.Float.{Float, ◌≤F◌, lit, max, IsOrdered}
use binbot.Core.Events.{DateTime, Date, date}
use binbot.Risk.CircuitBreaker.{DrawdownCircuitBreaker, create, update}
use binbot.Risk.CircuitBreaker.Session.{feed, SameDay}

module _ {F : Type 0} ⦃f : Float F⦄ where
  abbrev pub IsPositive : F → Type 0
  IsPositive x = (x ≤F lit 0) ≡ false

  -- The start is positive and the peak is not below it.
  pub record IsValid (b : DrawdownCircuitBreaker F) : Type 0 where
    pub start_positive : IsPositive b.starting_equity
    pub start_le_peak : (b.starting_equity ≤F b.peak_equity) ≡ true

  peak-update :
      (equity : F) (now : DateTime) (b : DrawdownCircuitBreaker F)
      → date now ≡ b.session_date
      → ((update equity now b).1.peak_equity ≡ max b.peak_equity equity)
        × ((update equity now b).1.session_date ≡ b.session_date)
        × ((update equity now b).1.starting_equity ≡ b.starting_equity)
  unfolding update
  peak-update equity now b today = ground arith

  -- While the day lasts the start stays, and the peak is the largest of the old peak and all equities fed.
  pub peak_is_max :
      (es : List (F × DateTime)) (b : DrawdownCircuitBreaker F)
      → SameDay b.session_date es
      → ((feed es b).1.peak_equity ≡ foldl max b.peak_equity (map (λ e. e.0) es))
        × ((feed es b).1.starting_equity ≡ b.starting_equity)
  unfolding feed
  peak_is_max [] b d = (refl, refl)
  peak_is_max ((equity, now) ∷ rest) b d =
      let today : date now ≡ b.session_date = d.0 in
      let (_, b') = update equity now b in
      let (peak, day, start) = peak-update equity now b today in
      let (later, kept) = peak_is_max rest b' (rw day d.1) in ground arith

  module _ (laws : IsOrdered F) where
    positive_not_zero : (x : F) → IsPositive x → f.equal x (lit 0) ≡ false
    positive_not_zero x h = ground (arith, laws.equal_of_le x (lit 0))

    IsPositive-mono : (x y : F) → IsPositive x → (x ≤F y) ≡ true → IsPositive y
    IsPositive-mono x y h k = ground (arith, laws.le_trans x y (lit 0))

    le-max : (x y : F) → (x ≤F max x y) ≡ true
    le-max x y = ground (arith, laws.lt-eq-not-le x y, laws.le_refl x, laws.le_total x y)

    -- The constructor accepts only a state that meets the invariant.
    pub create-IsValid :
        (max_pct equity : F) (today : Date) (b : DrawdownCircuitBreaker F)
        → create max_pct equity today ≡ ok b
        → IsValid b
    unfolding create
    create-IsValid max_pct equity today b h = ground (arith, laws.le_refl equity)

    -- From a valid state `update` does not raise, and it leaves a valid state if the equity is positive
    -- or the day has not changed.
    pub update_total :
        (equity : F) (now : DateTime) (b : DrawdownCircuitBreaker F)
        → IsValid b
        → ((e : Error) → (update equity now b).0 ≢ err e)
          × (IsPositive equity ⊎ (date now ≡ b.session_date) → IsValid (update equity now b).1)
    unfolding update
    update_total equity now b v =
        let up : (b.starting_equity ≤F max b.peak_equity equity) ≡ true =
          laws.le_trans b.starting_equity b.peak_equity (max b.peak_equity equity) v.start_le_peak
            (le-max b.peak_equity equity) in
        let p : IsPositive (max b.peak_equity equity) =
          IsPositive-mono b.starting_equity (max b.peak_equity equity) v.start_positive up in
        let nz : f.equal b.starting_equity (lit 0) ≡ false =
          positive_not_zero b.starting_equity v.start_positive in
        let nz' : f.equal (max b.peak_equity equity) (lit 0) ≡ false =
          positive_not_zero (max b.peak_equity equity) p in
        (λ e. ground arith, λ h. ground (arith, laws.le_refl equity))

    -- A new day that begins at equity 0 resets the start to 0, which the constructor would refuse: every later
    -- update of that day raises ZeroDivisionError, whatever the equity.
    pub rollover_at_zero :
        (equity : F) (now later : DateTime) (b : DrawdownCircuitBreaker F)
        → date now ≢ b.session_date
        → date later ≡ date now
        → (update equity later (update (lit 0) now b).1).0 ≡ err zero_division
    unfolding update
    rollover_at_zero equity now later b other same = ground (arith, laws.equal_refl (lit 0))
