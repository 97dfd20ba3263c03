-- ===== src/Execution/Binance/Backoff.antt =====
-- The loop of `connect` in execution/binance_broker.py, and of the two streams that reconnect in the same way: each
-- attempt returns or raises.
use binbot.Base.{
  ℕ, zero, suc, ◌≡◌, refl, Bool, true, false, List, [], ◌∷◌, ◌++◌, All, length, arith,
}
use binbot.Float.{Float, IsOrdered, max, min, ◌*F◌, ◌≤F◌, lit, max_left, max_right, min_right}

-- Where the loop stands after its attempts: connected or not, with the sleeps so far.
pub record Progress (F : Type 0) : Type 0 where
  pub connected : Bool
  pub sleeps : List F

module _ {F : Type 0} where
  abbrev pub sleep : F → Progress F → Progress F
  sleep backoff p = record p { sleeps = backoff ∷ p.sleeps }

module _ {F : Type 0} ⦃f : Float F⦄ where
  unfoldable pub connect_loop : F → F → List Bool → Progress F
  connect_loop reconnect_backoff_max_s backoff [] = record { connected = false; sleeps = [] }
  connect_loop reconnect_backoff_max_s backoff (true ∷ attempts) = record {
    connected = true;
    sleeps = [];
  }
  connect_loop reconnect_backoff_max_s backoff (false ∷ attempts) = sleep backoff (
      connect_loop reconnect_backoff_max_s (min (backoff *F lit 2) reconnect_backoff_max_s)
        attempts)

-- A number of failures.
abbrev pub failures : ℕ → List Bool
failures zero = []
failures (suc n) = false ∷ failures n

module _ {F : Type 0} ⦃f : Float F⦄ (laws : IsOrdered F) where
  sleeps_below :
      (most top backoff : F) (attempts : List Bool)
      → most ≤F top ≡ true
      → backoff ≤F top ≡ true
      → All (λ d. d ≤F top ≡ true) (connect_loop most backoff attempts).sleeps
  unfolding connect_loop
  sleeps_below most top backoff [] h k = tt
  sleeps_below most top backoff (true ∷ attempts) h k = tt
  sleeps_below most top backoff (false ∷ attempts) h k =
      let next = min (backoff *F lit 2) most in
      (
        k,
        sleeps_below most top next attempts h
            (laws.le_trans next most top (min_right laws (backoff *F lit 2) most) h),
      )

  sleeps_count :
      (most backoff : F) (n : ℕ) (rest : List Bool)
      → let p = connect_loop most backoff (failures n ++ true ∷ rest) in
        (p.connected ≡ true) × (length p.sleeps ≡ n)
  unfolding connect_loop
  sleeps_count most backoff zero rest = (refl, refl)
  sleeps_count most backoff (suc n) rest =
      let h = sleeps_count most (min (backoff *F lit 2) most) n rest in (h.0, ground (arith, h.1))

  -- The loop goes on until an attempt returns and ends there: after n failures and a success, whatever would have come
  -- later, it is connected and has slept n times, never longer than the larger of the first backoff and the maximum.
  pub connect_loop_ends :
      (most backoff : F) (n : ℕ) (rest : List Bool)
      → let p = connect_loop most backoff (failures n ++ true ∷ rest) in
        (p.connected ≡ true)
        × (length p.sleeps ≡ n)
        × All (λ d. d ≤F max backoff most ≡ true) p.sleeps
  connect_loop_ends most backoff n rest =
      let count = sleeps_count most backoff n rest in
      (
        count.0,
        count.1,
        sleeps_below most (max backoff most) backoff (failures n ++ true ∷ rest)
            (max_right laws backoff most) (max_left laws backoff most),
      )
