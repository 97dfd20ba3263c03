-- ===== src/Risk/PositionSizing/Sizes.antt =====
-- The sizes that come out.
use binbot.Base.{
  ◌≡◌, refl, ◌⊎◌, true, false, not, ℤ, ◌≢◌, Error, pos, ◌≤ℤ◌, Result, ok, err, ◌&&◌, ◌||◌, arith,
  if-cases, zero_division,
}
use binbot.Float.{min_right, Float, IsOrdered, ◌-F◌, ◌*F◌, ◌/F◌, ◌<F◌, ◌≤F◌, ◌==F◌, lit, max, min}
use binbot.Risk.PositionSizing.{
  VolatilityInput, KellyInput, max_ℤ, min_ℤ, kelly_position_size, target_volatility_position_size,
}

module _ {F : Type 0} ⦃f : Float F⦄ where
  -- Target-volatility sizing raises a ValueError on an input that is not positive; on another one, whose
  -- product of price and multiplier and whose volatility in dollars are not rounded to 0, it answers with a size that
  -- is not negative and within the leverage, or 0.
  pub volatility_size_bounded :
      (i : VolatilityInput F)
      → let bad =
          (i.instrument_annual_volatility_pct ≤F lit 0)
          || ((i.price ≤F lit 0)
              || ((i.contract_multiplier ≤F lit 0) || (i.account_equity ≤F lit 0))) in
        let notional = i.price *F i.contract_multiplier in
        (bad ≡ true
          → (m : Error) × (target_volatility_position_size i ≡ err m) × (m ≢ zero_division))
        × (bad ≡ false
            → (notional ==F lit 0) ≡ false
            → (notional *F (i.instrument_annual_volatility_pct /F lit 100) ==F lit 0) ≡ false
            → (n : ℤ) × (target_volatility_position_size i ≡ ok n)
              × (pos 0 ≤ℤ n)
              × ((n ≤ℤ f.floor (i.account_equity *F i.max_leverage /F notional)) ⊎ (n ≡ pos 0)))
  unfolding target_volatility_position_size
  volatility_size_bounded i =
      let bad = i.instrument_annual_volatility_pct ≤F lit 0 in
      let bad' =
        (i.price ≤F lit 0) || ((i.contract_multiplier ≤F lit 0) || (i.account_equity ≤F lit 0)) in
      let notional = i.price *F i.contract_multiplier in
      let wanted =
        i.account_equity
        *F (i.target_annual_volatility_pct /F lit 100)
        /F (notional *F (i.instrument_annual_volatility_pct /F lit 100)) in
      let most = i.account_equity *F i.max_leverage /F notional in
      let P : Result ℤ → Type 0 = λ r. (m : Error) × (r ≡ err m) × (m ≢ zero_division) in
      (
        λ b.
            if-cases P bad _ _ (λ _. (_, refl, λ e. ground arith))
              (λ g. if-cases P bad' _ _ (λ _. (_, refl, λ e. ground arith)) (λ g'. ground arith)),
        λ b h k.
            let g : bad ≡ false = ground arith in
            let g' : bad' ≡ false = ground arith in
            (
              max_ℤ (min_ℤ (f.floor wanted) (f.floor most)) (pos 0),
              simp (g, g', h, k),
              ground arith,
              ground arith,
            ),
      )

  -- Kelly sizing raises a ValueError on an input out of its range; on another one, whose product of price and
  -- multiplier is not rounded to 0, it answers with a size that is not negative, and that a fraction of the equity
  -- of at most max_kelly_leverage pays for, or 0.
  pub kelly_size_bounded :
      IsOrdered F
      → (i : KellyInput F)
      → let bad =
          not ((lit 0 <F i.win_probability) && (i.win_probability <F lit 1))
          || ((i.win_loss_ratio ≤F lit 0)
              || ((i.price ≤F lit 0)
                  || ((i.contract_multiplier ≤F lit 0) || (i.account_equity ≤F lit 0)))) in
        let notional = i.price *F i.contract_multiplier in
        (bad ≡ true → (m : Error) × (kelly_position_size i ≡ err m) × (m ≢ zero_division))
        × (bad ≡ false
            → (notional ==F lit 0) ≡ false
            → (n : ℤ) × (fraction : F) × (kelly_position_size i ≡ ok n)
              × (pos 0 ≤ℤ n)
              × (fraction ≤F i.max_kelly_leverage ≡ true)
              × ((n ≤ℤ f.floor (fraction *F i.account_equity /F notional)) ⊎ (n ≡ pos 0)))
  unfolding kelly_position_size
  kelly_size_bounded laws i =
      let bad = not ((lit 0 <F i.win_probability) && (i.win_probability <F lit 1)) in
      let bad' = i.win_loss_ratio ≤F lit 0 in
      let bad'' =
        (i.price ≤F lit 0) || ((i.contract_multiplier ≤F lit 0) || (i.account_equity ≤F lit 0)) in
      let notional = i.price *F i.contract_multiplier in
      let edge =
        max (i.win_probability -F (lit 1 -F i.win_probability) /F i.win_loss_ratio) (lit 0) in
      let fraction = min (edge *F i.kelly_fraction_cap) i.max_kelly_leverage in
      let P : Result ℤ → Type 0 = λ r. (m : Error) × (r ≡ err m) × (m ≢ zero_division) in
      (
        λ b.
            if-cases P bad _ _ (λ _. (_, refl, λ e. ground arith))
              (λ g.
                if-cases P bad' _ _ (λ _. (_, refl, λ e. ground arith))
                  (λ g'.
                    if-cases P bad'' _ _ (λ _. (_, refl, λ e. ground arith))
                      (λ g''. ground arith))),
        λ b h.
            let g : bad ≡ false = ground arith in
            let g' : bad' ≡ false = ground arith in
            let g'' : bad'' ≡ false = ground arith in
            let z : (i.win_loss_ratio ==F lit 0) ≡ false =
              ground (arith, laws.equal_of_le i.win_loss_ratio (lit 0)) in
            (
              max_ℤ (f.floor (fraction *F i.account_equity /F notional)) (pos 0),
              fraction,
              simp (g, g', g'', z, h),
              ground arith,
              min_right laws _ i.max_kelly_leverage,
              ground arith,
            ),
      )
