-- ===== src/Float.antt =====
-- Python's `float`, as an interface: what the program does with one. The values are those that
-- arise without overflow and NaN; `/` is guarded by `divide`, which raises as Python does.
pub mod Fixed
use binbot.Base.{
  List, foldl, Option, none, some, arith, ℕ, suc, ◌≡◌, ◌⊎◌, Bool, true, false, not, ℤ, pos, ◌≤ℤ◌,
  Result, ok, err, zero_division, if◌then◌else◌,
}

pub record Float (F : Type 0) : Type 0 where
  pub add : F → F → F
  pub sub : F → F → F
  pub mul : F → F → F
  pub div : F → F → F
  pub minus : F → F
  pub lt : F → F → Bool
  pub le : F → F → Bool
  pub equal : F → F → Bool
  -- the conversion of an `int`, and `math.floor`
  pub of_int : ℤ → F
  pub floor : F → ℤ

module _ {F : Type 0} ⦃f : Float F⦄ where
  infixl 65 ◌+F◌ ◌-F◌
  infixl 70 ◌*F◌ ◌/F◌
  infix 50 ◌<F◌ ◌≤F◌ ◌==F◌
  abbrev pub ◌+F◌ : F → F → F
  a +F b = f.add a b

  abbrev pub ◌-F◌ : F → F → F
  a -F b = f.sub a b

  abbrev pub ◌*F◌ : F → F → F
  a *F b = f.mul a b

  -- The quotient where the divisor is known not to be 0.
  abbrev pub ◌/F◌ : F → F → F
  a /F b = f.div a b

  abbrev pub ◌<F◌ : F → F → Bool
  a <F b = f.lt a b

  abbrev pub ◌≤F◌ : F → F → Bool
  a ≤F b = f.le a b

  abbrev pub ◌==F◌ : F → F → Bool
  a ==F b = f.equal a b

  -- A literal without a fraction, such as 100.0.
  abbrev pub lit : ℕ → F
  lit n = f.of_int (pos n)

  -- `a / b`
  abbrev pub divide : F → F → Result F
  divide a b = if f.equal b (lit 0) then err zero_division else ok (f.div a b)

  -- Python's `max(a, b)` and `min(a, b)` keep the first unless the second is beyond it.
  abbrev pub max : F → F → F
  max a b = if f.lt a b then b else a

  abbrev pub min : F → F → F
  min a b = if f.lt b a then b else a

-- What Python's `math` module and `round` add. `log` is on positive numbers, and `power a b` is `a ** b`.
pub record FloatMath (F : Type 0) : Type 0 where
  pub sqrt : F → F
  pub log : F → F
  pub power : F → F → F
  pub ceil : F → ℤ
  -- `round(x)`, and `round(x, digits)`
  pub round_int : F → ℤ
  pub round_to : F → ℤ → F

module _ {F : Type 0} ⦃f : Float F⦄ where
  -- `sum(xs)`, from 0 and from the left.
  abbrev pub sum : List F → F
  sum = foldl (λ acc x. f.add acc x) (f.of_int (pos 0))

  -- `x or y`: 0.0 is false.
  abbrev pub or_else : Option F → F → F
  or_else none y = y
  or_else (some x) y = if f.equal x (f.of_int (pos 0)) then y else x

-- The order of the values that are not NaN.
pub record IsOrdered (F : Type 0) ⦃f : Float F⦄ : Type 0 where
  pub le_refl : (a : F) → f.le a a ≡ true
  pub le_trans : (a b c : F) → f.le a b ≡ true → f.le b c ≡ true → f.le a c ≡ true
  pub le_total : (a b : F) → (f.le a b ≡ true) ⊎ (f.le b a ≡ true)
  pub lt-eq-not-le : (a b : F) → f.lt a b ≡ not (f.le b a)
  pub equal_refl : (a : F) → f.equal a a ≡ true
  pub equal_of_le : (a b : F) → f.equal a b ≡ true → f.le a b ≡ true

-- Rounding keeps the order, and small whole numbers are exact.
pub record IsMonotone (F : Type 0) ⦃f : Float F⦄ : Type 0 where
  pub sub_mono_left : (a b c : F) → f.le a b ≡ true → f.le (f.sub a c) (f.sub b c) ≡ true
  pub sub_anti_right : (a b c : F) → f.le a b ≡ true → f.le (f.sub c b) (f.sub c a) ≡ true
  pub sub_self : (a : F) → f.sub a a ≡ f.of_int (pos 0)
  pub of_int_mono : (a b : ℤ) → a ≤ℤ b → f.le (f.of_int a) (f.of_int b) ≡ true
  pub of_int_nonzero : (n : ℕ) → f.equal (f.of_int (pos (suc n))) (f.of_int (pos 0)) ≡ false

module _ {F : Type 0} ⦃f : Float F⦄ (laws : IsOrdered F) where
  pub max_left : (a b : F) → a ≤F max a b ≡ true
  max_left a b = ground (arith, laws.le_refl a, laws.le_total a b, laws.lt-eq-not-le a b)

  pub max_right : (a b : F) → b ≤F max a b ≡ true
  max_right a b = ground (arith, laws.le_refl b, laws.le_total a b, laws.lt-eq-not-le a b)

  pub min_left : (a b : F) → min a b ≤F a ≡ true
  min_left a b = ground (arith, laws.le_refl a, laws.le_total a b, laws.lt-eq-not-le b a)

  pub min_right : (a b : F) → min a b ≤F b ≡ true
  min_right a b = ground (arith, laws.le_refl b, laws.le_total a b, laws.lt-eq-not-le b a)
