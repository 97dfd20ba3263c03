-- ===== src/Float/Fixed.antt =====
-- The laws of `Float` can be met: thousandths, whose products and quotients round down.
use binbot.Base.{
  if◌then◌else◌, zero, ℕ, ◌*◌, suc, ◌+◌, ◌/◌, ◌≡◌, ◌⊎◌, Bool, true, arith, ℤ, pos, negsuc, ◌+ℤ◌,
  ◌-ℤ◌, ◌*ℤ◌, ◌≤ℤ◌, pos_part, neg_part, neg, ltb_ℤ, leb_ℤ, ◌==◌, int_laws,
}
use binbot.Float.{FloatMath, Float, IsOrdered, IsMonotone}

-- Floor division by a positive divisor; the other signs through it.
abbrev pub floor_div : ℤ → ℤ → ℤ
floor_div a (pos b) = elim a [ pos n ↦ pos (n / b) | negsuc n ↦ negsuc (n / b) ]
floor_div a (negsuc b) = elim (neg a) [ pos n ↦ pos (n / suc b) | negsuc n ↦ negsuc (n / suc b) ]

abbrev pub eqb_ℤ : ℤ → ℤ → Bool
eqb_ℤ a b = pos_part a + neg_part b == pos_part b + neg_part a

-- The whole number `a`.
abbrev pub thousandths : ℤ → ℤ
thousandths (pos n) = pos (1000 * n)
thousandths (negsuc n) = negsuc (1000 * n + 999)

-- A literal without a fraction.
abbrev pub units : ℕ → ℤ
units n = pos (1000 * n)

instance abbrev pub fixed : Float ℤ
fixed = record {
  add = ◌+ℤ◌;
  sub = ◌-ℤ◌;
  mul = λ a b. floor_div (a *ℤ b) (pos 1000);
  div = λ a b. floor_div (a *ℤ pos 1000) b;
  minus = neg;
  lt = ltb_ℤ;
  le = leb_ℤ;
  equal = eqb_ℤ;
  of_int = thousandths;
  floor = λ a. floor_div a (pos 1000);
}

-- The greatest whole root by Newton's iteration, in as many steps as `rounds`.
abbrev newton : ℕ → ℕ → ℕ → ℕ
newton zero n x = x
newton (suc rounds) n x = let y = newton rounds n x in (y + n / y) / 2

abbrev pub sqrt_fixed : ℤ → ℤ
sqrt_fixed a = pos (newton 40 (1000 * pos_part a) (1 + 1000 * pos_part a))

-- A series cut after its first term for the logarithm, and the two powers that the program takes.
instance abbrev pub fixed_math : FloatMath ℤ
fixed_math = record {
  sqrt = sqrt_fixed;
  log = λ a. a -ℤ pos 1000;
  power = λ a b. if eqb_ℤ b (pos 500) then sqrt_fixed a else floor_div (a *ℤ a) (pos 1000);
  ceil = λ a. neg (floor_div (neg a) (pos 1000));
  round_int = λ a. floor_div (a +ℤ pos 500) (pos 1000);
  round_to = λ a digits. a;
}

leb_total : (a b : ℤ) → (leb_ℤ a b ≡ true) ⊎ (leb_ℤ b a ≡ true)
leb_total a b = grind arith

pub fixed-IsOrdered : IsOrdered ℤ
fixed-IsOrdered = record {
  le_refl = λ a. ground arith;
  le_trans = λ a b c h k. ground arith;
  le_total = leb_total;
  lt-eq-not-le = λ a b. ground arith;
  equal_refl = λ a. ground arith;
  equal_of_le = λ a b h. ground arith;
}

le_of_leb_ℤ : (a b : ℤ) → leb_ℤ a b ≡ true → a ≤ℤ b
le_of_leb_ℤ a b h = ground arith

leb_of_le_ℤ : (a b : ℤ) → a ≤ℤ b → leb_ℤ a b ≡ true
leb_of_le_ℤ a b h = ground arith

sub_mono_left_ℤ : (a b c : ℤ) → leb_ℤ a b ≡ true → leb_ℤ (a -ℤ c) (b -ℤ c) ≡ true
sub_mono_left_ℤ a b c h =
    let k : a ≤ℤ b = le_of_leb_ℤ a b h in leb_of_le_ℤ (a -ℤ c) (b -ℤ c) (omega int_laws)

sub_anti_right_ℤ : (a b c : ℤ) → leb_ℤ a b ≡ true → leb_ℤ (c -ℤ b) (c -ℤ a) ≡ true
sub_anti_right_ℤ a b c h =
    let k : a ≤ℤ b = le_of_leb_ℤ a b h in leb_of_le_ℤ (c -ℤ b) (c -ℤ a) (omega int_laws)

sub_self_ℤ : (a : ℤ) → a -ℤ a ≡ pos 0
sub_self_ℤ a = omega int_laws

thousandths_mono : (a b : ℤ) → a ≤ℤ b → leb_ℤ (thousandths a) (thousandths b) ≡ true
thousandths_mono a b h = ground arith

pub fixed-IsMonotone : IsMonotone ℤ
fixed-IsMonotone = record {
  sub_mono_left = sub_mono_left_ℤ;
  sub_anti_right = sub_anti_right_ℤ;
  sub_self = sub_self_ℤ;
  of_int_mono = thousandths_mono;
  of_int_nonzero = λ n. ground arith;
}
