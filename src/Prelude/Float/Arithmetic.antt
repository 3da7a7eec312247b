-- ===== src/Prelude/Float/Arithmetic.antt =====
-- Laws of float64 arithmetic on finite numbers that rounding leaves in force, and what follows of
-- the order. A zero with a sign counts as 0.
use iicpc_summer_hackathon.Prelude.Tests.{Bool-cases}
use iicpc_summer_hackathon.Prelude.Int.{ℤ, pos, ◌≤ℤ◌}
use iicpc_summer_hackathon.Prelude.Float.{Float64, IsOrdered}
use iicpc_summer_hackathon.Prelude.Float.Fixed.{fixed_point}
use native.Mathlib.Nat.{mul-le-mul_left, mul_comm, le-div_iff_mul-le, div-mul-le_self, zero-div}
use Prim.Native.Nat.{ℕ, ◌+◌, ◌-◌, ◌*◌, ◌/◌, ◌≤◌, ◌<◌}
use mathlib.Core.Path.{◌≡◌, refl, ap, ap₂, ◌∙◌}
use mathlib.Core.Logic.{inl, inr}
use mathlib.Core.Bool.{true, false}
use native.Mathlib.Omega.{arith}

module _ {F : Type 0} (fl : Float64 F) where
  -- Sums, products and quotients by a positive number are monotone, and so is float64(n).
  pub record IsMonotone : Type 0 where
    pub add_mono :
        (a b c d : F)
        → fl.lt b a ≡ false
        → fl.lt d c ≡ false
        → fl.lt (fl.add b d) (fl.add a c) ≡ false
    pub mul_mono :
        (a b c : F)
        → fl.lt c (fl.decimal 0 0) ≡ false
        → fl.lt b a ≡ false
        → fl.lt (fl.mul c b) (fl.mul c a) ≡ false
    pub mul_comm : (a b : F) → fl.mul a b ≡ fl.mul b a
    pub mul_zero : (a : F) → fl.mul a (fl.decimal 0 0) ≡ fl.decimal 0 0
    pub div_mono :
        (a b c : F)
        → fl.lt (fl.decimal 0 0) c ≡ true
        → fl.lt b a ≡ false
        → fl.lt (fl.div b c) (fl.div a c) ≡ false
    pub div_zero :
        (c : F) → fl.lt (fl.decimal 0 0) c ≡ true → fl.div (fl.decimal 0 0) c ≡ fl.decimal 0 0
    pub of_int_mono : (a b : ℤ) → a ≤ℤ b → fl.lt (fl.of_int b) (fl.of_int a) ≡ false
    pub of_int_zero : fl.of_int (pos 0) ≡ fl.decimal 0 0
    -- 0 - a, as Go's - a
    pub neg_mono :
        (a b : F)
        → fl.lt b a ≡ false
        → fl.lt (fl.sub (fl.decimal 0 0) a) (fl.sub (fl.decimal 0 0) b) ≡ false
    pub mul_neg :
        (a b : F) → fl.mul (fl.sub (fl.decimal 0 0) a) b ≡ fl.sub (fl.decimal 0 0) (fl.mul a b)
    pub neg_zero : fl.sub (fl.decimal 0 0) (fl.decimal 0 0) ≡ fl.decimal 0 0
    -- Whole numbers up to 2^53 are exact.
    pub lit_mono :
        (m n : ℕ) → m < n → n < 9007199254740993 → fl.lt (fl.decimal m 0) (fl.decimal n 0) ≡ true
    pub lit_add :
        (m n : ℕ)
        → m + n < 9007199254740992
        → fl.add (fl.decimal m 0) (fl.decimal n 0) ≡ fl.decimal (m + n) 0

  pub mul_mono_right :
      IsMonotone
      → (a b c : F) → fl.lt c (fl.decimal 0 0) ≡ false
      → fl.lt b a ≡ false
      → fl.lt (fl.mul b c) (fl.mul a c) ≡ false
  mul_mono_right m a b c p q = ap₂ fl.lt (m.mul_comm b c) (m.mul_comm a c) ∙ m.mul_mono a b c p q

  pub le_trans_float :
      IsOrdered fl → (a b c : F) → fl.lt b a ≡ false → fl.lt c b ≡ false → fl.lt c a ≡ false
  le_trans_float o a b c p q = elim (Bool-cases (fl.lt c a)) [
    | inl less ↦ elim (o.lt_split c b a less) [ inl x ↦ cc | inr y ↦ cc ]
    | inr not_less ↦ not_less
  ]

  pub le_of_lt_float : IsOrdered fl → (a b : F) → fl.lt a b ≡ true → fl.lt b a ≡ false
  le_of_lt_float o a b p = elim (Bool-cases (fl.lt b a)) [
    | inl less ↦ absurd (ground (arith, o.lt_trans a b a p less, o.lt_irrefl a))
    | inr not_less ↦ not_less
  ]

mul-le_scaled : (a b c : ℕ) → a ≤ b → c * a / 10000 ≤ c * b / 10000
mul-le_scaled a b c h = omega (arith, mul-le-mul_left {m = a} {n = b} c h)

div-le_scaled : (a b c : ℕ) → 0 < c → a ≤ b → a * 10000 / c ≤ b * 10000 / c
div-le_scaled a b c h le =
    (le-div_iff_mul-le {k = c} {x = a * 10000 / c} {y = b * 10000} h).1
      (omega (arith, div-mul-le_self (a * 10000) c, le))

neg_product : (a b : ℕ) → (0 - a) * b / 10000 ≡ 0 - a * b / 10000
neg_product a b =
    let none_left : 0 - a ≡ 0 = omega arith in ap (λ n. n * b / 10000) none_left ∙ omega arith

pub fixed_point-IsMonotone : IsMonotone fixed_point
fixed_point-IsMonotone = record {
  add_mono = λ a b c d p q. ground arith;
  mul_mono = λ a b c p q. ground (arith, mul-le_scaled a b c);
  mul_comm = λ a b. ap (λ n. n / 10000) (mul_comm a b);
  mul_zero = λ a. omega arith;
  div_mono = λ a b c p q. ground (arith, div-le_scaled a b c);
  div_zero = λ c p. zero-div c;
  of_int_mono = λ a b p. ground arith;
  of_int_zero = refl;
  neg_mono = λ a b p. ground arith;
  mul_neg = λ a b. neg_product a b;
  neg_zero = refl;
  lit_mono = λ m n p h. ground arith;
  lit_add = λ m n p. omega arith;
}
