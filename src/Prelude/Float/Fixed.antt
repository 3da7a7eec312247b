-- ===== src/Prelude/Float/Fixed.antt =====
-- Prices in units of 1 / 10000, an instance of the float64 interface and of its laws.
use native.Mathlib.Nat.{
  pow-suc, le-div_iff_mul-le, div-mul-le_self, le_of_mul-le-mul_right, mul-le-mul_right,
  mul-le-mul_left,
}
use iicpc_summer_hackathon.Prelude.Tests.{ltb, ◌==◌}
use iicpc_summer_hackathon.Prelude.Int.{pos, pos_part}
use iicpc_summer_hackathon.Prelude.Float.{Float64, IsOrdered, IsScaling}
use Prim.Native.Nat.{ℕ, zero, suc, ◌+◌, ◌-◌, ◌*◌, ◌/◌, ◌^◌, ◌≤◌, ◌<◌}
use mathlib.Core.Path.{ap}
use native.Mathlib.Omega.{arith}

-- Numbers that are not negative, in units of 1 / 10000: a float64 for tests.
abbrev pub fixed_point : Float64 ℕ
fixed_point = record {
  lt = ltb;
  eq = ◌==◌;
  add = λ a b. a + b;
  sub = λ a b. a - b;
  mul = λ a b. a * b / 10000;
  div = λ a b. a * 10000 / b;
  decimal = λ n k. n * 10000 / 10 ^ k;
  max_float = 10 ^ 300;
  of_int = λ n. pos_part n * 10000;
  trunc = λ a. pos (a / 10000);
  show1 = λ a. "0.0";
  show4 = λ a. "0.0000";
}

pub fixed_point-IsOrdered : IsOrdered fixed_point
fixed_point-IsOrdered = record {
  lt_irrefl = λ a. ground arith;
  lt_trans = λ a b c p q. ground arith;
  lt_split = λ a b c p. ground arith;
  eq_lt = λ a b. ground arith;
}

pow_pos : (k : ℕ) → 0 < 10 ^ k
pow_pos zero = omega arith
pow_pos (suc k) = rw (pow-suc 10 k) (omega (arith, pow_pos k))

cross_mul : (a b c m n : ℕ) → a * b ≤ m * 10000 → m * c ≤ n * b → 0 < b → a * c ≤ n * 10000
cross_mul a b c m n p q h =
    le_of_mul-le-mul_right {k = b} (omega (arith, mul-le-mul_right c p, mul-le-mul_right 10000 q)) h

product_mono : (n p q : ℕ) → p ≤ q → n * 10000 * p / 10000 ≤ n * 10000 * q / 10000
product_mono n p q h = omega (arith, mul-le-mul_left n h)

literals_mono : (m j n k : ℕ) → m * 10 ^ k ≤ n * 10 ^ j → m * 10000 / 10 ^ j ≤ n * 10000 / 10 ^ k
literals_mono m j n k h = (le-div_iff_mul-le (pow_pos k)).1 (
    cross_mul (m * 10000 / 10 ^ j) (10 ^ j) (10 ^ k) m n (div-mul-le_self (m * 10000) (10 ^ j)) h
      (pow_pos j))

pub fixed_point-IsScaling : IsScaling fixed_point
fixed_point-IsScaling = record {
  mul_mono = λ n p q small h. ground (arith, product_mono n p q);
  mul_zero = λ n. omega arith;
  mul_one = λ n h. omega arith;
  trunc_mono = λ n a b small low high h. ground arith;
  trunc_of_int = λ n h. ap pos (omega arith);
  decimal_mono = λ m j n k small h. ground (arith, literals_mono m j n k h);
}
