-- ===== src/Prelude/Float.antt =====
-- Go's float64, which the model takes as a parameter: the operations that the program uses, and,
-- as separate records, the laws of IEEE 754 arithmetic that a theorem may rely on. The laws are
-- those of the finite numbers: encoding/json decodes no NaN and no infinity.
use iicpc_summer_hackathon.Prelude.Tests.{◌==◌}
pub mod Fixed
pub mod Arithmetic
use iicpc_summer_hackathon.Prelude.Int.{ℤ, pos, ◌≤ℤ◌}
use Prim.Native.Nat.{ℕ, ◌+◌, ◌-◌, ◌*◌, ◌/◌, ◌^◌, ◌≤◌, ◌<◌}
use Prim.Native.String.{String}
use mathlib.Core.Path.{◌≡◌}
use mathlib.Core.Logic.{◌⊎◌}
use mathlib.Core.Bool.{Bool, true, false, not, ◌||◌}
use native.Mathlib.Omega.{arith}

pub record Float64 (F : Type 0) : Type 0 where
  pub lt : F → F → Bool
  pub eq : F → F → Bool
  pub add : F → F → F
  pub sub : F → F → F
  pub mul : F → F → F
  pub div : F → F → F
  -- the literal n / 10 ^ k
  pub decimal : ℕ → ℕ → F
  pub max_float : F
  -- float64(n) and int64(x)
  pub of_int : ℤ → F
  pub trunc : F → ℤ
  -- fmt.Sprintf("%.1f", x) and fmt.Sprintf("%.4f", x)
  pub show1 : F → String
  pub show4 : F → String

module _ {F : Type 0} (fl : Float64 F) where
  -- `<` on finite numbers is a strict weak order, and `==` holds where neither is less.
  pub record IsOrdered : Type 0 where
    pub lt_irrefl : (a : F) → fl.lt a a ≡ false
    pub lt_trans : (a b c : F) → fl.lt a b ≡ true → fl.lt b c ≡ true → fl.lt a c ≡ true
    pub lt_split : (a b c : F) → fl.lt a c ≡ true → (fl.lt a b ≡ true) ⊎ (fl.lt b c ≡ true)
    pub eq_lt : (a b : F) → fl.eq a b ≡ not (fl.lt a b || fl.lt b a)

  -- A product by a whole number that a float64 holds exactly is monotone, exact at 0 and 1, and so
  -- is the conversion back; a decimal literal is the nearest float64, so literals keep their order.
  pub record IsScaling : Type 0 where
    pub mul_mono :
        (n : ℕ) (p q : F)
        → n < 9007199254740992
        → fl.lt q p ≡ false
        → fl.lt (fl.mul (fl.of_int (pos n)) q) (fl.mul (fl.of_int (pos n)) p) ≡ false
    pub mul_zero : (n : ℕ) → fl.mul (fl.of_int (pos n)) (fl.decimal 0 0) ≡ fl.of_int (pos 0)
    pub mul_one :
        (n : ℕ)
        → n < 9007199254740992
        → fl.mul (fl.of_int (pos n)) (fl.decimal 1 0) ≡ fl.of_int (pos n)
    -- Of numbers from 0 to n; Go leaves the conversion of larger ones open.
    pub trunc_mono :
        (n : ℕ) (a b : F)
        → n < 9007199254740992
        → fl.lt a (fl.of_int (pos 0)) ≡ false
        → fl.lt (fl.of_int (pos n)) b ≡ false
        → fl.lt b a ≡ false
        → fl.trunc a ≤ℤ fl.trunc b
    pub trunc_of_int : (n : ℕ) → n < 9007199254740992 → fl.trunc (fl.of_int (pos n)) ≡ pos n
    pub decimal_mono :
        (m j n k : ℕ)
        → n < 9007199254740992
        → m * 10 ^ k ≤ n * 10 ^ j
        → fl.lt (fl.decimal n k) (fl.decimal m j) ≡ false
