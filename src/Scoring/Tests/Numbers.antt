-- ===== src/Scoring/Tests/Numbers.antt =====
-- Integers as text for the tests, with the sign in front.
use Prim.Native.String.{[], ◌∷◌}
use Prim.Native.Char.{code}
use iicpc_summer_hackathon.Prelude.{
  ℕ, zero, suc, String, ◌≡◌, refl, Option, none, some, if◌then◌else◌, ◌==◌, ap,
}
use iicpc_summer_hackathon.Prelude.Int.{ℤ, pos, negsuc}

-- Numbers in Redis, one digit for each unit behind the sign.
abbrev pub tally : ℕ → String
tally zero = []
tally (suc n) = "1" ∷ tally n

abbrev pub show_int : ℤ → String
show_int (pos n) = "+" ∷ tally n
show_int (negsuc n) = "-" ∷ tally n

abbrev units : String → ℕ
units [] = 0
units (c ∷ s) = suc (units s)

units-tally : (n : ℕ) → units (tally n) ≡ n
units-tally zero = refl
units-tally (suc n) = ap suc (units-tally n)

abbrev pub scan_int : String → Option ℤ
scan_int [] = none
scan_int (c ∷ s) = some (if code c == code "+" then pos (units s) else negsuc (units s))

pub scan_int-show_int : (n : ℤ) → scan_int (show_int n) ≡ some n
scan_int-show_int (pos n) = ap (λ m. some (pos m)) (units-tally n)
scan_int-show_int (negsuc n) = ap (λ m. some (negsuc m)) (units-tally n)
