-- ===== src/ApiGateway/Text.antt =====
-- The functions of strings that the gateway uses.
use Prim.Native.Char.{Char, code}
use Prim.Native.String.{[], ◌∷◌, ◌++◌}
use Prim.Native.String.append
use iicpc_summer_hackathon.Prelude.{
  ◌≡◌, ap, ◌∙◌, ℕ, true, String, Option, none, some, get_or, if◌then◌else◌, ◌==◌, arith, str_eq,
  eq_iff, Bool-cases, inl, inr, sym, false, ◌≢◌,
}

-- The rest behind a prefix, where the text begins with it.
unfoldable pub strip_prefix : String → String → Option String
strip_prefix [] s = some s
strip_prefix (p ∷ ps) [] = none
strip_prefix (p ∷ ps) (c ∷ s) =
    let rest = strip_prefix ps s in if code p == code c then rest else none

-- strings.TrimPrefix.
abbrev pub trim_prefix : String → String → String
trim_prefix s prefix = get_or s (strip_prefix prefix s)

-- strings.Replace(s, old, new, 1), for an old text that is not empty.
unfoldable pub replace_first : String → String → String → String
unfolding strip_prefix
replace_first [] old new = []
replace_first (c ∷ s) old new =
    let later = c ∷ replace_first s old new in
    elim (strip_prefix old (c ∷ s)) [ some rest ↦ new ++ rest | none ↦ later ]

eq_self : (n : ℕ) → (n == n) ≡ true
eq_self n = ground arith

pub strip_prefix-append : (p s : String) → strip_prefix p (p ++ s) ≡ some s
unfolding strip_prefix
strip_prefix-append [] s = ap some (append.nil s)
strip_prefix-append (p ∷ ps) s =
    ap (strip_prefix (p ∷ ps)) (append.cons p ps s)
    ∙ rw (eq_self (code p)) (strip_prefix-append ps s)

pub trim_prefix-append : (p s : String) → trim_prefix (p ++ s) p ≡ s
trim_prefix-append p s = ap (get_or (p ++ s)) (strip_prefix-append p s)

cons-ne-nil : (c : Char) (s : String) → (c ∷ s) ≢ []
cons-ne-nil c s e = cc

pub str_eq-nonempty : (c : Char) (t s : String) → str_eq ((c ∷ t) ++ s) [] ≡ false
str_eq-nonempty c t s = elim (Bool-cases (str_eq ((c ∷ t) ++ s) [])) [
  | inl same ↦
      absurd (cons-ne-nil c (t ++ s) (sym (append.cons c t s) ∙ (eq_iff ((c ∷ t) ++ s) []).0 same))
  | inr other ↦ other
]
