-- ===== src/Submission/Text.antt =====
-- The functions of strings and path/filepath that the submission service uses.
use Prim.Native.Char.{Char, code}
use Prim.Native.String.{[], ◌∷◌}
use mathlib.Core.List.{List}
use iicpc_summer_hackathon.Prelude.{
  ℕ, Bool, if◌then◌else◌, ◌==◌, ◌||◌, leb, String, Option, none, some, get_or, ◌&&◌, ◌+◌,
}

-- The code points of a string.
abbrev pub codes : String → List ℕ
codes [] = List.[]
codes (c ∷ s) = List.◌∷◌ (code c) (codes s)

abbrev between : ℕ → ℕ → ℕ → Bool
between low high n = leb low n && leb n high

-- unicode.ToLower as far as its answer is in ASCII: besides A to Z only the dotted capital I and the
-- Kelvin sign have their small letter there. The code points that it maps outside ASCII, which no
-- ASCII word holds, stay as they are.
abbrev pub lower_code : ℕ → ℕ
lower_code n =
    if between 65 90 n then n + 32 else (if n == 304 then 105 else (if n == 8490 then 107 else n))

-- unicode.IsSpace.
abbrev pub is_space : Char → Bool
is_space c =
    let n = code c in
    between 9 13 n
    || n == 32
    || n == 133
    || n == 160
    || n == 5760
    || between 8192 8202 n
    || between 8232 8233 n
    || n == 8239
    || n == 8287
    || n == 12288

abbrev reverse_onto : String → String → String
reverse_onto [] acc = acc
reverse_onto (c ∷ s) acc = reverse_onto s (c ∷ acc)

abbrev pub reverse : String → String
reverse s = reverse_onto s []

abbrev pub trim_left : (Char → Bool) → String → String
trim_left drop [] = []
trim_left drop (c ∷ s) = if drop c then trim_left drop s else c ∷ s

-- strings.TrimSpace.
abbrev pub trim_space : String → String
trim_space s = reverse (trim_left is_space (reverse (trim_left is_space s)))

-- The text behind the last place that holds this character, where there is one.
abbrev pub after_last : (Char → Bool) → String → Option String
after_last sep [] = none
after_last sep (c ∷ s) =
    let rest = after_last sep s in
    elim rest [ some t ↦ some t | none ↦ if sep c then some s else none ]

abbrev is_slash : Char → Bool
is_slash c = code c == 47

abbrev is_colon : Char → Bool
is_colon c = code c == 58

abbrev or_slash : String → String
or_slash [] = "/"
or_slash (c ∷ s) = c ∷ s

-- filepath.Base.
unfoldable pub base : String → String
base [] = "."
base (c ∷ s) =
    let stripped = reverse (trim_left is_slash (reverse (c ∷ s))) in
    or_slash (get_or stripped (after_last is_slash stripped))

-- The last of the parts between colons, where there are at least two.
abbrev pub last_part : String → Option String
last_part s = after_last is_colon s
