-- ===== src/Prelude/Dict.antt =====
-- Go's map[string]V as an association list. Go leaves the order of a map's iteration open; here
-- it is the order of the list, and the theorems hold for every list.
use Prim.Native.String.{String}
use mathlib.Core.Path.{◌≡◌, refl, sym, ap, subst, ◌∙◌}
use mathlib.Core.Bool.{Bool}
use mathlib.Core.List.{List, [], ◌∷◌, map}
use mathlib.Core.Option
use mathlib.Core.Option.{Option, none, some, some-injective}
use mathlib.Core.Logic.{◌≢◌, inl, inr}
use native.Mathlib.Omega.{arith}
use text.Mathlib.Text.{◌==◌ as str_eq}
use text.Mathlib.TextEquality.{eq_iff}
use iicpc_summer_hackathon.Prelude.Tests.{if◌then◌else◌, is_some, Bool-cases, Option-cases}

abbrev pub Dict {ℓ} : Type ℓ → Type ℓ
Dict V = List (String × V)

module _ {ℓ} {V : Type ℓ} where
  unfoldable pub lookup : String → Dict V → Option V
  lookup k [] = none
  lookup k ((j, v) ∷ m) = if str_eq j k then some v else lookup k m

  unfoldable pub insert : String → V → Dict V → Dict V
  insert k v [] = (k, v) ∷ []
  insert k v ((j, w) ∷ m) = if str_eq j k then (k, v) ∷ m else (j, w) ∷ insert k v m

  unfoldable pub delete : String → Dict V → Dict V
  delete k [] = []
  delete k ((j, w) ∷ m) = let rest = delete k m in if str_eq j k then rest else (j, w) ∷ rest

  abbrev pub has_key : String → Dict V → Bool
  has_key k m = is_some (lookup k m)

  pub lookup-insert :
      (k j : String) (v : V) (m : Dict V)
      → lookup j (insert k v m) ≡ (if str_eq k j then some v else lookup j m)
  unfolding lookup insert
  lookup-insert k j v [] = refl
  lookup-insert k j v ((first, w) ∷ rest) =
      ground (arith, lookup-insert k j v rest, eq_iff first k, eq_iff first j, eq_iff k j)

  pub lookup-delete :
      (k j : String) (m : Dict V)
      → lookup j (delete k m) ≡ (if str_eq k j then none else lookup j m)
  unfolding lookup delete
  lookup-delete k j [] = ground arith
  lookup-delete k j ((first, w) ∷ rest) =
      ground (arith, lookup-delete k j rest, eq_iff first k, eq_iff first j, eq_iff k j)

module _ {ℓ} {V : Type ℓ} where
  pub lookup-insert_self : (k : String) (v : V) (m : Dict V) → lookup k (insert k v m) ≡ some v
  lookup-insert_self k v m =
      lookup-insert k k v m ∙ ap (λ b. if b then some v else lookup k m) ((eq_iff k k).1 refl)

  pub lookup-insert_ne :
      (k j : String) (v : V) (m : Dict V) → k ≢ j → lookup j (insert k v m) ≡ lookup j m
  lookup-insert_ne k j v m ne = ground (arith, lookup-insert k j v m, eq_iff k j)

  pub lookup-delete_self : (k : String) (m : Dict V) → lookup k (delete k m) ≡ none
  lookup-delete_self k m =
      lookup-delete k k m ∙ ap (λ b. if b then none else lookup k m) ((eq_iff k k).1 refl)

-- A predicate that holds of every entry with a given key, by lookup.
abbrev pub AllValues {ℓ κ} : {V : Type ℓ} → (V → Type κ) → Dict V → Type (ℓ ⊔ κ)
AllValues {V = V} P m = (k : String) (v : V) → lookup k m ≡ some v → P v

pub ruleset dict_laws = (lookup-insert, lookup-delete)

module _ {ℓ κ} {V : Type ℓ} (P : V → Type κ) where
  pub AllValues-insert :
      (k : String) (v : V) (m : Dict V) → P v → AllValues P m → AllValues P (insert k v m)
  AllValues-insert k v m p h j w e = elim (Bool-cases (str_eq k j)) [
    | inl same ↦
        subst P
          (some-injective _ _
            (sym (lookup-insert k j v m ∙ ap (λ b. if b then some v else lookup j m) same) ∙ e))
          p
    | inr other ↦
        h j w (sym (lookup-insert k j v m ∙ ap (λ b. if b then some v else lookup j m) other) ∙ e)
  ]

  pub AllValues-delete : (k : String) (m : Dict V) → AllValues P m → AllValues P (delete k m)
  AllValues-delete k m h j w e = elim (Bool-cases (str_eq k j)) [
    | inl same ↦ absurd (
        none_ne_some w
          (sym (lookup-delete k j m ∙ ap (λ b. if b then none else lookup j m) same) ∙ e))
    | inr other ↦
        h j w (sym (lookup-delete k j m ∙ ap (λ b. if b then none else lookup j m) other) ∙ e)
  ]
    where
      none_ne_some : (w : V) → none ≡ some w → ⊥
      none_ne_some w e = cc

  pub AllValues-nil : AllValues P []
  unfolding lookup
  AllValues-nil k v e = cc

module _ {ℓ} {V : Type ℓ} where
  -- No key stands twice.
  abbrev pub IsMap : Dict V → Type ℓ
  IsMap [] = Unit
  IsMap ((k, v) ∷ m) = (lookup k m ≡ none) × IsMap m

  pub IsMap-insert : (k : String) (v : V) (m : Dict V) → IsMap m → IsMap (insert k v m)
  unfolding insert lookup
  IsMap-insert k v [] h = (refl, tt)
  IsMap-insert k v ((j, w) ∷ m) h = elim (Bool-cases (str_eq j k)) [
    | inl same ↦ rw same ((ground (arith, eq_iff j k, h.0)), h.1)
    | inr other ↦
        rw other (
          ground (arith, lookup-insert k j v m, eq_iff k j, eq_iff j k, h.0),
          IsMap-insert k v m h.1,
        )
  ]

  pub IsMap-delete : (k : String) (m : Dict V) → IsMap m → IsMap (delete k m)
  unfolding delete
  IsMap-delete k [] h = tt
  IsMap-delete k ((j, w) ∷ m) h = elim (Bool-cases (str_eq j k)) [
    | inl same ↦ rw same (IsMap-delete k m h.1)
    | inr other ↦ rw other (ground (arith, lookup-delete k j m, h.0), IsMap-delete k m h.1)
  ]

  pub lookup-map {κ} :
      {W : Type κ} (g : V → W) (k : String) (m : Dict V)
      → lookup k (map (λ e. (e.0, g e.1)) m) ≡ Option.map g (lookup k m)
  unfolding lookup
  lookup-map g k [] = refl
  lookup-map g k ((j, v) ∷ m) = ground (arith, lookup-map g k m)

pub AllValues-map {ℓ κ μ ν} :
    {V : Type ℓ} {W : Type κ} (P : V → Type μ) (Q : W → Type ν) (g : V → W) (m : Dict V)
    → ((v : V) → P v → Q (g v))
    → AllValues P m
    → AllValues Q (map (λ e. (e.0, g e.1)) m)
AllValues-map P Q g m f h k w e = elim (Option-cases (lookup k m)) [
  | inl none_there ↦ absurd (ground (arith, lookup-map g k m))
  | inr (v, there) ↦
      subst Q (some-injective _ _ (sym (lookup-map g k m ∙ ap (Option.map g) there) ∙ e))
        (f v (h k v there))
]
