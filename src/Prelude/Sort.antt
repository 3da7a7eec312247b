-- ===== src/Prelude/Sort.antt =====
-- sort.Slice, as an insertion sort: the library promises a sorted permutation.
use Prim.Native.Nat.{ℕ, zero, suc, ◌≤◌}
use mathlib.Core.Path.{◌≡◌, refl, ap, ◌∙◌, subst}
use mathlib.Core.Option.{some, some-injective}
use mathlib.Core.Logic.{◌⊎◌, inl, inr}
use mathlib.Core.Bool.{Bool, true, false}
use mathlib.Core.List.{List, [], ◌∷◌, ◌++◌, Perm}
use mathlib.Core.List.Perm
use native.Mathlib.Omega.{arith}
use iicpc_summer_hackathon.Prelude.Tests.{if◌then◌else◌, Bool-cases}
use iicpc_summer_hackathon.Prelude.Lists.{All, All-map_of, All-append, length, get_elem?}

module _ {ℓ} {A : Type ℓ} (less : A → A → Bool) where
  unfoldable pub sort_insert : A → List A → List A
  sort_insert x [] = x ∷ []
  sort_insert x (y ∷ ys) = if less x y then x ∷ y ∷ ys else y ∷ sort_insert x ys

  unfoldable pub sort_slice : List A → List A
  unfolding sort_insert
  sort_slice [] = []
  sort_slice (x ∷ xs) = sort_insert x (sort_slice xs)

  -- Every element is less than all that follow it.
  abbrev pub IsAscending : List A → Type ℓ
  IsAscending [] = Unit
  IsAscending (x ∷ xs) = All (λ y. less x y ≡ true) xs × IsAscending xs

  abbrev pub Differ : A → A → Type 0
  Differ x y = (less x y ≡ true) ⊎ (less y x ≡ true)

  -- No element is less than one before it.
  abbrev pub IsSorted : List A → Type ℓ
  IsSorted [] = Unit
  IsSorted (x ∷ xs) = All (λ y. less y x ≡ false) xs × IsSorted xs

  -- Each element differs from those that follow it.
  abbrev pub AllDiffer : List A → Type ℓ
  AllDiffer [] = Unit
  AllDiffer (x ∷ xs) = All (Differ x) xs × AllDiffer xs

  pub AllDiffer-snoc :
      (xs : List A) (a : A) → IsAscending xs → All (λ x. Differ x a) xs → AllDiffer (xs ++ a ∷ [])
  AllDiffer-snoc [] a h d = (tt, tt)
  AllDiffer-snoc (x ∷ xs) a h d = (
    All-append (Differ x) xs (a ∷ []) (All-map_of _ _ (λ y p. inl p) xs h.0) (d.0, tt),
    AllDiffer-snoc xs a h.1 d.1,
  )

  pub All-sort_insert {κ} :
      (P : A → Type κ) (x : A) (ys : List A) → P x → All P ys → All P (sort_insert x ys)
  unfolding sort_insert
  All-sort_insert P x [] p h = (p, tt)
  All-sort_insert P x (y ∷ ys) p h = elim (Bool-cases (less x y)) [
    | inl e ↦ rw e (p, h)
    | inr e ↦ rw e (h.0, All-sort_insert P x ys p h.1)
  ]

  pub All-sort_slice {κ} : (P : A → Type κ) (xs : List A) → All P xs → All P (sort_slice xs)
  unfolding sort_slice
  All-sort_slice P [] h = tt
  All-sort_slice P (x ∷ xs) h = All-sort_insert P x (sort_slice xs) h.0 (All-sort_slice P xs h.1)

  sort_insert-perm : (x : A) (ys : List A) → Perm (sort_insert x ys) (x ∷ ys)
  unfolding sort_insert
  sort_insert-perm x [] = Perm.refl (x ∷ [])
  sort_insert-perm x (y ∷ ys) = elim (Bool-cases (less x y)) [
    | inl e ↦ rw e (Perm.refl (x ∷ y ∷ ys))
    | inr e ↦ rw e (Perm.trans (Perm.cons y (sort_insert-perm x ys)) (Perm.swap x y ys))
  ]

  pub sort_slice-perm : (xs : List A) → Perm (sort_slice xs) xs
  unfolding sort_slice
  sort_slice-perm [] = Perm.refl []
  sort_slice-perm (x ∷ xs) =
      Perm.trans (sort_insert-perm x (sort_slice xs)) (Perm.cons x (sort_slice-perm xs))

  module _ (trans : (x y z : A) → less x y ≡ true → less y z ≡ true → less x z ≡ true) where
    sort_insert-IsAscending :
        (x : A) (ys : List A) → All (Differ x) ys → IsAscending ys → IsAscending (sort_insert x ys)
    unfolding sort_insert
    sort_insert-IsAscending x [] d h = (tt, tt)
    sort_insert-IsAscending x (y ∷ ys) d h = elim (Bool-cases (less x y)) [
      | inl e ↦ rw e ((e, All-map_of _ _ (λ z q. trans x y z e q) ys h.0), h)
      | inr e ↦ rw e (
        All-sort_insert (λ z. less y z ≡ true) x ys (ground arith) h.0,
        sort_insert-IsAscending x ys d.1 h.1,
      )
    ]

    pub sort_slice-IsAscending : (xs : List A) → AllDiffer xs → IsAscending (sort_slice xs)
    unfolding sort_slice
    sort_slice-IsAscending [] d = tt
    sort_slice-IsAscending (x ∷ xs) d =
        sort_insert-IsAscending x (sort_slice xs) (All-sort_slice (Differ x) xs d.0)
          (sort_slice-IsAscending xs d.1)

  length-sort_insert : (x : A) (ys : List A) → length (sort_insert x ys) ≡ suc (length ys)
  unfolding sort_insert
  length-sort_insert x [] = refl
  length-sort_insert x (y ∷ ys) = ground (arith, length-sort_insert x ys)

  pub length-sort_slice : (xs : List A) → length (sort_slice xs) ≡ length xs
  unfolding sort_slice
  length-sort_slice [] = refl
  length-sort_slice (x ∷ xs) = length-sort_insert x (sort_slice xs) ∙ ap suc (length-sort_slice xs)

  module _ (asym : (x y : A) → less x y ≡ true → less y x ≡ false)
      (trans : (x y z : A) → less y x ≡ false → less z y ≡ false → less z x ≡ false) where
    sort_insert-IsSorted : (x : A) (ys : List A) → IsSorted ys → IsSorted (sort_insert x ys)
    unfolding sort_insert
    sort_insert-IsSorted x [] h = (tt, tt)
    sort_insert-IsSorted x (y ∷ ys) h = elim (Bool-cases (less x y)) [
      | inl e ↦ rw e ((asym x y e, All-map_of _ _ (λ z q. trans x y z (asym x y e) q) ys h.0), h)
      | inr e ↦
          rw e (All-sort_insert (λ z. less z y ≡ false) x ys e h.0, sort_insert-IsSorted x ys h.1)
    ]

    pub sort_slice-IsSorted : (xs : List A) → IsSorted (sort_slice xs)
    unfolding sort_slice
    sort_slice-IsSorted [] = tt
    sort_slice-IsSorted (x ∷ xs) = sort_insert-IsSorted x (sort_slice xs) (sort_slice-IsSorted xs)

  pub All-get_elem? {κ} :
      (P : A → Type κ) (xs : List A) (i : ℕ) {a : A} → All P xs → get_elem? xs i ≡ some a → P a
  All-get_elem? P [] i h e = cc
  All-get_elem? P (x ∷ xs) zero h e = subst P (some-injective _ _ e) h.0
  All-get_elem? P (x ∷ xs) (suc i) h e = All-get_elem? P xs i h.1 e

  -- A later place of a sorted list holds no lesser element.
  pub get_elem?_mono :
      (irrefl : (x : A) → less x x ≡ false) (xs : List A) (i j : ℕ) {a b : A}
      → IsSorted xs
      → i ≤ j
      → get_elem? xs i ≡ some a
      → get_elem? xs j ≡ some b
      → less b a ≡ false
  get_elem?_mono irrefl [] i j h l p q = cc
  get_elem?_mono irrefl (x ∷ xs) zero zero h l p q = ground (arith, irrefl x)
  get_elem?_mono irrefl (x ∷ xs) zero (suc j) {b = b} h l p q =
      subst (λ y. less b y ≡ false) (some-injective _ _ p)
        (All-get_elem? (λ y. less y x ≡ false) xs j h.0 q)
  get_elem?_mono irrefl (x ∷ xs) (suc i) zero h l p q = absurd (omega arith)
  get_elem?_mono irrefl (x ∷ xs) (suc i) (suc j) h l p q =
      get_elem?_mono irrefl xs i j h.1 (omega arith) p q
