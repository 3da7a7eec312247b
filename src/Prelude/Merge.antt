-- ===== src/Prelude/Merge.antt =====
-- The ways in which several lists can come as one, each in its own order.
use mathlib.Core.List.{List, [], ◌∷◌}

pub data Merge {ℓ} {A : Type ℓ} : List A → List A → List A → Type ℓ where
  both_done : Merge [] [] []
  from_first : {x : A} {xs ys zs : List A} → Merge xs ys zs → Merge (x ∷ xs) ys (x ∷ zs)
  from_second : {y : A} {xs ys zs : List A} → Merge xs ys zs → Merge xs (y ∷ ys) (y ∷ zs)

pub data Merged {ℓ} {A : Type ℓ} : List (List A) → List A → Type ℓ where
  no_lists : Merged [] []
  one_more :
      {xs ys zs : List A} {rest : List (List A)}
      → Merged rest ys
      → Merge xs ys zs
      → Merged (xs ∷ rest) zs
