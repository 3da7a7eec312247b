-- ===== src/Telemetry/Book/Levels.antt =====
-- The order of the price levels of one side.
use iicpc_summer_hackathon.Prelude.{
  ◌≡◌, sym, subst, ◌⊎◌, inl, inr, Bool, true, false, ◌||◌, not, List, [], ◌∷◌, none, some, arith,
  Bool-cases, Option-cases, All, All-map_of, map,
}
use iicpc_summer_hackathon.Prelude.Float.{Float64, IsOrdered}
use iicpc_summer_hackathon.Prelude.Sort.{
  IsAscending, Differ, AllDiffer-snoc, sort_slice-IsAscending,
}
use iicpc_summer_hackathon.Telemetry.Book.{
  LiveOrder, PriceLevel, append_at, insert_level, higher, lower,
}

-- The order of a side: a strict weak order, for which `==` is that neither comes first.
pub record IsSideOrder {F : Type 0} (fl : Float64 F) (before : F → F → Bool) : Type 0 where
  pub irrefl : (a : F) → before a a ≡ false
  pub trans : (a b c : F) → before a b ≡ true → before b c ≡ true → before a c ≡ true
  pub split : (a b c : F) → before a c ≡ true → (before a b ≡ true) ⊎ (before b c ≡ true)
  pub eq_before : (a b : F) → fl.eq a b ≡ not (before a b || before b a)

module _ {F : Type 0} ⦃fl : Float64 F⦄ (o : IsOrdered fl) where
  pub higher-IsSideOrder : IsSideOrder fl higher
  higher-IsSideOrder = record {
    irrefl = o.lt_irrefl;
    trans = λ a b c p q. o.lt_trans c b a q p;
    split = λ a b c p. ground (arith, o.lt_split c b a p);
    eq_before = λ a b. ground (arith, o.eq_lt a b);
  }

  pub lower-IsSideOrder : IsSideOrder fl lower
  lower-IsSideOrder = record {
    irrefl = o.lt_irrefl;
    trans = o.lt_trans;
    split = o.lt_split;
    eq_before = o.eq_lt;
  }

abbrev pub prices : {F : Type 0} → List (PriceLevel F) → List F
prices = map (λ lvl. lvl.price)

module _ {F : Type 0} ⦃fl : Float64 F⦄ (before : F → F → Bool) where
  abbrev pub level_before : PriceLevel F → PriceLevel F → Bool
  level_before a b = before a.price b.price

  -- The side is strictly sorted by price.
  abbrev pub IsSideSorted : List (PriceLevel F) → Type 0
  IsSideSorted = IsAscending level_before

  All-prices :
      (P : F → Type 0) (lvls : List (PriceLevel F))
      → All (λ lvl. P lvl.price) lvls
      → All P (prices lvls)
  All-prices P [] h = tt
  All-prices P (lvl ∷ lvls) h = (h.0, All-prices P lvls h.1)

  All_of_prices :
      (P : F → Type 0) (lvls : List (PriceLevel F))
      → All P (prices lvls)
      → All (λ lvl. P lvl.price) lvls
  All_of_prices P [] h = tt
  All_of_prices P (lvl ∷ lvls) h = (h.0, All_of_prices P lvls h.1)

  prices-IsAscending :
      (lvls : List (PriceLevel F)) → IsSideSorted lvls → IsAscending before (prices lvls)
  prices-IsAscending [] h = tt
  prices-IsAscending (lvl ∷ lvls) h =
      (All-prices (λ p. before lvl.price p ≡ true) lvls h.0, prices-IsAscending lvls h.1)

  IsSideSorted-of_prices :
      (lvls : List (PriceLevel F)) → IsAscending before (prices lvls) → IsSideSorted lvls
  IsSideSorted-of_prices [] h = tt
  IsSideSorted-of_prices (lvl ∷ lvls) h =
      (All_of_prices (λ p. before lvl.price p ≡ true) lvls h.0, IsSideSorted-of_prices lvls h.1)

prices-append_at :
    {F : Type 0} ⦃fl : Float64 F⦄ (lvls : List (PriceLevel F)) (price : F) (lo : LiveOrder F)
    (changed : List (PriceLevel F))
    → append_at lvls price lo ≡ some changed
    → prices changed ≡ prices lvls
unfolding append_at
prices-append_at [] price lo changed e = cc
prices-append_at ⦃fl⦄ (lvl ∷ lvls) price lo changed e = elim (Bool-cases (fl.eq lvl.price price)) [
  | inl p ↦ ground arith
  | inr p ↦ elim (Option-cases (append_at lvls price lo)) [
    | inl q ↦ ground arith
    | inr (c, q) ↦ ground (arith, prices-append_at lvls price lo c q)
  ]
]

pub append_at-none :
    {F : Type 0} ⦃fl : Float64 F⦄ (lvls : List (PriceLevel F)) (price : F) (lo : LiveOrder F)
    → append_at lvls price lo ≡ none
    → All (λ lvl. fl.eq lvl.price price ≡ false) lvls
unfolding append_at
append_at-none [] price lo e = tt
append_at-none ⦃fl⦄ (lvl ∷ lvls) price lo e =
    (ground arith, append_at-none lvls price lo (ground arith))

module _ {F : Type 0} ⦃fl : Float64 F⦄ {before : F → F → Bool} (o : IsSideOrder fl before) where
  pub Differ-of_eq_false : (a b : F) → fl.eq a b ≡ false → Differ before a b
  Differ-of_eq_false a b h = ground (arith, o.eq_before a b)

  -- An insertion keeps a side strictly sorted by price, with one level for each price.
  pub insert_level-IsSideSorted :
      (lvls : List (PriceLevel F)) (price : F) (lo : LiveOrder F)
      → IsSideSorted before lvls
      → IsSideSorted before (insert_level before lvls price lo)
  unfolding insert_level
  insert_level-IsSideSorted lvls price lo h = elim (Option-cases (append_at lvls price lo)) [
    | inl e ↦
        rw (e, insert_level)
          (sort_slice-IsAscending (level_before before)
            (λ a b c p q. o.trans a.price b.price c.price p q) _
            (AllDiffer-snoc (level_before before) lvls _ h (
              All-map_of _ _ (λ lvl p. Differ-of_eq_false lvl.price price p) lvls
                (append_at-none lvls price lo e))))
    | inr (changed, e) ↦
        rw (e, insert_level)
          (IsSideSorted-of_prices before changed (
            subst (IsAscending before) (sym (prices-append_at lvls price lo changed e))
              (prices-IsAscending before lvls h)))
  ]
