-- ===== src/Telemetry/Book/Top.antt =====
-- The best live price of a side.
use mathlib.Core.List.{Memᴰ}
use iicpc_summer_hackathon.Prelude.{
  ◌≡◌, refl, sym, ap, subst, ◌⊎◌, inl, inr, Bool, true, false, List, [], ◌∷◌, arith, if◌then◌else◌,
  Bool-cases, All, All-map_of,
}
use iicpc_summer_hackathon.Prelude.Dict.{Dict}
use iicpc_summer_hackathon.Prelude.Float.{Float64}
use iicpc_summer_hackathon.Telemetry.Book.{LiveOrder, PriceLevel, has_live, first_live}
use iicpc_summer_hackathon.Telemetry.Book.Levels.{IsSideOrder, IsSideSorted}

module _ {F : Type 0} ⦃fl : Float64 F⦄ (before : F → F → Bool) where
  -- `r` is the best price among the levels with a live order, in any order of the levels; the
  -- default stands where there is no such level.
  abbrev pub IsBest : Dict (LiveOrder F) → List (PriceLevel F) → F → F → Type 0
  IsBest index lvls default r =
      (All (λ lvl. has_live index lvl.orders ≡ false) lvls × (r ≡ default))
      ⊎ ((lvl : PriceLevel F) × Memᴰ lvl lvls
          × (has_live index lvl.orders ≡ true)
          × (r ≡ lvl.price)
          × All (λ other. has_live index other.orders ≡ true → before other.price r ≡ false) lvls)

module _ {F : Type 0} ⦃fl : Float64 F⦄ {before : F → F → Bool} (o : IsSideOrder fl before) where
  not_before : (a b : F) → before a b ≡ true → before b a ≡ false
  not_before a b h = ground (arith, o.irrefl a, o.trans a b a)

  -- On a sorted side the scan finds the best price.
  pub first_live-IsBest :
      (index : Dict (LiveOrder F)) (lvls : List (PriceLevel F)) (default : F)
      → IsSideSorted before lvls
      → IsBest before index lvls default (first_live index lvls default)
  unfolding first_live
  first_live-IsBest index [] default h = inl (tt, refl)
  first_live-IsBest index (lvl ∷ lvls) default h = elim (Bool-cases (has_live index lvl.orders)) [
    | inl live ↦
        subst (IsBest before index (lvl ∷ lvls) default)
          (sym (ap (λ b. if b then lvl.price else first_live index lvls default) live))
          (inr (
            lvl,
            Memᴰ.head refl,
            live,
            refl,
            (
              (λ _. o.irrefl lvl.price),
              All-map_of _ _ (λ other q _. not_before lvl.price other.price q) lvls h.0,
            ),
          ))
    | inr dead ↦
        subst (IsBest before index (lvl ∷ lvls) default)
          (sym (ap (λ b. if b then lvl.price else first_live index lvls default) dead))
          (elim (first_live-IsBest index lvls default h.1) [
            | inl (none_live, e) ↦ inl ((dead, none_live), e)
            | inr (best, m, live, e, all) ↦ inr (best, Memᴰ.tail m, live, e, ((λ l. cc), all))
          ])
  ]
