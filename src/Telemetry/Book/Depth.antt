-- ===== src/Telemetry/Book/Depth.antt =====
-- The orders that rest at a price.
use iicpc_summer_hackathon.Prelude.{
  ◌≡◌, refl, sym, subst, ap, ◌∙◌, inl, inr, Bool, true, false, List, [], ◌∷◌, ◌++◌, some, arith,
  if◌then◌else◌, Bool-cases, Option-cases, All, All-map_of, append-nil, append_assoc,
}
use iicpc_summer_hackathon.Prelude.Float.{Float64}
use iicpc_summer_hackathon.Prelude.Sort.{
  Differ, AllDiffer, AllDiffer-snoc, sort_insert, sort_slice, All-sort_slice,
}
use iicpc_summer_hackathon.Telemetry.Book.{LiveOrder, PriceLevel, append_at, insert_level}
use iicpc_summer_hackathon.Telemetry.Book.Levels.{
  IsSideOrder, IsSideSorted, level_before, append_at-none, Differ-of_eq_false,
}

module _ {F : Type 0} ⦃fl : Float64 F⦄ where
  -- The orders at a price, oldest first.
  unfoldable pub orders_at : F → List (PriceLevel F) → List (LiveOrder F)
  orders_at q [] = []
  orders_at q (lvl ∷ lvls) = (if fl.eq lvl.price q then lvl.orders else []) ++ orders_at q lvls

  orders_at-append :
      (q : F) (xs ys : List (PriceLevel F))
      → orders_at q (xs ++ ys) ≡ orders_at q xs ++ orders_at q ys
  unfolding orders_at
  orders_at-append q [] ys = refl
  orders_at-append q (x ∷ xs) ys =
      rw (orders_at-append q xs ys) (sym (append_assoc _ (orders_at q xs) (orders_at q ys)))

  new_level-orders_at :
      (q price : F) (lo : LiveOrder F)
      → orders_at q (record { price = price; orders = lo ∷ [] } ∷ [])
        ≡ (if fl.eq price q then lo ∷ [] else [])
  unfolding orders_at
  new_level-orders_at q price lo = append-nil _

  orders_at_none :
      (q : F) (lvls : List (PriceLevel F))
      → All (λ lvl. fl.eq lvl.price q ≡ false) lvls
      → orders_at q lvls ≡ []
  unfolding orders_at
  orders_at_none q [] h = refl
  orders_at_none q (lvl ∷ lvls) h = rw (h.0, orders_at_none q lvls h.1)

module _ {F : Type 0} ⦃fl : Float64 F⦄ {before : F → F → Bool} (o : IsSideOrder fl before) where
  eq_false_of_Differ : (a b q : F) → Differ before a b → fl.eq a q ≡ true → fl.eq b q ≡ false
  eq_false_of_Differ a b q d h =
      ground (arith, o.eq_before a q, o.eq_before b q, o.split a q b, o.split b q a)

  eq_congr : (a b q : F) → fl.eq a b ≡ true → fl.eq a q ≡ fl.eq b q
  eq_congr a b q h = ground (
    arith,
    o.eq_before a b,
    o.eq_before a q,
    o.eq_before b q,
    o.split a b q,
    o.split q b a,
    o.split b a q,
    o.split q a b,
  )

  -- Behind a level at the price a sorted side has no other.
  orders_at_tail :
      (q a : F) (lvls : List (PriceLevel F))
      → All (λ lvl. before a lvl.price ≡ true) lvls
      → fl.eq a q ≡ true
      → orders_at q lvls ≡ []
  orders_at_tail q a lvls h e =
      orders_at_none q lvls
        (All-map_of _ _ (λ lvl p. eq_false_of_Differ a lvl.price q (inl p) e) lvls h)

  orders_at-sort_insert :
      (q : F) (x : PriceLevel F) (ys : List (PriceLevel F))
      → All (Differ (level_before before) x) ys
      → orders_at q (sort_insert (level_before before) x ys)
        ≡ (if fl.eq x.price q then x.orders else []) ++ orders_at q ys
  unfolding orders_at sort_insert
  orders_at-sort_insert q x [] d = refl
  orders_at-sort_insert q x (y ∷ ys) d = elim (Bool-cases (before x.price y.price)) [
    | inl e ↦ rw e
    | inr e ↦
        rw (e, orders_at-sort_insert q x ys d.1)
          (ground (arith, eq_false_of_Differ x.price y.price q d.0))
  ]

  orders_at-sort_slice :
      (q : F) (xs : List (PriceLevel F))
      → AllDiffer (level_before before) xs
      → orders_at q (sort_slice (level_before before) xs) ≡ orders_at q xs
  unfolding orders_at sort_slice
  orders_at-sort_slice q [] d = refl
  orders_at-sort_slice q (x ∷ xs) d =
      orders_at-sort_insert q x _ (All-sort_slice _ _ xs d.0)
      ∙ ap (λ r. (if fl.eq x.price q then x.orders else []) ++ r) (orders_at-sort_slice q xs d.1)

  orders_at-append_at :
      (q : F) (lvls : List (PriceLevel F)) (price : F) (lo : LiveOrder F)
      (changed : List (PriceLevel F))
      → append_at lvls price lo ≡ some changed
      → IsSideSorted before lvls
      → orders_at q changed ≡ orders_at q lvls ++ (if fl.eq price q then lo ∷ [] else [])
  unfolding orders_at append_at
  orders_at-append_at q [] price lo changed e h = cc
  orders_at-append_at q (lvl ∷ lvls) price lo changed e h =
      elim (Bool-cases (fl.eq lvl.price price)) [
        | inl p ↦
            subst
              (λ ls.
                orders_at q ls
                ≡ orders_at q (lvl ∷ lvls) ++ (if fl.eq price q then lo ∷ [] else []))
              (level_changed p) (at_level p)
        | inr p ↦ elim (Option-cases (append_at lvls price lo)) [
          | inl r ↦ ground arith
          | inr (c, r) ↦
              subst
                (λ ls.
                  orders_at q ls
                  ≡ orders_at q (lvl ∷ lvls) ++ (if fl.eq price q then lo ∷ [] else []))
                (tail_changed p c r)
                (ap (λ rest. here ++ rest) (orders_at-append_at q lvls price lo c r h.1)
                  ∙ sym (append_assoc here (orders_at q lvls) _))
        ]
      ]
    where
      here : List (LiveOrder F)
      here = if fl.eq lvl.price q then lvl.orders else []

      level_changed :
          fl.eq lvl.price price ≡ true
          → record lvl { orders = lvl.orders ++ lo ∷ [] } ∷ lvls ≡ changed
      level_changed p = ground arith

      tail_changed :
          fl.eq lvl.price price ≡ false
          → (c : List (PriceLevel F)) → append_at lvls price lo ≡ some c
          → lvl ∷ c ≡ changed
      tail_changed p c r = ground arith

      at_level :
          fl.eq lvl.price price ≡ true
          → (if fl.eq lvl.price q then lvl.orders ++ lo ∷ [] else []) ++ orders_at q lvls
            ≡ (here ++ orders_at q lvls) ++ (if fl.eq price q then lo ∷ [] else [])
      at_level p = elim (Bool-cases (fl.eq lvl.price q)) [
        | inl e ↦
            rw (← eq_congr lvl.price price q p, e, orders_at_tail q lvl.price lvls h.0 e)
              (append-nil _ ∙ ap (λ l. l ++ lo ∷ []) (sym (append-nil lvl.orders)))
        | inr e ↦ rw (← eq_congr lvl.price price q p, e) (sym (append-nil (orders_at q lvls)))
      ]

  -- An insertion puts the order behind all that rest at its price, and leaves the queue of every
  -- other price as it was.
  pub insert_level-orders_at :
      (q : F) (lvls : List (PriceLevel F)) (price : F) (lo : LiveOrder F)
      → IsSideSorted before lvls
      → orders_at q (insert_level before lvls price lo)
        ≡ orders_at q lvls ++ (if fl.eq price q then lo ∷ [] else [])
  unfolding insert_level
  insert_level-orders_at q lvls price lo h = elim (Option-cases (append_at lvls price lo)) [
    | inl e ↦
        rw (e, insert_level)
          (orders_at-sort_slice q _ (
              AllDiffer-snoc (level_before before) lvls _ h (
                All-map_of _ _ (λ lvl p. Differ-of_eq_false o lvl.price price p) lvls
                  (append_at-none lvls price lo e)))
            ∙ orders_at-append q lvls _
            ∙ ap (λ l. orders_at q lvls ++ l) (new_level-orders_at q price lo))
    | inr (changed, e) ↦ rw (e, insert_level) (orders_at-append_at q lvls price lo changed e h)
  ]
