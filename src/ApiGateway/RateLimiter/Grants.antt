-- ===== src/ApiGateway/RateLimiter/Grants.antt =====
-- How many requests Allow lets through within a window.
use iicpc_summer_hackathon.Prelude.{
  ℕ, suc, ◌≤◌, ◌<◌, String, ap, subst, sym, inl, inr, Bool, List, [], ◌∷◌, ◌++◌, if◌then◌else◌, ltb,
  length, length-append, arith, Bool-cases, append_assoc, append-nil,
}
use iicpc_summer_hackathon.Prelude.Int.{ℤ, sub_ℕ, ◌≤ℤ◌}
use iicpc_summer_hackathon.ApiGateway.RateLimiter.{SortedSets, over, IsStore, redis_key, allow_all}
use iicpc_summer_hackathon.ApiGateway.RateLimiter.Window.{
  InOrder, Distinct, IsEmpty, by_history, over-append, bound_mono, allow_all-by_history,
}

-- The times of the requests that were let through.
abbrev pub granted : List (ℕ × String) → List Bool → List ℕ
granted [] answers = []
granted (r ∷ reqs) [] = []
granted ((now, member) ∷ reqs) (ok ∷ answers) =
    let rest = granted reqs answers in if ok then now ∷ rest else rest

-- A time after all of them.
abbrev pub EndsBy : ℕ → List (ℕ × String) → Type 0
EndsBy end [] = Unit
EndsBy end ((now, member) ∷ rest) = (now ≤ end) × EndsBy end rest

length-over_mono : (a b : ℤ) (xs : List ℕ) → a ≤ℤ b → length (over b xs) ≤ length (over a xs)
length-over_mono a b [] h = omega arith
length-over_mono a b (x ∷ xs) h = ground (arith, length-over_mono a b xs h)

length-over-snoc :
    (b : ℤ) (xs : List ℕ) (t : ℕ) → length (over b (xs ++ t ∷ [])) ≤ suc (length (over b xs))
length-over-snoc b xs t =
    ground
      (arith, ap length (over-append b xs (t ∷ [])), length-append (over b xs) (over b (t ∷ [])))

-- What was let through is part of the history, and within the limit at each time to come.
record IsLimited (limit window last : ℕ) (given history : List ℕ) : Type 0 where
  part : (b : ℤ) → length (over b given) ≤ length (over b history)
  within : (t : ℕ) → last ≤ t → length (over (sub_ℕ t window) given) ≤ limit

part_snoc :
    (given history : List ℕ) (now : ℕ) (b : ℤ)
    → length (over b given) ≤ length (over b history)
    → length (over b (given ++ now ∷ [])) ≤ length (over b (history ++ now ∷ []))
part_snoc given history now b h = omega (
  arith,
  h,
  ap length (over-append b given (now ∷ [])),
  ap length (over-append b history (now ∷ [])),
  length-append (over b given) (over b (now ∷ [])),
  length-append (over b history) (over b (now ∷ [])),
)

part_refused :
    (given history : List ℕ) (now : ℕ) (b : ℤ)
    → length (over b given) ≤ length (over b history)
    → length (over b given) ≤ length (over b (history ++ now ∷ []))
part_refused given history now b h = omega (
  arith,
  h,
  ap length (over-append b history (now ∷ [])),
  length-append (over b history) (over b (now ∷ [])),
)

module _ (limit window last now : ℕ) (given history : List ℕ) (later : last ≤ now)
    (so_far : IsLimited limit window last given history) where
  IsLimited-granted :
      length (over (sub_ℕ now window) history) < limit
      → IsLimited limit window now (given ++ now ∷ []) (history ++ now ∷ [])
  IsLimited-granted room = record {
    part = λ b. part_snoc given history now b (so_far.part b);
    within = λ t le. omega (
      arith,
      room,
      so_far.part (sub_ℕ now window),
      length-over_mono (sub_ℕ now window) (sub_ℕ t window) given (bound_mono now t window le),
      length-over-snoc (sub_ℕ t window) given now,
    );
  }

  IsLimited-refused : IsLimited limit window now given (history ++ now ∷ [])
  IsLimited-refused = record {
    part = λ b. part_refused given history now b (so_far.part b);
    within = λ t le. so_far.within t (omega arith);
  }

granted-limited :
    (limit window last end : ℕ) (reqs : List (ℕ × String)) (given history : List ℕ)
    → InOrder last reqs
    → EndsBy end reqs
    → last ≤ end
    → IsLimited limit window last given history
    → length
        (over (sub_ℕ end window) (given ++ granted reqs (by_history limit window reqs history)))
      ≤ limit
granted-limited limit window last end [] given history o by le so_far =
    subst (λ xs. length (over (sub_ℕ end window) xs) ≤ limit) (sym (append-nil given))
      (so_far.within end le)
granted-limited limit window last end ((now, member) ∷ reqs) given history o by le so_far =
    let history' = history ++ now ∷ [] in
    elim (Bool-cases (ltb (length (over (sub_ℕ now window) history)) limit)) [
      | inl room ↦ rw room (
          subst (λ xs. length (over (sub_ℕ end window) xs) ≤ limit)
            (append_assoc given (now ∷ []) _)
            (granted-limited limit window now end reqs (given ++ now ∷ []) history' o.1 by.1 by.0 (
              IsLimited-granted limit window last now given history o.0 so_far
                (ground (arith, room)))))
      | inr full ↦ rw full (
          granted-limited limit window now end reqs given history' o.1 by.1 by.0
            (IsLimited-refused limit window last now given history o.0 so_far))
    ]

-- For requests of one key, each with a member of its own, at times that never fall, whose pipelines
-- Redis answers and executes one after the other, from a store where the key has no entries, and a
-- window above 0, at any time from the last request on at most `limit` of the requests that Allow has
-- let through lie within the window.
pub allow_all-limited :
    {S : Type 0} (r : SortedSets S) (count : String → ℤ → S → ℕ) (has : String → String → S → Bool)
    → IsStore r count has
    → (key : String) (limit window : ℕ) → 0 < window
    → (end : ℕ) (reqs : List (ℕ × String)) (s : S) → IsEmpty r count has (redis_key key) s
    → InOrder 0 reqs
    → Distinct reqs
    → EndsBy end reqs
    → length (over (sub_ℕ end window) (granted reqs (allow_all r key limit window reqs s))) ≤ limit
allow_all-limited r count has law key limit window lasting end reqs s empty o d by =
    rw (allow_all-by_history r count has law key limit window lasting reqs s empty o d) (
      granted-limited limit window 0 end reqs [] [] o by (omega arith)
        (record { part = λ b. omega arith; within = λ t le. omega arith }))
