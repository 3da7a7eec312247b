-- ===== src/ApiGateway/RateLimiter/Window.antt =====
-- The answers of Allow against the history of the requests.
use iicpc_summer_hackathon.Prelude.{
  ℕ, ◌+◌, ◌≤◌, ◌<◌, String, ◌≡◌, false, str_eq, All, All_of, length-append, refl, ap, ap₂, ◌∙◌, sym,
  Bool, List, [], ◌∷◌, ◌++◌, ltb, length, arith,
}
use iicpc_summer_hackathon.Prelude.Int.{ℤ, sub_ℕ, ◌≤ℤ◌}
use iicpc_summer_hackathon.ApiGateway.RateLimiter.{
  SortedSets, over, IsStore, redis_key, executed, allow, allow_all,
}

-- The times never fall.
abbrev pub InOrder : ℕ → List (ℕ × String) → Type 0
InOrder last [] = Unit
InOrder last ((now, member) ∷ rest) = (last ≤ now) × InOrder now rest

-- The answers by the history: a request is let through where fewer than `limit` requests, let through
-- or not, came before it within the window.
abbrev pub by_history : ℕ → ℕ → List (ℕ × String) → List ℕ → List Bool
by_history limit window [] history = []
by_history limit window ((now, member) ∷ rest) history =
    ltb (length (over (sub_ℕ now window) history)) limit
    ∷ by_history limit window rest (history ++ now ∷ [])

pub over-append : (b : ℤ) (xs ys : List ℕ) → over b (xs ++ ys) ≡ over b xs ++ over b ys
over-append b [] ys = refl
over-append b (x ∷ xs) ys = ground (arith, over-append b xs ys)

pub over-over : (a b : ℤ) (xs : List ℕ) → a ≤ℤ b → over b (over a xs) ≡ over b xs
over-over a b [] h = refl
over-over a b (x ∷ xs) h = ground (arith, over-over a b xs h)

pub bound_mono : (last now window : ℕ) → last ≤ now → sub_ℕ last window ≤ℤ sub_ℕ now window
bound_mono last now window h = ground arith

le_trans_ℤ : (a b c : ℤ) → a ≤ℤ b → b ≤ℤ c → a ≤ℤ c
le_trans_ℤ a b c h h' = ground (arith, h, h')

-- The members that the requests add are different ones.
abbrev pub Distinct : List (ℕ × String) → Type 0
Distinct [] = Unit
Distinct ((now, member) ∷ rest) = All (λ q. str_eq member q.1 ≡ false) rest × Distinct rest

module _ {S : Type 0} (r : SortedSets S) (count : String → ℤ → S → ℕ)
    (has : String → String → S → Bool) where
  -- The key has no entries.
  abbrev pub IsEmpty : String → S → Type 0
  IsEmpty k s = ((b : ℤ) → count k b s ≡ 0) × ((member : String) → has k member s ≡ false)

  -- None of the members that the requests add is there.
  abbrev AllNew : String → List (ℕ × String) → S → Type 0
  AllNew k reqs s = All (λ q. has k q.1 s ≡ false) reqs

  module _ (law : IsStore r count has) (key : String) (limit window : ℕ)
      (lasting : 0 < window) where
    abbrev after : ℕ → String → S → S
    after now member s = (allow r key limit window now member executed s).1

    count-allow :
        (now : ℕ) (member : String) (b : ℤ) (s : S)
        → has (redis_key key) member s ≡ false
        → sub_ℕ now window ≤ℤ b
        → count (redis_key key) b (after now member s)
          ≡ count (redis_key key) b s + length (over b (now ∷ []))
    unfolding allow
    count-allow now member b s new le =
        let k = redis_key key in
        law.kept k window b _ lasting
        ∙ law.added k now member b _ (law.removed_new k member (sub_ℕ now window) s new)
        ∙ ap (λ n. n + length (over b (now ∷ []))) (law.removed k (sub_ℕ now window) b s le)

    AllNew-allow :
        (now : ℕ) (member : String) (reqs : List (ℕ × String)) (s : S)
        → All (λ q. str_eq member q.1 ≡ false) reqs
        → AllNew (redis_key key) reqs s
        → AllNew (redis_key key) reqs (after now member s)
    unfolding allow
    AllNew-allow now member [] s other new = tt
    AllNew-allow now member (q ∷ reqs) s (o, other) (n, new) =
        let k = redis_key key in
        (
          law.kept_new k q.1 window _ lasting
              (law.added_new k q.1 member now _ o (law.removed_new k q.1 (sub_ℕ now window) s n)),
          AllNew-allow now member reqs s other new,
        )

    allow_all-from :
        (last : ℕ) (reqs : List (ℕ × String)) (s : S) (history : List ℕ)
        → InOrder last reqs
        → Distinct reqs
        → AllNew (redis_key key) reqs s
        → ((b : ℤ) → sub_ℕ last window ≤ℤ b → count (redis_key key) b s ≡ length (over b history))
        → allow_all r key limit window reqs s ≡ by_history limit window reqs history
    unfolding allow_all allow
    allow_all-from last [] s history o d new h = refl
    allow_all-from last ((now, member) ∷ rest) s history o d new h =
        let k = redis_key key in
        let bound = sub_ℕ now window in
        ap₂ ◌∷◌
          (ap (λ n. ltb n limit) (law.card k bound s ∙ h bound (bound_mono last now window o.0)))
          (allow_all-from now rest (after now member s) (history ++ now ∷ []) o.1 d.1
            (AllNew-allow now member rest s d.0 new.1)
            (λ b le.
              count-allow now member b s new.0 le
              ∙ ap (λ n. n + length (over b (now ∷ [])))
                  (h b (le_trans_ℤ (sub_ℕ last window) bound b (bound_mono last now window o.0) le))
              ∙ sym (
                  ap length (over-append b history (now ∷ []))
                  ∙ length-append (over b history) (over b (now ∷ [])))))

    all_new :
        (k : String) (reqs : List (ℕ × String)) (s : S)
        → ((member : String) → has k member s ≡ false)
        → AllNew k reqs s
    all_new k reqs s none_there = All_of _ (λ q. none_there q.1) reqs

    -- For requests of one key, each with a member of its own, at times that never fall, whose
    -- pipelines Redis answers and executes one after the other, from a store where the key has no
    -- entries, Allow with a window above 0 lets a request through exactly where fewer than the limit
    -- came before it within the window, those that it refused included.
    pub allow_all-by_history :
        (reqs : List (ℕ × String)) (s : S)
        → IsEmpty (redis_key key) s
        → InOrder 0 reqs
        → Distinct reqs
        → allow_all r key limit window reqs s ≡ by_history limit window reqs []
    allow_all-by_history reqs s (empty, none_there) o d =
        allow_all-from 0 reqs s [] o d (all_new (redis_key key) reqs s none_there) (λ b le. empty b)
