-- ===== src/ApiGateway/Tests/Memory.antt =====
-- Sorted sets in memory: the scores of a key's members.
use iicpc_summer_hackathon.Prelude.{
  ℕ, ◌+◌, String, Bool, false, ◌≡◌, refl, ap, ◌∙◌, sym, str_eq, if◌then◌else◌, Bool-cases, inl, inr,
  is_some, [], ◌∷◌, length, arith, get_or,
}
use iicpc_summer_hackathon.Prelude.Int.{ℤ, pos, ltb_ℤ, ◌≤ℤ◌}
use iicpc_summer_hackathon.Prelude.Dict.{
  Dict, lookup, insert, has_key, lookup-insert, lookup-insert_self,
}
use iicpc_summer_hackathon.ApiGateway.RateLimiter.{SortedSets, over, IsStore}

abbrev keep_over : ℤ → Dict ℕ → Dict ℕ
keep_over bound [] = []
keep_over bound ((m, t) ∷ d) =
    let rest = keep_over bound d in if ltb_ℤ bound (pos t) then (m, t) ∷ rest else rest

abbrev how_many : ℤ → Dict ℕ → ℕ
how_many b d = length (keep_over b d)

abbrev set_of : String → Dict (Dict ℕ) → Dict ℕ
set_of k s = get_or [] (lookup k s)

abbrev pub memory : SortedSets (Dict (Dict ℕ))
memory = record {
  z_rem_range_by_score = λ k bound s. insert k (keep_over bound (set_of k s)) s;
  z_card = λ k s. length (set_of k s);
  z_add = λ k t member s. insert k (insert member t (set_of k s)) s;
  expire = λ k ttl s. s;
}

abbrev pub count_of : String → ℤ → Dict (Dict ℕ) → ℕ
count_of k b s = how_many b (set_of k s)

abbrev pub has_member : String → String → Dict (Dict ℕ) → Bool
has_member k member s = has_key member (set_of k s)

how_many-keep_over : (a b : ℤ) (d : Dict ℕ) → a ≤ℤ b → how_many b (keep_over a d) ≡ how_many b d
how_many-keep_over a b [] h = refl
how_many-keep_over a b ((m, t) ∷ d) h = ground (arith, how_many-keep_over a b d h)

skip_first :
    (m j : String) (u : ℕ) (d : Dict ℕ)
    → str_eq j m ≡ false
    → has_key m ((j, u) ∷ d) ≡ false
    → has_key m d ≡ false
unfolding lookup
skip_first m j u d other new = sym (rw other refl) ∙ new

how_many-insert :
    (b : ℤ) (m : String) (t : ℕ) (d : Dict ℕ)
    → has_key m d ≡ false
    → how_many b (insert m t d) ≡ how_many b d + length (over b (t ∷ []))
unfolding insert lookup
how_many-insert b m t [] new = ground arith
how_many-insert b m t ((j, u) ∷ d) new = elim (Bool-cases (str_eq j m)) [
  | inl same ↦ absurd (ground (arith, same, new))
  | inr other ↦ ground (arith, how_many-insert b m t d (skip_first m j u d other new), other)
]

has_key-keep_over :
    (a : ℤ) (m : String) (d : Dict ℕ) → has_key m d ≡ false → has_key m (keep_over a d) ≡ false
unfolding lookup
has_key-keep_over a m [] new = refl
has_key-keep_over a m ((j, u) ∷ d) new = ground (arith, has_key-keep_over a m d)

set_of-insert : (k : String) (d : Dict ℕ) (s : Dict (Dict ℕ)) → set_of k (insert k d s) ≡ d
set_of-insert k d s = ap (get_or []) (lookup-insert_self k d s)

pub memory-IsStore : IsStore memory count_of has_member
memory-IsStore = record {
  card = λ k bound s. ap length (set_of-insert k _ s);
  removed = λ k bound b s h.
      ap (how_many b) (set_of-insert k _ s) ∙ how_many-keep_over bound b (set_of k s) h;
  added = λ k t member b s new.
      ap (how_many b) (set_of-insert k _ s) ∙ how_many-insert b member t (set_of k s) new;
  kept = λ k ttl b s lasting. refl;
  removed_new = λ k member bound s new.
      ap (has_key member) (set_of-insert k _ s) ∙ has_key-keep_over bound member (set_of k s) new;
  added_new = λ k member other t s ne new.
      ap (has_key member) (set_of-insert k _ s)
      ∙ ap is_some (lookup-insert other member t (set_of k s))
      ∙ rw ne new;
  kept_new = λ k member ttl s lasting new. new;
}
