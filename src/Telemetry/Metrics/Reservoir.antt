-- ===== src/Telemetry/Metrics/Reservoir.antt =====
-- The reservoir and the counters over any number of records.
use iicpc_summer_hackathon.Prelude.{
  ℕ, ◌+◌, ◌≤◌, ◌<◌, min, ◌≡◌, refl, ap, ◌∙◌, inl, inr, Bool, true, false, List, [], ◌∷◌, ◌++◌,
  Option, some, arith, if◌then◌else◌, ltb, length, set, length-append, length-set, All, All-append,
  All-set, ◌>>=◌, Bool-cases,
}
use iicpc_summer_hackathon.Prelude.Int.{ℤ, pos, ltb_ℤ, ◌<ℤ◌, add64}
use iicpc_summer_hackathon.Telemetry.Metrics.{
  SessionMetrics, replace_at, count_order, keep_latency, record_order, new_metrics,
}

-- rand.Int63n answers with a number from 0 up to the bound, without the bound.
abbrev pub IsDraw : (ℤ → ℤ) → Type 0
IsDraw draw = (n : ℕ) → 0 < n → (i : ℕ) × (draw (pos n) ≡ pos i) × (i < n)

pub record Sample : Type 0 where
  pub latency : ℤ
  pub violation : Bool
  pub draw : ℤ → ℤ

unfoldable pub record_all : SessionMetrics → List Sample → Option SessionMetrics
record_all m [] = some m
record_all m (s ∷ ss) = do m' ← record_order s.draw m s.latency s.violation; record_all m' ss

abbrev pub one_if : Bool → ℕ
one_if true = 1
one_if false = 0

abbrev pub count_violations : List Sample → ℕ
count_violations [] = 0
count_violations (s ∷ ss) = one_if s.violation + count_violations ss

abbrev pub count_positive : List Sample → ℕ
count_positive [] = 0
count_positive (s ∷ ss) = one_if (ltb_ℤ (pos 0) s.latency) + count_positive ss

add64_one : (n : ℕ) → n + 1 < 9223372036854775808 → add64 (pos n) (pos 1) ≡ pos (n + 1)
unfolding add64
add64_one n h = ground arith

module _ {ℓ} (P : ℤ → Type ℓ) where
  -- After `n` records, `v` of them violations and `p` with a positive latency.
  pub record Counted (m : SessionMetrics) (n v p : ℕ) : Type ℓ where
    pub total : m.total_orders ≡ pos n
    pub violations : m.violations ≡ pos v
    pub bounded : v ≤ n
    pub filled : length m.latencies ≡ min 10000 p
    pub kept : All P m.latencies

  count_order-Counted :
      (m : SessionMetrics) (n v p : ℕ) (b : Bool)
      → Counted m n v p
      → n + 1 < 9223372036854775808
      → Counted (count_order m b) (n + 1) (one_if b + v) p
  unfolding count_order
  count_order-Counted m n v p b c h = record {
    total = ap (λ t. add64 t (pos 1)) c.total ∙ add64_one n h;
    violations =
        elim b
          as (λ b. (if b then add64 m.violations (pos 1) else m.violations) ≡ pos (one_if b + v)) [
            | true ↦
                ap (λ t. add64 t (pos 1)) c.violations
                ∙ add64_one v (omega (arith, c.bounded))
                ∙ ap pos (omega arith)
            | false ↦ c.violations ∙ ap pos (omega arith)
          ];
    bounded = elim b as (λ b. one_if b + v ≤ n + 1) [
      | true ↦ omega (arith, c.bounded)
      | false ↦ omega (arith, c.bounded)
    ];
    filled = c.filled;
    kept = c.kept;
  }

  -- A draw replaces at most one entry, and never out of range.
  replace_at-total :
      (xs : List ℤ) (i : ℕ) (latency : ℤ)
      → length xs ≡ 10000
      → All P xs
      → P latency
      → (kept : List ℤ) × (replace_at xs (pos i) latency ≡ some kept)
        × (length kept ≡ 10000)
        × All P kept
  replace_at-total xs i latency h all pl = elim (Bool-cases (ltb i 10000)) [
    | inl low ↦
        (set xs i latency, ground arith, length-set xs i latency ∙ h, All-set P xs i latency all pl)
    | inr high ↦ (xs, ground arith, h, all)
  ]

  keep_latency-Counted :
      (draw : ℤ → ℤ) (m : SessionMetrics) (latency : ℤ) (n v p : ℕ)
      → IsDraw draw
      → Counted m n v p
      → 0 < n
      → P latency
      → (m' : SessionMetrics) × (keep_latency draw m latency ≡ some m') × Counted m' n v (1 + p)
  unfolding keep_latency
  keep_latency-Counted draw m latency n v p d c h pl =
      elim (Bool-cases (ltb (length m.latencies) 10000)) [
        | inl room ↦ (
          record m { latencies = m.latencies ++ latency ∷ [] },
          rw room,
          record {
            total = c.total;
            violations = c.violations;
            bounded = c.bounded;
            filled = ground (arith, c.filled, length-append m.latencies (latency ∷ []));
            kept = All-append P m.latencies (latency ∷ []) c.kept (pl, tt);
          },
        )
        | inr full ↦
            let (i, drawn, _) = d n h in
            let (kept, replaced, len, all) =
              replace_at-total m.latencies i latency (ground (arith, c.filled)) c.kept pl in
            (
              record m { latencies = kept },
              ground (arith, c.total, drawn, replaced),
              record {
                total = c.total;
                violations = c.violations;
                bounded = c.bounded;
                filled = ground (arith, c.filled);
                kept = all;
              },
            )
      ]

  pub Counted_at :
      (m : SessionMetrics) (n v p n' v' p' : ℕ)
      → Counted m n v p
      → n ≡ n'
      → v ≡ v'
      → p ≡ p'
      → Counted m n' v' p'
  Counted_at m n v p n' v' p' c en ev ep = record {
    total = c.total ∙ ap pos en;
    violations = c.violations ∙ ap pos ev;
    bounded = omega (arith, c.bounded);
    filled = c.filled ∙ ap (λ k. min 10000 k) ep;
    kept = c.kept;
  }

  pub record_order-Counted :
      (s : Sample) (m : SessionMetrics) (n v p : ℕ)
      → IsDraw s.draw
      → Counted m n v p
      → n + 1 < 9223372036854775808
      → (pos 0 <ℤ s.latency → P s.latency)
      → (m' : SessionMetrics) × (record_order s.draw m s.latency s.violation ≡ some m')
        × Counted m' (n + 1) (one_if s.violation + v) (one_if (ltb_ℤ (pos 0) s.latency) + p)
  unfolding record_order
  record_order-Counted s m n v p d c h pl =
      let counted = count_order-Counted m n v p s.violation c h in
      elim (Bool-cases (ltb_ℤ (pos 0) s.latency)) [
        | inl positive ↦ rw positive (
            keep_latency-Counted s.draw (count_order m s.violation) s.latency (n + 1) _ p d counted
              (omega arith) (pl (ground arith)))
        | inr other ↦ rw other (
          count_order m s.violation,
          refl,
          Counted_at _ _ _ _ _ _ _ counted refl refl (omega arith),
        )
      ]

  record_all-Counted :
      (ss : List Sample) (m : SessionMetrics) (n v p : ℕ)
      → All (λ s. IsDraw s.draw) ss
      → All (λ s. pos 0 <ℤ s.latency → P s.latency) ss
      → Counted m n v p
      → n + length ss < 9223372036854775808
      → (m' : SessionMetrics) × (record_all m ss ≡ some m')
        × Counted m' (n + length ss) (count_violations ss + v) (count_positive ss + p)
  unfolding record_all
  record_all-Counted [] m n v p d q c h =
      (m, refl, Counted_at m n v p _ _ _ c (omega arith) (omega arith) (omega arith))
  record_all-Counted (s ∷ ss) m n v p d q c h =
      let (m', stepped, c') = record_order-Counted s m n v p d.0 c (omega arith) q.0 in
      let (last, ran, c'') = record_all-Counted ss m' (n + 1) _ _ d.1 q.1 c' (omega arith) in
      (
        last,
        rw stepped ran,
        Counted_at last _ _ _ _ _ _ c'' (omega arith) (omega arith) (omega arith),
      )

  -- Fewer than 2^63 records on new metrics run without a panic, whatever the generator draws. They
  -- leave the exact counts of the orders and of the violations, and a reservoir that holds as many
  -- latencies as were positive, or 10000 if more were; what holds of every positive latency
  -- recorded holds of every latency kept.
  pub record_all_lem :
      (now : ℤ) (ss : List Sample)
      → All (λ s. IsDraw s.draw) ss
      → All (λ s. pos 0 <ℤ s.latency → P s.latency) ss
      → length ss < 9223372036854775808
      → (m : SessionMetrics) × (record_all (new_metrics now) ss ≡ some m)
        × (m.total_orders ≡ pos (length ss))
        × (m.violations ≡ pos (count_violations ss))
        × (length m.latencies ≡ min 10000 (count_positive ss))
        × All P m.latencies
  record_all_lem now ss d q h =
      let (m, ran, c) =
        record_all-Counted ss (new_metrics now) 0 0 0 d q
          (record {
            total = refl;
            violations = refl;
            bounded = omega arith;
            filled = omega arith;
            kept = tt;
          })
          (omega arith) in
      let exact =
        Counted_at m _ _ _ (length ss) (count_violations ss) (count_positive ss) c (omega arith)
          (omega arith) (omega arith) in
      (m, ran, exact.total, exact.violations, exact.filled, exact.kept)
