-- ===== src/Telemetry/Metrics/Percentiles.antt =====
-- The percentiles of the latencies that are kept.
use iicpc_summer_hackathon.Prelude.{
  ℕ, ◌-◌, ◌≤◌, ◌<◌, ◌≡◌, refl, ap, ◌∙◌, subst, subst₂, sym, some-injective, All_of, inl, inr, false,
  List, some, arith, length, get_elem?, get_elem?_of_lt, All, ◌==◌, Bool-cases, String,
}
use iicpc_summer_hackathon.Prelude.Int.{ℤ, pos, negsuc, ltb_ℤ, ◌≤ℤ◌}
use iicpc_summer_hackathon.Prelude.Float.{Float64, IsScaling}
use iicpc_summer_hackathon.Prelude.Sort.{
  IsSorted, sort_slice-IsSorted, length-sort_slice, All-sort_slice, All-get_elem?, get_elem?_mono,
}
use iicpc_summer_hackathon.Telemetry.Metrics.{
  SessionMetrics, Snapshot, tps, fill_acc, sorted, percentile, snapshot,
}

sorted-IsSorted : (xs : List ℤ) → IsSorted ltb_ℤ (sorted xs)
sorted-IsSorted = sort_slice-IsSorted ltb_ℤ (λ x y h. ground arith) (λ x y z p q. ground arith)

le_of_not_ltb : (a b : ℤ) → ltb_ℤ b a ≡ false → a ≤ℤ b
le_of_not_ltb a b h = ground arith

abbrev pub float_exact : ℕ
float_exact = 9007199254740992

module _ {F : Type 0} ⦃fl : Float64 F⦄ (sc : IsScaling fl) where
  -- The rank that a fraction asks for.
  abbrev rank : ℕ → F → ℤ
  rank last p = fl.trunc (fl.mul (fl.of_int (pos last)) p)

  abbrev pub IsFraction : F → Type 0
  IsFraction p = (fl.lt p (fl.decimal 0 0) ≡ false) × (fl.lt (fl.decimal 1 0) p ≡ false)

  zero-IsFraction : IsFraction (fl.decimal 0 0)
  zero-IsFraction = (
    sc.decimal_mono 0 0 0 0 (omega arith) (omega arith),
    sc.decimal_mono 0 0 1 0 (omega arith) (omega arith),
  )

  one-IsFraction : IsFraction (fl.decimal 1 0)
  one-IsFraction = (
    sc.decimal_mono 0 0 1 0 (omega arith) (omega arith),
    sc.decimal_mono 1 0 1 0 (omega arith) (omega arith),
  )

  rank_mono :
      (last : ℕ) (p q : F)
      → last < float_exact
      → IsFraction p
      → IsFraction q
      → fl.lt q p ≡ false
      → rank last p ≤ℤ rank last q
  rank_mono last p q small fp fq h =
      sc.trunc_mono last _ _ small
        (subst (λ x. fl.lt (fl.mul (fl.of_int (pos last)) p) x ≡ false) (sc.mul_zero last)
          (sc.mul_mono last _ p small fp.0))
        (subst (λ x. fl.lt x (fl.mul (fl.of_int (pos last)) q) ≡ false) (sc.mul_one last small)
          (sc.mul_mono last q _ small fq.1))
        (sc.mul_mono last p q small h)

  -- A fraction from 0 to 1 asks for a rank from 0 to the last.
  rank_in_range :
      (last : ℕ) (p : F)
      → last < float_exact
      → fl.lt p (fl.decimal 0 0) ≡ false
      → fl.lt (fl.decimal 1 0) p ≡ false
      → (i : ℕ) × (rank last p ≡ pos i) × (i ≤ last)
  rank_in_range last p h low high = cases (rank last p) refl
    where
      above : pos 0 ≤ℤ rank last p
      above =
          subst (λ z. z ≤ℤ rank last p)
            (ap fl.trunc (sc.mul_zero last) ∙ sc.trunc_of_int 0 (omega arith))
            (rank_mono last (fl.decimal 0 0) p h zero-IsFraction (low, high) low)

      below : rank last p ≤ℤ pos last
      below =
          subst (λ z. rank last p ≤ℤ z) (ap fl.trunc (sc.mul_one last h) ∙ sc.trunc_of_int last h)
            (rank_mono last p (fl.decimal 1 0) h (low, high) one-IsFraction high)

      cases : (z : ℤ) → rank last p ≡ z → (i : ℕ) × (rank last p ≡ pos i) × (i ≤ last)
      cases (pos i) e = (i, e, omega (arith, subst (λ z. z ≤ℤ pos last) e below))
      cases (negsuc i) e = absurd (omega (arith, subst (λ z. pos 0 ≤ℤ z) e above))

  -- The percentile of a reservoir that is not empty is the latency at its rank.
  percentile_at_rank :
      (m : SessionMetrics) (p : F)
      → 0 < length m.latencies
      → length m.latencies < float_exact
      → IsFraction p
      → (i : ℕ) × (a : ℤ) × (rank (length m.latencies - 1) p ≡ pos i)
        × (get_elem? (sorted m.latencies) i ≡ some a)
        × (percentile m p ≡ some a)
  unfolding percentile
  percentile_at_rank m p h h' f =
      let (i, e, le) = rank_in_range (length m.latencies - 1) p (omega arith) f.0 f.1 in
      let (a, at) =
        get_elem?_of_lt (sorted m.latencies) i
          (omega (arith, length-sort_slice ltb_ℤ m.latencies)) in
      (i, a, e, at, ground arith)

  pub percentile_order {ℓ} :
      (P : ℤ → Type ℓ) (m : SessionMetrics) (p q : F)
      → length m.latencies < float_exact
      → IsFraction p
      → IsFraction q
      → fl.lt q p ≡ false
      → P (pos 0)
      → All P m.latencies
      → (a : ℤ) × (b : ℤ) × (percentile m p ≡ some a)
        × (percentile m q ≡ some b)
        × (a ≤ℤ b)
        × P a
        × P b
  unfolding percentile
  percentile_order P m p q h fp fq le p0 all = elim (Bool-cases (length m.latencies == 0)) [
    | inl empty ↦ (pos 0, pos 0, rw empty, rw empty, omega arith, p0, p0)
    | inr filled ↦
        let (i, a, ei, ai, pa) = percentile_at_rank m p (ground arith) h fp in
        let (j, b, ej, bj, pb) = percentile_at_rank m q (ground arith) h fq in
        let ranks : i ≤ j = omega (
          arith,
          subst₂ ◌≤ℤ◌ ei ej (rank_mono (length m.latencies - 1) p q (omega arith) fp fq le),
        ) in
        let kept = All-sort_slice ltb_ℤ P m.latencies all in
        (
          a,
          b,
          pa,
          pb,
          le_of_not_ltb a b (
              get_elem?_mono ltb_ℤ (λ x. ground arith) (sorted m.latencies) i j
                (sorted-IsSorted m.latencies) ranks ai bj),
          All-get_elem? ltb_ℤ P (sorted m.latencies) i kept ai,
          All-get_elem? ltb_ℤ P (sorted m.latencies) j kept bj,
        )
  ]

  -- A snapshot of a session whose reservoir is within the exact range of a float64 is made without
  -- a panic, for the session, with the session's counts, and its percentiles are in order.
  pub snapshot_lem :
      (elapsed : F) (sid : String) (m : SessionMetrics)
      → length m.latencies < float_exact
      → (s : Snapshot F) × (snapshot elapsed sid m ≡ some s)
        × (s.session_id ≡ sid)
        × (s.total_orders ≡ m.total_orders)
        × (s.violations ≡ m.violations)
        × (s.p50_ns ≤ℤ s.p90_ns)
        × (s.p90_ns ≤ℤ s.p99_ns)
  unfolding snapshot
  snapshot_lem elapsed sid m h =
      let (a, b, pa, pb, ab, _, _) =
        percentile_order (λ _. Unit {0}) m _ _ h f50 f90
          (sc.decimal_mono 50 2 90 2 (omega arith) (omega arith)) tt all in
      let (b', c, pb', pc, bc, _, _) =
        percentile_order (λ _. Unit {0}) m _ _ h f90 f99
          (sc.decimal_mono 90 2 99 2 (omega arith) (omega arith)) tt all in
      let same : b' ≡ b = some-injective _ _ (sym pb' ∙ pb) in
      (
        record {
          session_id = sid;
          p50_ns = a;
          p90_ns = b;
          p99_ns = c;
          tps = tps m elapsed;
          total_orders = m.total_orders;
          violations = m.violations;
          fill_acc_pct = fill_acc m;
        },
        rw (pa, pb, pc),
        refl,
        refl,
        refl,
        ab,
        subst (λ z. z ≤ℤ c) same bc,
      )
    where
      f50 : IsFraction (fl.decimal 50 2)
      f50 = (
        sc.decimal_mono 0 0 50 2 (omega arith) (omega arith),
        sc.decimal_mono 50 2 1 0 (omega arith) (omega arith),
      )

      f90 : IsFraction (fl.decimal 90 2)
      f90 = (
        sc.decimal_mono 0 0 90 2 (omega arith) (omega arith),
        sc.decimal_mono 90 2 1 0 (omega arith) (omega arith),
      )

      f99 : IsFraction (fl.decimal 99 2)
      f99 = (
        sc.decimal_mono 0 0 99 2 (omega arith) (omega arith),
        sc.decimal_mono 99 2 1 0 (omega arith) (omega arith),
      )

      all : All (λ _. Unit {0}) m.latencies
      all = All_of _ (λ _. tt) m.latencies
