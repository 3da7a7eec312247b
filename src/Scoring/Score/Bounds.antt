-- ===== src/Scoring/Score/Bounds.antt =====
-- The range and the order of the scores.
use iicpc_summer_hackathon.Prelude.{
  ℕ, ◌<◌, ◌≡◌, refl, ap, ap₂, ◌∙◌, subst, Bool, true, false, if◌then◌else◌, not, arith,
}
use iicpc_summer_hackathon.Prelude.Int.{ℤ, pos, ◌≤ℤ◌}
use iicpc_summer_hackathon.Prelude.Float.{Float64, IsOrdered}
use iicpc_summer_hackathon.Prelude.Float.Arithmetic.{IsMonotone, mul_mono_right, le_of_lt_float}
use iicpc_summer_hackathon.Scoring.Score.{
  Exponential, min_float, weighted, throughput_score, decay, compute_score,
}

-- The exponential on finite numbers: monotone, never negative, and 1 at 0.
pub record IsExponential {F : Type 0} (fl : Float64 F) (ex : Exponential F) : Type 0 where
  pub exp_mono : (a b : F) → fl.lt b a ≡ false → fl.lt (ex.exp b) (ex.exp a) ≡ false
  pub exp_not_neg : (a : F) → fl.lt (ex.exp a) (fl.decimal 0 0) ≡ false
  pub exp_zero : ex.exp (fl.decimal 0 0) ≡ fl.decimal 1 0

-- The weights on 100: the products of the literals 0.30 and 0.10 by 100 round to whole numbers.
pub record IsWeighted {F : Type 0} (fl : Float64 F) : Type 0 where
  pub thirty : fl.mul (fl.decimal 30 2) (fl.decimal 100 0) ≡ fl.decimal 30 0
  pub ten : fl.mul (fl.decimal 10 2) (fl.decimal 100 0) ≡ fl.decimal 10 0
  pub one : fl.mul (fl.decimal 100 0) (fl.decimal 1 0) ≡ fl.decimal 100 0
  pub weights_not_neg :
      (fl.lt (fl.decimal 30 2) (fl.decimal 0 0) ≡ false)
      × (fl.lt (fl.decimal 10 2) (fl.decimal 0 0) ≡ false)
      × (fl.lt (fl.decimal 15 2) (fl.decimal 0 0) ≡ false)

module _ {F : Type 0} ⦃fl : Float64 F⦄ where
  -- From 0 to 100.
  abbrev pub InPercent : F → Type 0
  InPercent a = (fl.lt a (fl.decimal 0 0) ≡ false) × (fl.lt (fl.decimal 100 0) a ≡ false)

module _ {F : Type 0} ⦃fl : Float64 F⦄ ⦃ex : Exponential F⦄ (o : IsOrdered fl) (m : IsMonotone fl)
    (w : IsWeighted fl) (e : IsExponential fl ex) where
  abbrev zero_f : F
  zero_f = fl.decimal 0 0

  not_less :
      (m' n : ℕ) → m' < n → n < 9007199254740993 → fl.lt (fl.decimal n 0) (fl.decimal m' 0) ≡ false
  not_less m' n h h' = le_of_lt_float fl o _ _ (m.lit_mono m' n h h')

  min_float_mono : (a b c : F) → fl.lt b a ≡ false → fl.lt (min_float b c) (min_float a c) ≡ false
  min_float_mono a b c h =
      ground
        (arith, h, o.lt_split c b a, o.lt_irrefl c, o.lt_irrefl a, o.lt_split c a b, o.lt_irrefl b)

  throughput_score_mono :
      (a b : F) → fl.lt b a ≡ false → fl.lt (throughput_score b) (throughput_score a) ≡ false
  throughput_score_mono a b h =
      mul_mono_right fl m _ _ _ (not_less 0 100 (omega arith) (omega arith)) (
        min_float_mono _ _ (fl.decimal 1 0)
          (m.div_mono a b _ (m.lit_mono 0 1000000 (omega arith) (omega arith)) h))

  decay_mono : (p q : ℤ) → p ≤ℤ q → fl.lt (decay p) (decay q) ≡ false
  decay_mono p q h =
      let (_, _, w15) = w.weights_not_neg in
      ap₂ fl.lt (m.mul_neg _ _) (m.mul_neg _ _)
      ∙ m.neg_mono _ _ (
          m.mul_mono _ _ _ w15 (
            m.div_mono _ _ _ (m.lit_mono 0 100 (omega arith) (omega arith)) (
              m.div_mono _ _ _ (m.lit_mono 0 1000 (omega arith) (omega arith))
                (m.of_int_mono p q h))))

  weighted_mono :
      (t t' l l' c c' s s' : F)
      → fl.lt t' t ≡ false
      → fl.lt l' l ≡ false
      → fl.lt c' c ≡ false
      → fl.lt s' s ≡ false
      → fl.lt (weighted t' l' c' s') (weighted t l c s) ≡ false
  weighted_mono t t' l l' c c' s s' ht hl hc hs =
      let (w30, w10, _) = w.weights_not_neg in
      m.add_mono _ _ _ _
        (m.add_mono _ _ _ _
          (m.add_mono _ _ _ _ (m.mul_mono t t' _ w30 ht) (m.mul_mono l l' _ w30 hl))
          (m.mul_mono c c' _ w30 hc))
        (m.mul_mono s s' _ w10 hs)

  stability : Bool → F
  stability stable = if not stable then fl.decimal 0 0 else fl.decimal 100 0

  -- Of two sessions as stable as each other, the one with at least the throughput, at most the 99th
  -- percentile and at least the fill accuracy of the other has at least its composite score.
  pub compute_score_mono :
      (tps tps' : F) (p p' : ℤ) (acc acc' : F) (stable : Bool)
      → fl.lt tps' tps ≡ false
      → p' ≤ℤ p
      → fl.lt acc' acc ≡ false
      → fl.lt
          (compute_score tps' p' acc' stable).composite
          (compute_score tps p acc stable).composite
        ≡ false
  unfolding compute_score
  compute_score_mono tps tps' p p' acc acc' stable ht hp ha =
      weighted_mono _ _ _ _ _ _ _ _ (throughput_score_mono tps tps' ht)
        (m.mul_mono _ _ _ (not_less 0 100 (omega arith) (omega arith))
          (e.exp_mono _ _ (decay_mono p' p hp)))
        ha (o.lt_irrefl _)

  at_least : (a b : F) (r : F) → r ≡ b → fl.lt a r ≡ false → fl.lt a b ≡ false
  at_least a b r q h = subst (λ x. fl.lt a x ≡ false) q h

  at_most : (a b : F) (r : F) → r ≡ b → fl.lt r a ≡ false → fl.lt b a ≡ false
  at_most a b r q h = subst (λ x. fl.lt x a ≡ false) q h

  min_float-zero : min_float (fl.decimal 0 0) (fl.decimal 1 0) ≡ fl.decimal 0 0
  min_float-zero = rw (not_less 0 1 (omega arith) (omega arith)) refl

  min_float-le : (a b : F) → fl.lt b (min_float a b) ≡ false
  min_float-le a b = ground (arith, o.lt_irrefl b)

  throughput_score_zero : throughput_score (fl.decimal 0 0) ≡ fl.decimal 0 0
  throughput_score_zero =
      ap (λ x. fl.mul (min_float x (fl.decimal 1 0)) (fl.decimal 100 0))
        (m.div_zero _ (m.lit_mono 0 1000000 (omega arith) (omega arith)))
      ∙ ap (λ x. fl.mul x (fl.decimal 100 0)) min_float-zero
      ∙ m.mul_comm _ _
      ∙ m.mul_zero _

  decay_zero : decay (pos 0) ≡ fl.decimal 0 0
  decay_zero =
      ap (λ x. fl.mul (fl.sub (fl.decimal 0 0) (fl.decimal 15 2)) (fl.div x (fl.decimal 100 0)))
        (ap (λ x. fl.div x (fl.decimal 1000 0)) m.of_int_zero
          ∙ m.div_zero _ (m.lit_mono 0 1000 (omega arith) (omega arith)))
      ∙ ap (fl.mul (fl.sub (fl.decimal 0 0) (fl.decimal 15 2)))
          (m.div_zero _ (m.lit_mono 0 100 (omega arith) (omega arith)))
      ∙ m.mul_zero _

  weighted_zero :
      weighted (fl.decimal 0 0) (fl.decimal 0 0) (fl.decimal 0 0) (fl.decimal 0 0) ≡ fl.decimal 0 0
  weighted_zero =
      cc (m.mul_zero (fl.decimal 30 2), m.mul_zero (fl.decimal 10 2), m.lit_add 0 0 (omega arith))

  weighted_full :
      weighted (fl.decimal 100 0) (fl.decimal 100 0) (fl.decimal 100 0) (fl.decimal 100 0)
      ≡ fl.decimal 100 0
  weighted_full = cc (
    w.thirty,
    w.ten,
    m.lit_add 30 30 (omega arith),
    m.lit_add 60 30 (omega arith),
    m.lit_add 90 10 (omega arith),
  )

  throughput_score-InPercent :
      (tps : F) → fl.lt tps (fl.decimal 0 0) ≡ false → InPercent (throughput_score tps)
  throughput_score-InPercent tps h = (
    at_least _ _ _ throughput_score_zero (throughput_score_mono (fl.decimal 0 0) tps h),
    at_most _ _ _ (m.mul_comm _ _ ∙ w.one) (
        mul_mono_right fl m _ _ _ (not_less 0 100 (omega arith) (omega arith))
          (min_float-le _ (fl.decimal 1 0))),
  )

  latency-InPercent :
      (p : ℤ) → pos 0 ≤ℤ p → InPercent (fl.mul (fl.decimal 100 0) (ex.exp (decay p)))
  latency-InPercent p h = (
    at_least _ _ _ (m.mul_zero _)
        (m.mul_mono _ _ _ (not_less 0 100 (omega arith) (omega arith)) (e.exp_not_neg _)),
    at_most _ _ _ (ap (fl.mul (fl.decimal 100 0)) (ap ex.exp decay_zero ∙ e.exp_zero) ∙ w.one) (
        m.mul_mono _ _ _ (not_less 0 100 (omega arith) (omega arith))
          (e.exp_mono _ _ (decay_mono (pos 0) p h))),
  )

  weighted-InPercent :
      (t l c s : F)
      → InPercent t
      → InPercent l
      → InPercent c
      → InPercent s
      → InPercent (weighted t l c s)
  weighted-InPercent t l c s ht hl hc hs = (
    at_least _ _ _ weighted_zero (weighted_mono _ t _ l _ c _ s ht.0 hl.0 hc.0 hs.0),
    at_most _ _ _ weighted_full (weighted_mono t _ l _ c _ s _ ht.1 hl.1 hc.1 hs.1),
  )

  stability-InPercent : (stable : Bool) → InPercent (stability stable)
  unfolding stability
  stability-InPercent true = (not_less 0 100 (omega arith) (omega arith), o.lt_irrefl _)
  stability-InPercent false = (o.lt_irrefl _, not_less 0 100 (omega arith) (omega arith))

  -- For a throughput and a 99th percentile that are not negative and a fill accuracy from 0 to 100,
  -- the composite score and each of its four parts are from 0 to 100.
  pub compute_score_bounds :
      (tps : F) (p : ℤ) (acc : F) (stable : Bool)
      → fl.lt tps (fl.decimal 0 0) ≡ false
      → pos 0 ≤ℤ p
      → InPercent acc
      → let s = compute_score tps p acc stable in
        InPercent s.composite
        × InPercent s.t_score
        × InPercent s.l_score
        × InPercent s.c_score
        × InPercent s.s_score
  unfolding compute_score stability
  compute_score_bounds tps p acc stable ht hp ha =
      let t = throughput_score-InPercent tps ht in
      let l = latency-InPercent p hp in
      let s = stability-InPercent stable in (weighted-InPercent _ _ _ _ t l ha s, t, l, ha, s)
