-- ===== src/Scoring/Score.antt =====
-- computeScore of services/scoring-service/main.go.
use iicpc_summer_hackathon.Prelude.{Bool, if◌then◌else◌, not}
use iicpc_summer_hackathon.Prelude.Int.{ℤ}
use iicpc_summer_hackathon.Prelude.Float.{Float64}
pub mod Bounds

-- math.Exp of the standard library.
pub record Exponential (F : Type 0) : Type 0 where
  pub exp : F → F

pub record Scores (F : Type 0) : Type 0 where
  pub composite : F
  pub t_score : F
  pub l_score : F
  pub c_score : F
  pub s_score : F

module _ {F : Type 0} ⦃fl : Float64 F⦄ where
  -- math.Min on finite numbers.
  abbrev pub min_float : F → F → F
  min_float a b = if fl.lt b a then b else a

  abbrev pub weighted : F → F → F → F → F
  weighted t l c s =
      fl.add
        (fl.add (fl.add (fl.mul (fl.decimal 30 2) t) (fl.mul (fl.decimal 30 2) l))
          (fl.mul (fl.decimal 30 2) c))
        (fl.mul (fl.decimal 10 2) s)

  abbrev pub throughput_score : F → F
  throughput_score tps =
      fl.mul (min_float (fl.div tps (fl.decimal 1000000 0)) (fl.decimal 1 0)) (fl.decimal 100 0)

  -- The argument of the exponential: -lambda * (p99 in units of 100 microseconds).
  abbrev pub decay : ℤ → F
  decay p99_ns =
      let p99us = fl.div (fl.of_int p99_ns) (fl.decimal 1000 0) in
      fl.mul (fl.sub (fl.decimal 0 0) (fl.decimal 15 2)) (fl.div p99us (fl.decimal 100 0))

module _ {F : Type 0} ⦃fl : Float64 F⦄ ⦃ex : Exponential F⦄ where
  unfoldable pub compute_score : F → ℤ → F → Bool → Scores F
  compute_score tps p99_ns fill_acc_pct stable =
      let t = throughput_score tps in
      let l = fl.mul (fl.decimal 100 0) (ex.exp (decay p99_ns)) in
      let s = if not stable then fl.decimal 0 0 else fl.decimal 100 0 in
      record {
        composite = weighted t l fill_acc_pct s;
        t_score = t;
        l_score = l;
        c_score = fill_acc_pct;
        s_score = s;
      }
