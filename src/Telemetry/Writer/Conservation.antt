-- ===== src/Telemetry/Writer/Conservation.antt =====
-- Where the events that the writer gets are, and how many wait in its batch.
use iicpc_summer_hackathon.Prelude.{
  ℕ, ◌+◌, ◌<◌, ◌≡◌, refl, ap, ◌∙◌, inl, inr, Bool, true, false, ◌||◌, not, List, [], ◌∷◌, ◌++◌,
  arith, leb, length, length-append, ◌==◌, Bool-cases, ap₂,
}
use iicpc_summer_hackathon.Prelude.Int.{ℤ}
use iicpc_summer_hackathon.Telemetry.Event.{TelemetryEvent}
use iicpc_summer_hackathon.Telemetry.Writer.{
  Row, TsWriter, row, rows_from, begin_flush, end_flush, append, add, batch_limit, WriterStep, adds,
  flushes, copied, Run, here, next,
}

-- A weight for each element, summed: equal sums for every weight mean equal multisets.
abbrev pub sum {ℓ} : {A : Type ℓ} → (A → ℕ) → List A → ℕ
sum f [] = 0
sum f (x ∷ xs) = f x + sum f xs

sum-append {ℓ} : {A : Type ℓ} (f : A → ℕ) (xs ys : List A) → sum f (xs ++ ys) ≡ sum f xs + sum f ys
sum-append f [] ys = omega arith
sum-append f (x ∷ xs) ys = omega (arith, sum-append f xs ys)

module _ {F : Type 0} where
  -- The event that a row stands for.
  unfoldable pub event_of : Row F → TelemetryEvent F
  event_of r = record {
    session_id = r.session_id;
    order_id = r.order_id;
    event_type = r.status;
    t_send_ns = r.t_send_ns;
    t_ack_ns = r.t_ack_ns;
    latency_ns = r.latency_ns;
    side = r.side;
    order_type = r.order_type;
    price = r.price;
    qty = r.qty;
    fill_price = r.fill_price;
    fill_qty = r.fill_qty;
    seq_no = r.seq_no;
    violation = r.violation;
    violation_msg = r.violation_msg;
  }

  -- The columns keep the whole event.
  event_of-row : (now : ℤ) (e : TelemetryEvent F) → event_of (row now e) ≡ e
  unfolding event_of row
  event_of-row now e = refl

  module _ (f : TelemetryEvent F → ℕ) where
    abbrev pub weigh : List (Row F) → ℕ
    weigh = sum (λ r. f (event_of r))

    -- The weight of all that the writer has been given, wherever it is now.
    abbrev pub held : TsWriter F → ℕ
    held w = weigh w.table + weigh w.lost + sum weigh w.copying + sum f w.batch

    weigh-rows :
        (clock : ℕ → ℤ) (i : ℕ) (es : List (TelemetryEvent F))
        → weigh (rows_from clock i es) ≡ sum f es
    unfolding rows_from
    weigh-rows clock i [] = refl
    weigh-rows clock i (e ∷ es) =
        ap₂ ◌+◌ (ap f (event_of-row (clock i) e)) (weigh-rows clock (i + 1) es)

    held-begin_flush : (clock : ℕ → ℤ) (w : TsWriter F) → held (begin_flush clock w) ≡ held w
    unfolding begin_flush
    held-begin_flush clock w = elim (Bool-cases (length w.batch == 0 || not w.pool)) [
      | inl idle ↦ rw idle
      | inr busy ↦ rw busy (
          omega (
            arith,
            weigh-rows clock 0 w.batch,
            sum-append weigh w.copying (rows_from clock 0 w.batch ∷ []),
          ))
    ]

    held-append : (e : TelemetryEvent F) (w : TsWriter F) → held (append e w) ≡ held w + f e
    unfolding append
    held-append e w = omega (arith, sum-append f w.batch (e ∷ []))

    held-add :
        (clock : ℕ → ℤ) (e : TelemetryEvent F) (w : TsWriter F)
        → held (add clock e w) ≡ held w + f e
    unfolding add
    held-add clock e w = elim (Bool-cases (leb batch_limit (length (append e w).batch))) [
      | inl full ↦ rw full (held-begin_flush clock (append e w) ∙ held-append e w)
      | inr room ↦ rw room (held-append e w)
    ]

    held-end_flush :
        (done : Bool) (before after : List (List (Row F))) (rows : List (Row F)) (w : TsWriter F)
        → w.copying ≡ before ++ rows ∷ after
        → held (end_flush done rows (record w { copying = before ++ after })) ≡ held w
    unfolding end_flush
    held-end_flush true before after rows w e = omega (
      arith,
      ap (sum weigh) e,
      sum-append weigh before (rows ∷ after),
      sum-append weigh before after,
      sum-append (λ r. f (event_of r)) w.table rows,
    )
    held-end_flush false before after rows w e = omega (
      arith,
      ap (sum weigh) e,
      sum-append weigh before (rows ∷ after),
      sum-append weigh before after,
      sum-append (λ r. f (event_of r)) w.lost rows,
    )

    held-WriterStep :
        {w w' : TsWriter F} {es : List (TelemetryEvent F)}
        → WriterStep w es w'
        → held w' ≡ held w + sum f es
    held-WriterStep (adds clock e w) = omega (arith, held-add clock e w)
    held-WriterStep (flushes clock w) = omega (arith, held-begin_flush clock w)
    held-WriterStep (copied done before after rows w e) =
        omega (arith, held-end_flush done before after rows w e)

    -- However additions, flushes and ends of copies interleave, the events in the table, in failed
    -- copies, in copies under way and in the batch are together those held at the start and those
    -- added, each as often: every weight on events sums to the same.
    pub held-Run :
        {w w' : TsWriter F} {es : List (TelemetryEvent F)}
        → Run w es w'
        → held w' ≡ held w + sum f es
    held-Run here = omega arith
    held-Run (next {es = es} {ds = ds} r s) =
        omega (arith, held-Run r, held-WriterStep s, sum-append f es ds)

  -- The batch is under its limit, and there is a pool to flush it to.
  pub record InLimit (w : TsWriter F) : Type 0 where
    pub connected : w.pool ≡ true
    pub under : length w.batch < 5000

  add-InLimit :
      (clock : ℕ → ℤ) (e : TelemetryEvent F) (w : TsWriter F) → InLimit w → InLimit (add clock e w)
  unfolding add append begin_flush
  add-InLimit clock e w h = ground (arith, length-append w.batch (e ∷ []))

  WriterStep-InLimit :
      {w w' : TsWriter F} {es : List (TelemetryEvent F)}
      → WriterStep w es w'
      → InLimit w
      → InLimit w'
  unfolding begin_flush end_flush
  WriterStep-InLimit (adds clock e w) h = add-InLimit clock e w h
  WriterStep-InLimit (flushes clock w) h = ground arith
  WriterStep-InLimit (copied true before after rows w e) h = record {
    connected = h.connected;
    under = h.under;
  }
  WriterStep-InLimit (copied false before after rows w e) h = record {
    connected = h.connected;
    under = h.under;
  }

  -- With a pool, at most 4999 events wait in the batch between two steps, in any run.
  pub Run-InLimit :
      {w w' : TsWriter F} {es : List (TelemetryEvent F)} → Run w es w' → InLimit w → InLimit w'
  Run-InLimit here h = h
  Run-InLimit (next r s) h = WriterStep-InLimit s (Run-InLimit r h)
