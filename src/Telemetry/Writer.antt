-- ===== src/Telemetry/Writer.antt =====
-- The batch writer to TimescaleDB of services/telemetry-service/main.go. `Flush` copies its batch
-- after it has let the lock go, so copies can be under way while events are added and other
-- flushes begin; they end in any order.
pub mod Conservation
mod Tests
use iicpc_summer_hackathon.Prelude.{
  ◌+◌, ℕ, ◌≡◌, String, Bool, true, false, ◌||◌, not, List, [], ◌∷◌, ◌++◌, if◌then◌else◌, leb,
  length, ◌==◌,
}
use iicpc_summer_hackathon.Prelude.Int.{ℤ, pos, ltb_ℤ}
use iicpc_summer_hackathon.Telemetry.Event.{TelemetryEvent}

-- A row of the table `orders`, its columns in the order of the copy.
pub record Row (F : Type 0) : Type 0 where
  pub time : ℤ
  pub session_id : String
  pub seq_no : ℤ
  pub order_id : String
  pub side : String
  pub order_type : String
  pub price : F
  pub qty : F
  pub t_send_ns : ℤ
  pub t_ack_ns : ℤ
  pub latency_ns : ℤ
  pub status : String
  pub fill_price : F
  pub fill_qty : F
  pub violation : Bool
  pub violation_msg : String

-- `pool` says whether there is a connection pool. `copying` holds the batches under way, and
-- `table` and `lost` what became of the batches whose copy has ended.
pub record TsWriter (F : Type 0) : Type 0 where
  pub pool : Bool
  pub batch : List (TelemetryEvent F)
  pub copying : List (List (Row F))
  pub table : List (Row F)
  pub lost : List (Row F)

abbrev pub batch_limit : ℕ
batch_limit = 5000

module _ {F : Type 0} where
  -- The time is that of the acknowledgement, or the present where that is not set.
  pub row : ℤ → TelemetryEvent F → Row F
  row now e = record {
    time = if ltb_ℤ (pos 0) e.t_ack_ns then e.t_ack_ns else now;
    session_id = e.session_id;
    seq_no = e.seq_no;
    order_id = e.order_id;
    side = e.side;
    order_type = e.order_type;
    price = e.price;
    qty = e.qty;
    t_send_ns = e.t_send_ns;
    t_ack_ns = e.t_ack_ns;
    latency_ns = e.latency_ns;
    status = e.event_type;
    fill_price = e.fill_price;
    fill_qty = e.fill_qty;
    violation = e.violation;
    violation_msg = e.violation_msg;
  }

  -- Each row reads the clock on its own.
  pub rows_from : (ℕ → ℤ) → ℕ → List (TelemetryEvent F) → List (Row F)
  rows_from clock i [] = []
  rows_from clock i (e ∷ es) = row (clock i) e ∷ rows_from clock (i + 1) es

  -- `Flush` up to the copy: it takes the batch and leaves an empty one.
  pub begin_flush : (ℕ → ℤ) → TsWriter F → TsWriter F
  unfolding rows_from
  begin_flush clock w =
      if length w.batch == 0 || not w.pool
      then w
      else record w { batch = []; copying = w.copying ++ rows_from clock 0 w.batch ∷ [] }

  -- The end of the copy of `rows`: the table has them, or, after an error, nothing has.
  pub end_flush : Bool → List (Row F) → TsWriter F → TsWriter F
  end_flush true rows w = record w { table = w.table ++ rows }
  end_flush false rows w = record w { lost = w.lost ++ rows }

  pub append : TelemetryEvent F → TsWriter F → TsWriter F
  append e w = record w { batch = w.batch ++ e ∷ [] }

  -- `Add`, as the consumer calls it.
  pub add : (ℕ → ℤ) → TelemetryEvent F → TsWriter F → TsWriter F
  unfolding append begin_flush
  add clock e w =
      let w' = append e w in if leb batch_limit (length w'.batch) then begin_flush clock w' else w'

  -- The consumer adds, the ticker flushes, and copies end, in any order.
  pub data WriterStep : TsWriter F → List (TelemetryEvent F) → TsWriter F → Type 0 where
    adds :
        (clock : ℕ → ℤ) (e : TelemetryEvent F) (w : TsWriter F)
        → WriterStep w (e ∷ []) (add clock e w)
    flushes : (clock : ℕ → ℤ) (w : TsWriter F) → WriterStep w [] (begin_flush clock w)
    copied :
        (done : Bool) (before after : List (List (Row F))) (rows : List (Row F)) (w : TsWriter F)
        → w.copying ≡ before ++ rows ∷ after
        → WriterStep w [] (end_flush done rows (record w { copying = before ++ after }))

  pub data Run (w : TsWriter F) : List (TelemetryEvent F) → TsWriter F → Type 0 where
    here : Run w [] w
    next :
        {es ds : List (TelemetryEvent F)} {u v : TsWriter F}
        → Run w es u
        → WriterStep u ds v
        → Run w (es ++ ds) v

abbrev pub new_ts_writer : {F : Type 0} → TsWriter F
new_ts_writer = record { pool = true; batch = []; copying = []; table = []; lost = [] }
