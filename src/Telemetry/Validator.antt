-- ===== src/Telemetry/Validator.antt =====
-- The correctness validator of services/telemetry-service/main.go.
pub mod Verdict
pub mod Isolation
mod Tests
use Prim.Native.String.{◌++◌ as str_append}
use iicpc_summer_hackathon.Prelude.{String, true, ◌&&◌, [], ◌∷◌, none, some, if◌then◌else◌, str_eq}
use iicpc_summer_hackathon.Prelude.Dict.{Dict, lookup, insert}
use iicpc_summer_hackathon.Prelude.Float.{Float64}
use iicpc_summer_hackathon.Telemetry.Event.{TelemetryEvent}
use iicpc_summer_hackathon.Telemetry.Book.{
  OrderBook, new_order_book, add_order, remove_order, best_bid, best_ask,
}

-- The map from sessions to books. The books are behind pointers that only the map holds between
-- two calls, so a change to a book is written back to its entry.
pub record Validator (F : Type 0) : Type 0 where
  pub books : Dict (OrderBook F)

abbrev pub new_validator : {F : Type 0} → Validator F
new_validator = record { books = [] }

module _ {F : Type 0} ⦃fl : Float64 F⦄ where
  -- The book of a session, made and stored on its first use.
  pub get_book : Validator F → String → OrderBook F × Validator F
  get_book v session_id = elim (lookup session_id v.books) [
    | some b ↦ (b, v)
    | none ↦ (new_order_book, record v { books = insert session_id new_order_book v.books })
  ]

  abbrev pub flag : TelemetryEvent F → String → TelemetryEvent F
  flag e msg = record e { violation = true; violation_msg = msg }

  -- A sell must not fill under the best bid.
  pub check_sell : F → TelemetryEvent F → TelemetryEvent F
  check_sell bid e =
      if str_eq e.side "S"
        && fl.lt (fl.decimal 0 0) bid
        && fl.lt e.fill_price (fl.sub bid (fl.decimal 1 3))
      then flag e (
          str_append "price priority violated: sell filled at "
            (str_append (fl.show4 e.fill_price) (str_append ", best bid was " (fl.show4 bid))))
      else e

  -- A buy must not fill over the best ask.
  pub check_buy : F → TelemetryEvent F → TelemetryEvent F
  check_buy ask e =
      if str_eq e.side "B"
        && fl.lt ask fl.max_float
        && fl.lt (fl.add ask (fl.decimal 1 3)) e.fill_price
      then flag e (
          str_append "price priority violated: buy filled at "
            (str_append (fl.show4 e.fill_price) (str_append ", best ask was " (fl.show4 ask))))
      else e

  pub check_qty : TelemetryEvent F → TelemetryEvent F
  check_qty e =
      if fl.lt (fl.add e.qty (fl.decimal 1 4)) e.fill_qty
      then flag e (
          str_append "overfill: fill_qty="
            (str_append (fl.show4 e.fill_qty) (str_append " > order_qty=" (fl.show4 e.qty))))
      else e

  -- The three tests of a fill, in the order of the source: a later message replaces an earlier.
  pub check_fill : OrderBook F → TelemetryEvent F → TelemetryEvent F
  unfolding check_sell check_buy check_qty
  check_fill book e = check_qty (check_buy (best_ask book) (check_sell (best_bid book) e))

  -- The `switch` on the event's type: the event with its verdict, and the book after it.
  pub dispatch : OrderBook F → TelemetryEvent F → TelemetryEvent F × OrderBook F
  dispatch book e =
      if str_eq e.event_type "ACK"
      then (e, add_order book e)
      else if str_eq e.event_type "FILL"
      then (check_fill book e, remove_order book e.order_id)
      else if str_eq e.event_type "CANCEL"
      then (e, remove_order book e.order_id)
      else (e, book)

  pub validate : Validator F → TelemetryEvent F → TelemetryEvent F × Validator F
  unfolding get_book dispatch
  validate v e =
      let (book, v') = get_book v e.session_id in
      let (e', book') = dispatch book e in
      (e', record v' { books = insert e.session_id book' v'.books })
