-- ===== src/Telemetry/Book/History.antt =====
-- What holds of the book after any history of calls.
use iicpc_summer_hackathon.Prelude.{
  ◌≡◌, String, List, [], ◌∷◌, ◌++◌, arith, if◌then◌else◌, str_eq, eq_iff, append-nil,
}
use iicpc_summer_hackathon.Prelude.Float.{Float64, IsOrdered}
use iicpc_summer_hackathon.Telemetry.Event.{TelemetryEvent}
use iicpc_summer_hackathon.Telemetry.Book.{
  OrderBook, new_order_book, higher, lower, add_order, remove_order, live_order, best_bid, best_ask,
}
use iicpc_summer_hackathon.Telemetry.Book.Levels.{
  IsSideSorted, higher-IsSideOrder, lower-IsSideOrder, insert_level-IsSideSorted,
}
use iicpc_summer_hackathon.Telemetry.Book.Depth.{orders_at, insert_level-orders_at}
use iicpc_summer_hackathon.Telemetry.Book.Top.{IsBest, first_live-IsBest}

pub data BookCall (F : Type 0) : Type 0 where
  add : TelemetryEvent F → BookCall F
  remove : String → BookCall F

module _ {F : Type 0} ⦃fl : Float64 F⦄ where
  pub record IsValid (ob : OrderBook F) : Type 0 where
    pub bids_sorted : IsSideSorted higher ob.bids
    pub asks_sorted : IsSideSorted lower ob.asks

  unfoldable pub run : OrderBook F → List (BookCall F) → OrderBook F
  run ob [] = ob
  run ob (add e ∷ calls) = run (add_order ob e) calls
  run ob (remove id ∷ calls) = run (remove_order ob id) calls

module _ {F : Type 0} ⦃fl : Float64 F⦄ (o : IsOrdered fl) where
  pub add_order-IsValid :
      (ob : OrderBook F) (e : TelemetryEvent F) → IsValid ob → IsValid (add_order ob e)
  unfolding add_order
  add_order-IsValid ob e v = ground (
    arith,
    insert_level-IsSideSorted (higher-IsSideOrder o) ob.bids e.price (live_order e) v.bids_sorted,
    insert_level-IsSideSorted (lower-IsSideOrder o) ob.asks e.price (live_order e) v.asks_sorted,
  )

  pub remove_order-IsValid :
      (ob : OrderBook F) (id : String) → IsValid ob → IsValid (remove_order ob id)
  unfolding remove_order
  remove_order-IsValid ob id v = record { bids_sorted = v.bids_sorted; asks_sorted = v.asks_sorted }

  pub run-IsValid :
      (ob : OrderBook F) (calls : List (BookCall F)) → IsValid ob → IsValid (run ob calls)
  unfolding run
  run-IsValid ob [] v = v
  run-IsValid ob (add e ∷ calls) v = run-IsValid (add_order ob e) calls (add_order-IsValid ob e v)
  run-IsValid ob (remove id ∷ calls) v =
      run-IsValid (remove_order ob id) calls (remove_order-IsValid ob id v)

  -- After any history of additions and removals, `BestBid` is the highest price among the bid
  -- levels that hold an order still in the index, or 0 where there is none, and `BestAsk` is the
  -- lowest such price among the ask levels, or the largest float where there is none.
  pub run-IsBest :
      (calls : List (BookCall F))
      → let ob = run new_order_book calls in
        IsBest higher ob.order_index ob.bids (fl.decimal 0 0) (best_bid ob)
        × IsBest lower ob.order_index ob.asks fl.max_float (best_ask ob)
  unfolding best_bid best_ask
  run-IsBest calls =
      let ob = run new_order_book calls in
      let v = run-IsValid new_order_book calls (record { bids_sorted = tt; asks_sorted = tt }) in
      (
        first_live-IsBest (higher-IsSideOrder o) ob.order_index ob.bids _ v.bids_sorted,
        first_live-IsBest (lower-IsSideOrder o) ob.order_index ob.asks _ v.asks_sorted,
      )

  -- On a valid book, a limit order joins the end of the queue at its price on its own side; the
  -- queues of all other prices, and the whole of the other side, stay as they were.
  pub add_order-orders_at :
      (q : F) (ob : OrderBook F) (e : TelemetryEvent F)
      → IsValid ob
      → e.order_type ≡ "L"
      → let ob' = add_order ob e in
        let queued = if fl.eq e.price q then live_order e ∷ [] else [] in
        (orders_at q ob'.bids ≡ orders_at q ob.bids ++ (if str_eq e.side "B" then queued else []))
        × (orders_at q ob'.asks ≡ orders_at q ob.asks ++ (if str_eq e.side "B" then [] else queued))
  unfolding add_order
  add_order-orders_at q ob e v l = ground (
    arith,
    eq_iff e.order_type "L",
    insert_level-orders_at (higher-IsSideOrder o) q ob.bids e.price (live_order e) v.bids_sorted,
    insert_level-orders_at (lower-IsSideOrder o) q ob.asks e.price (live_order e) v.asks_sorted,
    append-nil (orders_at q ob.bids),
    append-nil (orders_at q ob.asks),
  )
