-- ===== src/Telemetry/Book/Tests.antt =====
-- Runs of the book on prices in units of 1 / 10000, and the theorems at such inputs.
use iicpc_summer_hackathon.Prelude.{ℕ, ◌≡◌, refl, List, [], ◌∷◌, ◌++◌}
use iicpc_summer_hackathon.Prelude.Dict.{lookup, insert, delete}
use iicpc_summer_hackathon.Prelude.Sort.{sort_slice}
use iicpc_summer_hackathon.Prelude.Float.Fixed.{fixed_point, fixed_point-IsOrdered}
use iicpc_summer_hackathon.Telemetry.Sample.{price_units, limit_order}
use iicpc_summer_hackathon.Telemetry.Book.{
  OrderBook, new_order_book, higher, lower, append_at, add_order, remove_order, live_order,
  first_live, best_bid, best_ask,
}
use iicpc_summer_hackathon.Telemetry.Book.Depth.{orders_at}
use iicpc_summer_hackathon.Telemetry.Book.Top.{IsBest}
use iicpc_summer_hackathon.Telemetry.Book.History.{
  BookCall, IsValid, add, remove, run, run-IsValid, run-IsBest, add_order-orders_at,
}

abbrev busy_day : List (BookCall ℕ)
busy_day =
    add (limit_order "a" "B" 990000)
    ∷ add (limit_order "b" "B" 1000000)
    ∷ add (limit_order "c" "S" 1010000)
    ∷ add (limit_order "d" "B" 990000)
    ∷ remove "b"
    ∷ []

busy_best_bid : best_bid (run new_order_book busy_day) ≡ 990000
unfolding run add_order remove_order best_bid first_live append_at sort_slice lookup delete insert
busy_best_bid = refl

run-IsBest_example :
    IsBest higher
      (run new_order_book busy_day).order_index
      (run new_order_book busy_day).bids
      0
      (best_bid (run new_order_book busy_day))
    × IsBest lower
        (run new_order_book busy_day).order_index
        (run new_order_book busy_day).asks
        (fixed_point.max_float)
        (best_ask (run new_order_book busy_day))
run-IsBest_example = run-IsBest fixed_point-IsOrdered busy_day

quiet : OrderBook ℕ
quiet = run new_order_book busy_day

quiet-IsValid : IsValid quiet
unfolding quiet
quiet-IsValid =
    run-IsValid fixed_point-IsOrdered new_order_book busy_day
      (record { bids_sorted = tt; asks_sorted = tt })

add_order-orders_at_example :
    let e = limit_order "e" "B" 990000 in
    (orders_at 990000 (add_order quiet e).bids ≡ orders_at 990000 quiet.bids ++ live_order e ∷ [])
    × (orders_at 990000 (add_order quiet e).asks ≡ orders_at 990000 quiet.asks ++ [])
add_order-orders_at_example =
    add_order-orders_at fixed_point-IsOrdered 990000 quiet (limit_order "e" "B" 990000)
      quiet-IsValid refl
