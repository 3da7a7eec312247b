-- ===== src/Telemetry/Book.antt =====
-- The order-book mirror of services/telemetry-service/main.go. A level holds pointers to orders
-- that nothing changes once they are made, so the model holds the orders themselves.
pub mod Levels
pub mod Depth
pub mod Top
pub mod History
mod Tests
use mathlib.Core.Option
use iicpc_summer_hackathon.Prelude.{
  String, Bool, false, ◌||◌, not, List, [], ◌∷◌, ◌++◌, Option, none, some, if◌then◌else◌, str_eq,
}
use iicpc_summer_hackathon.Prelude.Int.{ℤ}
use iicpc_summer_hackathon.Prelude.Dict.{Dict, insert, delete, has_key}
use iicpc_summer_hackathon.Prelude.Float.{Float64}
use iicpc_summer_hackathon.Prelude.Sort.{sort_slice}
use iicpc_summer_hackathon.Telemetry.Event.{TelemetryEvent}

pub record LiveOrder (F : Type 0) : Type 0 where
  pub order_id : String
  pub seq_no : ℤ
  pub qty : F
  pub timestamp : ℤ

pub record PriceLevel (F : Type 0) : Type 0 where
  pub price : F
  pub orders : List (LiveOrder F)

pub record OrderBook (F : Type 0) : Type 0 where
  pub bids : List (PriceLevel F)
  pub asks : List (PriceLevel F)
  pub order_index : Dict (LiveOrder F)

abbrev pub new_order_book : {F : Type 0} → OrderBook F
new_order_book = record { bids = []; asks = []; order_index = [] }

module _ {F : Type 0} ⦃fl : Float64 F⦄ where
  -- The loop of `insertBid` and `insertAsk`: append to the first level at the price.
  pub append_at : List (PriceLevel F) → F → LiveOrder F → Option (List (PriceLevel F))
  append_at [] price lo = none
  append_at (lvl ∷ lvls) price lo =
      if fl.eq lvl.price price
      then some (record lvl { orders = lvl.orders ++ lo ∷ [] } ∷ lvls)
      else Option.map (◌∷◌ lvl) (append_at lvls price lo)

  -- With no level at the price: append a new one, and sort by the side's order.
  pub insert_level : (F → F → Bool) → List (PriceLevel F) → F → LiveOrder F → List (PriceLevel F)
  insert_level before lvls price lo = elim (append_at lvls price lo) [
    | some changed ↦ changed
    | none ↦
        sort_slice (λ a b. before a.price b.price)
          (lvls ++ record { price = price; orders = lo ∷ [] } ∷ [])
  ]

  -- Bids stand in descending order of price, asks in ascending order.
  abbrev pub higher : F → F → Bool
  higher a b = fl.lt b a

  abbrev pub lower : F → F → Bool
  lower a b = fl.lt a b

  pub insert_bid : List (PriceLevel F) → F → LiveOrder F → List (PriceLevel F)
  unfolding insert_level
  insert_bid = insert_level higher

  pub insert_ask : List (PriceLevel F) → F → LiveOrder F → List (PriceLevel F)
  unfolding insert_level
  insert_ask = insert_level lower

  pub live_order : TelemetryEvent F → LiveOrder F
  live_order e = record {
    order_id = e.order_id;
    seq_no = e.seq_no;
    qty = e.qty;
    timestamp = e.t_send_ns;
  }

  pub add_order : OrderBook F → TelemetryEvent F → OrderBook F
  unfolding live_order insert_bid insert_ask
  add_order ob e =
      if not (str_eq e.order_type "L")
      then ob
      else (let lo = live_order e in
          let ob' = record ob { order_index = insert e.order_id lo ob.order_index } in
          if str_eq e.side "B"
          then record ob' { bids = insert_bid ob.bids e.price lo }
          else record ob' { asks = insert_ask ob.asks e.price lo })

  -- The levels are pruned lazily, by the reads.
  unfoldable pub remove_order : OrderBook F → String → OrderBook F
  remove_order ob order_id = record ob { order_index = delete order_id ob.order_index }

  pub has_live : Dict (LiveOrder F) → List (LiveOrder F) → Bool
  has_live index [] = false
  has_live index (lo ∷ los) = has_key lo.order_id index || has_live index los

  pub first_live : Dict (LiveOrder F) → List (PriceLevel F) → F → F
  unfolding has_live
  first_live index [] default = default
  first_live index (lvl ∷ lvls) default =
      if has_live index lvl.orders then lvl.price else first_live index lvls default

  pub best_bid : OrderBook F → F
  best_bid ob = first_live ob.order_index ob.bids (fl.decimal 0 0)

  pub best_ask : OrderBook F → F
  best_ask ob = first_live ob.order_index ob.asks fl.max_float
