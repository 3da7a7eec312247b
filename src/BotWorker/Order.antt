-- ===== src/BotWorker/Order.antt =====
-- The order types and the market simulator of services/bot-worker/main.go. OrderSide and OrderType
-- are strings whose empty value stands until it is set.
use iicpc_summer_hackathon.Prelude.{String, if◌then◌else◌}
use iicpc_summer_hackathon.Prelude.Int.{ℤ, pos, add64}
use iicpc_summer_hackathon.Prelude.Float.{Float64}
pub mod Prices

abbrev pub buy : String
buy = "B"

abbrev pub sell : String
sell = "S"

abbrev pub limit : String
limit = "L"

abbrev pub market : String
market = "M"

pub record Order (F : Type 0) : Type 0 where
  pub order_id : String
  pub session_id : String
  pub side : String
  pub order_type : String
  pub price : F
  pub qty : F
  pub seq_no : ℤ
  pub timestamp : ℤ

pub record OrderResponse (F : Type 0) : Type 0 where
  pub order_id : String
  pub status : String
  pub fill_price : F
  pub fill_qty : F
  pub seq_no : ℤ
  pub timestamp : ℤ

-- math.Round of the standard library, which the market simulator uses on float64.
pub record Rounding (F : Type 0) : Type 0 where
  pub round : F → F

pub record MarketSim (F : Type 0) : Type 0 where
  pub mid_price : F
  pub spread : F
  pub tick_size : F
  pub seq_no : ℤ

module _ {F : Type 0} ⦃fl : Float64 F⦄ where
  -- math.Max on finite numbers.
  abbrev pub max : F → F → F
  max a b = if fl.lt a b then b else a

  abbrev pub new_market_sim : F → MarketSim F
  new_market_sim initial_price = record {
    mid_price = initial_price;
    spread = fl.decimal 2 2;
    tick_size = fl.decimal 1 2;
    seq_no = pos 0;
  }

  abbrev pub next_seq : MarketSim F → ℤ × MarketSim F
  next_seq m = let seq = add64 m.seq_no (pos 1) in (seq, record m { seq_no = seq })

  -- One step of the random walk; `draw` is rand.Float64's answer.
  unfoldable pub tick : F → MarketSim F → MarketSim F
  tick draw m =
      let change = fl.mul (fl.sub draw (fl.decimal 499 3)) (fl.decimal 5 2) in
      record m {
        mid_price = max (fl.decimal 1 0) (fl.mul m.mid_price (fl.add (fl.decimal 1 0) change));
      }

module _ {F : Type 0} ⦃fl : Float64 F⦄ ⦃rd : Rounding F⦄ where
  unfoldable pub best_bid : MarketSim F → F
  best_bid m =
      fl.mul (rd.round (fl.div (fl.sub m.mid_price (fl.div m.spread (fl.decimal 2 0))) m.tick_size))
        m.tick_size

  unfoldable pub best_ask : MarketSim F → F
  best_ask m =
      fl.mul (rd.round (fl.div (fl.add m.mid_price (fl.div m.spread (fl.decimal 2 0))) m.tick_size))
        m.tick_size
