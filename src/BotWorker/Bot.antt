-- ===== src/BotWorker/Bot.antt =====
-- NewBot, generateOrder and thinkTime of services/bot-worker/main.go.
use iicpc_summer_hackathon.Prelude.{ℕ, ◌+◌, ◌*◌, ◌<◌, String, ◌≡◌, [], ◌∷◌, if◌then◌else◌}
use iicpc_summer_hackathon.Prelude.Int.{ℤ, pos}
use iicpc_summer_hackathon.Prelude.Float.{Float64}
use iicpc_summer_hackathon.BotWorker.Order.{
  buy, sell, limit, market, Order, Rounding, MarketSim, max, next_seq, best_bid, best_ask,
}
pub mod Orders

-- A generator of math/rand, with its two operations that the bots use.
pub record Rng (G F : Type 0) : Type 0 where
  pub float64 : G → F × G
  pub intn : ℕ → G → ℕ × G

-- Intn answers a number under its bound, where the bound is positive.
abbrev pub IntnInBound : {G F : Type 0} → Rng G F → Type 0
IntnInBound {G = G} rng = (n : ℕ) (g : G) → 0 < n → (rng.intn n g).0 < n

pub data ParticipantType : Type 0 where
  market_maker momentum_trader iceberg_bot sniper_bot retail_flow : ParticipantType

pub record Bot : Type 0 where
  pub id : String
  pub ptype : ParticipantType
  pub session_id : String
  pub target_url : String
  pub endpoint_type : String
  pub orders_sent : ℤ

abbrev pub new_bot : String → ParticipantType → String → String → String → Bot
new_bot id ptype session_id target_url endpoint_type = record {
  id = id;
  ptype = ptype;
  session_id = session_id;
  target_url = target_url;
  endpoint_type = endpoint_type;
  orders_sent = pos 0;
}

module _ {G F : Type 0} ⦃fl : Float64 F⦄ where
  -- float64(rng.Intn(n) + least) * 10
  abbrev pub lots : Rng G F → ℕ → ℕ → G → F × G
  lots rng n least g =
      let (k, g') = rng.intn n g in (fl.mul (fl.of_int (pos (k + least))) (fl.decimal 10 0), g')

module _ {F : Type 0} ⦃fl : Float64 F⦄ where
  -- The order before the switch on the participant type.
  abbrev pub blank_order : Bot → String → ℤ → ℤ → Order F
  blank_order b fresh seq now = record {
    order_id = fresh;
    session_id = b.session_id;
    side = "";
    order_type = "";
    price = fl.decimal 0 0;
    qty = fl.decimal 0 0;
    seq_no = seq;
    timestamp = now;
  }

  abbrev pub side_under : F → F → String
  side_under draw bound = if fl.lt draw bound then buy else sell

module _ {G F : Type 0} ⦃fl : Float64 F⦄ ⦃rd : Rounding F⦄ where
  -- The switch of generateOrder.
  unfoldable pub fill_in : Rng G F → ParticipantType → MarketSim F → Order F → G → Order F × G
  fill_in rng market_maker m o g =
      let (draw, g1) = rng.float64 g in
      let (ticks, g2) = rng.intn 3 g1 in
      let (qty, g3) = lots rng 100 1 g2 in
      let off = fl.mul (fl.of_int (pos ticks)) (fl.decimal 1 2) in
      let price =
        if fl.lt draw (fl.decimal 5 1) then fl.sub (best_bid m) off else fl.add (best_ask m) off in
      (
        record o {
          side = side_under draw (fl.decimal 5 1);
          order_type = limit;
          price = price;
          qty = qty;
        },
        g3,
      )
  fill_in rng momentum_trader m o g =
      let (draw, g1) = rng.float64 g in
      let (qty, g2) = lots rng 500 100 g1 in
      (record o { side = side_under draw (fl.decimal 6 1); order_type = market; qty = qty }, g2)
  fill_in rng iceberg_bot m o g =
      let (draw, g1) = rng.float64 g in
      let (depth, g2) = rng.float64 g1 in
      let (qty, g3) = lots rng 5000 1000 g2 in
      let part = fl.mul depth (fl.decimal 1 3) in
      let price =
        if fl.lt draw (fl.decimal 5 1)
        then fl.mul (best_bid m) (fl.sub (fl.decimal 1 0) part)
        else fl.mul (best_ask m) (fl.add (fl.decimal 1 0) part) in
      (
        record o {
          side = side_under draw (fl.decimal 5 1);
          order_type = limit;
          price = price;
          qty = qty;
        },
        g3,
      )
  fill_in rng sniper_bot m o g =
      let (draw, g1) = rng.float64 g in
      let (qty, g2) = lots rng 200 50 g1 in
      (record o { side = side_under draw (fl.decimal 5 1); order_type = market; qty = qty }, g2)
  fill_in rng retail_flow m o g =
      let (shift, g1) = rng.float64 g in
      let (draw, g2) = rng.float64 g1 in
      let (qty, g3) = lots rng 50 1 g2 in
      let offset = fl.mul (fl.mul (fl.sub shift (fl.decimal 5 1)) m.mid_price) (fl.decimal 1 2) in
      (
        record o {
          side = if fl.lt draw (fl.decimal 5 1) then sell else buy;
          order_type = limit;
          price = max (fl.decimal 1 2) (fl.add m.mid_price offset);
          qty = qty;
        },
        g3,
      )

  -- `fresh` is the answer of the uuid library and `now` the time in nanoseconds.
  unfoldable pub generate_order :
      Rng G F → Bot → String → ℤ → MarketSim F → G → Order F × MarketSim F × G
  unfolding fill_in
  generate_order rng b fresh now m g =
      let (seq, m') = next_seq m in
      let (o, g') = fill_in rng b.ptype m' (blank_order b fresh seq now) g in (o, m', g')

-- The delay before the next order, in nanoseconds.
unfoldable pub think_time : {G F : Type 0} → Rng G F → ParticipantType → G → ℕ × G
think_time rng market_maker g = let (k, g') = rng.intn 500 g in ((500 + k) * 1000, g')
think_time rng momentum_trader g = let (k, g') = rng.intn 300 g in ((200 + k) * 1000, g')
think_time rng iceberg_bot g = let (k, g') = rng.intn 5 g in ((1 + k) * 1000000, g')
think_time rng sniper_bot g = let (k, g') = rng.intn 200 g in ((100 + k) * 1000, g')
think_time rng retail_flow g = let (k, g') = rng.intn 90 g in ((10 + k) * 1000000, g')
