-- ===== src/BotWorker/Bot/Orders.antt =====
-- The orders that the bots make, and the delays between them.
use iicpc_summer_hackathon.Prelude.{
  ℕ, ◌+◌, ◌≤◌, ◌<◌, String, ◌≡◌, refl, ap, ◌∙◌, ◌⊎◌, inl, inr, List, [], ◌∷◌, if◌then◌else◌, arith,
  Bool-cases, length,
}
use iicpc_summer_hackathon.Prelude.Int.{ℤ, pos, add64}
use iicpc_summer_hackathon.Prelude.Float.{Float64}
use iicpc_summer_hackathon.BotWorker.Order.{
  buy, sell, limit, market, Order, Rounding, MarketSim, next_seq,
}
use iicpc_summer_hackathon.BotWorker.Bot.{
  Rng, IntnInBound, ParticipantType, market_maker, momentum_trader, iceberg_bot, sniper_bot,
  retail_flow, Bot, lots, blank_order, side_under, fill_in, generate_order, think_time,
}

-- The least and the greatest quantity of a participant's orders, in lots of 10.
abbrev pub least_lots : ParticipantType → ℕ
least_lots market_maker = 1
least_lots momentum_trader = 100
least_lots iceberg_bot = 1000
least_lots sniper_bot = 50
least_lots retail_flow = 1

abbrev pub most_lots : ParticipantType → ℕ
most_lots market_maker = 100
most_lots momentum_trader = 599
most_lots iceberg_bot = 5999
most_lots sniper_bot = 249
most_lots retail_flow = 50

abbrev pub type_of : ParticipantType → String
type_of market_maker = limit
type_of momentum_trader = market
type_of iceberg_bot = limit
type_of sniper_bot = market
type_of retail_flow = limit

module _ {F : Type 0} ⦃fl : Float64 F⦄ where
  -- The quantity is 10 times a whole number within the participant's bounds.
  abbrev pub InLots : ParticipantType → F → Type 0
  InLots p qty =
      (n : ℕ) × (qty ≡ fl.mul (fl.of_int (pos n)) (fl.decimal 10 0))
      × (least_lots p ≤ n)
      × (n ≤ most_lots p)

  -- The orders bear the numbers that follow the market's last one.
  abbrev pub NumberedFrom : ℕ → List (Order F) → Type 0
  NumberedFrom n [] = Unit
  NumberedFrom n (o ∷ os) = (o.seq_no ≡ pos (n + 1)) × NumberedFrom (n + 1) os

  -- An order as the exchange may expect it of a participant.
  pub record IsFrom (p : ParticipantType) (o : Order F) : Type 0 where
    pub sided : (o.side ≡ buy) ⊎ (o.side ≡ sell)
    pub typed : o.order_type ≡ type_of p
    pub in_lots : InLots p o.qty

module _ {G F : Type 0} ⦃fl : Float64 F⦄ where
  lots-InLots :
      (rng : Rng G F) (n least : ℕ) (g : G) (p : ParticipantType)
      → IntnInBound rng
      → 0 < n
      → least_lots p ≤ least
      → n + least ≤ most_lots p + 1
      → InLots p (lots rng n least g).0
  lots-InLots rng n least g p h pos_n lo hi =
      ((rng.intn n g).0 + least, refl, omega (arith, lo), omega (arith, hi, h n g pos_n))

side_under_lem :
    {F : Type 0} ⦃fl : Float64 F⦄ (draw bound : F)
    → (side_under draw bound ≡ buy) ⊎ (side_under draw bound ≡ sell)
side_under_lem ⦃fl⦄ draw bound = elim (Bool-cases (fl.lt draw bound)) [
  | inl b ↦ inl (ap (λ t. if t then buy else sell) b)
  | inr s ↦ inr (ap (λ t. if t then buy else sell) s)
]

module _ {G F : Type 0} ⦃fl : Float64 F⦄ ⦃rd : Rounding F⦄ where
  fill_in-IsFrom :
      (rng : Rng G F) (p : ParticipantType) (m : MarketSim F) (o : Order F) (g : G)
      → IntnInBound rng
      → IsFrom p (fill_in rng p m o g).0
  unfolding fill_in
  fill_in-IsFrom rng market_maker m o g h = record {
    sided = side_under_lem (rng.float64 g).0 (fl.decimal 5 1);
    typed = refl;
    in_lots = lots-InLots rng 100 1 _ market_maker h (omega arith) (omega arith) (omega arith);
  }
  fill_in-IsFrom rng momentum_trader m o g h = record {
    sided = side_under_lem (rng.float64 g).0 (fl.decimal 6 1);
    typed = refl;
    in_lots = lots-InLots rng 500 100 _ momentum_trader h (omega arith) (omega arith) (omega arith);
  }
  fill_in-IsFrom rng iceberg_bot m o g h = record {
    sided = side_under_lem (rng.float64 g).0 (fl.decimal 5 1);
    typed = refl;
    in_lots = lots-InLots rng 5000 1000 _ iceberg_bot h (omega arith) (omega arith) (omega arith);
  }
  fill_in-IsFrom rng sniper_bot m o g h = record {
    sided = side_under_lem (rng.float64 g).0 (fl.decimal 5 1);
    typed = refl;
    in_lots = lots-InLots rng 200 50 _ sniper_bot h (omega arith) (omega arith) (omega arith);
  }
  fill_in-IsFrom rng retail_flow m o g h = record {
    sided = retail_side (rng.float64 (rng.float64 g).1).0;
    typed = refl;
    in_lots = lots-InLots rng 50 1 _ retail_flow h (omega arith) (omega arith) (omega arith);
  }
    where
      retail_side :
          (draw : F)
          → ((if fl.lt draw (fl.decimal 5 1) then sell else buy) ≡ buy)
            ⊎ ((if fl.lt draw (fl.decimal 5 1) then sell else buy) ≡ sell)
      retail_side draw = elim (Bool-cases (fl.lt draw (fl.decimal 5 1))) [
        | inl s ↦ inr (ap (λ t. if t then sell else buy) s)
        | inr b ↦ inl (ap (λ t. if t then sell else buy) b)
      ]

  -- What the switch on the participant leaves alone.
  fill_in-keeps :
      (rng : Rng G F) (p : ParticipantType) (m : MarketSim F) (o : Order F) (g : G)
      → ((fill_in rng p m o g).0.order_id ≡ o.order_id)
        × ((fill_in rng p m o g).0.session_id ≡ o.session_id)
        × ((fill_in rng p m o g).0.seq_no ≡ o.seq_no)
  unfolding fill_in
  fill_in-keeps rng market_maker m o g = (refl, refl, refl)
  fill_in-keeps rng momentum_trader m o g = (refl, refl, refl)
  fill_in-keeps rng iceberg_bot m o g = (refl, refl, refl)
  fill_in-keeps rng sniper_bot m o g = (refl, refl, refl)
  fill_in-keeps rng retail_flow m o g = (refl, refl, refl)

  -- Where Intn stays under its bound, a bot's order has its id and its session, a side, the type of
  -- its participant, and a quantity of 10 times a whole number in the participant's bounds.
  pub generate_order_lem :
      (rng : Rng G F) (b : Bot) (fresh : String) (now : ℤ) (m : MarketSim F) (g : G)
      → IntnInBound rng
      → IsFrom b.ptype (generate_order rng b fresh now m g).0
        × ((generate_order rng b fresh now m g).0.order_id ≡ fresh)
        × ((generate_order rng b fresh now m g).0.session_id ≡ b.session_id)
  unfolding generate_order
  generate_order_lem rng b fresh now m g h =
      let (seq, m') = next_seq m in
      let (i, s, q) = fill_in-keeps rng b.ptype m' (blank_order b fresh seq now) g in
      (fill_in-IsFrom rng b.ptype m' (blank_order b fresh seq now) g h, i, s)

  -- The orders of bots that share a market, in the order in which they are made.
  pub generate_all : Rng G F → List (Bot × String × ℤ) → MarketSim F → G → List (Order F)
  unfolding generate_order
  generate_all rng [] m g = []
  generate_all rng ((b, fresh, now) ∷ rest) m g =
      let (o, m', g') = generate_order rng b fresh now m g in o ∷ generate_all rng rest m' g'

  -- The orders of all the bots of a market are numbered one after the other, from the number after the
  -- market's last one, while the numbers fit an int64.
  pub generate_all-NumberedFrom :
      (rng : Rng G F) (jobs : List (Bot × String × ℤ)) (m : MarketSim F) (g : G) (n : ℕ)
      → m.seq_no ≡ pos n
      → n + length jobs < 9223372036854775808
      → NumberedFrom n (generate_all rng jobs m g)
  unfolding generate_all generate_order add64
  generate_all-NumberedFrom rng [] m g n e h = tt
  generate_all-NumberedFrom rng ((b, fresh, now) ∷ rest) m g n e h =
      let (seq, m') = next_seq m in
      let next : seq ≡ pos (n + 1) = ground arith in
      let (i, s, q) = fill_in-keeps rng b.ptype m' (blank_order b fresh seq now) g in
      (q ∙ next, generate_all-NumberedFrom rng rest m' _ (n + 1) next (omega (arith, h)))

-- The bounds of the delay between two orders of a participant, in nanoseconds.
abbrev pub least_delay : ParticipantType → ℕ
least_delay market_maker = 500000
least_delay momentum_trader = 200000
least_delay iceberg_bot = 1000000
least_delay sniper_bot = 100000
least_delay retail_flow = 10000000

abbrev pub most_delay : ParticipantType → ℕ
most_delay market_maker = 999000
most_delay momentum_trader = 499000
most_delay iceberg_bot = 5000000
most_delay sniper_bot = 299000
most_delay retail_flow = 99000000

-- Where Intn stays under its bound, the delay before an order is within its participant's bounds, none
-- of which is 0.
pub think_time_bounds :
    {G F : Type 0} (rng : Rng G F) (p : ParticipantType) (g : G)
    → IntnInBound rng
    → (least_delay p ≤ (think_time rng p g).0) × ((think_time rng p g).0 ≤ most_delay p)
unfolding think_time
think_time_bounds rng market_maker g h = (omega arith, omega (arith, h 500 g (omega arith)))
think_time_bounds rng momentum_trader g h = (omega arith, omega (arith, h 300 g (omega arith)))
think_time_bounds rng iceberg_bot g h = (omega arith, omega (arith, h 5 g (omega arith)))
think_time_bounds rng sniper_bot g h = (omega arith, omega (arith, h 200 g (omega arith)))
think_time_bounds rng retail_flow g h = (omega arith, omega (arith, h 90 g (omega arith)))
