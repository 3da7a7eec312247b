-- ===== src/BotWorker/Order/Prices.antt =====
-- The lower bounds of the market simulator's price and of the retail bots' prices.
use iicpc_summer_hackathon.Prelude.{
  ◌≡◌, ap, ◌∙◌, inl, inr, false, List, [], ◌∷◌, if◌then◌else◌, Bool-cases, arith,
}
use iicpc_summer_hackathon.Prelude.Float.{Float64, IsOrdered}
use iicpc_summer_hackathon.BotWorker.Order.{MarketSim, max, tick}

module _ {F : Type 0} ⦃fl : Float64 F⦄ where
  -- The market after ticks with these draws.
  pub tick_all : List F → MarketSim F → MarketSim F
  tick_all [] m = m
  tick_all (d ∷ ds) m = tick_all ds (tick d m)

module _ {F : Type 0} ⦃fl : Float64 F⦄ (o : IsOrdered fl) where
  -- math.Max is not less than its first argument.
  pub max-not_less : (a b : F) → fl.lt (max a b) a ≡ false
  max-not_less a b = elim (Bool-cases (fl.lt a b)) [
    | inl above ↦ ground (arith, above, o.lt_trans a b a, o.lt_irrefl a)
    | inr below ↦ ap (λ t. fl.lt (if t then b else a) a) below ∙ o.lt_irrefl a
  ]

  -- From a mid price of at least 1, no sequence of ticks takes it under 1, whatever the draws.
  pub tick_all-mid_price :
      (draws : List F) (m : MarketSim F)
      → fl.lt m.mid_price (fl.decimal 1 0) ≡ false
      → fl.lt (tick_all draws m).mid_price (fl.decimal 1 0) ≡ false
  unfolding tick_all tick
  tick_all-mid_price [] m h = h
  tick_all-mid_price (d ∷ ds) m h =
      tick_all-mid_price ds (tick d m) (max-not_less (fl.decimal 1 0) _)
