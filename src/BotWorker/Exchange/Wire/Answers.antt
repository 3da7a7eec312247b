-- ===== src/BotWorker/Exchange/Wire/Answers.antt =====
-- The answers on their way from the connection to the loop.
use iicpc_summer_hackathon.Prelude.{
  ◌≤◌, ◌≡◌, refl, sym, ap, ◌∙◌, inl, inr, Bool, true, false, List, [], ◌∷◌, ◌++◌, append_assoc,
  append-nil, length, length-append, All, ltb, arith, Bool-cases,
}
use iicpc_summer_hackathon.BotWorker.Order.{OrderResponse}
use iicpc_summer_hackathon.BotWorker.Exchange.Wire.{
  Receiver, receiving, sending, returned, Wire, Move, breaks, skips, sends, takes, reads, new_wire,
  acks_capacity, on_message, drop_first, send, step, run_wire,
}

module _ {F : Type 0} where
  abbrev first_of : List (OrderResponse F) → List (OrderResponse F)
  first_of [] = []
  first_of (ack ∷ acks) = ack ∷ []

  -- What a move hands to the loop.
  abbrev handed : Move F → Wire F → List (OrderResponse F)
  handed takes w = first_of w.acks
  handed breaks w = []
  handed skips w = []
  handed sends w = []
  handed (reads ack) w = []

  pub taken : List (Move F) → Wire F → List (OrderResponse F)
  taken [] w = []
  taken (m ∷ ms) w = handed m w ++ taken ms (step m w)

  -- What the goroutine has read and not yet sent.
  abbrev held : Receiver F → List (OrderResponse F)
  held receiving = []
  held (sending ack) = ack ∷ []
  held returned = []

  abbrev pub on_the_way : Wire F → List (OrderResponse F)
  on_the_way w = w.acks ++ held w.receiver

  -- A read happens only where the goroutine is at it.
  abbrev listens : Receiver F → OrderResponse F → List (OrderResponse F)
  listens receiving ack = ack ∷ []
  listens (sending other) ack = []
  listens returned ack = []

  abbrev arrived : Move F → Wire F → List (OrderResponse F)
  arrived (reads ack) w = listens w.receiver ack
  arrived breaks w = []
  arrived skips w = []
  arrived sends w = []
  arrived takes w = []

  pub answers : List (Move F) → Wire F → List (OrderResponse F)
  answers [] w = []
  answers (m ∷ ms) w = arrived m w ++ answers ms (step m w)

  abbrev Balanced : List (OrderResponse F) → List (OrderResponse F) → Wire F → Wire F → Type 0
  Balanced out come w w' =
      (length w.acks ≤ acks_capacity → length w'.acks ≤ acks_capacity)
      × (out ++ on_the_way w' ≡ on_the_way w ++ come)

  breaks-Balanced :
      (acks : List (OrderResponse F)) (r : Receiver F)
      → Balanced [] []
          (record { acks = acks; receiver = r })
          (record { acks = acks; receiver = on_message returned r })
  breaks-Balanced acks receiving = (λ le. le, sym (append-nil (acks ++ [])))
  breaks-Balanced acks (sending ack) = (λ le. le, sym (append-nil (acks ++ ack ∷ [])))
  breaks-Balanced acks returned = (λ le. le, sym (append-nil (acks ++ [])))

  reads-Balanced :
      (ack : OrderResponse F) (acks : List (OrderResponse F)) (r : Receiver F)
      → Balanced []
          (listens r ack)
          (record { acks = acks; receiver = r })
          (record { acks = acks; receiver = on_message (sending ack) r })
  reads-Balanced ack acks receiving = (λ le. le, ap (λ xs. xs ++ ack ∷ []) (sym (append-nil acks)))
  reads-Balanced ack acks (sending other) = (λ le. le, sym (append-nil (acks ++ other ∷ [])))
  reads-Balanced ack acks returned = (λ le. le, sym (append-nil (acks ++ [])))

  sends-Balanced :
      (acks : List (OrderResponse F)) (r : Receiver F)
      → let w : Wire F = record { acks = acks; receiver = r } in Balanced [] [] w (send r w)
  sends-Balanced acks receiving = (λ le. le, sym (append-nil (acks ++ [])))
  sends-Balanced acks (sending ack) = elim (Bool-cases (ltb (length acks) acks_capacity)) [
    | inl room ↦ rw room (
      λ le. ground (arith, room, length-append acks (ack ∷ [])),
      append-nil (acks ++ ack ∷ []) ∙ sym (append-nil (acks ++ ack ∷ [])),
    )
    | inr full ↦ rw full (λ le. le, sym (append-nil (acks ++ ack ∷ [])))
  ]
  sends-Balanced acks returned = (λ le. le, sym (append-nil (acks ++ [])))

  takes-Balanced :
      (acks : List (OrderResponse F)) (r : Receiver F)
      → Balanced
          (first_of acks)
          []
          (record { acks = acks; receiver = r })
          (record { acks = drop_first acks; receiver = r })
  takes-Balanced [] r = (λ le. le, sym (append-nil (held r)))
  takes-Balanced (ack ∷ acks) r = (λ le. omega (arith, le), sym (append-nil (ack ∷ acks ++ held r)))

  step-Balanced : (m : Move F) (w : Wire F) → Balanced (handed m w) (arrived m w) w (step m w)
  unfolding step
  step-Balanced breaks w = breaks-Balanced w.acks w.receiver
  step-Balanced skips w = (λ le. le, sym (append-nil (on_the_way w)))
  step-Balanced sends w = sends-Balanced w.acks w.receiver
  step-Balanced takes w = takes-Balanced w.acks w.receiver
  step-Balanced (reads ack) w = reads-Balanced ack w.acks w.receiver

  run_wire-from :
      (ms : List (Move F)) (w : Wire F)
      → length w.acks ≤ acks_capacity
      → (length (run_wire ms w).acks ≤ acks_capacity)
        × (taken ms w ++ on_the_way (run_wire ms w) ≡ on_the_way w ++ answers ms w)
  unfolding run_wire taken answers
  run_wire-from [] w le = (le, sym (append-nil (on_the_way w)))
  run_wire-from (m ∷ ms) w le =
      let (fits, here) = step-Balanced m w in
      let (last, rest) = run_wire-from ms (step m w) (fits le) in
      (
        last,
        append_assoc (handed m w) (taken ms (step m w)) (on_the_way (run_wire ms (step m w)))
            ∙ ap (λ xs. handed m w ++ xs) rest
            ∙ sym (append_assoc (handed m w) (on_the_way (step m w)) (answers ms (step m w)))
            ∙ ap (λ xs. xs ++ answers ms (step m w)) here
            ∙ append_assoc (on_the_way w) (arrived m w) (answers ms (step m w)),
      )

  -- However the read goroutine and the loop take turns: the answers that the loop has got, those in the
  -- channel and the one that waits for room in it are exactly the answers read, in their order, and
  -- the channel never holds more than 512.
  pub run_wire_lem :
      (ms : List (Move F))
      → (length (run_wire ms new_wire).acks ≤ acks_capacity)
        × (taken ms new_wire ++ on_the_way (run_wire ms new_wire) ≡ answers ms new_wire)
  run_wire_lem ms = run_wire-from ms new_wire (omega arith)

  -- Every move but the loop's receive.
  abbrev pub is_readers : Move F → Bool
  is_readers takes = false
  is_readers breaks = true
  is_readers skips = true
  is_readers sends = true
  is_readers (reads ack) = true

  stuck : (ack : OrderResponse F) (acks : List (OrderResponse F)) → Wire F
  stuck ack acks = record { acks = acks; receiver = sending ack }

  step-stuck :
      (m : Move F) (ack : OrderResponse F) (acks : List (OrderResponse F))
      → is_readers m ≡ true
      → length acks ≡ acks_capacity
      → step m (stuck ack acks) ≡ stuck ack acks
  unfolding step stuck
  step-stuck breaks ack acks h full = refl
  step-stuck skips ack acks h full = refl
  step-stuck (reads other) ack acks h full = refl
  step-stuck takes ack acks h full = cc
  step-stuck sends ack acks h full = ground (arith, full)

  -- Once the loop has returned, so that it receives no more, a read goroutine that waits to send into
  -- the full channel waits for ever: no read that fails, as on the connection that the loop has closed,
  -- and no other move of it changes anything.
  pub sender_stuck :
      (ms : List (Move F)) (ack : OrderResponse F) (acks : List (OrderResponse F))
      → All (λ m. is_readers m ≡ true) ms
      → length acks ≡ acks_capacity
      → run_wire ms (record { acks = acks; receiver = sending ack })
        ≡ record { acks = acks; receiver = sending ack }
  unfolding run_wire stuck
  sender_stuck [] ack acks h full = refl
  sender_stuck (m ∷ ms) ack acks h full =
      ap (run_wire ms) (step-stuck m ack acks h.0 full) ∙ sender_stuck ms ack acks h.1 full
