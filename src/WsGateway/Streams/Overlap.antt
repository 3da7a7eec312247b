-- ===== src/WsGateway/Streams/Overlap.antt =====
-- The two goroutines of a connection that call WriteMessage.
use iicpc_summer_hackathon.Prelude.{◌≡◌, ap, ◌∙◌, String, true, List, [], ◌∷◌, some, arith}
use iicpc_summer_hackathon.Prelude.Dict.{lookup, insert, lookup-insert_self}
use iicpc_summer_hackathon.WsGateway.{Channel, Hub, take_message}
use iicpc_summer_hackathon.WsGateway.Streams.{
  selecting, writing, ticking, pinging, Stream, Gateway, write_select, ping_select, Action,
  received, is_closed, on_select, on_tick, select_one, act, act_on, move, moves,
}

module _ {M : Type 0} where
  tick-eq :
      (id : String) (h : Hub M) (st : Stream M)
      → st.pinger ≡ ticking
      → act id (ping_select true) h st ≡ (h, record st { pinger = pinging })
  unfolding act
  tick-eq id h st e = ap (λ p. (h, on_tick true p st)) e

  select-eq :
      (id : String) (h : Hub M) (st : Stream M)
      → st.writer ≡ selecting
      → act id (write_select true) h st ≡ select_one true id h st
  unfolding act
  select-eq id h st e = ap (λ w. on_select true id w h st) e

  message-taken :
      (id : String) (h : Hub M) (ch : Channel M) (m : M) (rest : List M)
      → lookup id h.channels ≡ some ch
      → ch.buffer ≡ m ∷ rest
      → (take_message id h).0 ≡ some m
  unfolding take_message
  message-taken id h ch m rest e q = ground (arith, e, q)

  move-eq :
      (id : String) (a : Action) (g : Gateway M) (st : Stream M)
      → lookup id g.streams ≡ some st
      → move id a g ≡ record {
        hub = (act id a g.hub st).0;
        streams = insert id (act id a g.hub st).1 g.streams;
      }
  unfolding move
  move-eq id a g st there = ap (λ o. act_on id a o g) there

  -- While a message waits for a client whose write pump is at its select and whose ping ticker is at its
  -- own, a tick and the receipt of the message, one after the other, put both goroutines into WriteMessage
  -- on the one connection.
  pub writes_overlap :
      (id : String) (g : Gateway M) (st : Stream M) (ch : Channel M) (m : M) (rest : List M)
      → lookup id g.streams ≡ some st
      → st.writer ≡ selecting
      → st.pinger ≡ ticking
      → lookup id g.hub.channels ≡ some ch
      → ch.buffer ≡ m ∷ rest
      → let g' = moves id (ping_select true ∷ write_select true ∷ []) g in
        lookup id g'.streams ≡ some (record st { writer = writing m; pinger = pinging })
  unfolding moves
  writes_overlap id g st ch m rest there w p waits full =
      let st1 = record st { pinger = pinging } in
      let g1 : Gateway M = record { hub = g.hub; streams = insert id st1 g.streams } in
      let first : move id (ping_select true) g ≡ g1 =
        move-eq id (ping_select true) g st there
        ∙ ap (λ out. record { hub = out.0; streams = insert id out.1 g.streams })
            (tick-eq id g.hub st p) in
      let second =
        move-eq id (write_select true) g1 st1 (lookup-insert_self id st1 g.streams)
        ∙ ap (λ out. record { hub = out.0; streams = insert id out.1 g1.streams })
            (select-eq id g.hub st1 w) in
      ap (λ x. lookup id (move id (write_select true) x).streams) first
      ∙ ap (λ x. lookup id x.streams) second
      ∙ lookup-insert_self id (select_one true id g.hub st1).1 g1.streams
      ∙ ap (λ o. some (received o (is_closed (lookup id g.hub.channels)) st1))
          (message-taken id g.hub ch m rest waits full)
