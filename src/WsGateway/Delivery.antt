-- ===== src/WsGateway/Delivery.antt =====
-- What a client gets of the messages of startRedisSubscriber, from one connection or disconnection to
-- the next.
use iicpc_summer_hackathon.Prelude.{
  ◌+◌, ◌≤◌, ◌<◌, String, ◌≡◌, ◌⊎◌, refl, ap, ◌∙◌, sym, subst, inl, inr, false, List, [], ◌∷◌, ◌++◌,
  append_assoc, append-nil, Option, none, some, arith, if◌then◌else◌, str_eq, eq_iff, length,
  length-append, Option-cases, Bool-cases,
}
use iicpc_summer_hackathon.Prelude.Dict.{lookup, insert, lookup-insert, lookup-insert_self}
use iicpc_summer_hackathon.WsGateway.{
  Client, Channel, Hub, offered, send_capacity, broadcast, take_message,
}
use iicpc_summer_hackathon.WsGateway.Clients.{Sound, Served, channel_of, take_message-Sound}
use iicpc_summer_hackathon.WsGateway.Safety.{broadcast_lem, broadcast-kept}

-- A message of Redis, or a turn of a client's write pump.
pub data Event (M : Type 0) : Type 0 where
  message : M → Event M
  pump : String → Event M

module _ {M : Type 0} where
  abbrev buffer : Option (Channel M) → List M
  buffer none = []
  buffer (some ch) = ch.buffer

  abbrev pub waiting : String → Hub M → List M
  waiting id h = buffer (lookup id h.channels)

  abbrev to_list : Option M → List M
  to_list none = []
  to_list (some m) = m ∷ []

  -- The loop of the subscriber hands every message to the hub.
  unfoldable pub on_event : Event M → Hub M → Hub M
  unfolding broadcast take_message
  on_event (message m) h = broadcast m h
  on_event (pump id) h = (take_message id h).1

  unfoldable pub run_events : List (Event M) → Hub M → Hub M
  unfolding on_event
  run_events [] h = h
  run_events (e ∷ events) h = run_events events (on_event e h)

  -- The frames that the client's pump writes.
  abbrev frame : String → Event M → Hub M → List M
  frame id (message m) h = []
  frame id (pump k) h = if str_eq k id then to_list (take_message k h).0 else []

  pub frames : String → List (Event M) → Hub M → List M
  frames id [] h = []
  frames id (e ∷ events) h = frame id e h ++ frames id events (on_event e h)

  abbrev pub messages : List (Event M) → List M
  messages [] = []
  messages (message m ∷ events) = m ∷ messages events
  messages (pump id ∷ events) = messages events

  pub lookup-insert_other :
      (k j : String) (ch : Channel M) (h : Hub M)
      → str_eq k j ≡ false
      → lookup j (insert k ch h.channels) ≡ lookup j h.channels
  lookup-insert_other k j ch h other = lookup-insert k j ch h.channels ∙ rw other refl

  waiting-broadcast :
      (m : M) (h : Hub M) (id : String) (c : Client)
      → Sound h
      → lookup id h.clients ≡ some c
      → length (waiting id h) < send_capacity
      → waiting id (broadcast m h) ≡ waiting id h ++ m ∷ []
  waiting-broadcast m h id c s there room =
      let (ch, f, o) = channel_of h id c (subst (Served h id) there (s.served id)) in
      let len : length ch.buffer < send_capacity =
        subst (λ x. length (buffer x) < send_capacity) f room in
      let each : lookup id (broadcast m h).channels ≡ some (offered m ch) =
        broadcast_lem m h id s ∙ ground (arith, f, there) in
      ap buffer each ∙ ground (arith, len, f)

  -- The hub after a message was taken from a channel.
  abbrev pub with_buffer : String → Channel M → List M → Hub M → Hub M
  with_buffer id ch rest h = record h {
    channels = insert id (record ch { buffer = rest }) h.channels;
  }

  abbrev pub Taken : String → Hub M → Option M × Hub M → Type 0
  Taken id h out =
      ((out ≡ (none, h)) × (waiting id h ≡ []))
      ⊎ ((m : M) × (rest : List M) × (ch : Channel M) × (waiting id h ≡ m ∷ rest)
          × (out ≡ (some m, with_buffer id ch rest h)))

  abbrev taken_out : String → Hub M → Channel M → List M → Option M × Hub M
  taken_out id h ch b = elim b as (λ _. Option M × Hub M) [
    | [] ↦ (none, h)
    | msg ∷ rest ↦ (some msg, with_buffer id ch rest h)
  ]

  taken_out-Taken :
      (id : String) (h : Hub M) (ch : Channel M) (b : List M)
      → waiting id h ≡ b
      → Taken id h (taken_out id h ch b)
  taken_out-Taken id h ch [] q = inl (refl, q)
  taken_out-Taken id h ch (m ∷ rest) q = inr (m, rest, ch, q, refl)

  take_message-some :
      (id : String) (h : Hub M) (ch : Channel M)
      → lookup id h.channels ≡ some ch
      → take_message id h ≡ taken_out id h ch ch.buffer
  unfolding take_message
  take_message-some id h ch e = rw (e, take_message) refl

  take_message-none :
      (id : String) (h : Hub M) → lookup id h.channels ≡ none → take_message id h ≡ (none, h)
  unfolding take_message
  take_message-none id h e = rw (e, take_message) refl

  pub take_message-Taken : (id : String) (h : Hub M) → Taken id h (take_message id h)
  take_message-Taken id h = elim (Option-cases (lookup id h.channels)) [
    | inl e ↦ inl (take_message-none id h e, ap buffer e)
    | inr (ch, e) ↦
        subst (Taken id h) (sym (take_message-some id h ch e))
          (taken_out-Taken id h ch ch.buffer (ap buffer e))
  ]

  waiting-with_buffer :
      (id : String) (ch : Channel M) (rest : List M) (h : Hub M)
      → waiting id (with_buffer id ch rest h) ≡ rest
  waiting-with_buffer id ch rest h =
      ap buffer (lookup-insert_self id (record ch { buffer = rest }) h.channels)

  waiting-pump :
      (id : String) (h : Hub M)
      → to_list (take_message id h).0 ++ waiting id (take_message id h).1 ≡ waiting id h
  waiting-pump id h = elim (take_message-Taken id h) [
    | inl (e, empty) ↦ ap (λ out. to_list out.0 ++ waiting id out.1) e
    | inr (m, rest, ch, full, e) ↦
        ap (λ out. to_list out.0 ++ waiting id out.1) e
        ∙ ap (λ xs. m ∷ xs) (waiting-with_buffer id ch rest h)
        ∙ sym full
  ]

  waiting-pump_other :
      (k id : String) (h : Hub M)
      → str_eq k id ≡ false
      → waiting id (take_message k h).1 ≡ waiting id h
  waiting-pump_other k id h other = elim (take_message-Taken k h) [
    | inl (e, empty) ↦ ap (λ out. waiting id out.1) e
    | inr (m, rest, ch, full, e) ↦
        ap (λ out. waiting id out.1) e
        ∙ ap buffer (lookup-insert_other k id (record ch { buffer = rest }) h other)
  ]

  pub clients-pump : (k : String) (h : Hub M) → (take_message k h).1.clients ≡ h.clients
  clients-pump k h = elim (take_message-Taken k h) [
    | inl (e, empty) ↦ ap (λ out. out.1.clients) e
    | inr (m, rest, ch, full, e) ↦ ap (λ out. out.1.clients) e
  ]

  -- While the hub is sound and a client registered, and its buffer has room for all the messages that
  -- come, its frames and what still waits are exactly what waited and the messages, in their order:
  -- nothing is lost, repeated or overtaken, whenever the pumps run.
  pub frames_lem :
      (id : String) (c : Client) (events : List (Event M)) (h : Hub M)
      → Sound h
      → lookup id h.clients ≡ some c
      → length (waiting id h) + length (messages events) ≤ send_capacity
      → frames id events h ++ waiting id (run_events events h) ≡ waiting id h ++ messages events
  unfolding run_events on_event frames
  frames_lem id c [] h s there room = sym (append-nil (waiting id h))
  frames_lem id c (message m ∷ events) h s there room =
      let added = waiting-broadcast m h id c s there (omega (arith, room)) in
      let (sound, same) = broadcast-kept m h s in
      frames_lem id c events (broadcast m h) sound (ap (lookup id) same ∙ there) (
        subst (λ xs. length xs + length (messages events) ≤ send_capacity) (sym added)
          (omega (arith, room, length-append (waiting id h) (m ∷ []))))
      ∙ ap (λ xs. xs ++ messages events) added
      ∙ append_assoc (waiting id h) (m ∷ []) (messages events)
  frames_lem id c (pump k ∷ events) h s there room =
      let h' = (take_message k h).1 in
      let sound = take_message-Sound k h s in
      let there' = ap (lookup id) (clients-pump k h) ∙ there in
      elim (Bool-cases (str_eq k id)) [
        | inl mine ↦
            (let taken = to_list (take_message k h).0 in
              let pumped : taken ++ waiting id h' ≡ waiting id h =
                subst (λ x. taken ++ waiting x h' ≡ waiting x h) ((eq_iff k id).0 mine)
                  (waiting-pump k h) in
              let count = length-append taken (waiting id h') in
              let fits : length (waiting id h') + length (messages events) ≤ send_capacity =
                omega (arith, room, count, ap length pumped) in
              rw mine (
                append_assoc taken (frames id events h') (waiting id (run_events events h'))
                ∙ ap (λ xs. taken ++ xs) (frames_lem id c events h' sound there' fits)
                ∙ sym (append_assoc taken (waiting id h') (messages events))
                ∙ ap (λ xs. xs ++ messages events) pumped))
        | inr other ↦
            (let same = waiting-pump_other k id h other in
              rw other (
                frames_lem id c events h' sound there' (
                  subst (λ xs. length xs + length (messages events) ≤ send_capacity) (sym same)
                    room)
                ∙ ap (λ xs. xs ++ messages events) same))
      ]
