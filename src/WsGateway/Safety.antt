-- ===== src/WsGateway/Safety.antt =====
-- Broadcasts, and every state that the hub reaches.
use mathlib.Core.Option
use iicpc_summer_hackathon.Prelude.{
  String, ◌≡◌, refl, ap, ◌∙◌, sym, subst, Bool, true, false, [], ◌∷◌, Option, none, some, arith,
  if◌then◌else◌, str_eq, eq_iff,
}
use iicpc_summer_hackathon.Prelude.Dict.{
  Dict, lookup, insert, has_key, lookup-insert, IsMap, AllValues-nil,
}
use iicpc_summer_hackathon.WsGateway.{
  Client, Channel, Hub, offered, send_all, broadcast, Step, connects, disconnects, broadcasts,
  takes, Reachable, at_start, then_step,
}
use iicpc_summer_hackathon.WsGateway.Clients.{
  Served, InCapacity, Sound, offered-InCapacity, channel_of, send-eq, set_channel-Sound,
  connect-Sound, take_message-Sound, unregister-Sound,
}

module _ {M : Type 0} where
  -- The clients that a broadcast still has to reach.
  abbrev AllServed : Hub M → Dict Client → Type 0
  AllServed h cs = (k : String) → Served h k (lookup k cs)

  closed-offered : (msg : M) (ch : Channel M) → (offered msg ch).closed ≡ ch.closed
  closed-offered msg ch = ground arith

  head-Served :
      (h : Hub M) (id : String) (c : Client) (rest : Dict Client)
      → AllServed h ((id, c) ∷ rest)
      → Served h id (some c)
  unfolding lookup
  head-Served h id c rest a =
      subst (λ b. Served h id (if b then some c else lookup id rest)) ((eq_iff id id).1 refl) (a id)

  rest-Served :
      (h : Hub M) (id : String) (c : Client) (ch : Channel M) (rest : Dict Client)
      → lookup id rest ≡ none
      → AllServed h ((id, c) ∷ rest)
      → AllServed (record h { channels = insert id ch h.channels }) rest
  unfolding lookup
  rest-Served h id c ch rest m a k = go (str_eq id k) refl (lookup k rest) refl (a k)
    where
      go :
          (same : Bool)
          → str_eq id k ≡ same
          → (found : Option Client) → lookup k rest ≡ found
          → Served h k (if same then some c else found)
          → Served (record h { channels = insert id ch h.channels }) k found
      go same e none q p = tt
      go true e (some d) q p = absurd (ground (arith, eq_iff id k))
      go false e (some d) q p = (p.0, ground (arith, p.1, lookup-insert id k ch h.channels))

  send_all_lem :
      (msg : M) (cs : Dict Client) (h : Hub M)
      → IsMap cs
      → AllServed h cs
      → Sound h
      → Sound (send_all msg cs h)
        × ((send_all msg cs h).clients ≡ h.clients)
        × ((k : String)
            → lookup k (send_all msg cs h).channels ≡ (
                if has_key k cs
                then Option.map (offered msg) (lookup k h.channels)
                else lookup k h.channels))
  unfolding send_all lookup
  send_all_lem msg [] h m a s = (s, refl, λ k. refl)
  send_all_lem msg ((id, c) ∷ rest) h m a s =
      let p : Served h id (some c) = head-Served h id c rest a in
      let (ch, f, o) = channel_of h id c p in
      let h' : Hub M = record h { channels = insert id (offered msg ch) h.channels } in
      let s' : Sound h' =
        set_channel-Sound h id ch (offered msg ch) f (closed-offered msg ch)
          (offered-InCapacity msg ch (s.capped id ch f)) s in
      let (done, same, each) =
        send_all_lem msg rest h' m.1 (rest-Served h id c (offered msg ch) rest m.0 a) s' in
      let eq = send-eq msg c id h ch p.0 f o in
      (
        subst (λ st. Sound (send_all msg rest st)) (sym eq) done,
        ap (λ st. (send_all msg rest st).clients) eq ∙ same,
        λ k.
            ap (λ st. lookup k (send_all msg rest st).channels) eq
            ∙ each k
            ∙ ground (arith, lookup-insert id k (offered msg ch) h.channels, eq_iff id k, m.0, f),
      )

  -- A broadcast reaches every registered client: its channel gets the message at the end where the
  -- buffer has room, and stays as it is where it is full. No other channel changes.
  pub broadcast_lem :
      (msg : M) (h : Hub M) (k : String)
      → Sound h
      → lookup k (broadcast msg h).channels ≡ (
          if has_key k h.clients
          then Option.map (offered msg) (lookup k h.channels)
          else lookup k h.channels)
  unfolding broadcast
  broadcast_lem msg h k s = (send_all_lem msg h.clients h s.unique s.served s).2 k

  pub broadcast-kept :
      (msg : M) (h : Hub M)
      → Sound h
      → Sound (broadcast msg h) × ((broadcast msg h).clients ≡ h.clients)
  unfolding broadcast
  broadcast-kept msg h s =
      let (done, same, each) = send_all_lem msg h.clients h s.unique s.served s in (done, same)

  Step-Sound : {h h' : Hub M} → Step h h' → Sound h → Sound h'
  unfolding broadcast
  Step-Sound (connects {h} fresh new) s = connect-Sound fresh h s
  Step-Sound (disconnects {h} id) s = unregister-Sound id h s
  Step-Sound (broadcasts {h} msg) s = (send_all_lem msg h.clients h s.unique s.served s).0
  Step-Sound (takes {h} id) s = take_message-Sound id h s

  -- In every state that connections, disconnections, broadcasts and the write pumps lead to, every
  -- registered client has its own open channel, no channel holds more than 256 messages, and neither
  -- a send on a closed channel nor a second close has happened.
  pub Reachable-Sound : {h : Hub M} → Reachable h → Sound h
  unfolding lookup
  Reachable-Sound at_start = record {
    unique = tt;
    served = λ k. tt;
    capped = AllValues-nil InCapacity;
    no_panic = refl;
  }
  Reachable-Sound (then_step r t) = Step-Sound t (Reachable-Sound r)
