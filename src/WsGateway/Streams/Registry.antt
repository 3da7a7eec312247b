-- ===== src/WsGateway/Streams/Registry.antt =====
-- The clients of the hub against the goroutines of their connections.
use iicpc_summer_hackathon.Prelude.{
  String, ◌≡◌, refl, ap, ◌∙◌, sym, subst, inl, inr, false, [], Option, none, some, arith, str_eq,
  eq_iff, Bool-cases,
}
use iicpc_summer_hackathon.Prelude.Dict.{lookup, insert, lookup-insert, lookup-insert_self}
use iicpc_summer_hackathon.WsGateway.{
  Hub, register, connect, connects, broadcasts, Reachable, at_start, then_step,
}
use iicpc_summer_hackathon.WsGateway.Clients.{Sound}
use iicpc_summer_hackathon.WsGateway.Safety.{Reachable-Sound, broadcast-kept, broadcast_lem}
use iicpc_summer_hackathon.WsGateway.Streams.{
  Stream, Gateway, Action, new_stream, act, accept, act_on, move, publish, Running, started,
  accepted, published, moved,
}
use iicpc_summer_hackathon.WsGateway.Streams.Steps.{registered, Follows, act-Follows}

module _ {M : Type 0} where
  -- The hub's clients and channels are those of the streams.
  record Matched (g : Gateway M) : Type 0 where
    clients : (k : String) → lookup k g.hub.clients ≡ registered k (lookup k g.streams)
    channels : (k : String) → lookup k g.streams ≡ none → lookup k g.hub.channels ≡ none
    hub : Reachable g.hub

  registered-insert :
      (id k : String) (st : Stream M) (g : Gateway M)
      → str_eq id k ≡ false
      → registered k (lookup k (insert id st g.streams)) ≡ registered k (lookup k g.streams)
  registered-insert id k st g other =
      ap (registered k) (lookup-insert id k st g.streams ∙ rw other refl)

  moved-clients :
      (id : String) (st' : Stream M) (g : Gateway M) (h' : Hub M)
      → Matched g
      → Follows id st' g.hub h'
      → (k : String) → lookup k h'.clients ≡ registered k (lookup k (insert id st' g.streams))
  moved-clients id st' g h' m f k = elim (Bool-cases (str_eq id k)) [
    | inl same ↦
        subst (λ x. lookup x h'.clients ≡ registered x (lookup x (insert id st' g.streams)))
          ((eq_iff id k).0 same)
          (f.own ∙ ap (registered id) (sym (lookup-insert_self id st' g.streams)))
    | inr other ↦ f.others k other ∙ m.clients k ∙ sym (registered-insert id k st' g other)
  ]

  moved-channels :
      (id : String) (st' : Stream M) (g : Gateway M) (h' : Hub M)
      → Matched g
      → Follows id st' g.hub h'
      → (k : String) → lookup k (insert id st' g.streams) ≡ none
      → lookup k h'.channels ≡ none
  moved-channels id st' g h' m f k absent = elim (Bool-cases (str_eq id k)) [
    | inl same ↦ absurd (ground (arith, absent, same, lookup-insert id k st' g.streams))
    | inr other ↦
        f.channels k other
        ∙ m.channels k (sym (lookup-insert id k st' g.streams ∙ rw other refl) ∙ absent)
  ]

  act_on-Matched :
      (id : String) (a : Action) (found : Option (Stream M)) (g : Gateway M)
      → lookup id g.streams ≡ found
      → Matched g
      → Matched (act_on id a found g)
  act_on-Matched id a none g there m = m
  act_on-Matched id a (some st) g there m =
      let f = act-Follows id g.hub a st (m.clients id ∙ ap (registered id) there) in
      let st' = (act id a g.hub st).1 in
      let h' = (act id a g.hub st).0 in
      record {
        clients = moved-clients id st' g h' m f;
        channels = moved-channels id st' g h' m f;
        hub = f.hub m.hub;
      }

  move-Matched : (id : String) (a : Action) (g : Gateway M) → Matched g → Matched (move id a g)
  unfolding move
  move-Matched id a g m = act_on-Matched id a (lookup id g.streams) g refl m

  accept-clients :
      (fresh : String) (g : Gateway M)
      → Matched g
      → (k : String)
      → lookup k (accept fresh g).hub.clients ≡ registered k (lookup k (accept fresh g).streams)
  unfolding accept connect register
  accept-clients fresh g m k = ground (
    arith,
    m.clients k,
    lookup-insert fresh k (record { id = fresh }) g.hub.clients,
    lookup-insert fresh k new_stream g.streams,
    eq_iff fresh k,
  )

  accept-Matched :
      (fresh : String) (g : Gateway M)
      → lookup fresh g.streams ≡ none
      → Matched g
      → Matched (accept fresh g)
  unfolding accept
  accept-Matched fresh g new m = record {
    clients = accept-clients fresh g m;
    channels = λ k absent. ground (
      arith,
      absent,
      m.channels k,
      lookup-insert fresh k new_stream g.streams,
      lookup-insert fresh k (record { buffer = []; closed = false }) g.hub.channels,
    );
    hub = then_step m.hub (connects fresh (m.channels fresh new));
  }

  publish-Matched : (msg : M) (g : Gateway M) → Matched g → Matched (publish msg g)
  publish-Matched msg g m =
      let sound = Reachable-Sound m.hub in
      record {
        clients = λ k. ap (lookup k) (broadcast-kept msg g.hub sound).1 ∙ m.clients k;
        channels =
            λ k absent. broadcast_lem msg g.hub k sound ∙ ground (arith, m.channels k absent);
        hub = then_step m.hub (broadcasts msg);
      }

  Running-Matched : {g : Gateway M} → Running g → Matched g
  unfolding lookup
  Running-Matched started = record {
    clients = λ k. refl;
    channels = λ k absent. refl;
    hub = at_start;
  }
  Running-Matched (accepted {g} fresh r new) = accept-Matched fresh g new (Running-Matched r)
  Running-Matched (published {g} msg r) = publish-Matched msg g (Running-Matched r)
  Running-Matched (moved {g} id a r) = move-Matched id a g (Running-Matched r)

  -- Whatever order the goroutines of all connections run in: the hub keeps its invariant, and it has a
  -- client under an id, its own, exactly while there is a stream of that id whose read pump is not yet
  -- behind Unregister.
  pub Running-clients :
      {g : Gateway M}
      → Running g
      → Sound g.hub × ((k : String) → lookup k g.hub.clients ≡ registered k (lookup k g.streams))
  Running-clients r = let m = Running-Matched r in (Reachable-Sound m.hub, m.clients)
