-- ===== src/WsGateway/Streams/Steps.antt =====
-- What a step of a connection's goroutines does to the hub.
use iicpc_summer_hackathon.Prelude.{
  String, ◌≡◌, refl, ap, ◌∙◌, sym, inl, inr, Bool, true, false, Option, none, some, arith,
  if◌then◌else◌, str_eq, eq_iff, Option-cases,
}
use iicpc_summer_hackathon.Prelude.Dict.{lookup, lookup-insert, lookup-delete}
use iicpc_summer_hackathon.WsGateway.{
  Client, Hub, unregister, take_message, disconnects, takes, Reachable, then_step,
}
use iicpc_summer_hackathon.WsGateway.Delivery.{
  clients-pump, take_message-Taken, lookup-insert_other,
}
use iicpc_summer_hackathon.WsGateway.Streams.{
  Reader, reading, closing, leaving, parting, gone, Writer, selecting, writing, stopped, Stream,
  Action, read_ends, clean_up, write_select, write_ends, ping_select, ping_ends, Pinger, ticking,
  pinging, silent, stop_writer, is_closed, received, on_read, on_written, on_tick, on_pinged,
  on_clean_up, on_select, act,
}

-- The read pump has not yet come behind Unregister.
abbrev pub is_listed : Reader → Bool
is_listed reading = true
is_listed closing = true
is_listed leaving = true
is_listed parting = false
is_listed gone = false

module _ {M : Type 0} where
  -- The client that a stream has in the hub.
  abbrev pub registered : String → Option (Stream M) → Option Client
  registered k none = none
  registered k (some st) = if is_listed st.reader then some (record { id = k }) else none

  clients-unregister :
      (id k : String) (h : Hub M)
      → lookup k (unregister id h).clients ≡ (if str_eq id k then none else lookup k h.clients)
  unfolding unregister
  clients-unregister id k h = ground (arith, lookup-delete id k h.clients, eq_iff id k)

  channels-unregister :
      (id k : String) (h : Hub M)
      → lookup id h.clients ≡ some (record { id = id })
      → str_eq id k ≡ false
      → lookup k (unregister id h).channels ≡ lookup k h.channels
  unfolding unregister
  channels-unregister id k h there other = elim (Option-cases (lookup id h.channels)) [
    | inl e ↦ ground (arith, there, e)
    | inr (ch, e) ↦
        ground (arith, there, e, other, lookup-insert id k (record ch { closed = true }) h.channels)
  ]

  lookup-take_message :
      (id k : String) (h : Hub M)
      → str_eq id k ≡ false
      → lookup k (take_message id h).1.channels ≡ lookup k h.channels
  lookup-take_message id k h other = elim (take_message-Taken id h) [
    | inl (e, empty) ↦ ap (λ out. lookup k out.1.channels) e
    | inr (m, rest, ch, full, e) ↦
        ap (λ out. lookup k out.1.channels) e
        ∙ lookup-insert_other id k (record ch { buffer = rest }) h other
  ]

  -- What a step of one stream's goroutines leaves of the hub.
  pub record Follows (id : String) (st' : Stream M) (h h' : Hub M) : Type 0 where
    pub own : lookup id h'.clients ≡ registered id (some st')
    pub others : (k : String) → str_eq id k ≡ false → lookup k h'.clients ≡ lookup k h.clients
    pub channels : (k : String) → str_eq id k ≡ false → lookup k h'.channels ≡ lookup k h.channels
    pub hub : Reachable h → Reachable h'

  module _ (id : String) (h : Hub M) where
    stays : (st' : Stream M) → lookup id h.clients ≡ registered id (some st') → Follows id st' h h
    stays st' own = record {
      own = own;
      others = λ k other. refl;
      channels = λ k other. refl;
      hub = λ r. r;
    }

    takes-Follows :
        (st' : Stream M)
        → lookup id h.clients ≡ registered id (some st')
        → Follows id st' h (take_message id h).1
    takes-Follows st' own = record {
      own = ap (lookup id) (clients-pump id h) ∙ own;
      others = λ k other. ap (lookup k) (clients-pump id h);
      channels = λ k other. lookup-take_message id k h other;
      hub = λ r. then_step r (takes id);
    }

    unregister-Follows :
        (st' : Stream M)
        → lookup id h.clients ≡ some (record { id = id })
        → st'.reader ≡ parting
        → Follows id st' h (unregister id h)
    unregister-Follows st' there at = record {
      own = clients-unregister id id h ∙ rw ((eq_iff id id).1 refl, at) refl;
      others = λ k other. clients-unregister id k h ∙ rw other refl;
      channels = λ k other. channels-unregister id k h there other;
      hub = λ r. then_step r (disconnects id);
    }

    clean_up-Follows :
        (at : Reader) (st : Stream M)
        → st.reader ≡ at
        → lookup id h.clients ≡ registered id (some st)
        → Follows id (on_clean_up id at h st).1 h (on_clean_up id at h st).0
    clean_up-Follows reading st at own = stays st own
    clean_up-Follows closing st at own =
        stays (record st { done = true; reader = leaving }) (own ∙ rw at refl)
    clean_up-Follows leaving st at own =
        unregister-Follows (record st { reader = parting }) (own ∙ rw at refl) refl
    clean_up-Follows parting st at own =
        stays (record st { connected = false; reader = gone }) (own ∙ rw at refl)
    clean_up-Follows gone st at own = stays st own

    relisted :
        (st st' : Stream M)
        → is_listed st'.reader ≡ is_listed st.reader
        → lookup id h.clients ≡ registered id (some st)
        → lookup id h.clients ≡ registered id (some st')
    relisted st st' same own =
        own ∙ ap (λ b. if b then some (record { id = id }) else none) (sym same)

    listed-on_read :
        (ok : Bool) (at : Reader) (st : Stream M)
        → st.reader ≡ at
        → is_listed (on_read ok at st).reader ≡ is_listed st.reader
    listed-on_read ok reading st at = ground (arith, at)
    listed-on_read ok closing st at = refl
    listed-on_read ok leaving st at = refl
    listed-on_read ok parting st at = refl
    listed-on_read ok gone st at = refl

    reader-received :
        (o : Option M) (closed : Bool) (st : Stream M) → (received o closed st).reader ≡ st.reader
    reader-received none true st = refl
    reader-received none false st = refl
    reader-received (some msg) closed st = refl

    reader-on_written :
        (ok : Bool) (w : Writer M) (st : Stream M) → (on_written ok w st).reader ≡ st.reader
    reader-on_written ok (writing msg) st = ground arith
    reader-on_written ok selecting st = refl
    reader-on_written ok stopped st = refl

    reader-on_tick :
        (tick : Bool) (p : Pinger) (st : Stream M) → (on_tick tick p st).reader ≡ st.reader
    reader-on_tick tick ticking st = ground arith
    reader-on_tick tick pinging st = refl
    reader-on_tick tick silent st = refl

    reader-on_pinged :
        (ok : Bool) (p : Pinger) (st : Stream M) → (on_pinged ok p st).reader ≡ st.reader
    reader-on_pinged ok pinging st = ground arith
    reader-on_pinged ok ticking st = refl
    reader-on_pinged ok silent st = refl

    select-Follows :
        (message : Bool) (w : Writer M) (st : Stream M)
        → lookup id h.clients ≡ registered id (some st)
        → let out = on_select message id w h st in Follows id out.1 h out.0
    select-Follows true selecting st own =
        let o = (take_message id h).0 in
        let closed = is_closed (lookup id h.channels) in
        takes-Follows (received o closed st)
          (relisted st (received o closed st) (ap is_listed (reader-received o closed st)) own)
    select-Follows false selecting st own =
        stays (if st.done then stop_writer st else st)
          (relisted st (if st.done then stop_writer st else st) (ground arith) own)
    select-Follows message (writing msg) st own = stays st own
    select-Follows message stopped st own = stays st own

    pub act-Follows :
        (a : Action) (st : Stream M)
        → lookup id h.clients ≡ registered id (some st)
        → let out = act id a h st in Follows id out.1 h out.0
    unfolding act
    act-Follows (read_ends ok) st own =
        stays (on_read ok st.reader st)
          (relisted st (on_read ok st.reader st) (listed-on_read ok st.reader st refl) own)
    act-Follows clean_up st own = clean_up-Follows st.reader st refl own
    act-Follows (write_select message) st own = select-Follows message st.writer st own
    act-Follows (write_ends ok) st own = stays (on_written ok st.writer st) (
        relisted st (on_written ok st.writer st) (ap is_listed (reader-on_written ok st.writer st))
          own)
    act-Follows (ping_select tick) st own = stays (on_tick tick st.pinger st) (
        relisted st (on_tick tick st.pinger st) (ap is_listed (reader-on_tick tick st.pinger st))
          own)
    act-Follows (ping_ends ok) st own = stays (on_pinged ok st.pinger st) (
        relisted st (on_pinged ok st.pinger st) (ap is_listed (reader-on_pinged ok st.pinger st))
          own)
