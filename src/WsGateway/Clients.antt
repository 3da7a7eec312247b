-- ===== src/WsGateway/Clients.antt =====
-- What connections, the write pump and disconnections do to the clients and their channels.
use iicpc_summer_hackathon.Prelude.{
  ◌≤◌, String, ◌≡◌, refl, sym, subst, inl, inr, Bool, true, false, List, [], ◌∷◌, Option, none,
  some, arith, if◌then◌else◌, not, str_eq, eq_iff, length, length-append, Option-cases,
}
use iicpc_summer_hackathon.Prelude.Dict.{
  lookup, insert, delete, lookup-insert, lookup-delete, IsMap, IsMap-insert, IsMap-delete,
  AllValues, AllValues-insert,
}
use iicpc_summer_hackathon.WsGateway.{
  Client, Channel, Hub, send_capacity, register, connect, unregister, offered, send, take_message,
}

module _ {M : Type 0} where
  abbrev pub is_open : Option (Channel M) → Bool
  is_open none = false
  is_open (some ch) = not ch.closed

  -- A client stands under its own id, and its channel is open.
  abbrev pub Served : Hub M → String → Option Client → Type 0
  Served h k none = Unit
  Served h k (some c) = (c.id ≡ k) × (is_open (lookup k h.channels) ≡ true)

  abbrev pub InCapacity : Channel M → Type 0
  InCapacity ch = length ch.buffer ≤ send_capacity

  pub record Sound (h : Hub M) : Type 0 where
    pub unique : IsMap h.clients
    pub served : (k : String) → Served h k (lookup k h.clients)
    pub capped : AllValues InCapacity h.channels
    pub no_panic : h.panicked ≡ false

  pub offered-InCapacity : (msg : M) (ch : Channel M) → InCapacity ch → InCapacity (offered msg ch)
  offered-InCapacity msg ch le = ground (arith, length-append ch.buffer (msg ∷ []))

  -- A registered client has an open channel.
  pub channel_of :
      (h : Hub M) (k : String) (c : Client)
      → Served h k (some c)
      → (ch : Channel M) × (lookup k h.channels ≡ some ch) × (ch.closed ≡ false)
  channel_of h k c p = elim (Option-cases (lookup k h.channels)) [
    | inl e ↦ absurd (ground (arith, p.1))
    | inr (ch, e) ↦ (ch, e, ground (arith, p.1))
  ]

  pub send-eq :
      (msg : M) (c : Client) (k : String) (h : Hub M) (ch : Channel M)
      → c.id ≡ k
      → lookup k h.channels ≡ some ch
      → ch.closed ≡ false
      → send msg c h ≡ record h { channels = insert k (offered msg ch) h.channels }
  unfolding send
  send-eq msg c k h ch q e o = ground arith

  -- A changed channel that is as open as it was.
  pub set_channel-Sound :
      (h : Hub M) (id : String) (ch ch' : Channel M)
      → lookup id h.channels ≡ some ch
      → ch'.closed ≡ ch.closed
      → InCapacity ch'
      → Sound h
      → Sound (record h { channels = insert id ch' h.channels })
  set_channel-Sound h id ch ch' e o le s = record {
    unique = s.unique;
    served = λ k. same k (lookup k h.clients) (s.served k);
    capped = AllValues-insert InCapacity id ch' h.channels le s.capped;
    no_panic = s.no_panic;
  }
    where
      same :
          (k : String) (found : Option Client)
          → Served h k found
          → Served (record h { channels = insert id ch' h.channels }) k found
      same k none p = tt
      same k (some c) p = (p.0, ground (arith, p.1, lookup-insert id k ch' h.channels, eq_iff id k))

  pub connect-Sound : (fresh : String) (h : Hub M) → Sound h → Sound (connect fresh h)
  unfolding connect register
  connect-Sound fresh h s = record {
    unique = IsMap-insert fresh (record { id = fresh }) h.clients s.unique;
    served = λ k.
        subst (Served (connect fresh h) k)
          (sym (lookup-insert fresh k (record { id = fresh }) h.clients))
          (new_served k (str_eq fresh k) refl);
    capped = AllValues-insert InCapacity fresh _ h.channels (omega arith) s.capped;
    no_panic = s.no_panic;
  }
    where
      other :
          (k : String) (found : Option Client)
          → str_eq fresh k ≡ false
          → Served h k found
          → Served (connect fresh h) k found
      other k none ne p = tt
      other k (some c) ne p = (
        p.0,
        ground
            (arith, p.1, lookup-insert fresh k (record { buffer = []; closed = false }) h.channels),
      )

      new_served :
          (k : String) (same : Bool)
          → str_eq fresh k ≡ same
          → Served
              (connect fresh h)
              k
              (if same then some (record { id = fresh }) else lookup k h.clients)
      new_served k true e = (
        (eq_iff fresh k).0 e,
        ground (arith, lookup-insert fresh k (record { buffer = []; closed = false }) h.channels),
      )
      new_served k false e = other k (lookup k h.clients) e (s.served k)

  pub take_message-Sound : (id : String) (h : Hub M) → Sound h → Sound (take_message id h).1
  unfolding take_message
  take_message-Sound id h s = elim (Option-cases (lookup id h.channels)) [
    | inl e ↦ rw (e, take_message) s
    | inr (ch, e) ↦ rw (e, take_message) (taken ch.buffer ch e refl)
  ]
    where
      taken :
          (b : List M) (ch : Channel M)
          → lookup id h.channels ≡ some ch
          → ch.buffer ≡ b
          → Sound (
              (elim b as (λ _. Option M × Hub M) [
                | [] ↦ (none, h)
                | msg ∷ rest ↦ (
                  some msg,
                  record h { channels = insert id (record ch { buffer = rest }) h.channels },
                )
              ]).1)
      taken [] ch e q = s
      taken (msg ∷ rest) ch e q =
          set_channel-Sound h id ch (record ch { buffer = rest }) e refl
            (ground (arith, s.capped id ch e)) s

  -- The hub without one client, whose channel is closed.
  abbrev without : String → Channel M → Hub M → Hub M
  without id ch h = record h {
    clients = delete id h.clients;
    channels = insert id (record ch { closed = true }) h.channels;
  }

  unregister-eq :
      (id : String) (h : Hub M) (c : Client) (ch : Channel M)
      → lookup id h.clients ≡ some c
      → c.id ≡ id
      → lookup id h.channels ≡ some ch
      → ch.closed ≡ false
      → unregister id h ≡ without id ch h
  unfolding unregister
  unregister-eq id h c ch e q f o = ground arith

  without-Sound :
      (id : String) (h : Hub M) (ch : Channel M)
      → lookup id h.channels ≡ some ch
      → Sound h
      → Sound (without id ch h)
  without-Sound id h ch f s = record {
    unique = IsMap-delete id h.clients s.unique;
    served = λ k.
        subst (Served (without id ch h) k) (sym (lookup-delete id k h.clients))
          (still_served k (str_eq id k) refl (lookup k h.clients) (s.served k));
    capped = AllValues-insert InCapacity id _ h.channels (s.capped id ch f) s.capped;
    no_panic = s.no_panic;
  }
    where
      still_served :
          (k : String) (same : Bool)
          → str_eq id k ≡ same
          → (found : Option Client) → Served h k found
          → Served (without id ch h) k (if same then none else found)
      still_served k true e found p = tt
      still_served k false e none p = tt
      still_served k false e (some c) p =
          (p.0, ground (arith, p.1, lookup-insert id k (record ch { closed = true }) h.channels))

  pub unregister-Sound : (id : String) (h : Hub M) → Sound h → Sound (unregister id h)
  unfolding unregister
  unregister-Sound id h s = elim (Option-cases (lookup id h.clients)) [
    | inl e ↦ subst Sound (sym (absent e)) s
    | inr (c, e) ↦
        let p : Served h id (some c) = subst (Served h id) e (s.served id) in
        let (ch, f, o) = channel_of h id c p in
        subst Sound (sym (unregister-eq id h c ch e p.0 f o)) (without-Sound id h ch f s)
  ]
    where
      absent : lookup id h.clients ≡ none → unregister id h ≡ h
      absent e = ground arith
