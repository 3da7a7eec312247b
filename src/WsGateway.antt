-- ===== src/WsGateway.antt =====
-- The hub of services/ws-gateway/main.go, which hands every message to every connected client. A
-- client holds its channel by reference, so the channels stand in a store, each under the id of
-- the one client that has it. Ids are those of uuid; the log lines, which print their first 8
-- characters, are left out.
use mathlib.Core.Option
use iicpc_summer_hackathon.Prelude.{
  ℕ, String, ◌≡◌, Bool, true, false, List, [], ◌∷◌, ◌++◌, Option, none, some, if◌then◌else◌, ltb,
  length,
}
use iicpc_summer_hackathon.Prelude.Dict.{Dict, lookup, insert, delete}
pub mod Clients
pub mod Safety
pub mod Delivery
pub mod Streams
pub mod Server
mod Tests

pub record Client : Type 0 where
  pub id : String

-- A client's send channel: its buffer, and whether it is closed.
pub record Channel (M : Type 0) : Type 0 where
  pub buffer : List M
  pub closed : Bool

-- `panicked` is set by a send on a closed channel and by closing a channel twice.
pub record Hub (M : Type 0) : Type 0 where
  pub clients : Dict Client
  pub channels : Dict (Channel M)
  pub panicked : Bool

-- The size of a client's buffer.
abbrev pub send_capacity : ℕ
send_capacity = 256

module _ {M : Type 0} where
  abbrev pub new_hub : Hub M
  new_hub = record { clients = []; channels = []; panicked = false }

  unfoldable pub register : Client → Hub M → Hub M
  register c h = record h { clients = insert c.id c h.clients }

  -- What streamHandler does with a new connection, whose id is the uuid library's answer.
  unfoldable pub connect : String → Hub M → Hub M
  unfolding register
  connect fresh h =
      register (record { id = fresh })
        (record h { channels = insert fresh (record { buffer = []; closed = false }) h.channels })

  abbrev pub close_channel : String → Hub M → Hub M
  close_channel id h = elim (lookup id h.channels) [
    | none ↦ record h { panicked = true }
    | some ch ↦
        if ch.closed
        then record h { panicked = true }
        else record h { channels = insert id (record ch { closed = true }) h.channels }
  ]

  unfoldable pub unregister : String → Hub M → Hub M
  unregister id h = elim (lookup id h.clients) [
    | none ↦ h
    | some c ↦ close_channel c.id (record h { clients = delete id h.clients })
  ]

  -- The buffer after an offer: a message that has no room is dropped.
  abbrev pub offered : M → Channel M → Channel M
  offered msg ch =
      if ltb (length ch.buffer) send_capacity
      then record ch { buffer = ch.buffer ++ msg ∷ [] }
      else ch

  -- The select of Broadcast for one client.
  unfoldable pub send : M → Client → Hub M → Hub M
  send msg c h = elim (lookup c.id h.channels) [
    | none ↦ h
    | some ch ↦
        if ch.closed
        then record h { panicked = true }
        else record h { channels = insert c.id (offered msg ch) h.channels }
  ]

  unfoldable pub send_all : M → List (String × Client) → Hub M → Hub M
  send_all msg [] h = h
  send_all msg ((id, c) ∷ rest) h = send_all msg rest (send msg c h)

  unfoldable pub broadcast : M → Hub M → Hub M
  broadcast msg h = send_all msg h.clients h

  -- The write pump takes the oldest message of its client's channel.
  unfoldable pub take_message : String → Hub M → Option M × Hub M
  take_message id h = elim (lookup id h.channels) [
    | none ↦ (none, h)
    | some ch ↦ (elim ch.buffer as (λ _. Option M × Hub M) [
      | [] ↦ (none, h)
      | msg ∷ rest ↦
          (some msg, record h { channels = insert id (record ch { buffer = rest }) h.channels })
    ])
  ]

  -- What the goroutines do to the hub, one at a time. The ids of uuid.New are new.
  pub data Step : Hub M → Hub M → Type 0 where
    connects :
        {h : Hub M} (fresh : String) → lookup fresh h.channels ≡ none → Step h (connect fresh h)
    disconnects : {h : Hub M} (id : String) → Step h (unregister id h)
    broadcasts : {h : Hub M} (msg : M) → Step h (broadcast msg h)
    takes : {h : Hub M} (id : String) → Step h (take_message id h).1

  pub data Reachable : Hub M → Type 0 where
    at_start : Reachable new_hub
    then_step : {h h' : Hub M} → Reachable h → Step h h' → Reachable h'
