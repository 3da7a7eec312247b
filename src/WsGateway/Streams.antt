-- ===== src/WsGateway/Streams.antt =====
-- streamHandler of services/ws-gateway/main.go: the connection of each client and its three
-- goroutines, the write pump, the ping ticker and the read pump, which move one step at a time in any
-- order. The WebSocket library is a parameter: whether a read, a write or a ping comes out well is
-- told with the step, and on a connection that is closed it never does. Deadlines are among the
-- reasons why one fails. A write has a beginning and an end; where two are
-- under way at once the library may panic, which ends the process, and the steps are those of a process
-- that goes on.
use mathlib.Core.Option
use iicpc_summer_hackathon.Prelude.{
  String, ◌≡◌, Bool, true, false, List, [], ◌∷◌, Option, none, some, if◌then◌else◌, ◌&&◌,
}
use iicpc_summer_hackathon.Prelude.Dict.{Dict, lookup, insert}
use iicpc_summer_hackathon.WsGateway.{
  Channel, Hub, new_hub, connect, unregister, broadcast, take_message,
}
pub mod Steps
pub mod Registry
pub mod Overlap

-- The write pump: at its select, in WriteMessage, or returned.
pub data Writer (M : Type 0) : Type 0 where
  selecting : Writer M
  writing : M → Writer M
  stopped : Writer M

pub data Pinger : Type 0 where
  ticking pinging silent : Pinger

-- The read pump: in ReadMessage, and behind the loop before close(done), before Unregister, before
-- conn.Close, and returned.
pub data Reader : Type 0 where
  reading closing leaving parting gone : Reader

-- `done` is true once the channel is closed, `connected` until conn.Close.
pub record Stream (M : Type 0) : Type 0 where
  pub writer : Writer M
  pub pinger : Pinger
  pub reader : Reader
  pub done : Bool
  pub connected : Bool

-- The clients' streams, by the id of the client.
pub record Gateway (M : Type 0) : Type 0 where
  pub hub : Hub M
  pub streams : Dict (Stream M)

-- A step of one of the goroutines: the read that returns, well or not; the next statement behind the
-- read pump's loop; the select of the write pump, which takes a message or else looks at done; the
-- write that returns; the select of the ping ticker, and the ping that returns.
pub data Action : Type 0 where
  read_ends : Bool → Action
  clean_up : Action
  write_select : Bool → Action
  write_ends : Bool → Action
  ping_select : Bool → Action
  ping_ends : Bool → Action

module _ {M : Type 0} where
  abbrev pub new_stream : Stream M
  new_stream = record {
    writer = selecting;
    pinger = ticking;
    reader = reading;
    done = false;
    connected = true;
  }

  -- The write pump's return, with its deferred conn.Close.
  abbrev pub stop_writer : Stream M → Stream M
  stop_writer st = record st { writer = stopped; connected = false }

  abbrev pub on_read : Bool → Reader → Stream M → Stream M
  on_read ok reading st = if ok && st.connected then st else record st { reader = closing }
  on_read ok _ st = st

  abbrev pub on_clean_up : String → Reader → Hub M → Stream M → Hub M × Stream M
  on_clean_up id closing h st = (h, record st { done = true; reader = leaving })
  on_clean_up id leaving h st = (unregister id h, record st { reader = parting })
  on_clean_up id parting h st = (h, record st { connected = false; reader = gone })
  on_clean_up id _ h st = (h, st)

  abbrev pub is_closed : Option (Channel M) → Bool
  is_closed none = false
  is_closed (some ch) = ch.closed

  -- What the write pump received: a closed channel gives no message once its buffer is empty, and an
  -- open one makes it wait.
  abbrev pub received : Option M → Bool → Stream M → Stream M
  received (some msg) closed st = record st { writer = writing msg }
  received none true st = stop_writer st
  received none false st = st

  abbrev pub select_one : Bool → String → Hub M → Stream M → Hub M × Stream M
  select_one true id h st =
      let (o, h') = take_message id h in (h', received o (is_closed (lookup id h.channels)) st)
  select_one false id h st = (h, if st.done then stop_writer st else st)

  abbrev pub on_select : Bool → String → Writer M → Hub M → Stream M → Hub M × Stream M
  on_select message id selecting h st = select_one message id h st
  on_select message id (writing msg) h st = (h, st)
  on_select message id stopped h st = (h, st)

  abbrev pub on_written : Bool → Writer M → Stream M → Stream M
  on_written ok (writing msg) st =
      if ok && st.connected then record st { writer = selecting } else stop_writer st
  on_written ok _ st = st

  abbrev pub on_tick : Bool → Pinger → Stream M → Stream M
  on_tick tick ticking st =
      if tick
      then record st { pinger = pinging }
      else if st.done
      then record st { pinger = silent }
      else st
  on_tick tick pinging st = st
  on_tick tick silent st = st

  abbrev pub on_pinged : Bool → Pinger → Stream M → Stream M
  on_pinged ok pinging st =
      if ok && st.connected then record st { pinger = ticking } else record st { pinger = silent }
  on_pinged ok _ st = st

  unfoldable pub act : String → Action → Hub M → Stream M → Hub M × Stream M
  unfolding take_message unregister
  act id (read_ends ok) h st = (h, on_read ok st.reader st)
  act id clean_up h st = on_clean_up id st.reader h st
  act id (write_select message) h st = on_select message id st.writer h st
  act id (write_ends ok) h st = (h, on_written ok st.writer st)
  act id (ping_select tick) h st = (h, on_tick tick st.pinger st)
  act id (ping_ends ok) h st = (h, on_pinged ok st.pinger st)

  abbrev pub new_gateway : Gateway M
  new_gateway = record { hub = new_hub; streams = [] }

  -- An upgrade that comes out well; one that fails changes nothing.
  unfoldable pub accept : String → Gateway M → Gateway M
  unfolding connect
  accept fresh g = record { hub = connect fresh g.hub; streams = insert fresh new_stream g.streams }

  abbrev pub act_on : String → Action → Option (Stream M) → Gateway M → Gateway M
  act_on id a none g = g
  act_on id a (some st) g =
      let (h, st') = act id a g.hub st in record { hub = h; streams = insert id st' g.streams }

  unfoldable pub move : String → Action → Gateway M → Gateway M
  unfolding act
  move id a g = act_on id a (lookup id g.streams) g

  unfoldable pub moves : String → List Action → Gateway M → Gateway M
  unfolding move
  moves id [] g = g
  moves id (a ∷ rest) g = moves id rest (move id a g)

  abbrev pub publish : M → Gateway M → Gateway M
  publish msg g = record g { hub = broadcast msg g.hub }

  -- Every gateway that connections, messages of Redis and steps of the goroutines lead to. The ids of
  -- uuid.New are new.
  pub data Running : Gateway M → Type 0 where
    started : Running new_gateway
    accepted :
        {g : Gateway M} (fresh : String)
        → Running g
        → lookup fresh g.streams ≡ none
        → Running (accept fresh g)
    published : {g : Gateway M} (msg : M) → Running g → Running (publish msg g)
    moved : {g : Gateway M} (id : String) (a : Action) → Running g → Running (move id a g)
