-- ===== src/WsGateway/Tests/Connections.antt =====
-- Tests of the connections' goroutines.
use iicpc_summer_hackathon.Prelude.{ℕ, ◌≡◌, refl, String, true}
use iicpc_summer_hackathon.Prelude.Dict.{lookup}
use iicpc_summer_hackathon.WsGateway.Clients.{Sound}
use iicpc_summer_hackathon.WsGateway.Streams.{
  Gateway, Running, started, accepted, published, moved, accept, publish, move, new_gateway,
  write_select,
}
use iicpc_summer_hackathon.WsGateway.Streams.Steps.{registered}
use iicpc_summer_hackathon.WsGateway.Streams.Registry.{Running-clients}

-- A client for which a message waits, and then one whose write pump has taken it.
abbrev served : Gateway ℕ
served = publish 7 (accept "a" new_gateway)

served-Running : Running served
unfolding lookup
served-Running = published 7 (accepted "a" started refl)

abbrev writes : Gateway ℕ
writes = move "a" (write_select true) served

writes-Running : Running writes
writes-Running = moved "a" (write_select true) served-Running

Running-clients_example :
    Sound writes.hub
    × ((k : String) → lookup k writes.hub.clients ≡ registered k (lookup k writes.streams))
Running-clients_example = Running-clients writes-Running
