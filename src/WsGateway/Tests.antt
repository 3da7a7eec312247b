-- ===== src/WsGateway/Tests.antt =====
-- Tests of the hub.
mod Connections
use mathlib.Core.Option
use iicpc_summer_hackathon.Prelude.{ℕ, ◌≡◌, refl, if◌then◌else◌, List, [], ◌∷◌, ◌++◌, arith}
use iicpc_summer_hackathon.Prelude.Dict.{lookup, insert}
use iicpc_summer_hackathon.WsGateway.{
  Hub, new_hub, connect, register, unregister, send, send_all, broadcast, take_message, connects,
  disconnects, broadcasts, takes, Reachable, at_start, then_step,
}
use iicpc_summer_hackathon.WsGateway.Clients.{Sound}
use iicpc_summer_hackathon.WsGateway.Delivery.{
  Event, message, pump, waiting, run_events, frames, frames_lem,
}
use iicpc_summer_hackathon.WsGateway.Safety.{Reachable-Sound}

abbrev one_client : Hub ℕ
one_client = broadcast 7 (connect "a" new_hub)

one_client-Reachable : Reachable one_client
unfolding lookup
one_client-Reachable = then_step (then_step at_start (connects "a" refl)) (broadcasts 7)

abbrev parted : Hub ℕ
parted = unregister "a" (take_message "a" (connect "b" one_client)).1

parted-Reachable : Reachable parted
unfolding lookup insert broadcast send_all send connect register
parted-Reachable =
    then_step (then_step (then_step one_client-Reachable (connects "b" refl)) (takes "a"))
      (disconnects "a")

Reachable-Sound_example : Sound parted
Reachable-Sound_example = Reachable-Sound parted-Reachable

abbrev feed : List (Event ℕ)
feed = message 8 ∷ pump "a" ∷ message 9 ∷ pump "b" ∷ []

frames_lem_example :
    frames "a" feed one_client ++ waiting "a" (run_events feed one_client)
    ≡ waiting "a" one_client ++ 8 ∷ 9 ∷ []
unfolding lookup broadcast send_all send connect register insert
frames_lem_example =
    frames_lem "a" (record { id = "a" }) feed one_client (Reachable-Sound one_client-Reachable) refl
      (omega arith)
