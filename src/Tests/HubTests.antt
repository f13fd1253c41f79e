-- ===== src/Tests/HubTests.antt =====
-- gateway/internal/gateway/hub.go with a few clients.
use smol_raft.Prelude.{◌≡◌, refl, List, [], ◌∷◌, Option, some, arith}
use smol_raft.Types.{WsMessage}
use smol_raft.Log.{done, panicked}
use smol_raft.Hub.{
  Bytes, open_channel, Hub, Event, connects, unregisters, broadcasts, round, takes, new_hub, run,
  on_broadcast, on_unregister, send_error,
}
use smol_raft.Hub.Round.{Delivered, on_broadcast-Delivered}
use smol_raft.Hub.Sound.{IsSound, run-IsSound}
use smol_raft.Hub.Sends.{send_error-unregistered}

abbrev busy_day : List Event
busy_day =
    connects
    ∷ connects
    ∷ broadcasts (7 ∷ [])
    ∷ round
    ∷ takes 0
    ∷ unregisters 0
    ∷ unregisters 0
    ∷ round
    ∷ []

run-IsSound_example : (h : Hub) × (run busy_day new_hub ≡ done h) × IsSound h
run-IsSound_example = run-IsSound busy_day

-- Clients 0 and 1 are registered, and a message waits.
abbrev waiting : Hub
waiting = record {
  clients = 1 ∷ 0 ∷ [];
  channel = λ c. open_channel;
  broadcast_ch = (7 ∷ []) ∷ [];
  slow = [];
  next_client = 2;
}

on_broadcast-Delivered_example :
    (h' : Hub) × (on_broadcast waiting ≡ done h')
    × Delivered (7 ∷ []) (1 ∷ 0 ∷ []) (record waiting { broadcast_ch = [] }) h'
on_broadcast-Delivered_example =
    on_broadcast-Delivered waiting (7 ∷ []) [] (refl, (refl, tt)) (λ c e. refl) refl

waiting-IsSound : IsSound waiting
waiting-IsSound = record {
  once = (refl, (refl, tt));
  unclosed = λ c e. refl;
  known = λ c e. ground arith;
  short = λ c. omega arith;
  broadcasts_short = omega arith;
}

-- A marshaller for the tests: every message is one byte.
abbrev one_byte : WsMessage → Option Bytes
one_byte m = some (1 ∷ [])

send_error-unregistered_example :
    (h' : Hub) × (on_unregister 1 waiting ≡ done h')
    × (send_error one_byte 1 "invalid stroke data" h' ≡ panicked h')
send_error-unregistered_example =
    send_error-unregistered one_byte waiting 1 "invalid stroke data" (1 ∷ []) waiting-IsSound refl
      refl
