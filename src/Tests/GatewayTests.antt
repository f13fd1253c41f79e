-- ===== src/Tests/GatewayTests.antt =====
-- gateway/internal/gateway/handler.go with a replica and one client.
use smol_raft.Prelude.{
  In, List, ◌+◌, ◌*◌, ◌≡◌, ◌≢◌, refl, false, Option, none, some, [], ◌∷◌, ◌++◌, take, arith,
  str_eq_iff,
}
use mathlib.Core.Bool.{false≢true}
use smol_raft.Types.{StrokeEvent, zero_stroke, WsMessage}
use smol_raft.Log.{done, pos}
use smol_raft.Replication.{get_sync_log}
use smol_raft.Server.Mux.{serve_http}
use smol_raft.Rpc.{got, unread, notify_commit}
use smol_raft.Hub.{
  Bytes, Hub, Event, connects, round, unregisters, broadcasts, open_channel, new_hub,
}
use smol_raft.Hub.Sound.{IsSound}
use smol_raft.Hub.Sends.{encoded}
use smol_raft.Gateway.{Writers, Session, serve_gateway, known_leader, replay_history, read_pump}
use smol_raft.Gateway.Commits.{Queued, notify_commit-broadcasts}
use smol_raft.Gateway.Replays.{replay_history-fills}
use smol_raft.Gateway.Pump.{PumpEnd, meanwhile, read_pump-ends}
use smol_raft.Tests.Samples.{node_a}
use smol_raft.Tests.RpcTests.{codec, any_url, told, history_read}
use smol_raft.Tests.TrackerTests.{answers, tracker}

abbrev one_byte : WsMessage → Option Bytes
one_byte m = some (1 ∷ [])

abbrev writers : Writers
writers = record {
  encode_ws = one_byte;
  encode_gateway_status = λ a n. n ∷ [];
  encode_leader = λ a. [];
  clients_text = λ n. n ∷ [];
}

notify_commit-broadcasts_example :
    (h' : Hub) × (notify_commit any_url (serve_gateway codec writers "r3") codec "gw" told new_hub
      ≡ (h', got unread))
    × Queued (1 ∷ []) new_hub h'
notify_commit-broadcasts_example =
    notify_commit-broadcasts codec writers any_url "gw" "r3" told (9 ∷ []) (1 ∷ []) new_hub refl
      refl refl refl

cached : (known_leader answers (serve_http codec) codec one_byte tracker 0).0.leader_addr ≢ ""
unfolding known_leader
cached e = false≢true ((str_eq_iff "r3" "").1 e)

replay_history-fills_example :
    replay_history answers (serve_http codec) codec one_byte tracker 0 node_a open_channel ≡ (
      node_a,
      done (record {
        queue = take 256 ([] ++ encoded one_byte (get_sync_log (pos 1) node_a));
        closed = false;
      }),
    )
replay_history-fills_example =
    replay_history-fills answers codec one_byte node_a tracker 0 open_channel cached refl
      history_read refl (omega arith)

-- Two clients are registered.
abbrev session : Session
session = record {
  hub = record {
    clients = 1 ∷ 0 ∷ [];
    channel = λ c. open_channel;
    broadcast_ch = [];
    slow = [];
    next_client = 2;
  };
  tracker = tracker;
  polls = 0;
  posts = 0;
}

-- An empty message is no stroke.
abbrev read_stroke : Bytes → Option StrokeEvent
read_stroke [] = none
read_stroke (b ∷ bs) = some zero_stroke

abbrev one_stroke : StrokeEvent → Option Bytes
one_stroke s = some (1 ∷ [])

-- While the first message is dealt with another client connects, and the hub unregisters client 1 before
-- the end.
abbrev reads : List (List Event × Bytes)
reads = (connects ∷ broadcasts (4 ∷ []) ∷ [], 5 ∷ []) ∷ (round ∷ [], []) ∷ []

session-IsSound : IsSound session.hub
session-IsSound = record {
  once = (refl, (refl, tt));
  unclosed = λ c e. refl;
  known = λ c e. ground arith;
  short = λ c. omega arith;
  broadcasts_short = omega arith;
}

read_pump-ends_example :
    PumpEnd answers
      (λ k a m. some 503)
      one_stroke
      read_stroke
      one_byte
      1
      (In (unregisters 1) (meanwhile reads (unregisters 1 ∷ [])))
      (0 + 2 * 2)
      (read_pump answers
        (λ k a m. some 503)
        one_stroke
        read_stroke
        one_byte
        1
        reads
        (unregisters 1 ∷ [])
        session)
read_pump-ends_example =
    read_pump-ends answers (λ k a m. some 503) one_stroke read_stroke one_byte 1 reads
      (unregisters 1 ∷ []) session session-IsSound refl
