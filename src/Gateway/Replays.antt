-- ===== src/Gateway/Replays.antt =====
-- The history that a new client gets.
use smol_raft.Prelude.{
  ℕ, ◌≤◌, ◌≡◌, ◌≢◌, ap, false, Bool-cases, inl, inr, String, Option, some, ◌++◌, take, length,
  str_eq, str_eq_iff,
}
use smol_raft.Types.{WsMessage}
use smol_raft.Log.{done, pos}
use smol_raft.Node.{Node}
use smol_raft.Replication.{get_sync_log}
use smol_raft.Server.{http_sync_log}
use smol_raft.Server.Mux.{serve_http, serve_read}
use smol_raft.Rpc.{Codec}
use smol_raft.Hub.{Bytes, Channel}
use smol_raft.Hub.Sends.{encoded, replay-fills}
use smol_raft.Tracker.{Fetch, Tracker}
use smol_raft.Gateway.{known_leader, get_history, replay_history}

is_named : (a : String) → a ≢ "" → str_eq a "" ≡ false
is_named a n = elim (Bool-cases (str_eq a "")) [
  | inl t ↦ absurd (n ((str_eq_iff a "").0 t))
  | inr f ↦ f
]

module _ (fetch : Fetch) (c : Codec) (encode_ws : WsMessage → Option Bytes) (n : Node) where
  get_history-served :
      (addr : String)
      → c.atoi "1" ≡ some (pos 1)
      → c.decode_entries (c.encode_entries (get_sync_log (pos 1) n)) ≡ some (get_sync_log (pos 1) n)
      → get_history fetch (serve_http c) c encode_ws addr n ≡ (n, some (get_sync_log (pos 1) n))
  unfolding get_history serve_http serve_read http_sync_log
  get_history-served addr a d = rw (a, d)

  -- If a leader is known, or found by one poll, and the replica at its address has the node n, then the
  -- open channel of a new client gets the messages of n's committed strokes in order, up to the
  -- channel's capacity, where nobody reads meanwhile, and the node is as it was.
  pub replay_history-fills :
      (t : Tracker) (polls : ℕ) (ch : Channel)
      → (known_leader fetch (serve_http c) c encode_ws t polls).0.leader_addr ≢ ""
      → c.atoi "1" ≡ some (pos 1)
      → c.decode_entries (c.encode_entries (get_sync_log (pos 1) n)) ≡ some (get_sync_log (pos 1) n)
      → ch.closed ≡ false
      → length ch.queue ≤ 256
      → replay_history fetch (serve_http c) c encode_ws t polls n ch ≡ (
        n,
        done (record ch {
          queue = take 256 (ch.queue ++ encoded encode_ws (get_sync_log (pos 1) n));
        }),
      )
  unfolding replay_history
  replay_history-fills t polls ch known a d o short =
      rw
        (
          is_named (known_leader fetch (serve_http c) c encode_ws t polls).0.leader_addr known,
          get_history-served (known_leader fetch (serve_http c) c encode_ws t polls).0.leader_addr a
              d,
        )
        (ap (λ r. (n, r)) (replay-fills encode_ws (get_sync_log (pos 1) n) ch o short))
