-- ===== src/Gateway.antt =====
-- gateway/internal/gateway/handler.go and server.go: the HTTP handlers of the gateway, the fetch of the
-- history for a new client, and the loop that reads a client's messages.
--
-- The encoders are parameters, as in Rpc, and so are the answers of the replicas, as in Forward and
-- Tracker. The request log of `NewServer` is left out, and so is `/ws`, which is `connect` of Hub.
pub mod Commits
pub mod Replays
pub mod Pump
use smol_raft.Prelude.{
  ℕ, String, Bool, true, false, not, Option, none, some, List, [], ◌∷◌, str_eq, if◌then◌else◌,
}
use smol_raft.Types.{StrokeEvent, LogEntry, CommitNotification, stroke_payload, WsMessage}
use smol_raft.Log.{Outcome, done, map_outcome, ◌>>=◌}
use smol_raft.Server.{Body, HttpRequest}
use smol_raft.Rpc.{Send, Url, HttpResponse, Codec}
use smol_raft.Hub.{
  Bytes, Channel, Hub, Event, run, broadcast, client_count, on_unregister, send_error, replay,
}
use smol_raft.Tracker.{Fetch, Tracker, poll}
use smol_raft.Forward.{Post, forward_to_leader}

-- What the gateway writes besides.
pub record Writers : Type 0 where
  pub encode_ws : WsMessage → Option Bytes
  pub encode_gateway_status : String → ℕ → Body
  pub encode_leader : String → Body
  pub clients_text : ℕ → Body

abbrev pub reply : ℕ → Body → HttpResponse
reply code b = record { code = code; body = b }

module _ (c : Codec) (w : Writers) where
  abbrev pub refuse : ℕ → HttpResponse
  refuse code = reply code (c.error_text code)

  unfoldable pub broadcast_stroke : StrokeEvent → Hub → Hub × HttpResponse
  broadcast_stroke stroke h =
      elim (w.encode_ws (record { kind = "stroke"; payload = stroke_payload stroke })) [
        | none ↦ (h, refuse 500)
        | some data' ↦ (broadcast data' h, reply 200 [])
      ]

  unfoldable pub handle_commit : HttpRequest → Hub → Hub × HttpResponse
  handle_commit r h =
      if not (str_eq r.verb "POST") then (h, refuse 405) else elim (c.decode_commit r.body) [
        | none ↦ (h, refuse 400)
        | some notification ↦ broadcast_stroke notification.stroke h
      ]

  -- The endpoints that read, with the tracker's leader.
  unfoldable pub serve_status : Url → String → Hub → HttpResponse
  serve_status url leader_addr h =
      if str_eq url.path "/health"
      then reply 200 c.health_text
      else if str_eq url.path "/status"
      then reply 200 (w.encode_gateway_status leader_addr (client_count h))
      else if str_eq url.path "/leader"
      then reply 200 (w.encode_leader leader_addr)
      else if str_eq url.path "/metrics"
      then reply 200 (w.clients_text (client_count h))
      else refuse 404

  unfoldable pub serve_gateway : String → Url → HttpRequest → Hub → Hub × Option HttpResponse
  serve_gateway leader_addr url r h =
      if str_eq url.path "/commit"
      then (let a = handle_commit r h in (a.0, some a.1))
      else (h, some (serve_status url leader_addr h))

-- The hub and the tracker, with the numbers of the next poll's first call and of the next POST.
pub record Session : Type 0 where
  pub hub : Hub
  pub tracker : Tracker
  pub polls : ℕ
  pub posts : ℕ

abbrev pub with_hub : Session → Outcome Hub → Outcome Session
with_hub s o = map_outcome (λ h. record s { hub = h }) o

module _ (fetch : Fetch) (post : Post) (encode_stroke : StrokeEvent → Option Bytes)
    (decode_stroke : Bytes → Option StrokeEvent) (encode_ws : WsMessage → Option Bytes) where
  -- The end of a round of `readPump`.
  unfoldable pub submit : ℕ → StrokeEvent → Session → Outcome Session
  submit client stroke s =
      let f = forward_to_leader fetch post encode_stroke stroke s.tracker s.polls s.posts in
      let after = record s { tracker = f.tracker; polls = f.polls; posts = f.posts } in
      elim f.error [
        | none ↦ done after
        | some e ↦ with_hub after (send_error encode_ws client "failed to submit stroke" s.hub)
      ]

  unfoldable pub pump_one : ℕ → Bytes → Session → Outcome Session
  pump_one client message s = elim (decode_stroke message) [
    | none ↦ with_hub s (send_error encode_ws client "invalid stroke data" s.hub)
    | some stroke ↦ submit client stroke s
  ]

  -- The messages that are read before `ReadMessage` fails, after which the client is unregistered.
  -- The hub runs meanwhile: each message comes with what happens there until the message is dealt
  -- with, also while the POSTs wait, which leave the hub alone; `last` happens before the end. The
  -- tracker is polled by this loop alone.
  unfoldable pub read_pump : ℕ → List (List Event × Bytes) → List Event → Session → Outcome Session
  read_pump client [] last s = with_hub s (run last s.hub >>= λ h. on_unregister client h)
  read_pump client ((es, m) ∷ ms) last s = with_hub s (run es s.hub) >>= λ s'.
      pump_one client m s' >>= λ s''. read_pump client ms last s''

-- The history for a new client, from the leader's replica. The status of its answer is not tested.
module _ {S : Type 0} (fetch : Fetch) (send : Send S) (c : Codec)
    (encode_ws : WsMessage → Option Bytes) where
  unfoldable pub known_leader : Tracker → ℕ → Tracker × ℕ
  known_leader t polls = if str_eq t.leader_addr "" then poll fetch t polls else (t, polls)

  unfoldable pub get_history : String → S → S × Option (List LogEntry)
  get_history addr s =
      let r =
        send (record { addr = addr; path = "/sync-log"; query = "1" })
          (record { verb = "GET"; body = [] }) s in
      (r.0, elim r.1 [ none ↦ none | some resp ↦ c.decode_entries resp.body ])

  -- The replica's side and the client's channel afterwards.
  unfoldable pub replay_history : Tracker → ℕ → S → Channel → S × Outcome Channel
  replay_history t polls s ch =
      let addr = (known_leader t polls).0.leader_addr in
      if str_eq addr ""
      then (s, done ch)
      else (let r = get_history addr s in
          (r.0, elim r.1 [ none ↦ done ch | some es ↦ replay encode_ws es ch ]))
