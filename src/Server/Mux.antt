-- ===== src/Server/Mux.antt =====
-- replica/internal/server/server.go: which handler `NewServer` gives each path.
use smol_raft.Prelude.{Option, none, some, str_eq, if◌then◌else◌}
use smol_raft.Node.{Node, status}
use smol_raft.Rpc.{Url, Codec, HttpResponse}
use smol_raft.Server.{
  HttpRequest, Answer, refused, served, aborted, Body, http_request_vote, http_append_entries,
  http_heartbeat, http_stroke, http_status, http_sync_log,
}

module _ (c : Codec) where
  -- What the client gets; nothing after a panic, since net/http closes the connection.
  abbrev pub write {ℓ} : {A : Type ℓ} → (A → Body) → Answer A → Option HttpResponse
  write encode (refused code) = some (record { code = code; body = c.error_text code })
  write encode (served code a) = some (record { code = code; body = encode a })
  write encode aborted = none

  abbrev pub answered {ℓ} : {A : Type ℓ} → (A → Body) → Node × Answer A → Node × Option HttpResponse
  answered encode r = (r.0, write encode r.1)

  abbrev pub ok : Body → Option HttpResponse
  ok b = some (record { code = 200; body = b })

  -- The operational endpoints, which leave the node as it is.
  unfoldable pub serve_read : Url → Node → Option HttpResponse
  serve_read url n =
      if str_eq url.path "/status"
      then ok (c.encode_status (http_status c.decode_vote c.decode_append c.decode_stroke c.atoi n))
      else if str_eq url.path "/health"
      then ok c.health_text
      else if str_eq url.path "/metrics"
      then ok (c.metrics_text (status n))
      else if str_eq url.path "/sync-log"
      then ok (
          c.encode_entries
            (http_sync_log c.decode_vote c.decode_append c.decode_stroke c.atoi url.query n))
      else some (record { code = 404; body = c.error_text 404 })

  unfoldable pub serve_http : Url → HttpRequest → Node → Node × Option HttpResponse
  serve_http url r n =
      if str_eq url.path "/request-vote"
      then answered c.encode_voted
          (http_request_vote c.decode_vote c.decode_append c.decode_stroke c.atoi r n)
      else if str_eq url.path "/append-entries"
      then answered c.encode_appended
          (http_append_entries c.decode_vote c.decode_append c.decode_stroke c.atoi r n)
      else if str_eq url.path "/heartbeat"
      then answered c.encode_appended
          (http_heartbeat c.decode_vote c.decode_append c.decode_stroke c.atoi r n)
      else if str_eq url.path "/stroke"
      then answered c.encode_answer
          (http_stroke c.decode_vote c.decode_append c.decode_stroke c.atoi r n)
      else (n, serve_read url n)
