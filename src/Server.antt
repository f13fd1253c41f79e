-- ===== src/Server.antt =====
-- replica/internal/server/handler.go: the HTTP handlers of a replica.
--
-- What is not the program's is a parameter: the JSON decoders of request bodies, where `none` is an
-- error, and `strconv.Atoi`. An answer is its status and its body before JSON; `aborted` is a panic
-- of the handler, which net/http stops.
pub mod Served
pub mod Mux
use smol_raft.Prelude.{ℕ, String, not, Option, none, some, List, [], ◌∷◌, str_eq, if◌then◌else◌}
use smol_raft.Types.{
  StrokeEvent, LogEntry, VoteRequest, VoteResponse, AppendEntriesRequest, AppendEntriesResponse,
  StatusResponse,
}
use smol_raft.Log.{ℤ, pos}
use smol_raft.Node.{Node, status}
use smol_raft.Election.{handle_vote_request}
use smol_raft.Replication.{
  Handled, replied, crashed, handle_append_entries, handle_stroke, get_sync_log,
}

abbrev pub Body : Type 0
Body = List ℕ

pub record HttpRequest : Type 0 where
  pub verb : String
  pub body : Body

pub data Answer {ℓ} (A : Type ℓ) : Type ℓ where
  refused : ℕ → Answer A
  served : ℕ → A → Answer A
  aborted : Answer A

pub data StrokeAnswer : Type 0 where
  accepted : StrokeAnswer
  not_the_leader : String → StrokeAnswer

-- What the handlers of POST requests begin with: 405 for another method, 400 for a bad body.
unfoldable pub post {ℓ κ} :
    {A : Type ℓ} {B : Type κ}
    → (Body → Option A)
    → (A → Node → Node × Answer B)
    → HttpRequest
    → Node
    → Node × Answer B
post decode serve r n =
    if not (str_eq r.verb "POST")
    then (n, refused 405)
    else elim (decode r.body) [ none ↦ (n, refused 400) | some a ↦ serve a n ]

unfoldable pub serve_vote : VoteRequest → Node → Node × Answer VoteResponse
serve_vote req n = let (m, resp) = handle_vote_request req n in (m, served 200 resp)

abbrev pub answer : Handled → Node × Answer AppendEntriesResponse
answer (replied m resp) = (m, served 200 resp)
answer (crashed m) = (m, aborted)

unfoldable pub serve_append : AppendEntriesRequest → Node → Node × Answer AppendEntriesResponse
serve_append req n = answer (handle_append_entries req n)

-- `req.Entries = nil`
unfoldable pub serve_heartbeat : AppendEntriesRequest → Node → Node × Answer AppendEntriesResponse
serve_heartbeat req n = serve_append (record req { entries = [] }) n

unfoldable pub serve_stroke : StrokeEvent → Node → Node × Answer StrokeAnswer
serve_stroke stroke n = elim (handle_stroke stroke n) [
  | none ↦ (n, served 503 (not_the_leader (status n).leader_id))
  | some m ↦ (m, served 202 accepted)
]

-- The requests to the handlers that may change the node.
pub data Call : Type 0 where
  request_vote append_entries heartbeat stroke : HttpRequest → Call

module _ (decode_vote : Body → Option VoteRequest)
    (decode_append : Body → Option AppendEntriesRequest) (decode_stroke : Body → Option StrokeEvent)
    (atoi : String → Option ℤ) where
  unfoldable pub http_request_vote : HttpRequest → Node → Node × Answer VoteResponse
  http_request_vote = post decode_vote serve_vote

  unfoldable pub http_append_entries : HttpRequest → Node → Node × Answer AppendEntriesResponse
  http_append_entries = post decode_append serve_append

  unfoldable pub http_heartbeat : HttpRequest → Node → Node × Answer AppendEntriesResponse
  http_heartbeat = post decode_append serve_heartbeat

  unfoldable pub http_stroke : HttpRequest → Node → Node × Answer StrokeAnswer
  http_stroke = post decode_stroke serve_stroke

  unfoldable pub http_status : Node → StatusResponse
  http_status n = status n

  -- The query parameter `from`, 0 where it is no number.
  unfoldable pub http_sync_log : String → Node → List LogEntry
  http_sync_log from n = get_sync_log (elim (atoi from) [ none ↦ pos 0 | some i ↦ i ]) n
