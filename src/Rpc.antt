-- ===== src/Rpc.antt =====
-- replica/internal/raft/rpc.go: the calls of `HTTPRPCClient`.
--
-- What is not the program's is a parameter: `is_url` tells what `NewRequestWithContext` accepts, `send`
-- is `client.Do`, which acts on a state of the other side and gets a response or an error (`none`), and
-- the JSON encoders and decoders, collected in `Codec`, where `none` is an error. What a call returns
-- beside an error, which its callers never read, is left out.
pub mod Reaches
use smol_raft.Prelude.{ℕ, Bool, String, not, Option, none, some, List, [], ◌==◌, if◌then◌else◌}
use smol_raft.Types.{
  StrokeEvent, LogEntry, VoteRequest, VoteResponse, AppendEntriesRequest, AppendEntriesResponse,
  StatusResponse, CommitNotification,
}
use smol_raft.Log.{ℤ}
use smol_raft.Server.{Body, HttpRequest, StrokeAnswer}

-- `http://addr/path?from=query`, or without a query where it is "".
pub record Url : Type 0 where
  pub addr : String
  pub path : String
  pub query : String

pub record HttpResponse : Type 0 where
  pub code : ℕ
  pub body : Body

-- What encodes and decodes the bodies, at both sides. The texts of errors, of health and of metrics
-- are what the handlers write there.
pub record Codec : Type 0 where
  pub encode_vote : VoteRequest → Option Body
  pub decode_vote : Body → Option VoteRequest
  pub encode_voted : VoteResponse → Body
  pub decode_voted : Body → Option VoteResponse
  pub encode_append : AppendEntriesRequest → Option Body
  pub decode_append : Body → Option AppendEntriesRequest
  pub encode_appended : AppendEntriesResponse → Body
  pub decode_appended : Body → Option AppendEntriesResponse
  pub encode_commit : CommitNotification → Option Body
  pub decode_commit : Body → Option CommitNotification
  pub encode_entries : List LogEntry → Body
  pub decode_entries : Body → Option (List LogEntry)
  pub decode_stroke : Body → Option StrokeEvent
  pub encode_answer : StrokeAnswer → Body
  pub encode_status : StatusResponse → Body
  pub metrics_text : StatusResponse → Body
  pub error_text : ℕ → Body
  pub health_text : Body
  pub format_int : ℤ → String
  pub atoi : String → Option ℤ

pub data RpcError : Type 0 where
  marshal_request create_request send_request decode_response : RpcError
  unexpected_status : ℕ → RpcError

pub data Got {ℓ} (A : Type ℓ) : Type ℓ where
  failed : RpcError → Got A
  got : A → Got A

abbrev pub Send : Type 0 → Type 0
Send S = Url → HttpRequest → S → S × Option HttpResponse

-- A body that is not read, where `respBody` is nil.
pub data Unread : Type 0 where
  unread : Unread

abbrev pub read_nothing : Body → Option Unread
read_nothing b = some unread

-- The test of the response, then its decoding.
unfoldable pub read_response {ℓ} : {A : Type ℓ} → (Body → Option A) → Option HttpResponse → Got A
read_response read none = failed send_request
read_response read (some resp) =
    if not (resp.code == 200)
    then failed (unexpected_status resp.code)
    else elim (read resp.body) [ none ↦ failed decode_response | some a ↦ got a ]

module _ {S : Type 0} (is_url : Url → Bool) (send : Send S) where
  -- From the making of the request on.
  unfoldable pub do_request {ℓ} :
      {A : Type ℓ} → (Body → Option A) → Url → HttpRequest → S → S × Got A
  do_request read url req s =
      if not (is_url url)
      then (s, failed create_request)
      else (let r = send url req s in (r.0, read_response read r.1))

  unfoldable pub do_post {ℓ} : {A : Type ℓ} → (Body → Option A) → Url → Option Body → S → S × Got A
  do_post read url body s = elim body [
    | none ↦ (s, failed marshal_request)
    | some b ↦ do_request read url (record { verb = "POST"; body = b }) s
  ]

  unfoldable pub request_vote : Codec → String → VoteRequest → S → S × Got VoteResponse
  request_vote c addr req s =
      do_post c.decode_voted (record { addr = addr; path = "/request-vote"; query = "" })
        (c.encode_vote req) s

  unfoldable pub append_entries :
      Codec → String → AppendEntriesRequest → S → S × Got AppendEntriesResponse
  append_entries c addr req s =
      do_post c.decode_appended (record { addr = addr; path = "/append-entries"; query = "" })
        (c.encode_append req) s

  unfoldable pub notify_commit : Codec → String → CommitNotification → S → S × Got Unread
  notify_commit c addr notification s =
      do_post read_nothing (record { addr = addr; path = "/commit"; query = "" })
        (c.encode_commit notification) s

  unfoldable pub fetch_sync_log : Codec → String → ℤ → S → S × Got (List LogEntry)
  fetch_sync_log c addr from_index s =
      do_request c.decode_entries
        (record { addr = addr; path = "/sync-log"; query = c.format_int from_index })
        (record { verb = "GET"; body = [] }) s
