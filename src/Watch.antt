-- ===== src/Watch.antt =====
-- gateway/internal/leader/tracker.go: `fetchStatus` over HTTP, and the loop of `Start`.
--
-- As in Rpc, `is_url` and `send` are the HTTP client's, where a timeout is an error, and `decode_status`
-- is the JSON decoder.
pub mod Finds
use smol_raft.Prelude.{
  ℕ, zero, suc, String, Bool, not, Option, none, some, List, [], ◌==◌, if◌then◌else◌,
}
use smol_raft.Types.{StatusResponse}
use smol_raft.Node.{Node}
use smol_raft.Server.{Body}
use smol_raft.Server.Mux.{serve_http}
use smol_raft.Rpc.{Url, HttpResponse, Codec, Send}
use smol_raft.Tracker.{Fetch, Tracker, poll}

-- `http://addr/status`
abbrev pub status_url : String → Url
status_url addr = record { addr = addr; path = "/status"; query = "" }

abbrev pub read_status :
    (Body → Option StatusResponse) → Option HttpResponse → Option StatusResponse
read_status decode_status none = none
read_status decode_status (some resp) =
    if not (resp.code == 200) then none else decode_status resp.body

-- `none` is an error.
unfoldable pub fetch_status :
    {S : Type 0}
    → (Url → Bool)
    → Send S
    → (Body → Option StatusResponse)
    → String
    → S
    → S × Option StatusResponse
fetch_status is_url send decode_status addr s =
    if not (is_url (status_url addr))
    then (s, none)
    else (let r = send (status_url addr) (record { verb = "GET"; body = [] }) s in
        (r.0, read_status decode_status r.1))

-- The answers of replicas: `nodes k addr` is the node at addr when the k-th call reaches it, `none` if
-- the call fails.
unfoldable pub fetch_from :
    (Url → Bool) → Codec → (Body → Option StatusResponse) → (ℕ → String → Option Node) → Fetch
fetch_from is_url c decode_status nodes k addr = elim (nodes k addr) [
  | none ↦ none
  | some n ↦ (fetch_status is_url (serve_http c) decode_status addr n).1
]

module _ (fetch : Fetch) where
  -- The loop of `Start`, with the ticks that come before the context is cancelled.
  unfoldable pub poll_ticks : ℕ → Tracker × ℕ → Tracker × ℕ
  poll_ticks zero r = r
  poll_ticks (suc ticks) r = poll_ticks ticks (poll fetch r.0 r.1)

  unfoldable pub watch : ℕ → Tracker → ℕ → Tracker × ℕ
  watch ticks t k = poll_ticks ticks (poll fetch t k)
