-- ===== src/Forward.antt =====
-- gateway/internal/gateway/handler.go: forwarding a stroke to the leader, with one retry.
--
-- What is not the program's is a parameter: `encode` is `json.Marshal`, and `post k addr` is what the
-- k-th POST of a run gets from addr, a status or `none` for an error. The polls of the tracker are
-- counted as in Tracker.
pub mod Failover
use smol_raft.Prelude.{ℕ, suc, String, Bool, not, Option, none, some, ◌==◌, str_eq, if◌then◌else◌}
use smol_raft.Types.{StrokeEvent}
use smol_raft.Tracker.{Fetch, Tracker, poll}
use smol_raft.Hub.{Bytes}

abbrev pub Post : Type 0
Post = ℕ → String → Bytes → Option ℕ

pub data ForwardError : Type 0 where
  no_known_leader marshal_failed post_failed not_leader_anymore : ForwardError
  leader_returned : ℕ → ForwardError

-- The test of the response; `none` is the nil error. 503 and 202 are `StatusServiceUnavailable` and
-- `StatusAccepted`.
abbrev pub check_status : Option ℕ → Option ForwardError
check_status none = some post_failed
check_status (some s) =
    if s == 503
    then some not_leader_anymore
    else if not (s == 202)
    then some (leader_returned s)
    else none

-- The tracker and the numbers of the next poll's first call and of the next POST, with the error.
pub record Forwarded : Type 0 where
  pub tracker : Tracker
  pub polls : ℕ
  pub posts : ℕ
  pub error : Option ForwardError

module _ (fetch : Fetch) (post : Post) (encode : StrokeEvent → Option Bytes) where
  -- The error, and the number of the next POST.
  unfoldable pub forward_to_leader_addr : StrokeEvent → String → ℕ → Option ForwardError × ℕ
  forward_to_leader_addr stroke addr k =
      if str_eq addr "" then (some no_known_leader, k) else elim (encode stroke) [
        | none ↦ (some marshal_failed, k)
        | some m ↦ (check_status (post k addr m), suc k)
      ]

  unfoldable pub forward_to_leader : StrokeEvent → Tracker → ℕ → ℕ → Forwarded
  forward_to_leader stroke t polls posts =
      let first = forward_to_leader_addr stroke t.leader_addr posts in
      let p = poll fetch t polls in
      let second = forward_to_leader_addr stroke p.0.leader_addr first.1 in
      elim first.0 [
        | none ↦ record { tracker = t; polls = polls; posts = first.1; error = none }
        | some e ↦ record { tracker = p.0; polls = p.1; posts = second.1; error = second.0 }
      ]
