-- ===== src/CatchUp.antt =====
-- replica/internal/raft/replication.go, leader and follower together: rounds of `sendAppendEntries`
-- and `HandleAppendEntries` between a leader and one peer, with no other message between them.
pub mod Merge
pub mod Round
pub mod Ends
use smol_raft.Prelude.{ℕ, zero, suc, String, Option, none, some, if◌then◌else◌}
use smol_raft.Node.{Node}
use smol_raft.Replication.{replied, crashed, make_request, handle_append_entries, receive_reply}

-- The leader n and the peer m after the round that the peer accepts; `none` if a request cannot be
-- made, the peer panics, or the rounds run out.
unfoldable pub catch_up : ℕ → String → Node → Node → Option (Node × Node)
catch_up zero peer n m = none
catch_up (suc rounds) peer n m = elim (make_request peer n) [
  | none ↦ none
  | some req ↦ elim (handle_append_entries req m) [
    | crashed m' ↦ none
    | replied m' r ↦
        let n' = receive_reply peer req (some r) n in
        let rest = catch_up rounds peer n' m' in if r.success then some (n', m') else rest
  ]
]
