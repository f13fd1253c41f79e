-- ===== src/Steps/Invariant.antt =====
-- The invariant of a node, from its creation on.
pub mod Defs
mod Roles
mod Entries
pub use Defs.{Inv, ArePositive}
pub use Entries.{kept_index}
use Defs.{new_node-Inv}
use Roles.{vote-Inv, timeout-Inv, ballot-Inv, elect-Inv}
use Entries.{append-Inv, reply-Inv, stroke-Inv, apply-Inv}
use smol_raft.Prelude.{
  ℕ, zero, suc, ◌+◌, ◌-◌, ◌≤◌, ◌<◌, ◌≡◌, refl, Option, none, some, Option-cases, Bool-cases, true,
  false, inl, inr, List, [], ◌∷◌, ◌++◌, arith, length, drop, length-append, length-drop, ltb,
  String, All, ap, subst, lt-length_of_get, get_elem?-some,
}
use smol_raft.Types.{
  LogEntry, VoteRequest, VoteResponse, AppendEntriesRequest, AppendEntriesResponse, StrokeEvent,
}
use smol_raft.Log.{
  Log, Outcome, done, panicked, append_entries, last_index, state_of, get_entry, pos,
  append as log_append, new_log,
}
use smol_raft.Log.Shape.{IsLog, append_entries-IsLog, append-IsLog, fresh-IsLog}
use smol_raft.Log.Committed.{append_entries-KeepsTo, KeepsTo}
use smol_raft.Node.{
  Node, Config, new_node, Indices, assign, assign_all, commit_cap, send_commit, apply_from,
  apply_committed, stop, become_follower, become_candidate, become_leader, step_down,
  reset_election_timer, signal_new_entry,
}
use smol_raft.Election.{
  begin_election, election_timeout, receive_vote, finish_election, handle_vote_request, decide_vote,
}
use smol_raft.Election.Votes.{vote_cases}
use smol_raft.Replication.{
  node_of, accept, handle_append_entries, record_match, back_up, receive_reply, handle_stroke,
  advance_commit_index,
}
use smol_raft.Replication.Follow.{following, append_cases}
use smol_raft.Replication.Accept.{accept-done, accept-panicked}
use smol_raft.Replication.Commit.{advance_commit_index_to}
use smol_raft.Replication.Reply.{reply_cases, stroke_result}
use smol_raft.Steps.{
  Step, Reach, here, next, vote, timeout, ballot, elect, append, reply, stroke, apply, halt,
  timer_reset, replicate, notify,
}

-- Every step keeps the invariant.
pub Step-Inv : {n m : Node} → Step n m → Inv n → Inv m
Step-Inv {n} (vote req) v = vote-Inv req n v
Step-Inv {n} {m} (timeout {req = req} e) v = timeout-Inv n m req e v
Step-Inv {n} (ballot t votes resp) v = ballot-Inv t votes resp n v
Step-Inv {n} (elect t votes) v = elect-Inv t votes n v
Step-Inv {n} (append req) v = append-Inv req n v
Step-Inv {n} (reply peer req resp) v = reply-Inv peer req resp n v
Step-Inv {n} {m} (stroke s e) v = stroke-Inv s n m e v
Step-Inv {n} apply v = apply-Inv n v
Step-Inv {n} halt v =
    unfold stop in
    record {
      shape = v.shape;
      committed = v.committed;
      applied = v.applied;
      buffered = v.buffered;
      positive = v.positive;
    }
Step-Inv {n} timer_reset v = record {
  shape = v.shape;
  committed = v.committed;
  applied = v.applied;
  buffered = v.buffered;
  positive = v.positive;
}
Step-Inv {n} replicate v = record {
  shape = v.shape;
  committed = v.committed;
  applied = v.applied;
  buffered = v.buffered;
  positive = v.positive;
}
Step-Inv {n} (notify e) v = record {
  shape = v.shape;
  committed = v.committed;
  applied = v.applied;
  buffered = ground arith;
  positive = v.positive;
}

pub Reach-Inv : {n m : Node} → Inv n → Reach n m → Inv m
Reach-Inv v here = v
Reach-Inv v (next r s) = Step-Inv s (Reach-Inv v r)

-- After any steps of a new node: the log starts with the sentinel and stores each entry under its
-- index, the commit index is in the log, the applied index is at most the commit index, the commit
-- channel is within its capacity, and every next index is at least 1.
pub Reach-new_node-Inv : (c : Config) {n : Node} → Reach (new_node c) n → Inv n
Reach-new_node-Inv c r = Reach-Inv (new_node-Inv c) r
