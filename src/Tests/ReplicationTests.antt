-- ===== src/Tests/ReplicationTests.antt =====
-- replica/internal/raft/replication.go on small logs.
use smol_raft.Prelude.{◌-◌, ℕ, ◌≡◌, ◌≤◌, ◌⊎◌, refl, inr, [], ◌∷◌, arith, true}
use smol_raft.Types.{AppendEntriesRequest}
use smol_raft.Log.{last_index, term_at}
use smol_raft.Log.Shape.{IsLog}
use smol_raft.Replication.{
  replied, handle_append_entries, advance_commit_index, advance_from, advance_one, replica_count,
  count_matching,
}
use smol_raft.Replication.Follow.{following}
use smol_raft.Replication.Commit.{IsCommittable, advance_commit_index-max}
use smol_raft.Replication.Accept.{appended, next_commit, handle_append_entries-accepts}
use smol_raft.Replication.Replies.{Result, handle_append_entries-Result}
use smol_raft.Prelude.{take, drop}
use smol_raft.Log.{pos, negsuc, get_entry, last_term}
use smol_raft.Election.{begin_election}
use smol_raft.Election.Votes.{granted, IsUpToDate}
use smol_raft.Replication.{node_of, get_sync_log, follow, respond, check_prev}
use smol_raft.Node.{Node}
use smol_raft.Replication.Revote.{second_vote}
use smol_raft.Replication.SyncLog.{get_sync_log-eq}
use smol_raft.Node.{
  apply_committed, become_candidate, step_down, become_follower, reset_election_timer,
}
use smol_raft.Node.Apply.{apply_committed-eq}
use smol_raft.Tests.Samples.{asks, node_a, leading, sends, entry}

commits_three : (advance_commit_index leading).commit_index ≡ 3
unfolding advance_commit_index advance_from advance_one replica_count count_matching last_index
    term_at
commits_three = refl

advance_commit_index-max_example :
    let c = (advance_commit_index leading).commit_index in
    (advance_commit_index leading ≡ record leading { commit_index = c })
    × ((c ≡ 1) ⊎ IsCommittable leading c)
    × ((idx : ℕ) → IsCommittable leading idx → idx ≤ c)
advance_commit_index-max_example = advance_commit_index-max leading

node_a-IsLog : IsLog node_a.log.entries
node_a-IsLog = record { first = refl; indexed = omega arith }

handle_append_entries-accepts_example :
    handle_append_entries sends node_a
    ≡ replied
        (record (following sends node_a) {
          log = appended sends node_a.log;
          commit_index = next_commit 1 2 (last_index (appended sends node_a.log));
        })
        (record { term = 4; success = true; conflict_index = 0 })
handle_append_entries-accepts_example =
    handle_append_entries-accepts sends node_a node_a-IsLog (omega arith) (omega arith)
      (inr (entry 1 1, refl, refl)) (inr (3, refl, omega arith))

-- A request behind an index that the node does not have.
abbrev lacks : AppendEntriesRequest
lacks = record sends { prev_log_index = 7 }

abbrev clashes : AppendEntriesRequest
clashes = record sends { prev_log_index = 0; prev_log_term = 0; entries = entry 1 4 ∷ [] }

handle_append_entries-Result_example : Result sends node_a (handle_append_entries sends node_a)
handle_append_entries-Result_example = handle_append_entries-Result sends node_a

-- node_a has started the election of term 4 and hears from its leader.
heard :
    IsUpToDate (asks 4 "n3") (node_of (handle_append_entries lacks (begin_election node_a).0)).log
unfolding begin_election become_candidate handle_append_entries step_down follow become_follower
    reset_election_timer respond check_prev get_entry last_index last_term
heard = inr (refl, omega arith)

second_vote_example :
    ((begin_election node_a).0.voted_for ≡ (begin_election node_a).0.id)
    × (granted (asks 4 "n3") (node_of (handle_append_entries lacks (begin_election node_a).0))
        ≡ true)
unfolding begin_election become_candidate
second_vote_example = second_vote node_a lacks (asks 4 "n3") refl refl heard

get_sync_log-eq_example :
    ((from : ℕ) → get_sync_log (pos from) node_a ≡ take (2 - from) (drop from node_a.log.entries))
    × ((i : ℕ) → get_sync_log (negsuc i) node_a ≡ [])
get_sync_log-eq_example = get_sync_log-eq node_a node_a-IsLog

abbrev ready : Node
ready = record node_a { commit_index = 3; commit_ch = entry 1 1 ∷ [] }

apply_committed-eq_example :
    apply_committed ready
    ≡ record ready { last_applied = 3; commit_ch = entry 1 1 ∷ entry 2 1 ∷ entry 3 2 ∷ [] }
apply_committed-eq_example = apply_committed-eq ready (omega arith) (omega arith) (omega arith)
