-- ===== src/Tests/AgreementTests.antt =====
-- Three replicas: n1 is elected, replicates a stroke to n2, commits it, and tells n2 of it.
use smol_raft.Prelude.{◌≡◌, refl, inl, inr, true, some, [], ◌∷◌, get_elem?, In, arith}
use smol_raft.Types.{AppendEntriesRequest, AppendEntriesResponse, LogEntry}
use smol_raft.Log.{
  append_entries, append_loop, append_one, new_log, last_index, last_term, term_at, get_from,
  get_entry,
}
use smol_raft.Node.{
  Node, new_node, become_candidate, become_leader, become_follower, step_down, reset_election_timer,
}
use smol_raft.Election.{
  begin_election, election_timeout, receive_vote, finish_election, handle_vote_request, decide_vote,
}
use smol_raft.Replication.{
  make_request, handle_append_entries, follow, respond, accept, check_prev, advance_follower,
  receive_reply, record_match, advance_commit_index, advance_from, advance_one, replica_count,
  count_matching, replied,
}
use smol_raft.Cluster.{
  Cluster, new_cluster, stand, serve_vote, count_vote, close_poll, send, append as deliver, reply,
  set_node, serve_append, Reach, here, next,
}
use smol_raft.Cluster.Safety.{joined}
use smol_raft.Cluster.Agreement.{committed_agree, never_panics}
use smol_raft.Tests.Wiring.{three, wired, itself, wired-IsConfigured, wired-IsHosted}
use smol_raft.Tests.ClusterTests.{start, shared, shared-Reach, news}

-- n1 commits the stroke that n2 has acknowledged.
abbrev yes : AppendEntriesResponse
yes = record { term = 1; success = true; conflict_index = 0 }

abbrev chosen : Cluster
chosen = set_node "n1" (receive_reply "n2" news (some yes) (shared.member "n1").node) shared

abbrev more_news : AppendEntriesRequest
more_news = record {
  term = 1;
  leader_id = "n1";
  prev_log_index = 1;
  prev_log_term = 1;
  entries = [];
  leader_commit = 1;
}

abbrev told_again : Cluster
told_again = record chosen { sent = more_news ∷ chosen.sent }

abbrev known : Cluster
known = serve_append "n2" more_news told_again

answered : In (record { from = "n2"; to = news; says = yes }) shared.answers
unfolding stand serve_vote count_vote close_poll new_cluster new_node begin_election
    become_candidate last_index last_term new_log election_timeout handle_vote_request step_down
    decide_vote become_follower reset_election_timer receive_vote finish_election become_leader
    serve_append handle_append_entries follow respond accept check_prev append_entries append_loop
    append_one advance_follower
answered = inl refl

peer_known : In "n2" (shared.member "n1").node.peers
unfolding stand serve_vote count_vote close_poll new_cluster new_node begin_election
    become_candidate last_index last_term new_log election_timeout handle_vote_request step_down
    decide_vote become_follower reset_election_timer receive_vote finish_election become_leader
    serve_append
peer_known = inl refl

chosen-Reach : Reach three itself start chosen
chosen-Reach = next shared-Reach (reply "n1" "n2" news yes (inl refl) peer_known refl answered)

more_made : make_request "n2" (chosen.member "n1").node ≡ some more_news
unfolding stand serve_vote count_vote close_poll new_cluster new_node begin_election
    become_candidate last_index last_term new_log election_timeout handle_vote_request step_down
    decide_vote become_follower reset_election_timer receive_vote finish_election become_leader
    serve_append receive_reply record_match advance_commit_index advance_from advance_one
    replica_count count_matching make_request get_from term_at
more_made = refl

told_again-Reach : Reach three itself chosen told_again
told_again-Reach = next here (send "n1" "n2" (inl refl) more_made)

still_peer : In "n2" (told_again.member "n1").node.peers
unfolding stand serve_vote count_vote close_poll new_cluster new_node begin_election
    become_candidate last_index last_term new_log election_timeout handle_vote_request step_down
    decide_vote become_follower reset_election_timer receive_vote finish_election become_leader
    serve_append receive_reply record_match advance_commit_index advance_from advance_one term_at
    replica_count count_matching
still_peer = inl refl

known-Reach : Reach three itself chosen known
unfolding serve_append
known-Reach =
    next told_again-Reach (deliver "n2" "n2" more_news (inr (inl refl)) (inl refl) still_peer refl)

n1_committed : (chosen.member "n1").node.commit_index ≡ 1
unfolding stand serve_vote count_vote close_poll new_cluster new_node begin_election
    become_candidate last_index last_term new_log election_timeout handle_vote_request step_down
    decide_vote become_follower reset_election_timer receive_vote finish_election become_leader
    serve_append receive_reply record_match advance_commit_index advance_from advance_one
    replica_count count_matching term_at
n1_committed = refl

n2_committed : (known.member "n2").node.commit_index ≡ 1
unfolding stand serve_vote count_vote close_poll new_cluster new_node begin_election
    become_candidate last_index last_term new_log election_timeout handle_vote_request step_down
    decide_vote become_follower reset_election_timer receive_vote finish_election become_leader
    serve_append handle_append_entries follow respond accept check_prev append_entries append_loop
    append_one advance_follower get_entry
n2_committed = refl

committed_agree_example :
    (a : LogEntry) × (get_elem? (chosen.member "n1").node.log.entries 1 ≡ some a)
    × (get_elem? (known.member "n2").node.log.entries 1 ≡ some a)
committed_agree_example =
    committed_agree three itself wired chosen known "n1" "n2" 1 wired-IsConfigured wired-IsHosted
      chosen-Reach known-Reach (inl refl) (inr (inl refl)) (omega (arith, n1_committed))
      (omega (arith, n2_committed))

-- The first request again, after its entry was committed.
news_sent : In news known.sent
unfolding serve_append
news_sent = inr (inl refl)

never_panics_example :
    (m : Node) × (r : AppendEntriesResponse) × (handle_append_entries news (known.member "n2").node
      ≡ replied m r)
never_panics_example =
    never_panics three itself wired known "n2" news wired-IsConfigured wired-IsHosted
      (joined chosen-Reach known-Reach) (inr (inl refl)) news_sent
