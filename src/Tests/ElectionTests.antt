-- ===== src/Tests/ElectionTests.antt =====
-- replica/internal/raft/election.go on small clusters.
use smol_raft.Prelude.{
  ltb, ◌*◌, length, ◌+◌, ◌≡◌, ◌↔◌, refl, false, if◌then◌else◌, Option, none, some, List, [], ◌∷◌,
  true,
}
use smol_raft.Node.{step_down, reset_election_timer}
use smol_raft.Log.{last_term, last_index}
use smol_raft.Types.{follower, VoteResponse}
use smol_raft.Node.{become_candidate, become_leader}
use smol_raft.Election.{
  handle_vote_request, decide_vote, begin_election, receive_vote, finish_election, count_votes,
  start_election,
}
use smol_raft.Election.Wins.{grants, NoneLater, SomeLater, start_election-ends}
use smol_raft.Election.Votes.{granted, IsFree, IsUpToDate, granted_iff, after_votes}
use smol_raft.Tests.Samples.{node_a, asks}

first_vote : granted (asks 3 "n2") node_a ≡ true
unfolding handle_vote_request step_down decide_vote last_term last_index
first_vote = refl

granted_iff_example :
    (granted (asks 3 "n2") node_a ≡ true)
    ↔ (IsFree (asks 3 "n2") node_a × IsUpToDate (asks 3 "n2") node_a.log)
granted_iff_example = granted_iff (asks 3 "n2") node_a

-- The same candidate asks again after another was refused.
again :
    granted
      (asks 3 "n2")
      (after_votes (asks 3 "n3" ∷ []) (handle_vote_request (asks 3 "n2") node_a).0)
    ≡ true
unfolding handle_vote_request step_down decide_vote last_term last_index after_votes
    reset_election_timer
again = refl

-- With the vote of one of the two peers and the other down, n1 wins term 4.
abbrev responses : List (Option VoteResponse)
responses = none ∷ some (record { term = 4; vote_granted = true }) ∷ []

wins : (start_election responses node_a).1 ≡ true
unfolding start_election begin_election become_candidate count_votes receive_vote finish_election
wins = refl

start_election-ends_example :
    let c = (begin_election node_a).0 in
    (NoneLater c.current_term responses
      → start_election responses node_a ≡ (
          if ltb (length c.peers + 1) (2 * (1 + grants responses))
          then (become_leader c, true)
          else (c, false)))
    × (SomeLater c.current_term responses
        → ((start_election responses node_a).0.state ≡ follower)
          × ((start_election responses node_a).1 ≡ false))
start_election-ends_example = start_election-ends responses node_a
