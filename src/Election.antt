-- ===== src/Election.antt =====
-- replica/internal/raft/election.go: elections and votes.
--
-- `startElection` releases the mutex while it waits for its peers, so it is three operations:
-- `begin_election` up to the requests, `receive_vote` for what `requestVoteFromPeer` does with one
-- response, and `finish_election` from the count on; `start_election` is the whole of it, left alone. When
-- `election_timeout` runs is for Timer.
pub mod Votes
pub mod Wins
use smol_raft.Prelude.{
  ℕ, suc, ◌+◌, ◌/◌, String, Bool, true, false, not, ◌&&◌, ◌||◌, Option, none, some, List, [], ◌∷◌,
  length, ltb, leb, ◌==◌, if◌then◌else◌, str_eq,
}
use smol_raft.Types.{NodeState, follower, candidate, leader, VoteRequest, VoteResponse}
use smol_raft.Log.{last_index, last_term}
use smol_raft.Node.{
  Node, state_eq, become_follower, become_candidate, become_leader, step_down, reset_election_timer,
}

-- `total/2 + 1` of `startElection`, where total is the number of peers and the node itself.
abbrev pub vote_majority : Node → ℕ
vote_majority n = (length n.peers + 1) / 2 + 1

-- The node as a candidate, and the request that it sends to every peer.
unfoldable pub begin_election : Node → Node × VoteRequest
begin_election n =
    let c = become_candidate n in
    (
      c,
      record {
        term = c.current_term;
        candidate_id = c.id;
        last_log_index = last_index c.log;
        last_log_term = last_term c.log;
      },
    )

-- What `runElectionTimer` does when the timer fires: `none` where no election starts.
unfoldable pub election_timeout : Node → Option (Node × VoteRequest)
election_timeout n = if state_eq n.state leader then none else some (begin_election n)

-- One response to the request of `election_term`, and the votes counted so far; `none` is a failed
-- call.
unfoldable pub receive_vote : ℕ → Option VoteResponse → Node × ℕ → Node × ℕ
receive_vote election_term none (n, votes) = (n, votes)
receive_vote election_term (some resp) (n, votes) =
    if ltb n.current_term resp.term
    then (become_follower resp.term "" n, votes)
    else if not (n.current_term == election_term) || not (state_eq n.state candidate)
    then (n, votes)
    else if resp.vote_granted
    then (n, suc votes)
    else (n, votes)

-- The end of `startElection`, with the votes counted; the flag says that the node won.
unfoldable pub finish_election : ℕ → ℕ → Node → Node × Bool
finish_election election_term votes n =
    if not (state_eq n.state candidate) || not (n.current_term == election_term)
    then (n, false)
    else if leb (vote_majority n) votes
    then (become_leader n, true)
    else (n, false)

-- The goroutines of the peers, in the order in which they count.
unfoldable pub count_votes : ℕ → List (Option VoteResponse) → Node × ℕ → Node × ℕ
count_votes election_term [] s = s
count_votes election_term (r ∷ rs) s = count_votes election_term rs (receive_vote election_term r s)

-- An election that is not cancelled, with the responses, and with no other step of the node meanwhile.
unfoldable pub start_election : List (Option VoteResponse) → Node → Node × Bool
start_election rs n =
    let (c, req) = begin_election n in
    let s = count_votes req.term rs (c, 1) in finish_election req.term s.1 s.0

-- The candidate's log is at least as up to date as the node's.
abbrev pub log_ok : VoteRequest → Node → Bool
log_ok req n =
    ltb (last_term n.log) req.last_log_term
    || (req.last_log_term == last_term n.log && leb (last_index n.log) req.last_log_index)

abbrev pub can_vote : VoteRequest → Node → Bool
can_vote req n = str_eq n.voted_for "" || str_eq n.voted_for req.candidate_id

-- The handler from the check of the vote on. A refusal carries the term from before the step down.
unfoldable pub decide_vote : VoteRequest → ℕ → Node → Node × VoteResponse
decide_vote req term_before s =
    if can_vote req s && log_ok req s
    then (
      reset_election_timer (record s { voted_for = req.candidate_id; current_term = req.term }),
      record { term = req.term; vote_granted = true },
    )
    else (s, record { term = term_before; vote_granted = false })

unfoldable pub handle_vote_request : VoteRequest → Node → Node × VoteResponse
handle_vote_request req n =
    let s = (step_down req.term n).0 in
    if ltb req.term s.current_term
    then (s, record { term = s.current_term; vote_granted = false })
    else decide_vote req n.current_term s
