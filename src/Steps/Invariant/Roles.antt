-- ===== src/Steps/Invariant/Roles.antt =====
-- The invariant through elections and votes.
use smol_raft.Prelude.{ℕ, ◌≡◌, Option, none, some, arith}
use smol_raft.Types.{VoteRequest, VoteResponse}
use smol_raft.Node.{Node, become_candidate, reset_election_timer}
use smol_raft.Election.{
  begin_election, election_timeout, receive_vote, finish_election, handle_vote_request, decide_vote,
}
use smol_raft.Election.Votes.{vote_cases}
use smol_raft.Steps.Invariant.Defs.{Inv, become_follower-Inv, become_leader-Inv}

pub decide-Inv : (req : VoteRequest) (b : ℕ) (n : Node) → Inv n → Inv (decide_vote req b n).0
unfolding decide_vote reset_election_timer
decide-Inv req b n v = ground arith

pub vote-Inv : (req : VoteRequest) (n : Node) → Inv n → Inv (handle_vote_request req n).0
vote-Inv req n v =
    vote_cases (λ r. Inv r.0) req n (λ _. v) (λ _. decide-Inv req _ n v)
      (λ _. decide-Inv req _ _ (become_follower-Inv req.term "" n v))

pub timeout-Inv :
    (n m : Node) (req : VoteRequest) → election_timeout n ≡ some (m, req) → Inv n → Inv m
unfolding election_timeout begin_election become_candidate
timeout-Inv n m req e v = ground arith

pub ballot-Inv :
    (t votes : ℕ) (resp : Option VoteResponse) (n : Node)
    → Inv n
    → Inv (receive_vote t resp (n, votes)).0
unfolding receive_vote
ballot-Inv t votes none n v = v
ballot-Inv t votes (some r) n v = ground (arith, become_follower-Inv r.term "" n v)

pub elect-Inv : (t votes : ℕ) (n : Node) → Inv n → Inv (finish_election t votes n).0
unfolding finish_election
elect-Inv t votes n v = ground (arith, become_leader-Inv n v)
