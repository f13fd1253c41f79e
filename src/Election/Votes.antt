-- ===== src/Election/Votes.antt =====
-- When `HandleVoteRequest` grants a vote, and that a vote once given binds the node.
use smol_raft.Prelude.{
  ℕ, ◌≤◌, ◌<◌, ◌≡◌, ◌≢◌, ◌⊎◌, ◌↔◌, inl, inr, refl, Bool, true, false, String, List, [], ◌∷◌, arith,
  lt→ltb, trichotomy, str_eq_iff,
}
use smol_raft.Types.{VoteRequest, VoteResponse}
use smol_raft.Log.{Log, last_index, last_term}
use smol_raft.Node.{Node, become_follower, reset_election_timer}
use smol_raft.Node.Roles.{step_down-lt, step_down-le}
use smol_raft.Election.{handle_vote_request, decide_vote}

-- §5.4.1 of the RAFT paper: a later last term, or the same one and no fewer entries.
abbrev pub IsUpToDate : VoteRequest → Log → Type 0
IsUpToDate req l =
    (last_term l < req.last_log_term)
    ⊎ ((req.last_log_term ≡ last_term l) × (last_index l ≤ req.last_log_index))

-- The request opens a new term, or the vote field is empty or names the candidate. It does not tell what
-- votes the node ever gave.
abbrev pub IsFree : VoteRequest → Node → Type 0
IsFree req n =
    (n.current_term < req.term)
    ⊎ ((n.current_term ≡ req.term) × ((n.voted_for ≡ "") ⊎ (n.voted_for ≡ req.candidate_id)))

abbrev pub granted : VoteRequest → Node → Bool
granted req n = (handle_vote_request req n).1.vote_granted

module _ (req : VoteRequest) (n : Node) where
  vote_stale :
      req.term < n.current_term
      → handle_vote_request req n ≡ (n, record { term = n.current_term; vote_granted = false })
  unfolding handle_vote_request
  vote_stale h = rw (step_down-le req.term n (omega arith)) (rw (lt→ltb req.term n.current_term h))

  vote_same :
      n.current_term ≡ req.term → handle_vote_request req n ≡ decide_vote req n.current_term n
  unfolding handle_vote_request
  vote_same h = rw (step_down-le req.term n (omega arith)) (ground arith)

  vote_newer :
      n.current_term < req.term
      → handle_vote_request req n ≡ decide_vote req n.current_term (become_follower req.term "" n)
  unfolding handle_vote_request become_follower
  vote_newer h = rw (step_down-lt req.term n h) (ground arith)

-- A statement of the handler's result follows from its three cases.
pub vote_cases {ℓ} :
    (P : Node × VoteResponse → Type ℓ) (req : VoteRequest) (n : Node)
    → (req.term < n.current_term → P (n, record { term = n.current_term; vote_granted = false }))
    → (n.current_term ≡ req.term → P (decide_vote req n.current_term n))
    → (n.current_term < req.term
        → P (decide_vote req n.current_term (become_follower req.term "" n)))
    → P (handle_vote_request req n)
vote_cases P req n stale same newer = elim (trichotomy n.current_term req.term) [
  | inl h ↦ rw (vote_newer req n h) (newer h)
  | inr (inl h) ↦ rw (vote_same req n h) (same h)
  | inr (inr h) ↦ rw (vote_stale req n h) (stale h)
]

decide_iff :
    (req : VoteRequest) (s : Node) (b : ℕ)
    → ((decide_vote req b s).1.vote_granted ≡ true)
      ↔ (((s.voted_for ≡ "") ⊎ (s.voted_for ≡ req.candidate_id)) × IsUpToDate req s.log)
unfolding decide_vote
decide_iff req s b =
    ground (arith, str_eq_iff s.voted_for "", str_eq_iff s.voted_for req.candidate_id)

-- The vote is granted exactly when the request's term is later than the node's, or it is the same and
-- the node's vote field is empty or names the candidate; and the candidate's log is at least as up
-- to date as the node's.
pub granted_iff :
    (req : VoteRequest) (n : Node) → (granted req n ≡ true) ↔ (IsFree req n × IsUpToDate req n.log)
unfolding become_follower
granted_iff req n =
    vote_cases (λ r. (r.1.vote_granted ≡ true) ↔ (IsFree req n × IsUpToDate req n.log)) req n
      (λ stale. ground arith) (λ same. ground (arith, decide_iff req n n.current_term))
      (λ newer. ground (arith, decide_iff req (become_follower req.term "" n) n.current_term))

-- A node's promise: in term t it votes for c or not at all.
abbrev pub Pledged : ℕ → String → Node → Type 0
Pledged t c n = (t < n.current_term) ⊎ ((n.current_term ≡ t) × (n.voted_for ≡ c))

decide-Pledged :
    (req : VoteRequest) (s : Node) (b t : ℕ) (c : String)
    → c ≢ ""
    → s.current_term ≡ req.term
    → Pledged t c s
    → Pledged t c (decide_vote req b s).0
unfolding decide_vote reset_election_timer
decide-Pledged req s b t c full e p =
    ground (arith, str_eq_iff s.voted_for "", str_eq_iff s.voted_for req.candidate_id)

pub vote-Pledged :
    (req : VoteRequest) (n : Node) (t : ℕ) (c : String)
    → c ≢ ""
    → Pledged t c n
    → Pledged t c (handle_vote_request req n).0
unfolding become_follower
vote-Pledged req n t c full p =
    vote_cases (λ r. Pledged t c r.0) req n (λ stale. p)
      (λ same. decide-Pledged req n n.current_term t c full same p)
      (λ newer.
        decide-Pledged req (become_follower req.term "" n) n.current_term t c full refl
          (inl (ground arith)))

pub vote_pledges :
    (req : VoteRequest) (n : Node)
    → granted req n ≡ true
    → Pledged req.term req.candidate_id (handle_vote_request req n).0
unfolding decide_vote reset_election_timer
vote_pledges req n =
    vote_cases (λ r. r.1.vote_granted ≡ true → Pledged req.term req.candidate_id r.0) req n
      (λ stale g. absurd (cc)) (λ same g. inr (ground arith, ground arith))
      (λ newer g. inr (ground arith, ground arith))

-- The node after the requests, in turn.
unfoldable pub after_votes : List VoteRequest → Node → Node
after_votes [] n = n
after_votes (r ∷ rs) n = after_votes rs (handle_vote_request r n).0

after_votes-Pledged :
    (rs : List VoteRequest) (n : Node) (t : ℕ) (c : String)
    → c ≢ ""
    → Pledged t c n
    → Pledged t c (after_votes rs n)
unfolding after_votes
after_votes-Pledged [] n t c full p = p
after_votes-Pledged (r ∷ rs) n t c full p =
    after_votes-Pledged rs (handle_vote_request r n).0 t c full (vote-Pledged r n t c full p)

-- A node that granted a vote to a named candidate, and then serves any vote requests, grants in
-- the same term no vote to another candidate.
pub vote_once :
    (first : VoteRequest) (between : List VoteRequest) (last : VoteRequest) (n : Node)
    → first.candidate_id ≢ ""
    → granted first n ≡ true
    → last.term ≡ first.term
    → granted last (after_votes between (handle_vote_request first n).0) ≡ true
    → last.candidate_id ≡ first.candidate_id
vote_once first between last n full g same g' = ground (
  arith,
  after_votes-Pledged between (handle_vote_request first n).0 first.term first.candidate_id full
      (vote_pledges first n g),
  granted_iff last (after_votes between (handle_vote_request first n).0),
)
