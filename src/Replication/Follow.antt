-- ===== src/Replication/Follow.antt =====
-- The branches of `HandleAppendEntries`.
use smol_raft.Prelude.{
  ℕ, ◌≤◌, ◌<◌, ◌≡◌, inl, inr, ◌||◌, not, true, false, none, some, Option-cases, refl, arith, ltb,
  if◌then◌else◌, trichotomy, lt→ltb, dec_lt,
}
use smol_raft.Types.{
  NodeState, follower, candidate, leader, AppendEntriesRequest, AppendEntriesResponse,
}
use smol_raft.Node.{Node, state_eq, become_follower, reset_election_timer}
use smol_raft.Node.Roles.{step_down-lt, step_down-le}
use smol_raft.Replication.{
  Handled, replied, follow, check_prev, accept, respond, handle_append_entries,
}

-- The node as it follows the sender of a request that is not stale. The vote is forgotten if the
-- request opens a new term, but also if the node was a candidate or a leader.
abbrev pub following : AppendEntriesRequest → Node → Node
following req n = record n {
  state = follower;
  current_term = req.term;
  voted_for =
      if ltb n.current_term req.term || not (state_eq n.state follower) then "" else n.voted_for;
  leader_id = req.leader_id;
  reset_election = true;
}

follow-same :
    (req : AppendEntriesRequest) (n : Node) (s : NodeState)
    → n.state ≡ s
    → n.current_term ≡ req.term
    → follow req n ≡ following req n
unfolding follow become_follower reset_election_timer
follow-same req n follower e h = ground arith
follow-same req n candidate e h = ground arith
follow-same req n leader e h = ground arith

follow-newer :
    (req : AppendEntriesRequest) (n : Node)
    → n.current_term < req.term
    → follow req (become_follower req.term "" n) ≡ following req n
unfolding follow become_follower reset_election_timer
follow-newer req n h = ground arith

abbrev refusal : ℕ → ℕ → AppendEntriesResponse
refusal t conflict = record { term = t; success = false; conflict_index = conflict }

module _ (req : AppendEntriesRequest) (n : Node) where
  handle-stale :
      req.term < n.current_term → handle_append_entries req n ≡ replied n (refusal n.current_term 0)
  unfolding handle_append_entries
  handle-stale h =
      rw (step_down-le req.term n (omega arith)) (rw (lt→ltb req.term n.current_term h))

  handle-same :
      n.current_term ≡ req.term
      → handle_append_entries req n ≡ respond req n.current_term (following req n)
  unfolding handle_append_entries
  handle-same h =
      rw (step_down-le req.term n (omega arith))
        (rw (follow-same req n n.state refl h) (ground arith))

  handle-newer :
      n.current_term < req.term
      → handle_append_entries req n ≡ respond req n.current_term (following req n)
  unfolding handle_append_entries become_follower
  handle-newer h = rw (step_down-lt req.term n h) (rw (follow-newer req n h) (ground arith))

  pub handle-current :
      n.current_term ≤ req.term
      → handle_append_entries req n ≡ respond req n.current_term (following req n)
  handle-current h = elim (trichotomy n.current_term req.term) [
    | inl newer ↦ handle-newer newer
    | inr (inl same) ↦ handle-same same
    | inr (inr stale) ↦ absurd (omega arith)
  ]

-- A statement of the handler's result follows from its three cases.
pub append_cases {ℓ} :
    (P : Handled → Type ℓ) (req : AppendEntriesRequest) (n : Node)
    → (req.term < n.current_term → P (replied n (refusal n.current_term 0)))
    → ((conflict : ℕ)
        → n.current_term ≤ req.term
        → check_prev req n.log ≡ some conflict
        → P (replied (following req n) (refusal n.current_term conflict)))
    → (n.current_term ≤ req.term → check_prev req n.log ≡ none → P (accept req (following req n)))
    → P (handle_append_entries req n)
unfolding respond
append_cases P req n stale refused accepted = elim (dec_lt req.term n.current_term) [
  | yes h ↦ rw (handle-stale req n h) (stale h)
  | no h ↦ elim (Option-cases (check_prev req n.log)) [
    | inl e ↦ rw (handle-current req n (omega arith)) (rw (e, respond) (accepted (omega arith) e))
    | inr (conflict, e) ↦
        rw (handle-current req n (omega arith)) (rw (e, respond) (refused conflict (omega arith) e))
  ]
]
