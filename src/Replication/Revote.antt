-- ===== src/Replication/Revote.antt =====
-- Two votes in one term: what `HandleAppendEntries` does to the vote of a candidate.
use smol_raft.Prelude.{ℕ, ◌≡◌, true, refl, sym, ◌∙◌, inl, inr, arith}
use smol_raft.Types.{VoteRequest, AppendEntriesRequest, candidate}
use smol_raft.Node.{Node, become_candidate}
use smol_raft.Election.{begin_election}
use smol_raft.Election.Votes.{granted, granted_iff, IsUpToDate}
use smol_raft.Replication.{Handled, node_of, accept, handle_append_entries, advance_follower}
use smol_raft.Replication.Follow.{following, append_cases}

-- The role of the node, its vote and its term after a request of its own term.
abbrev Cleared : ℕ → Handled → Type 0
Cleared t h = ((node_of h).voted_for ≡ "") × ((node_of h).current_term ≡ t)

accept-Cleared :
    (req : AppendEntriesRequest) (n : Node) (t : ℕ)
    → n.voted_for ≡ ""
    → n.current_term ≡ t
    → Cleared t (accept req n)
unfolding accept advance_follower
accept-Cleared req n t e h = ground arith

append-Cleared :
    (req : AppendEntriesRequest) (n : Node)
    → n.state ≡ candidate
    → req.term ≡ n.current_term
    → Cleared n.current_term (handle_append_entries req n)
append-Cleared req n c e =
    append_cases (λ h. Cleared n.current_term h) req n (λ stale. absurd (omega arith))
      (λ _ _ _. (ground arith, e))
      (λ _ _. accept-Cleared req (following req n) n.current_term (ground arith) e)

-- A node that starts an election votes for itself in the new term. If it then receives
-- AppendEntries of that term, it forgets this vote, whatever it answers: any other candidate of the
-- same term whose log is up to date then gets its vote.
pub second_vote :
    (before : Node) (append : AppendEntriesRequest) (other : VoteRequest)
    → let n = (begin_election before).0 in
      let m = node_of (handle_append_entries append n) in
      append.term ≡ n.current_term
      → other.term ≡ n.current_term
      → IsUpToDate other m.log
      → (n.voted_for ≡ n.id) × (granted other m ≡ true)
unfolding begin_election become_candidate
second_vote before append other same same' good =
    let n = (begin_election before).0 in
    let (free, kept) = append-Cleared append n refl same in
    (refl, (granted_iff other _).1 (inr (kept ∙ sym same', inl free), good))
