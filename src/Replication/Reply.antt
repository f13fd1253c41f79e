-- ===== src/Replication/Reply.antt =====
-- The branches of `sendAppendEntries` after its call, and of `HandleStroke`.
use smol_raft.Prelude.{
  ◌≤◌, ◌<◌, ◌≡◌, true, false, some, String, Bool, arith, dec_lt, Bool-cases, inl, inr, not, ◌||◌,
  ◌==◌,
}
use smol_raft.Types.{leader, StrokeEvent, AppendEntriesRequest, AppendEntriesResponse}
use smol_raft.Log.{append}
use smol_raft.Node.{Node, become_follower, state_eq, signal_new_entry}
use smol_raft.Node.Roles.{step_down-lt, step_down-le}
use smol_raft.Replication.{
  receive_reply, advance_commit_index, record_match, back_up, handle_stroke,
}

-- The node is no longer the leader of the request's term.
abbrev moved_on : AppendEntriesRequest → Node → Bool
moved_on req n = not (state_eq n.state leader) || not (n.current_term == req.term)

still_leader :
    (req : AppendEntriesRequest) (n : Node)
    → moved_on req n ≡ false
    → (n.state ≡ leader) × (n.current_term ≡ req.term)
still_leader req n h = ground arith

module _ {ℓ} (P : Node → Type ℓ) (peer : String) (req : AppendEntriesRequest)
    (r : AppendEntriesResponse) (n : Node) (ignored : P n)
    (deposed : n.current_term < r.term → P (become_follower r.term "" n))
    (matched : n.state ≡ leader
      → n.current_term ≡ req.term
      → r.success ≡ true
      → P (advance_commit_index (record_match peer req.entries n)))
    (refused : n.state ≡ leader
      → n.current_term ≡ req.term
      → r.success ≡ false
      → P (back_up peer r.conflict_index n)) where
  current_cases : r.term ≤ n.current_term → P (receive_reply peer req (some r) n)
  unfolding receive_reply
  current_cases h = elim (Bool-cases (moved_on req n)) [
    | inl gone ↦ rw (step_down-le r.term n h) (rw gone ignored)
    | inr still ↦ elim (Bool-cases r.success) [
      | inl s ↦
          rw (step_down-le r.term n h)
            (rw (still, s) (matched (still_leader req n still).0 (still_leader req n still).1 s))
      | inr s ↦
          rw (step_down-le r.term n h)
            (rw (still, s) (refused (still_leader req n still).0 (still_leader req n still).1 s))
    ]
  ]

  -- A statement of the node after a response follows from its four cases.
  pub reply_cases : P (receive_reply peer req (some r) n)
  unfolding receive_reply
  reply_cases = elim (dec_lt n.current_term r.term) [
    | yes h ↦ rw (step_down-lt r.term n h) (deposed h)
    | no h ↦ current_cases (omega arith)
  ]

pub stroke_result :
    (s : StrokeEvent) (n : Node) {m : Node}
    → handle_stroke s n ≡ some m
    → (n.state ≡ leader)
      × (m ≡ record n {
        log = (append n.log (record { index = 0; term = n.current_term; stroke = s })).0;
        new_entry = true;
      })
unfolding handle_stroke signal_new_entry
stroke_result s n e = ground arith
