-- ===== src/Steps/Quiet.antt =====
-- The steps of a node that leave its log alone, and that all but two kinds of step are such.
use smol_raft.Prelude.{
  ℕ, zero, suc, ◌≤◌, ◌<◌, ◌≡◌, refl, Option, none, some, Option-cases, inl, inr, String, ◌⊎◌, List,
  arith, ◌∙◌,
}
use smol_raft.Types.{
  LogEntry, VoteRequest, VoteResponse, AppendEntriesRequest, AppendEntriesResponse, StrokeEvent,
}
use smol_raft.Log.{get_entry, pos}
use smol_raft.Node.{
  Node, apply_from, apply_committed, stop, become_follower, become_candidate, become_leader,
  reset_election_timer, send_commit,
}
use smol_raft.Election.{
  begin_election, election_timeout, receive_vote, finish_election, handle_vote_request, decide_vote,
}
use smol_raft.Election.Votes.{vote_cases}
use smol_raft.Replication.{
  node_of, handle_append_entries, record_match, back_up, receive_reply, handle_stroke,
  advance_commit_index,
}
use smol_raft.Replication.Commit.{advance_commit_index_to}
use smol_raft.Replication.Reply.{reply_cases}
use smol_raft.Steps.{
  Step, vote, timeout, ballot, elect, append, reply, stroke, apply, halt, timer_reset, replicate,
  notify,
}

-- A step that leaves the log alone.
abbrev pub Quiet : Node → Node → Type 0
Quiet n m =
    (m.id ≡ n.id)
    × (m.peers ≡ n.peers)
    × (n.current_term ≤ m.current_term)
    × (n.commit_index ≤ m.commit_index)
    × (n.last_applied ≤ m.last_applied)
    × (m.log ≡ n.log)

Quiet-trans : (n m k : Node) → Quiet n m → Quiet m k → Quiet n k
Quiet-trans n m k p q = (
  q.0 ∙ p.0,
  q.1 ∙ p.1,
  omega (arith, p.2, q.2),
  omega (arith, p.3, q.3),
  omega (arith, p.4, q.4),
  q.5 ∙ p.5,
)

pub vote-Quiet : (req : VoteRequest) (n : Node) → Quiet n (handle_vote_request req n).0
unfolding decide_vote become_follower reset_election_timer
vote-Quiet req n =
    vote_cases (λ r. Quiet n r.0) req n (λ stale. ground arith) (λ same. ground arith)
      (λ newer. ground arith)

pub timeout-Quiet :
    (n m : Node) (req : VoteRequest) → election_timeout n ≡ some (m, req) → Quiet n m
unfolding election_timeout begin_election become_candidate
timeout-Quiet n m req e = ground arith

pub ballot-Quiet :
    (t votes : ℕ) (resp : Option VoteResponse) (n : Node)
    → Quiet n (receive_vote t resp (n, votes)).0
unfolding receive_vote become_follower
ballot-Quiet t votes none n = ground arith
ballot-Quiet t votes (some r) n = ground arith

pub elect-Quiet : (t votes : ℕ) (n : Node) → Quiet n (finish_election t votes n).0
unfolding finish_election become_leader
elect-Quiet t votes n = ground arith

match-Quiet : (peer : String) (es : List LogEntry) (n : Node) → Quiet n (record_match peer es n)
unfolding record_match
match-Quiet peer es n = ground arith

back_up-Quiet : (peer : String) (i : ℕ) (n : Node) → Quiet n (back_up peer i n)
unfolding back_up
back_up-Quiet peer i n = ground arith

advance-Quiet : (n : Node) → Quiet n (advance_commit_index n)
advance-Quiet n = let (c, e, up, how) = advance_commit_index_to n in rw e (ground arith)

pub apply-Quiet : (rounds i : ℕ) (n : Node) → n.last_applied < i → Quiet n (apply_from rounds i n)
unfolding apply_from
apply-Quiet zero i n h = ground arith
apply-Quiet (suc rounds) i n h = elim (Option-cases (get_entry n.log (pos i))) [
  | inl e ↦ rw (e, apply_from) (ground arith)
  | inr (x, e) ↦
      let rest =
        apply-Quiet rounds (suc i)
          (record n { commit_ch = send_commit n.commit_ch x; last_applied = i }) (omega arith) in
      rw (e, apply_from) (ground arith)
]

pub reply-Quiet :
    (peer : String) (req : AppendEntriesRequest) (r : Option AppendEntriesResponse) (n : Node)
    → Quiet n (receive_reply peer req r n)
unfolding become_follower receive_reply
reply-Quiet peer req none n = ground arith
reply-Quiet peer req (some r) n =
    reply_cases (Quiet n) peer req r n (ground arith) (λ h. ground arith)
      (λ _ _ _.
        let s = record_match peer req.entries n in
        Quiet-trans n s (advance_commit_index s) (match-Quiet peer req.entries n) (advance-Quiet s))
      (λ _ _ _. back_up-Quiet peer r.conflict_index n)

-- A step leaves the log alone, or handles AppendEntries, or takes a stroke.
pub Step_kinds :
    {n m : Node}
    → Step n m
    → Quiet n m
      ⊎ (((req : AppendEntriesRequest) × (m ≡ node_of (handle_append_entries req n)))
          ⊎ ((s : StrokeEvent) × (handle_stroke s n ≡ some m)))
unfolding stop apply_committed
Step_kinds {n} (vote req) = inl (vote-Quiet req n)
Step_kinds {n} {m} (timeout {req = req} e) = inl (timeout-Quiet n m req e)
Step_kinds {n} (ballot t votes resp) = inl (ballot-Quiet t votes resp n)
Step_kinds {n} (elect t votes) = inl (elect-Quiet t votes n)
Step_kinds {n} (append req) = inr (inl (req, refl))
Step_kinds {n} (reply peer req r) = inl (reply-Quiet peer req r n)
Step_kinds {n} {m} (stroke s e) = inr (inr (s, e))
Step_kinds {n} apply = inl (apply-Quiet _ _ n (omega arith))
Step_kinds {n} halt = inl (ground arith)
Step_kinds {n} timer_reset = inl (ground arith)
Step_kinds {n} replicate = inl (ground arith)
Step_kinds {n} (notify e) = inl (ground arith)
