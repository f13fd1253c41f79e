-- ===== src/Steps/Progress.antt =====
-- What no step of a node takes back: its name and peers, its term, its commit index, the entries
-- that it holds as committed, and, while it leads, its whole log.
use smol_raft.Prelude.{
  ℕ, ◌≤◌, ◌≡◌, refl, sym, ap, subst, some, inl, inr, arith, get_elem?, lt-length_of_get,
  get_elem?-append_left, ◌∙◌,
}
use smol_raft.Types.{leader, follower, LogEntry, AppendEntriesRequest, StrokeEvent}
use smol_raft.Log.{
  Log, Outcome, done, panicked, state_of, append_entries, append as log_append, last_index,
}
use smol_raft.Log.Committed.{append_entries-KeepsTo, KeepsTo}
use smol_raft.Node.{Node, Config, new_node}
use smol_raft.Replication.{node_of, accept, handle_append_entries, handle_stroke, advance_follower}
use smol_raft.Replication.Follow.{following, append_cases}
use smol_raft.Replication.Accept.{accept-done, accept-panicked, next_commit_bounds}
use smol_raft.Replication.Reply.{stroke_result}
use smol_raft.Steps.Invariant.{Inv, kept_index, Reach-Inv, Reach-new_node-Inv}
use smol_raft.Steps.Quiet.{Quiet, Step_kinds}
use smol_raft.Steps.{Step, Reach, here, next}

pub record Progress (n m : Node) : Type 0 where
  pub same_id : m.id ≡ n.id
  pub same_peers : m.peers ≡ n.peers
  pub term_kept : n.current_term ≤ m.current_term
  pub commit_kept : n.commit_index ≤ m.commit_index
  pub applied_kept : n.last_applied ≤ m.last_applied
  pub entries_kept : KeepsTo n.commit_index n.log.entries m.log.entries

pub Progress-refl : (n : Node) → Progress n n
Progress-refl n = record {
  same_id = refl;
  same_peers = refl;
  term_kept = omega arith;
  commit_kept = omega arith;
  applied_kept = omega arith;
  entries_kept = λ i a low h. h;
}

pub Progress-trans : (n m k : Node) → Progress n m → Progress m k → Progress n k
Progress-trans n m k p q = record {
  same_id = q.same_id ∙ p.same_id;
  same_peers = q.same_peers ∙ p.same_peers;
  term_kept = omega (arith, p.term_kept, q.term_kept);
  commit_kept = omega (arith, p.commit_kept, q.commit_kept);
  applied_kept = omega (arith, p.applied_kept, q.applied_kept);
  entries_kept =
      λ i a low h. q.entries_kept i a (omega (arith, p.commit_kept)) (p.entries_kept i a low h);
}

Quiet-Progress : (n m : Node) → Quiet n m → Progress n m
Quiet-Progress n m q = record {
  same_id = q.0;
  same_peers = q.1;
  term_kept = q.2;
  commit_kept = q.3;
  applied_kept = q.4;
  entries_kept = λ i a low h. subst (λ (l : Log). get_elem? l.entries i ≡ some a) (sym q.5) h;
}

-- An accepted request leaves the role as it was.
accept-state :
    (req : AppendEntriesRequest) (n : Node)
    → n.state ≡ follower
    → (node_of (accept req n)).state ≡ follower
unfolding accept advance_follower
accept-state req n f = ground arith

get-log_append :
    (l : Log) (e : LogEntry) (i : ℕ) {a : LogEntry}
    → get_elem? l.entries i ≡ some a
    → get_elem? (log_append l e).0.entries i ≡ some a
unfolding log_append
get-log_append l e i h = get_elem?-append_left l.entries _ i (lt-length_of_get l.entries i h) ∙ h

stroke-Progress : (s : StrokeEvent) (n m : Node) → handle_stroke s n ≡ some m → Progress n m
stroke-Progress s n m e = rw (stroke_result s n e).1 (record {
  same_id = refl;
  same_peers = refl;
  term_kept = omega arith;
  commit_kept = omega arith;
  applied_kept = omega arith;
  entries_kept = λ i a low h. get-log_append n.log _ i h;
})

append-Progress :
    (req : AppendEntriesRequest) (n : Node)
    → Inv n
    → Progress n (node_of (handle_append_entries req n))
append-Progress req n v =
    append_cases (λ h. Progress n (node_of h)) req n (λ _. Progress-refl n)
      (λ conflict current _.
        Quiet-Progress n _ (refl, refl, current, omega arith, omega arith, refl))
      (λ current _. go current (append_entries n.log req.entries n.commit_index) refl)
  where
    keeps :
        {o : Outcome Log}
        → append_entries n.log req.entries n.commit_index ≡ o
        → KeepsTo n.commit_index n.log.entries (state_of o).entries
    keeps e =
        subst (λ (o : Outcome Log). KeepsTo n.commit_index n.log.entries (state_of o).entries) e
          (append_entries-KeepsTo n.log req.entries n.commit_index)

    go :
        n.current_term ≤ req.term
        → (o : Outcome Log) → append_entries n.log req.entries n.commit_index ≡ o
        → Progress n (node_of (accept req (following req n)))
    go current (done l) e = rw (accept-done req (following req n) l e) (record {
      same_id = refl;
      same_peers = refl;
      term_kept = current;
      commit_kept =
          (next_commit_bounds n.commit_index req.leader_commit (last_index l)
            (kept_index n.commit_index n.log l v.shape (keeps e) v.committed)).0;
      applied_kept = omega arith;
      entries_kept = keeps e;
    })
    go current (panicked l) e = rw (accept-panicked req (following req n) l e) (record {
      same_id = refl;
      same_peers = refl;
      term_kept = current;
      commit_kept = omega arith;
      applied_kept = omega arith;
      entries_kept = keeps e;
    })

pub Step-Progress : {n m : Node} → Inv n → Step n m → Progress n m
Step-Progress {n} {m} v st = elim (Step_kinds st) [
  | inl q ↦ Quiet-Progress n m q
  | inr (inl (req, e)) ↦ rw e (append-Progress req n v)
  | inr (inr (s, e)) ↦ stroke-Progress s n m e
]

Reach-Progress : {n m : Node} → Inv n → Reach n m → Progress n m
Reach-Progress {n} v here = Progress-refl n
Reach-Progress {n} {m} v (next {m = k} r s) =
    Progress-trans n k m (Reach-Progress v r) (Step-Progress (Reach-Inv v r) s)

-- Between any two states of a node's history, however many steps apart: the name and the peers are
-- the same, the term, the commit index and the applied index have not gone back, and every entry
-- that was at an index up to the commit index is there unchanged.
pub history-Progress : (c : Config) {n m : Node} → Reach (new_node c) n → Reach n m → Progress n m
history-Progress c r s = Reach-Progress (Reach-new_node-Inv c r) s

append_loses_lead :
    (req : AppendEntriesRequest) (n : Node) (i : ℕ) {a : LogEntry}
    → (node_of (handle_append_entries req n)).state ≡ leader
    → get_elem? n.log.entries i ≡ some a
    → get_elem? (node_of (handle_append_entries req n)).log.entries i ≡ some a
append_loses_lead req n i {a} =
    append_cases
      (λ h.
        (node_of h).state ≡ leader
        → get_elem? n.log.entries i ≡ some a
        → get_elem? (node_of h).log.entries i ≡ some a)
      req n (λ _ _ h. h) (λ _ _ _ l _. absurd (cc l))
      (λ _ _ l _. absurd (cc (accept-state req (following req n) refl, l)))

-- A leader that is still leader after a step has only added to its log.
pub leader_append_only :
    {n m : Node}
    → Step n m
    → m.state ≡ leader
    → (i : ℕ) {a : LogEntry} → get_elem? n.log.entries i ≡ some a
    → get_elem? m.log.entries i ≡ some a
leader_append_only {n} {m} st l i {a} h = elim (Step_kinds st) [
  | inl q ↦ subst (λ (l : Log). get_elem? l.entries i ≡ some a) (sym q.5) h
  | inr (inl (req, e)) ↦ rw e (append_loses_lead req n i (ap (λ (x : Node). x.state) (sym e) ∙ l) h)
  | inr (inr (s, e)) ↦ rw (stroke_result s n e).1 (get-log_append n.log _ i h)
]
