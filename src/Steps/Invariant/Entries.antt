-- ===== src/Steps/Invariant/Entries.antt =====
-- The invariant through replication and the commit channel.
use smol_raft.Prelude.{
  ℕ, zero, suc, ◌+◌, ◌-◌, ◌≤◌, ◌<◌, ◌≡◌, refl, Option, none, some, Option-cases, inl, inr, List, [],
  ◌∷◌, arith, length, drop, length-append, length-drop, String, subst, lt-length_of_get,
  get_elem?-some,
}
use smol_raft.Types.{LogEntry, AppendEntriesRequest, AppendEntriesResponse, StrokeEvent}
use smol_raft.Log.{
  Log, Outcome, done, panicked, append_entries, last_index, state_of, get_entry, pos,
  append as log_append,
}
use smol_raft.Log.Shape.{IsLog, append_entries-IsLog, append-IsLog}
use smol_raft.Log.Committed.{append_entries-KeepsTo, KeepsTo}
use smol_raft.Node.{Node, commit_cap, send_commit, apply_from, apply_committed, step_down}
use smol_raft.Replication.{
  node_of, accept, handle_append_entries, record_match, back_up, receive_reply, handle_stroke,
  advance_commit_index,
}
use smol_raft.Replication.Follow.{following, append_cases}
use smol_raft.Replication.Accept.{accept-done, accept-panicked, next_commit_bounds}
use smol_raft.Replication.Commit.{advance_commit_index_to}
use smol_raft.Replication.Reply.{reply_cases, stroke_result}
use smol_raft.Steps.Invariant.Defs.{Inv, become_follower-Inv}

-- An index that a log has, and that another keeps, the other has too.
pub kept_index :
    (c : ℕ) (l l' : Log)
    → IsLog l.entries
    → KeepsTo c l.entries l'.entries
    → c ≤ last_index l
    → c ≤ last_index l'
unfolding last_index
kept_index c l l' v k h =
    let lt : c < length l.entries = omega (arith, lt-length_of_get l.entries 0 v.first) in
    let (a, g) = get_elem?-some l.entries c lt in
    omega (arith, lt-length_of_get l'.entries c (k c a (omega arith) g))

pub accept-Inv : (req : AppendEntriesRequest) (n : Node) → Inv n → Inv (node_of (accept req n))
accept-Inv req n v = go (append_entries n.log req.entries n.commit_index) refl
  where
    at :
        {o : Outcome Log}
        → append_entries n.log req.entries n.commit_index ≡ o
        → IsLog (state_of o).entries
    at e =
        subst (λ (o : Outcome Log). IsLog (state_of o).entries) e
          (append_entries-IsLog n.log req.entries n.commit_index v.shape)

    keeps :
        {o : Outcome Log}
        → append_entries n.log req.entries n.commit_index ≡ o
        → KeepsTo n.commit_index n.log.entries (state_of o).entries
    keeps e =
        subst (λ (o : Outcome Log). KeepsTo n.commit_index n.log.entries (state_of o).entries) e
          (append_entries-KeepsTo n.log req.entries n.commit_index)

    go :
        (o : Outcome Log)
        → append_entries n.log req.entries n.commit_index ≡ o
        → Inv (node_of (accept req n))
    go (done l) e =
        let inside = kept_index n.commit_index n.log l v.shape (keeps e) v.committed in
        let (up, low) = next_commit_bounds n.commit_index req.leader_commit (last_index l) inside in
        rw (accept-done req n l e) (record {
          shape = at e;
          committed = low;
          applied = omega arith;
          buffered = v.buffered;
          positive = v.positive;
        })
    go (panicked l) e = rw (accept-panicked req n l e) record {
      shape = at e;
      committed = kept_index n.commit_index n.log l v.shape (keeps e) v.committed;
      applied = v.applied;
      buffered = v.buffered;
      positive = v.positive;
    }

pub append-Inv :
    (req : AppendEntriesRequest) (n : Node) → Inv n → Inv (node_of (handle_append_entries req n))
append-Inv req n v =
    append_cases (λ h. Inv (node_of h)) req n (λ _. v) (λ _ _ _. following-Inv req n v)
      (λ _ _. accept-Inv req _ (following-Inv req n v))
  where
    following-Inv : (req : AppendEntriesRequest) (n : Node) → Inv n → Inv (following req n)
    following-Inv req n v = record {
      shape = v.shape;
      committed = v.committed;
      applied = v.applied;
      buffered = v.buffered;
      positive = v.positive;
    }

pub advance-Inv : (n : Node) → Inv n → Inv (advance_commit_index n)
advance-Inv n v =
    let (c, e, up, how) = advance_commit_index_to n in
    rw e record {
      shape = v.shape;
      committed = ground arith;
      applied = omega arith;
      buffered = v.buffered;
      positive = v.positive;
    }

pub record_match-Inv :
    (peer : String) (es : List LogEntry) (n : Node) → Inv n → Inv (record_match peer es n)
unfolding record_match
record_match-Inv peer es n v = ground arith

pub back_up-Inv : (peer : String) (i : ℕ) (n : Node) → Inv n → Inv (back_up peer i n)
unfolding back_up
back_up-Inv peer i n v = ground arith

pub reply-Inv :
    (peer : String) (req : AppendEntriesRequest) (resp : Option AppendEntriesResponse) (n : Node)
    → Inv n
    → Inv (receive_reply peer req resp n)
unfolding receive_reply step_down
reply-Inv peer req none n v = v
reply-Inv peer req (some r) n v =
    reply_cases Inv peer req r n v (λ _. become_follower-Inv r.term "" n v)
      (λ _ _ _. advance-Inv _ (record_match-Inv peer req.entries n v))
      (λ _ _ _. back_up-Inv peer r.conflict_index n v)

last_index-append : (l : Log) (e : LogEntry) → last_index l ≤ last_index (log_append l e).0
unfolding log_append last_index
last_index-append l e = omega (arith, length-append {A = LogEntry} l.entries)

pub stroke-Inv : (s : StrokeEvent) (n m : Node) → handle_stroke s n ≡ some m → Inv n → Inv m
stroke-Inv s n m e v = rw (stroke_result s n e).1 (record {
  shape = append-IsLog n.log _ v.shape;
  committed =
      omega
        (arith, last_index-append n.log (record { index = 0; term = n.current_term; stroke = s }));
  applied = v.applied;
  buffered = v.buffered;
  positive = v.positive;
})

send_commit-le :
    (ch : List LogEntry) (e : LogEntry)
    → length ch ≤ commit_cap
    → length (send_commit ch e) ≤ commit_cap
send_commit-le ch e h =
    ground (arith, length-append ch (e ∷ []), length-append (drop 1 ch) (e ∷ []), length-drop 1 ch)

pub apply_from-Inv :
    (rounds i : ℕ) (n : Node)
    → Inv n
    → n.last_applied < i
    → i + rounds ≤ n.commit_index + 1
    → Inv (apply_from rounds i n)
unfolding apply_from
apply_from-Inv zero i n v lo hi = v
apply_from-Inv (suc rounds) i n v lo hi = elim (Option-cases (get_entry n.log (pos i))) [
  | inl e ↦ rw (e, apply_from) v
  | inr (x, e) ↦
      rw (e, apply_from)
        (apply_from-Inv rounds (suc i)
          (record n { commit_ch = send_commit n.commit_ch x; last_applied = i })
          (record {
            shape = v.shape;
            committed = v.committed;
            applied = omega arith;
            buffered = send_commit-le n.commit_ch x v.buffered;
            positive = v.positive;
          })
          (omega arith) (omega arith))
]

pub apply-Inv : (n : Node) → Inv n → Inv (apply_committed n)
unfolding apply_committed
apply-Inv n v =
    apply_from-Inv (n.commit_index - n.last_applied) (n.last_applied + 1) n v (omega arith)
      (omega (arith, v.applied))
