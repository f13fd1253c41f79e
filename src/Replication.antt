-- ===== src/Replication.antt =====
-- replica/internal/raft/replication.go: strokes, log replication and the commit index.
--
-- `sendAppendEntries` releases the mutex during the call to the peer, so it is two operations:
-- `make_request` before the call and `receive_reply` after it.
pub mod Commit
pub mod Follow
pub mod Accept
pub mod Replies
pub mod Reply
pub mod Revote
pub mod SyncLog
use smol_raft.Prelude.{
  ℕ, zero, suc, ◌+◌, ◌-◌, ◌/◌, String, Bool, true, false, not, ◌&&◌, ◌||◌, Option, none, some, List,
  [], ◌∷◌, length, ltb, leb, ◌==◌, if◌then◌else◌, get_elem?,
}
use smol_raft.Types.{
  NodeState, follower, candidate, leader, StrokeEvent, LogEntry, AppendEntriesRequest,
  AppendEntriesResponse,
}
use smol_raft.Log.{
  Log, Outcome, ℤ, pos, done, panicked, append, append_entries, get_entry, get_from, last_index,
  term_at,
}
use smol_raft.Node.{
  Node, Indices, index_of, assign, state_eq, become_follower, step_down, reset_election_timer,
  signal_new_entry,
}

-- `none` is `ErrNotLeader`, which leaves the node as it was.
unfoldable pub handle_stroke : StrokeEvent → Node → Option Node
handle_stroke stroke n =
    if not (state_eq n.state leader)
    then none
    else some (
        signal_new_entry (record n {
          log = (append n.log (record { index = 0; term = n.current_term; stroke = stroke })).0;
        }))

-- The request for a peer; `none` where the node is no leader or has no index for the peer. A next
-- index is at least 1, so `nextIdx - 1` is not negative.
unfoldable pub make_request : String → Node → Option AppendEntriesRequest
make_request peer n =
    if not (state_eq n.state leader) then none else elim (index_of peer n.next_index) [
      | none ↦ none
      | some next ↦ some (record {
        term = n.current_term;
        leader_id = n.id;
        prev_log_index = next - 1;
        prev_log_term = term_at n.log (pos (next - 1));
        entries = get_from n.log (pos next);
        leader_commit = n.commit_index;
      })
    ]

-- `n.matchIndex[peer]`, which is 0 for a missing key.
abbrev pub index_or_zero : Option ℕ → ℕ
index_or_zero none = 0
index_or_zero (some i) = i

-- The peers whose match index is at least idx.
unfoldable pub count_matching : Indices → ℕ → List String → ℕ
count_matching m idx [] = 0
count_matching m idx (p ∷ ps) =
    (if leb idx (index_or_zero (index_of p m)) then 1 else 0) + count_matching m idx ps

unfoldable pub replica_count : ℕ → Node → ℕ
replica_count idx n = 1 + count_matching n.match_index idx n.peers

abbrev pub commit_majority : Node → ℕ
commit_majority n = (length n.peers + 1) / 2 + 1

-- One round of the loop of `advanceCommitIndex`.
unfoldable pub advance_one : ℕ → Node → Node
advance_one idx n =
    if not (term_at n.log (pos idx) == n.current_term)
    then n
    else if leb (commit_majority n) (replica_count idx n)
    then record n { commit_index = idx }
    else n

-- The loop from idx, with `rounds` indices left up to the last.
unfoldable pub advance_from : ℕ → ℕ → Node → Node
advance_from zero idx n = n
advance_from (suc rounds) idx n = advance_from rounds (suc idx) (advance_one idx n)

unfoldable pub advance_commit_index : Node → Node
advance_commit_index n = advance_from (last_index n.log - n.commit_index) (n.commit_index + 1) n

abbrev pub last_entry : List LogEntry → Option LogEntry
last_entry [] = none
last_entry (e ∷ []) = some e
last_entry (e ∷ f ∷ es) = last_entry (f ∷ es)

-- `entries[len(entries)-1].Index` is what the peer now matches; no entries, no change.
unfoldable pub record_match : String → List LogEntry → Node → Node
record_match peer entries n = elim (last_entry entries) [
  | none ↦ n
  | some e ↦ record n {
    next_index = assign n.next_index peer (e.index + 1);
    match_index = assign n.match_index peer e.index;
  }
]

unfoldable pub back_up : String → ℕ → Node → Node
back_up peer conflict_index n =
    if ltb 0 conflict_index
    then record n { next_index = assign n.next_index peer conflict_index }
    else if ltb 1 (index_or_zero (index_of peer n.next_index))
    then record n {
      next_index = assign n.next_index peer (index_or_zero (index_of peer n.next_index) - 1);
    }
    else n

-- What the leader does with the response to `req`; `none` is a failed call.
unfoldable pub receive_reply :
    String → AppendEntriesRequest → Option AppendEntriesResponse → Node → Node
receive_reply peer req none n = n
receive_reply peer req (some resp) n =
    let (s, stepped) = step_down resp.term n in
    if stepped
    then s
    else if not (state_eq s.state leader) || not (s.current_term == req.term)
    then s
    else if resp.success
    then advance_commit_index (record_match peer req.entries s)
    else back_up peer resp.conflict_index s

-- How `HandleAppendEntries` ends: with a response, or by the panic of `Log.AppendEntries`.
pub data Handled : Type 0 where
  replied : Node → AppendEntriesResponse → Handled
  crashed : Node → Handled

abbrev pub node_of : Handled → Node
node_of (replied n resp) = n
node_of (crashed n) = n

-- The statements up to `n.currentTerm = req.Term`, for a request that is not stale.
unfoldable pub follow : AppendEntriesRequest → Node → Node
follow req n =
    let led = record (reset_election_timer n) { leader_id = req.leader_id } in
    let stepped =
      if state_eq led.state candidate then become_follower req.term req.leader_id led else led in
    let passive =
      if not (state_eq stepped.state follower)
      then become_follower req.term req.leader_id stepped
      else stepped in
    record passive { current_term = req.term }

-- The consistency check: the conflict index of a refusal, or `none` where the log matches.
unfoldable pub check_prev : AppendEntriesRequest → Log → Option ℕ
check_prev req l =
    if not (ltb 0 req.prev_log_index) then none else elim (get_entry l (pos req.prev_log_index)) [
      | none ↦ some (last_index l + 1)
      | some e ↦ if not (e.term == req.prev_log_term) then some req.prev_log_index else none
    ]

unfoldable pub advance_follower : ℕ → Node → Node
advance_follower leader_commit n =
    if ltb n.commit_index leader_commit
    then record n {
      commit_index =
          if ltb leader_commit (last_index n.log) then leader_commit else last_index n.log;
    }
    else n

-- The rest of the handler, from the append on.
unfoldable pub accept : AppendEntriesRequest → Node → Handled
accept req n = elim (append_entries n.log req.entries n.commit_index) [
  | panicked l ↦ crashed (record n { log = l })
  | done l ↦
      let s = advance_follower req.leader_commit (record n { log = l }) in
      replied s (record { term = s.current_term; success = true; conflict_index = 0 })
]

-- The handler from the consistency check on. A refusal carries the term from before the step down.
unfoldable pub respond : AppendEntriesRequest → ℕ → Node → Handled
respond req term_before f = elim (check_prev req f.log) [
  | some conflict ↦
      replied f (record { term = term_before; success = false; conflict_index = conflict })
  | none ↦ accept req f
]

unfoldable pub handle_append_entries : AppendEntriesRequest → Node → Handled
handle_append_entries req n =
    let s = (step_down req.term n).0 in
    if ltb req.term s.current_term
    then replied s (record { term = s.current_term; success = false; conflict_index = 0 })
    else respond req n.current_term (follow req s)

abbrev pub up_to : ℕ → List LogEntry → List LogEntry
up_to c [] = []
up_to c (e ∷ es) = if leb e.index c then e ∷ up_to c es else up_to c es

-- The committed entries from an index on.
unfoldable pub get_sync_log : ℤ → Node → List LogEntry
get_sync_log from n = up_to n.commit_index (get_from n.log from)
