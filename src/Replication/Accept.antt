-- ===== src/Replication/Accept.antt =====
-- What `HandleAppendEntries` does to the log and the commit index when it accepts a request, and
-- what it answers when it refuses one.
use smol_raft.Prelude.{
  ℕ, suc, ◌≤◌, ◌<◌, ◌≡◌, ◌⊎◌, inl, inr, true, Option, none, some, Option-cases, refl, ap, ◌∙◌,
  arith, ltb, ◌++◌, length, get_elem?, if◌then◌else◌, List, lt-length_of_get, length-le_of_get,
  le→leb, dec_lt,
}
use smol_raft.Types.{LogEntry, AppendEntriesRequest}
use smol_raft.Log.{Log, done, panicked, append_entries, map_outcome, last_index, get_entry}
use smol_raft.Log.Shape.{IsLog, Indexed}
use smol_raft.Log.Merge.{
  kept, rest, overwrite, first_conflict, merged, append_entries-merged, as_log, take-append-drop,
}
use smol_raft.Node.{Node}
use smol_raft.Replication.{
  replied, crashed, check_prev, advance_follower, accept, respond, handle_append_entries,
}
use smol_raft.Replication.Follow.{following, handle-current}

-- The log has the entry that the request says precedes its own.
abbrev pub PrevMatches : AppendEntriesRequest → Log → Type 0
PrevMatches req l =
    (req.prev_log_index ≡ 0)
    ⊎ ((e : LogEntry) × (get_elem? l.entries req.prev_log_index ≡ some e)
        × (e.term ≡ req.prev_log_term))

pub check_prev-none :
    (req : AppendEntriesRequest) (l : Log) → PrevMatches req l → check_prev req l ≡ none
unfolding check_prev get_entry
check_prev-none req l h = ground arith

pub PrevMatches-check :
    (req : AppendEntriesRequest) (l : Log) → check_prev req l ≡ none → PrevMatches req l
unfolding check_prev get_entry
PrevMatches-check req l h = elim (Option-cases (get_elem? l.entries req.prev_log_index)) [
  | inl e ↦ ground arith
  | inr (x, e) ↦ elim (dec_lt 0 req.prev_log_index) [
    | yes p ↦ inr (x, e, ground arith)
    | no p ↦ inl (omega arith)
  ]
]

-- A refusal names an index of the log that the request does not reach beyond.
pub check_prev-bounds :
    (req : AppendEntriesRequest) (l : Log) (conflict : ℕ)
    → check_prev req l ≡ some conflict
    → (1 ≤ conflict) × (conflict ≤ req.prev_log_index)
unfolding check_prev get_entry last_index
check_prev-bounds req l conflict h = elim (Option-cases (get_elem? l.entries req.prev_log_index)) [
  | inl e ↦ ground (arith, length-le_of_get l.entries req.prev_log_index e)
  | inr (x, e) ↦ ground arith
]

-- The commit index of a follower with `last` as its last index.
abbrev pub next_commit : ℕ → ℕ → ℕ → ℕ
next_commit commit leader_commit last =
    if ltb commit leader_commit
    then (if ltb leader_commit last then leader_commit else last)
    else commit

pub next_commit_bounds :
    (commit leader_commit last : ℕ)
    → commit ≤ last
    → (commit ≤ next_commit commit leader_commit last)
      × (next_commit commit leader_commit last ≤ last)
next_commit_bounds commit leader_commit last h = ground arith

pub accept-done :
    (req : AppendEntriesRequest) (n : Node) (l : Log)
    → append_entries n.log req.entries n.commit_index ≡ done l
    → accept req n
      ≡ replied
          (record n {
            log = l;
            commit_index = next_commit n.commit_index req.leader_commit (last_index l);
          })
          (record { term = n.current_term; success = true; conflict_index = 0 })
unfolding accept advance_follower
accept-done req n l h = rw (h, accept) (ground arith)

pub accept-panicked :
    (req : AppendEntriesRequest) (n : Node) (l : Log)
    → append_entries n.log req.entries n.commit_index ≡ panicked l
    → accept req n ≡ crashed (record n { log = l })
unfolding accept
accept-panicked req n l h = rw (h, accept)

-- No committed entry conflicts with the request.
abbrev pub SparesCommitted : AppendEntriesRequest → Node → Type 0
SparesCommitted req n =
    let o = first_conflict (suc req.prev_log_index) (rest req.prev_log_index n.log) req.entries in
    (o ≡ none) ⊎ ((j : ℕ) × (o ≡ some j) × (n.commit_index < j))

-- The log after the request: up to the preceding entry as before, then merged.
abbrev pub appended : AppendEntriesRequest → Log → Log
appended req l =
    as_log (kept req.prev_log_index l ++ overwrite (rest req.prev_log_index l) req.entries)

prev-lt-length :
    (req : AppendEntriesRequest) (l : Log)
    → IsLog l.entries
    → PrevMatches req l
    → req.prev_log_index < length l.entries
prev-lt-length req l v (inl e) = omega (arith, lt-length_of_get l.entries 0 v.first)
prev-lt-length req l v (inr (x, e, t)) = lt-length_of_get l.entries req.prev_log_index e

merged-spares :
    (pre old new : List LogEntry) (c : ℕ) (o : Option ℕ)
    → (o ≡ none) ⊎ ((j : ℕ) × (o ≡ some j) × (c < j))
    → merged pre old new c o ≡ done (pre ++ overwrite old new)
merged-spares pre old new c none h = refl
merged-spares pre old new c (some j) h = ground arith

module _ (req : AppendEntriesRequest) (n : Node) (shape : IsLog n.log.entries)
    (at : Indexed (suc req.prev_log_index) req.entries) (current : n.current_term ≤ req.term)
    (matches : PrevMatches req n.log) where
  append-appended :
      SparesCommitted req n
      → append_entries n.log req.entries n.commit_index ≡ done (appended req n.log)
  append-appended spares =
      append_entries-merged n.log req.entries n.commit_index req.prev_log_index
        (prev-lt-length req n.log shape matches) at
      ∙ ap (map_outcome as_log) (
          merged-spares (kept req.prev_log_index n.log) (rest req.prev_log_index n.log) req.entries
            n.commit_index _ spares)

  -- A request that is not stale, whose preceding entry is in the log and whose entries are numbered
  -- from there on, is accepted if no committed entry conflicts with it: the node follows the
  -- sender, merges the entries as the RAFT paper says, raises its commit index to the leader's as
  -- far as its log goes, and answers with success and the new term.
  pub handle_append_entries-accepts :
      SparesCommitted req n
      → handle_append_entries req n
        ≡ replied
            (record (following req n) {
              log = appended req n.log;
              commit_index =
                  next_commit n.commit_index req.leader_commit (last_index (appended req n.log));
            })
            (record { term = req.term; success = true; conflict_index = 0 })
  unfolding respond
  handle_append_entries-accepts spares =
      handle-current req n current
      ∙ rw (check_prev-none req n.log matches, respond)
          (accept-done req (following req n) (appended req n.log) (append-appended spares))

  -- Such a request whose first conflict is at a committed index makes the handler panic; the node
  -- then follows the sender, with its log and its commit index unchanged.
  pub handle_append_entries-crashes :
      (j : ℕ)
      → first_conflict (suc req.prev_log_index) (rest req.prev_log_index n.log) req.entries ≡ some j
      → j ≤ n.commit_index
      → handle_append_entries req n ≡ crashed (following req n)
  unfolding respond
  handle_append_entries-crashes j clash low =
      handle-current req n current
      ∙ rw (check_prev-none req n.log matches, respond)
          (accept-panicked req (following req n) n.log unchanged)
    where
      unchanged : append_entries n.log req.entries n.commit_index ≡ panicked n.log
      unchanged =
          append_entries-merged n.log req.entries n.commit_index req.prev_log_index
            (prev-lt-length req n.log shape matches) at
          ∙ rw clash (
              rw (le→leb j n.commit_index low) (
                ap (λ es. panicked (as_log es))
                  (take-append-drop (suc req.prev_log_index) n.log.entries)))
