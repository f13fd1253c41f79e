-- ===== src/Replication/Replies.antt =====
-- What each answer to AppendEntries says of the node that gave it, before and after.
use smol_raft.Prelude.{◌≤◌, ◌<◌, ◌≡◌, ◌⊎◌, inl, inr, true, false, none, refl}
use smol_raft.Types.{AppendEntriesRequest, AppendEntriesResponse}
use smol_raft.Log.{Log, Outcome, done, panicked, append_entries, last_index}
use smol_raft.Node.{Node}
use smol_raft.Replication.{Handled, replied, crashed, check_prev, accept, handle_append_entries}
use smol_raft.Replication.Follow.{following, append_cases}
use smol_raft.Replication.Accept.{
  PrevMatches, PrevMatches-check, check_prev-none, check_prev-bounds, next_commit, accept-done,
  accept-panicked,
}

-- The preceding entry is there, and the log's own method is applied to the entries.
pub record Accepted (req : AppendEntriesRequest) (n m : Node) (r : AppendEntriesResponse)
    : Type 0 where
  pub current : n.current_term ≤ req.term
  pub matches : PrevMatches req n.log
  pub log_merged : append_entries n.log req.entries n.commit_index ≡ done m.log
  pub commit_moved :
      m.commit_index ≡ next_commit n.commit_index req.leader_commit (last_index m.log)
  pub term_taken : m.current_term ≡ req.term
  pub term_told : r.term ≡ req.term

-- The request is stale and changed nothing, or the preceding entry is not there and the node only
-- follows the sender; the conflict index then lies between 1 and the preceding index. The term in
-- the answer is the one from before the request.
pub record Refused (req : AppendEntriesRequest) (n m : Node) (r : AppendEntriesResponse)
    : Type 0 where
  pub old_term : r.term ≡ n.current_term
  pub reason :
      ((req.term < n.current_term) × (m ≡ n) × (r.conflict_index ≡ 0))
      ⊎ ((n.current_term ≤ req.term)
          × (m ≡ following req n)
          × (1 ≤ r.conflict_index)
          × (r.conflict_index ≤ req.prev_log_index)
          × ¬ PrevMatches req n.log)

pub record Crashed (req : AppendEntriesRequest) (n m : Node) : Type 0 where
  pub current : n.current_term ≤ req.term
  pub matches : PrevMatches req n.log
  pub log_panicked : append_entries n.log req.entries n.commit_index ≡ panicked m.log
  pub commit_kept : m.commit_index ≡ n.commit_index

abbrev pub Result : AppendEntriesRequest → Node → Handled → Type 0
Result req n (replied m r) =
    ((r.success ≡ true) × Accepted req n m r) ⊎ ((r.success ≡ false) × Refused req n m r)
Result req n (crashed m) = Crashed req n m

accept-Result :
    (req : AppendEntriesRequest) (n : Node)
    → n.current_term ≤ req.term
    → check_prev req n.log ≡ none
    → Result req n (accept req (following req n))
accept-Result req n current ok = go (append_entries n.log req.entries n.commit_index) refl
  where
    go :
        (o : Outcome Log)
        → append_entries n.log req.entries n.commit_index ≡ o
        → Result req n (accept req (following req n))
    go (done l) e = rw (accept-done req (following req n) l e) (
        inl (
          refl,
          record {
            current = current;
            matches = PrevMatches-check req n.log ok;
            log_merged = e;
            commit_moved = refl;
            term_taken = refl;
            term_told = refl;
          },
        ))
    go (panicked l) e = rw (accept-panicked req (following req n) l e) (record {
      current = current;
      matches = PrevMatches-check req n.log ok;
      log_panicked = e;
      commit_kept = refl;
    })

-- Every answer, and the panic, means what the records above say.
pub handle_append_entries-Result :
    (req : AppendEntriesRequest) (n : Node) → Result req n (handle_append_entries req n)
handle_append_entries-Result req n =
    append_cases (Result req n) req n
      (λ stale. inr (refl, record { old_term = refl; reason = inl (stale, refl, refl) }))
      (λ conflict current clash. inr (
        refl,
        record {
          old_term = refl;
          reason = inr (
            current,
            refl,
            (check_prev-bounds req n.log conflict clash).0,
            (check_prev-bounds req n.log conflict clash).1,
            λ h. cc (check_prev-none req n.log h),
          );
        },
      ))
      (accept-Result req n)
