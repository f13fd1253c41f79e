-- ===== src/Log/Committed.antt =====
-- The part of the log up to the commit index under `AppendEntries`.
use smol_raft.Prelude.{
  ℕ, ◌≤◌, ◌≡◌, some, List, ◌∙◌, arith, get_elem?, take, get_elem?-append_left, get_elem?-take,
  lt-length_of_get,
}
use smol_raft.Types.{LogEntry}
use smol_raft.Log.{Log, state_of, push, append_one, append_entries}
use smol_raft.Log.Cases.{append_one_cases, append_loop_inv}
use smol_raft.Log.Shape.{state_of-append_entries}

-- `ys` holds every entry of `xs` up to index c.
abbrev pub KeepsTo : ℕ → List LogEntry → List LogEntry → Type 0
KeepsTo c xs ys = (i : ℕ) (a : LogEntry) → i ≤ c → get_elem? xs i ≡ some a → get_elem? ys i ≡ some a

get-push :
    (es : List LogEntry) (e : LogEntry) (i : ℕ) {a : LogEntry}
    → get_elem? es i ≡ some a
    → get_elem? (push es e) i ≡ some a
get-push es e i h = get_elem?-append_left es _ i (lt-length_of_get es i h) ∙ h

append_one-KeepsTo :
    (c : ℕ) (xs es : List LogEntry) (e : LogEntry)
    → KeepsTo c xs es
    → KeepsTo c xs (state_of (append_one es e c))
append_one-KeepsTo c xs es e keeps =
    append_one_cases (λ o. KeepsTo c xs (state_of o)) es e c
      (λ _ i a low h. get-push es e i (keeps i a low h)) (λ _ _ _. keeps) (λ _ _ _ _. keeps)
      (λ _ _ _ above i a low h.
        get-push (take e.index es) e i
          (get_elem?-take es e.index i (omega arith) ∙ keeps i a low h))

-- Whatever the request holds, and whether or not the method panics, every entry up to the commit
-- index is in the log afterwards, at its place and unchanged.
pub append_entries-KeepsTo :
    (l : Log) (new : List LogEntry) (c : ℕ)
    → KeepsTo c l.entries (state_of (append_entries l new c)).entries
append_entries-KeepsTo l new c = rw (state_of-append_entries l new c) (
    append_loop_inv (KeepsTo c l.entries) c (append_one-KeepsTo c l.entries) l.entries new
      (λ i a low h. h))
