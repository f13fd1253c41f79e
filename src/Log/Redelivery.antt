-- ===== src/Log/Redelivery.antt =====
-- Requests that arrive twice, or late: `AppendEntries` applied to entries the log already has.
use smol_raft.Prelude.{
  ℕ, suc, ◌≤◌, ◌<◌, ◌≡◌, refl, sym, ap, ◌∙◌, Option, none, some, List, [], ◌∷◌, ◌++◌, arith, length,
}
use smol_raft.Types.{LogEntry}
use smol_raft.Log.{Log, Outcome, done, panicked, append_loop, append_entries, map_outcome}
use smol_raft.Log.Shape.{Indexed, Indexed-at}
use smol_raft.Log.Merge.{
  first_conflict, overwrite, merged, append_loop-merged, append_entries-merged, as_log,
  take-append-drop, kept, rest, length-kept,
}

overwrite_self : (new : List LogEntry) → overwrite new new ≡ new
overwrite_self [] = refl
overwrite_self (e ∷ new) = ground (arith, overwrite_self new)

overwrite-overwrite :
    (old new : List LogEntry) → overwrite (overwrite old new) new ≡ overwrite old new
overwrite-overwrite [] new = overwrite_self new
overwrite-overwrite (x ∷ old) [] = refl
overwrite-overwrite (x ∷ old) (e ∷ new) =
    ground (arith, overwrite-overwrite old new, overwrite_self new)

first_conflict_self : (k : ℕ) (new : List LogEntry) → first_conflict k new new ≡ none
first_conflict_self k [] = refl
first_conflict_self k (e ∷ new) = ground (arith, first_conflict_self (suc k) new)

first_conflict-overwrite :
    (k : ℕ) (old new : List LogEntry) → first_conflict k (overwrite old new) new ≡ none
first_conflict-overwrite k [] new = first_conflict_self k new
first_conflict-overwrite k (x ∷ old) [] = refl
first_conflict-overwrite k (x ∷ old) (e ∷ new) =
    ground (arith, first_conflict-overwrite (suc k) old new, first_conflict_self (suc k) new)

-- Entries that agree with the log and do not reach past it change nothing.
pub overwrite-eq_old :
    (k : ℕ) (old new : List LogEntry)
    → first_conflict k old new ≡ none
    → length new ≤ length old
    → overwrite old new ≡ old
overwrite-eq_old k [] [] h g = refl
overwrite-eq_old k [] (e ∷ new) h g = absurd (omega arith)
overwrite-eq_old k (x ∷ old) [] h g = refl
overwrite-eq_old k (x ∷ old) (e ∷ new) h g = ground (arith, overwrite-eq_old (suc k) old new)

-- After a merge that succeeded the log is the part kept, then the merge.
merged-done :
    (pre old new : List LogEntry) (c : ℕ) (o : Option ℕ) {es : List LogEntry}
    → merged pre old new c o ≡ done es
    → es ≡ pre ++ overwrite old new
merged-done pre old new c none h = ground arith
merged-done pre old new c (some j) h = ground arith

map_outcome-done :
    (o : Outcome (List LogEntry)) {l : Log} → map_outcome as_log o ≡ done l → o ≡ done l.entries
map_outcome-done (done es) h = ground arith
map_outcome-done (panicked es) h = cc

append_loop_again :
    (pre old new : List LogEntry) (c : ℕ)
    → Indexed (length pre) new
    → append_loop (pre ++ overwrite old new) new c ≡ done (pre ++ overwrite old new)
append_loop_again pre old new c at =
    append_loop-merged pre (overwrite old new) new c at
    ∙ rw (first_conflict-overwrite (length pre) old new)
        (ap (λ es. done (pre ++ es)) (overwrite-overwrite old new))

append_entries_again :
    (l : Log) (pre old new : List LogEntry) (c : ℕ)
    → Indexed (length pre) new
    → l.entries ≡ pre ++ overwrite old new
    → append_entries l new c ≡ done l
unfolding append_entries
append_entries_again l pre old new c at e =
    ap (map_outcome as_log) (ap (λ es. append_loop es new c) e ∙ append_loop_again pre old new c at)
    ∙ ap (λ es. done (as_log es)) (sym e)

module _ (l : Log) (new : List LogEntry) (c p : ℕ) (room : p < length l.entries)
    (at : Indexed (suc p) new) where
  -- A merge that succeeds leaves the entries up to p and the rest overwritten.
  pub entries-append_entries :
      (l' : Log)
      → append_entries l new c ≡ done l'
      → l'.entries ≡ kept p l ++ overwrite (rest p l) new
  entries-append_entries l' ok =
      merged-done (kept p l) (rest p l) new c (first_conflict (suc p) (rest p l) new)
        (map_outcome-done _ (sym (append_entries-merged l new c p room at) ∙ ok))

  -- A request whose entries were appended may arrive again, under any commit index: it succeeds
  -- and changes nothing.
  pub append_entries_twice :
      (l' : Log) (later : ℕ)
      → append_entries l new c ≡ done l'
      → append_entries l' new later ≡ done l'
  append_entries_twice l' later ok =
      append_entries_again l' (kept p l) (rest p l) new later
        (Indexed-at new (sym (length-kept p l room)) at) (entries-append_entries l' ok)

  -- A late request whose entries all agree with the log, and do not reach past its end, succeeds
  -- and cuts nothing off.
  pub append_entries_stale :
      first_conflict (suc p) (rest p l) new ≡ none
      → length new ≤ length (rest p l)
      → append_entries l new c ≡ done l
  append_entries_stale agree short =
      append_entries-merged l new c p room at
      ∙ rw agree (
          ap (λ es. done (as_log (kept p l ++ es)))
            (overwrite-eq_old (suc p) (rest p l) new agree short)
          ∙ ap (λ es. done (as_log es)) (take-append-drop (suc p) l.entries))
