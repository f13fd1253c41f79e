-- ===== src/Log/Merge.antt =====
-- `AppendEntries` against its description in the RAFT paper: find the first entry that conflicts
-- with a new one, delete it and all that follow it, and append the entries not in the log.
use smol_raft.Prelude.{
  ℕ, zero, suc, ◌<◌, ◌≡◌, refl, subst, sym, ap, ◌∙◌, Option, none, some, List, [], ◌∷◌, ◌++◌,
  append_assoc, append-nil, arith, true, false, Bool-cases, inl, inr, length, get_elem?, take, drop,
  leb, ◌==◌, if◌then◌else◌, get_elem?-none, length-append, length-take, get_elem?-append_right,
}
use smol_raft.Types.{LogEntry}
use smol_raft.Log.{
  Log, Outcome, done, panicked, push, append_one, append_loop, append_entries, map_outcome,
}
use smol_raft.Log.Shape.{Indexed, Indexed-at}

-- The position of the first conflict, where both lists start at position k.
abbrev pub first_conflict : ℕ → List LogEntry → List LogEntry → Option ℕ
first_conflict k [] new = none
first_conflict k (x ∷ old) [] = none
first_conflict k (x ∷ old) (e ∷ new) =
    if x.term == e.term then first_conflict (suc k) old new else some k

-- The old entries up to the first conflict, then the new ones.
abbrev pub overwrite : List LogEntry → List LogEntry → List LogEntry
overwrite [] new = new
overwrite (x ∷ old) [] = x ∷ old
overwrite (x ∷ old) (e ∷ new) = if x.term == e.term then x ∷ overwrite old new else e ∷ new

-- What `AppendEntries` is to do where `pre` is the part of the log before the new entries.
abbrev pub merged :
    List LogEntry → List LogEntry → List LogEntry → ℕ → Option ℕ → Outcome (List LogEntry)
merged pre old new c none = done (pre ++ overwrite old new)
merged pre old new c (some j) =
    if leb j c then panicked (pre ++ old) else done (pre ++ overwrite old new)

get-middle :
    (pre : List LogEntry) (x : LogEntry) (old : List LogEntry) (e : LogEntry)
    → e.index ≡ length pre
    → get_elem? (pre ++ x ∷ old) e.index ≡ some x
get-middle pre x old e h = rw h (
    subst (λ n. get_elem? (pre ++ x ∷ old) n ≡ some x) (omega arith)
      (get_elem?-append_right pre (x ∷ old) 0))

take-length-append : (pre ys : List LogEntry) → take (length pre) (pre ++ ys) ≡ pre
take-length-append [] ys = refl
take-length-append (x ∷ pre) ys = ap (◌∷◌ x) (take-length-append pre ys)

push-append : (es : List LogEntry) (e : LogEntry) → e.index ≡ length es → push es e ≡ es ++ e ∷ []
push-append es e h = ground arith

length-snoc : (es : List LogEntry) (e : LogEntry) → length (es ++ e ∷ []) ≡ suc (length es)
length-snoc es e = omega (arith, length-append es (e ∷ []))

append_one-end :
    (es : List LogEntry) (e : LogEntry) (c : ℕ)
    → e.index ≡ length es
    → append_one es e c ≡ done (es ++ e ∷ [])
unfolding append_one
append_one-end es e c h =
    rw (get_elem?-none es e.index (omega arith), append_one) (ap done (push-append es e h))

append_loop-end :
    (es new : List LogEntry) (c : ℕ)
    → Indexed (length es) new
    → append_loop es new c ≡ done (es ++ new)
unfolding append_loop
append_loop-end es [] c h = ap done (sym (append-nil es))
append_loop-end es (e ∷ new) c h = rw (append_one-end es e c h.0) (
    append_loop-end (es ++ e ∷ []) new c (Indexed-at new (omega (arith, length-snoc es e)) h.1)
    ∙ ap done (append_assoc es (e ∷ []) new))

module _ (pre : List LogEntry) (x : LogEntry) (old : List LogEntry) (e : LogEntry) (c : ℕ)
    (at : e.index ≡ length pre) where
  append_one-same :
      (x.term == e.term) ≡ true → append_one (pre ++ x ∷ old) e c ≡ done (pre ++ x ∷ old)
  unfolding append_one
  append_one-same t = rw (get-middle pre x old e at, append_one) (rw t)

  append_one-clash :
      (x.term == e.term) ≡ false
      → append_one (pre ++ x ∷ old) e c
        ≡ (if leb (length pre) c then panicked (pre ++ x ∷ old) else done (pre ++ e ∷ []))
  unfolding append_one
  append_one-clash t =
      rw (get-middle pre x old e at, append_one) (rw (t, at, take-length-append pre (x ∷ old)))

merged-shift :
    (pre : List LogEntry) (x : LogEntry) (old : List LogEntry) (e : LogEntry) (new : List LogEntry)
    (c : ℕ) (o : Option ℕ)
    → (x.term == e.term) ≡ true
    → merged (pre ++ x ∷ []) old new c o ≡ merged pre (x ∷ old) (e ∷ new) c o
merged-shift pre x old e new c none t = rw t (ap done (append_assoc pre (x ∷ []) _))
merged-shift pre x old e new c (some j) t =
    rw (t, append_assoc pre (x ∷ []) old, append_assoc pre (x ∷ []) (overwrite old new))

pub append_loop-merged :
    (pre old new : List LogEntry) (c : ℕ)
    → Indexed (length pre) new
    → append_loop (pre ++ old) new c ≡ merged pre old new c (first_conflict (length pre) old new)
unfolding append_loop
append_loop-merged pre [] new c h = rw (append-nil pre) (append_loop-end pre new c h)
append_loop-merged pre (x ∷ old) [] c h = refl
append_loop-merged pre (x ∷ old) (e ∷ new) c h = elim (Bool-cases (x.term == e.term)) [
  | inl t ↦ rw (append_one-same pre x old e c h.0 t) (
      rw t (
        ap (λ l. append_loop l new c) (sym (append_assoc pre (x ∷ []) old))
        ∙ append_loop-merged (pre ++ x ∷ []) old new c
            (Indexed-at new (omega (arith, length-snoc pre x)) h.1)
        ∙ merged-shift pre x old e new c (first_conflict (length (pre ++ x ∷ [])) old new) t
        ∙ ap (λ k. merged pre (x ∷ old) (e ∷ new) c (first_conflict k old new))
            (length-snoc pre x)))
  | inr t ↦ rw (append_one-clash pre x old e c h.0 t) (elim (Bool-cases (leb (length pre) c)) [
    | inl l ↦ rw (t, l)
    | inr l ↦
        rw (t, l)
          (rw t (
            append_loop-end (pre ++ e ∷ []) new c
              (Indexed-at new (omega (arith, length-snoc pre e)) h.1)
            ∙ ap done (append_assoc pre (e ∷ []) new)))
  ])
]

pub take-append-drop : (n : ℕ) (xs : List LogEntry) → take n xs ++ drop n xs ≡ xs
take-append-drop zero xs = refl
take-append-drop (suc n) [] = refl
take-append-drop (suc n) (x ∷ xs) = ap (◌∷◌ x) (take-append-drop n xs)

abbrev pub as_log : List LogEntry → Log
as_log es = record { entries = es }

-- The log up to the entry at p, and what follows it.
abbrev pub kept : ℕ → Log → List LogEntry
kept p l = take (suc p) l.entries

abbrev pub rest : ℕ → Log → List LogEntry
rest p l = drop (suc p) l.entries

pub length-kept : (p : ℕ) (l : Log) → p < length l.entries → length (kept p l) ≡ suc p
length-kept p l room = omega (arith, length-take (suc p) l.entries)

-- For entries numbered p + 1, p + 2 and so on, and a log that has an entry at p, `AppendEntries`
-- keeps the log up to p and merges the rest of it with the new entries as the RAFT paper says; if
-- the first conflict is at an index up to the commit index, it panics and leaves the log as it was.
pub append_entries-merged :
    (l : Log) (new : List LogEntry) (c p : ℕ)
    → p < length l.entries
    → Indexed (suc p) new
    → append_entries l new c
      ≡ map_outcome as_log
          (merged (kept p l) (rest p l) new c (first_conflict (suc p) (rest p l) new))
unfolding append_entries
append_entries-merged l new c p room at = ap (map_outcome as_log) (
    ap (λ es. append_loop es new c) (sym (take-append-drop (suc p) l.entries))
    ∙ append_loop-merged (kept p l) (rest p l) new c
        (Indexed-at new (sym (length-kept p l room)) at)
    ∙ ap (λ k. merged (kept p l) (rest p l) new c (first_conflict k (rest p l) new))
        (length-kept p l room))
