-- ===== src/Cluster/Merged.antt =====
-- What AppendEntries does to a log that keeps to the leaders' logs: it leaves it, or makes it the
-- beginning of the sender's.
use smol_raft.Prelude.{
  ℕ, zero, suc, ◌+◌, ◌<◌, ◌≡◌, ◌⊎◌, inl, inr, refl, sym, ap, ◌∙◌, subst, String, Bool-cases, Option,
  none, some, List, [], ◌∷◌, ◌++◌, length, take, drop, get_elem?, get_elem?-drop, lt-length_of_get,
  length-take, arith, ◌==◌,
}
use smol_raft.Types.{LogEntry, AppendEntriesRequest}
use smol_raft.Log.{Log, Outcome, done, panicked, sentinel, append_entries, map_outcome}
use smol_raft.Log.Shape.{take-IsLog}
use smol_raft.Log.Merge.{
  overwrite, merged, kept, rest, as_log, take-append-drop, append_entries-merged,
}
use smol_raft.Log.Redelivery.{entries-append_entries}
use smol_raft.Node.{Node}
use smol_raft.Replication.{node_of, handle_append_entries, accept}
use smol_raft.Replication.Follow.{following, append_cases}
use smol_raft.Replication.Accept.{PrevMatches, PrevMatches-check, accept-done, accept-panicked}
use smol_raft.Cluster.Ruled.{Ruled, IsWritten, Carries, take-append, take-IsWritten}

-- If equal terms at a place mean equal beginnings, the merge is one of the two lists.
pub overwrite_either :
    (old new : List LogEntry)
    → ((k : ℕ) (a b : LogEntry)
        → get_elem? old k ≡ some a
        → get_elem? new k ≡ some b
        → a.term ≡ b.term
        → take (suc k) old ≡ take (suc k) new)
    → (overwrite old new ≡ old) ⊎ (overwrite old new ≡ new)
overwrite_either [] new agree = inr refl
overwrite_either (x ∷ old) [] agree = inl refl
overwrite_either (x ∷ old) (e ∷ new) agree = elim (Bool-cases (x.term == e.term)) [
  | inr f ↦ inr (rw f)
  | inl t ↦
      let same : x ≡ e = cc (agree 0 x e refl refl (ground arith)) in
      elim (overwrite_either old new (λ k a b h g q. cc (agree (suc k) a b h g q))) [
        | inl l ↦ inl (rw t (ap (◌∷◌ x) l))
        | inr r ↦ inr (rw t (ap (◌∷◌ x) r ∙ ap (λ y. y ∷ new) same))
      ]
]

begins :
    (es l : List LogEntry)
    → ((k : ℕ) (e : LogEntry) → get_elem? es k ≡ some e → get_elem? l k ≡ some e)
    → (tail : List LogEntry) × (l ≡ es ++ tail)
begins [] l h = (l, refl)
begins (e ∷ es) [] h = absurd (cc (h 0 e refl))
begins (e ∷ es) (x ∷ l) h =
    let (tail, q) = begins es l (λ k a g. h (suc k) a g) in (tail, cc (h 0 e refl, q))

take-nil : (k : ℕ) → take {A = LogEntry} k [] ≡ []
take-nil zero = refl
take-nil (suc k) = refl

pub sum_suc : (a b : ℕ) → suc a + b ≡ suc (a + b)
sum_suc a b = omega arith

suc_right : (a b : ℕ) → suc (a + b) ≡ a + suc b
suc_right a b = omega arith

pub take_all : (es : List LogEntry) → take (length es) es ≡ es
take_all [] = refl
take_all (x ∷ es) = ap (◌∷◌ x) (take_all es)

pub drop-take : (a b : ℕ) (es : List LogEntry) → drop a (take (a + b) es) ≡ take b (drop a es)
drop-take zero b es = ap (λ k. take k es) (omega arith)
drop-take (suc a) b [] = rw (sum_suc a b) (sym (take-nil b))
drop-take (suc a) b (x ∷ es) = rw (sum_suc a b) (drop-take a b es)

take_split : (a b : ℕ) (es : List LogEntry) → take a es ++ take b (drop a es) ≡ take (a + b) es
take_split zero b es = ap (λ k. take k es) (omega arith)
take_split (suc a) b [] = rw (sum_suc a b) (take-nil b)
take_split (suc a) b (x ∷ es) = rw (sum_suc a b) (ap (◌∷◌ x) (take_split a b es))

pub merged_panicked :
    (pre old new : List LogEntry) (c : ℕ) (o : Option ℕ) {es : List LogEntry}
    → merged pre old new c o ≡ panicked es
    → es ≡ pre ++ old
merged_panicked pre old new c none h = cc
merged_panicked pre old new c (some j) h = ground arith

pub panicked_log :
    (o : Outcome (List LogEntry)) {l : Log}
    → map_outcome as_log o ≡ panicked l
    → o ≡ panicked l.entries
panicked_log (done es) h = cc
panicked_log (panicked es) h = ground arith

module _ (ruled : Ruled) (led : List (ℕ × String)) (nobody : ruled 0 ≡ sentinel ∷ [])
    (req : AppendEntriesRequest) (l : Log) (lead : List LogEntry) (carries : Carries req lead)
    (mine : IsWritten ruled led l.entries) (theirs : IsWritten ruled led lead)
    (matches : PrevMatches req l) where
  abbrev pub p : ℕ
  p = req.prev_log_index

  first_same : take 1 l.entries ≡ take 1 lead
  first_same =
      mine.coherent 0 sentinel mine.shape.first
      ∙ sym (theirs.coherent 0 sentinel theirs.shape.first)

  pub room : p < length l.entries
  room = elim matches [
    | inl e ↦ omega (arith, lt-length_of_get l.entries 0 mine.shape.first)
    | inr (x, g, t) ↦ lt-length_of_get l.entries p g
  ]

  -- The logs agree up to the entry before the request's.
  pub agree_before : take (suc p) l.entries ≡ take (suc p) lead
  agree_before = elim matches [
    | inl e ↦ subst (λ k. take (suc k) l.entries ≡ take (suc k) lead) (sym e) first_same
    | inr (x, g, t) ↦ elim carries.behind [
      | inl (y, h, u) ↦
          mine.coherent p x g
          ∙ ap (λ k. take (suc p) (ruled k)) (t ∙ sym u)
          ∙ sym (theirs.coherent p y h)
      | inr (z, none_sent) ↦
          let short =
            mine.coherent p x g
            ∙ ap (λ k. take (suc p) (ruled k)) (t ∙ z)
            ∙ ap (take (suc p)) nobody in
          let e : p ≡ 0 = omega (
            arith,
            ap length short,
            length-take (suc p) l.entries,
            length-take (suc p) (sentinel ∷ []),
            room,
          ) in
          subst (λ k. take (suc k) l.entries ≡ take (suc k) lead) (sym e) first_same
    ]
  ]

  pub sender : (tail : List LogEntry) × (drop (suc p) lead ≡ req.entries ++ tail)
  sender =
      begins req.entries (drop (suc p) lead)
        (λ k e g. get_elem?-drop lead (suc p) k ∙ carries.from_log k e g)

  pub agree_at :
      (k : ℕ) (a b : LogEntry)
      → get_elem? (rest p l) k ≡ some a
      → get_elem? req.entries k ≡ some b
      → a.term ≡ b.term
      → take (suc k) (rest p l) ≡ take (suc k) req.entries
  agree_at k a b h g same =
      let whole : take (suc p + suc k) l.entries ≡ take (suc p + suc k) lead =
        subst (λ n. take n l.entries ≡ take n lead) (suc_right (suc p) k)
          (mine.coherent (suc p + k) a (sym (get_elem?-drop l.entries (suc p) k) ∙ h)
            ∙ ap (λ t. take (suc (suc p + k)) (ruled t)) same
            ∙ sym (theirs.coherent (suc p + k) b (carries.from_log k b g))) in
      sym (drop-take (suc p) (suc k) l.entries)
      ∙ ap (drop (suc p)) whole
      ∙ drop-take (suc p) (suc k) lead
      ∙ ap (take (suc k)) sender.1
      ∙ take-append (suc k) req.entries sender.0 (omega (arith, lt-length_of_get req.entries k g))

  abbrev pub reach : ℕ
  reach = suc p + length req.entries

  beginning : IsWritten ruled led (take reach lead)
  beginning =
      take-IsWritten ruled led reach lead theirs (take-IsLog reach lead (omega arith) theirs.shape)

  pub appended_eq : kept p l ++ req.entries ≡ take reach lead
  appended_eq =
      ap (λ es. es ++ req.entries) agree_before
      ∙ ap (λ es. take (suc p) lead ++ es)
          (sym (
            ap (take (length req.entries)) sender.1
            ∙ take-append (length req.entries) req.entries sender.0 (omega arith)
            ∙ take_all req.entries))
      ∙ take_split (suc p) (length req.entries) lead

  -- The merged log is the old one or the beginning of the sender's.
  merged-IsWritten : IsWritten ruled led (kept p l ++ overwrite (rest p l) req.entries)
  merged-IsWritten = elim (overwrite_either (rest p l) req.entries agree_at) [
    | inl same ↦ rw same (rw (take-append-drop (suc p) l.entries) mine)
    | inr new ↦ rw new (subst (IsWritten ruled led) (sym appended_eq) beginning)
  ]

  done-IsWritten :
      (c : ℕ) (l' : Log) → append_entries l req.entries c ≡ done l' → IsWritten ruled led l'.entries
  done-IsWritten c l' e =
      subst (IsWritten ruled led)
        (sym (entries-append_entries l req.entries c p room carries.indexed l' e)) merged-IsWritten

  panicked-IsWritten :
      (c : ℕ) (l' : Log)
      → append_entries l req.entries c ≡ panicked l'
      → IsWritten ruled led l'.entries
  panicked-IsWritten c l' e =
      subst (IsWritten ruled led)
        (sym (
          merged_panicked (kept p l) (rest p l) req.entries c _ (
            panicked_log _ (sym (append_entries-merged l req.entries c p room carries.indexed) ∙ e))
          ∙ take-append-drop (suc p) l.entries))
        mine

-- Whatever a node does with the request, its log keeps to the leaders' logs.
pub append-IsWritten :
    (ruled : Ruled) (led : List (ℕ × String)) (req : AppendEntriesRequest) (n : Node)
    (lead : List LogEntry)
    → ruled 0 ≡ sentinel ∷ []
    → Carries req lead
    → IsWritten ruled led n.log.entries
    → IsWritten ruled led lead
    → IsWritten ruled led (node_of (handle_append_entries req n)).log.entries
append-IsWritten ruled led req n lead nobody carries mine theirs =
    append_cases (λ h. IsWritten ruled led (node_of h).log.entries) req n (λ stale. mine)
      (λ conflict current clash. mine)
      (λ current ok.
        accepted (PrevMatches-check req n.log ok) (append_entries n.log req.entries n.commit_index)
          refl)
  where
    accepted :
        PrevMatches req n.log
        → (o : Outcome Log) → append_entries n.log req.entries n.commit_index ≡ o
        → IsWritten ruled led (node_of (accept req (following req n))).log.entries
    accepted matches (done l) e = rw (accept-done req (following req n) l e) (
        done-IsWritten ruled led nobody req n.log lead carries mine theirs matches n.commit_index l
          e)
    accepted matches (panicked l) e = rw (accept-panicked req (following req n) l e) (
        panicked-IsWritten ruled led nobody req n.log lead carries mine theirs matches
          n.commit_index l e)
