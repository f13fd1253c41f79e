-- ===== src/Cluster/Accepted.antt =====
-- What AppendEntries does to a member's log, against the sender's log.
use smol_raft.Prelude.{
  ℕ, suc, ◌+◌, ◌≤◌, ◌<◌, ◌≡◌, ◌≢◌, ◌⊎◌, inl, inr, refl, sym, ap, ◌∙◌, subst, String, Bool-cases,
  true, some, List, [], ◌∷◌, ◌++◌, length, take, drop, get_elem?, length-take, length-append,
  length-drop, arith, ◌==◌, dec_lt,
}
use smol_raft.Types.{follower, LogEntry, AppendEntriesRequest, AppendEntriesResponse}
use smol_raft.Log.{last_index, Log, Outcome, done, panicked, sentinel, append_entries}
use smol_raft.Log.Merge.{
  overwrite, kept, rest, take-append-drop, length-kept, append_entries-merged,
}
use smol_raft.Log.Redelivery.{entries-append_entries}
use smol_raft.Node.{Node}
use smol_raft.Replication.{Handled, replied, node_of, handle_append_entries, accept}
use smol_raft.Replication.Follow.{following, append_cases}
use smol_raft.Replication.Accept.{
  PrevMatches, PrevMatches-check, next_commit, accept-done, accept-panicked,
}
use smol_raft.Cluster.Ruled.{Ruled, IsWritten, Carries, take-append, take-take, get-take}
use smol_raft.Cluster.Merged.{
  room, agree_before, sender, agree_at, appended_eq, overwrite_either, drop-take, take_all,
  merged_panicked, panicked_log,
}
use smol_raft.Cluster.Claims.{Holds, Holds_dec}
use smol_raft.Cluster.UpToDate.{take-Holds, Holds-take}

overwrite_covers :
    (old new : List LogEntry)
    → ((k : ℕ) (a b : LogEntry)
        → get_elem? old k ≡ some a
        → get_elem? new k ≡ some b
        → a.term ≡ b.term
        → take (suc k) old ≡ take (suc k) new)
    → take (length new) (overwrite old new) ≡ new
overwrite_covers [] new agree = take_all new
overwrite_covers (x ∷ old) [] agree = refl
overwrite_covers (x ∷ old) (e ∷ new) agree = elim (Bool-cases (x.term == e.term)) [
  | inr f ↦ rw f (ap (◌∷◌ e) (take_all new))
  | inl t ↦
      let same : x ≡ e = cc (agree 0 x e refl refl (ground arith)) in
      rw t (cc (same, overwrite_covers old new (λ k a b h g q. cc (agree (suc k) a b h g q))))
]

overwrite_keeps : (old new : List LogEntry) → take (length new) old ≡ new → overwrite old new ≡ old
overwrite_keeps [] [] h = refl
overwrite_keeps [] (e ∷ new) h = absurd (cc)
overwrite_keeps (x ∷ old) [] h = refl
overwrite_keeps (x ∷ old) (e ∷ new) h =
    let same : x ≡ e = cc in
    let more : take (length new) old ≡ new = cc in
    ground (arith, same, overwrite_keeps old new more)

take-sum : (xs ys : List LogEntry) (n : ℕ) → take (length xs + n) (xs ++ ys) ≡ xs ++ take n ys
take-sum [] ys n = ap (λ k. take k ys) (omega arith)
take-sum (x ∷ xs) ys n =
    ap (λ k. take k (x ∷ xs ++ ys))
      (let e : suc (length xs) + n ≡ suc (length xs + n) = omega arith in e)
    ∙ ap (◌∷◌ x) (take-sum xs ys n)

-- The log up to the entry before the request's, and the request's entries over the rest.
abbrev pub merged_log : AppendEntriesRequest → Log → List LogEntry
merged_log req l = kept req.prev_log_index l ++ overwrite (rest req.prev_log_index l) req.entries

module _ (ruled : Ruled) (led : List (ℕ × String)) (nobody : ruled 0 ≡ sentinel ∷ [])
    (req : AppendEntriesRequest) (l : Log) (lead : List LogEntry) (carries : Carries req lead)
    (mine : IsWritten ruled led l.entries) (theirs : IsWritten ruled led lead)
    (matches : PrevMatches req l) where
  abbrev prev : ℕ
  prev = req.prev_log_index

  abbrev pub end : ℕ
  end = suc prev + length req.entries

  inside : prev < length l.entries
  inside = room ruled led nobody req l lead carries mine theirs matches

  covers : take (length req.entries) (overwrite (rest prev l) req.entries) ≡ req.entries
  covers =
      overwrite_covers (rest prev l) req.entries
        (agree_at ruled led nobody req l lead carries mine theirs matches)

  -- Up to the end of the request the logs are the same afterwards.
  pub reach_same : take end (merged_log req l) ≡ take end lead
  reach_same =
      ap (λ n. take (n + length req.entries) (merged_log req l)) (sym (length-kept prev l inside))
      ∙ take-sum (kept prev l) (overwrite (rest prev l) req.entries) (length req.entries)
      ∙ ap (λ es. kept prev l ++ es) covers
      ∙ appended_eq ruled led nobody req l lead carries mine theirs matches

  pub reach_le : end ≤ length lead
  reach_le =
      let (tail, q) = sender ruled led nobody req l lead carries mine theirs matches in
      let before =
        ap length (agree_before ruled led nobody req l lead carries mine theirs matches) in
      omega (
        arith,
        inside,
        before,
        length-take (suc prev) l.entries,
        length-take (suc prev) lead,
        ap length q,
        length-drop (suc prev) lead,
        length-append req.entries tail,
      )

  pub new_holds : (t k : ℕ) → Holds t k lead → k < end → Holds t k (merged_log req l)
  new_holds t k h low =
      Holds-take t k end (merged_log req l)
        (subst (Holds t k) (sym reach_same) (take-Holds t k end lead low h))

  pub old_holds :
      (t k : ℕ) → Holds t k l.entries → Holds t k (merged_log req l) ⊎ (¬ Holds t k lead)
  old_holds t k (e, h, q) = elim (Holds_dec t k lead) [
    | inr lacks ↦ inr lacks
    | inl (x, g, u) ↦ elim (dec_lt k end) [
      | yes low ↦ inl (new_holds t k (x, g, u) low)
      | no high ↦
          let same =
            mine.coherent k e h
            ∙ ap (λ z. take (suc k) (ruled z)) (q ∙ sym u)
            ∙ sym (theirs.coherent k x g) in
          let short =
            sym (take-take end (suc k) l.entries (omega arith))
            ∙ ap (take end) same
            ∙ take-take end (suc k) lead (omega arith) in
          let entries : take (length req.entries) (rest prev l) ≡ req.entries =
            sym (drop-take (suc prev) (length req.entries) l.entries)
            ∙ ap (drop (suc prev)) short
            ∙ drop-take (suc prev) (length req.entries) lead
            ∙ ap (take (length req.entries))
                (sender ruled led nobody req l lead carries mine theirs matches).1
            ∙ take-append (length req.entries) req.entries _ (omega arith)
            ∙ take_all req.entries in
          let whole : merged_log req l ≡ l.entries =
            ap (λ es. kept prev l ++ es) (overwrite_keeps (rest prev l) req.entries entries)
            ∙ take-append-drop (suc prev) l.entries in
          inl (subst (Holds t k) (sym whole) (e, h, q))
    ]
  ]

  -- No term is later than the old log's and the sender's.
  pub merged_low :
      (n : ℕ)
      → ((k : ℕ) (e : LogEntry) → get_elem? l.entries k ≡ some e → e.term ≤ n)
      → ((k : ℕ) (e : LogEntry) → get_elem? lead k ≡ some e → e.term ≤ n)
      → (k : ℕ) (e : LogEntry) → get_elem? (merged_log req l) k ≡ some e
      → e.term ≤ n
  merged_low n low high k e h =
      elim (overwrite_either (rest prev l) req.entries
        (agree_at ruled led nobody req l lead carries mine theirs matches)) [
          | inl same ↦ low k e (
              subst (λ es. get_elem? es k ≡ some e)
                (ap (λ es. kept prev l ++ es) same ∙ take-append-drop (suc prev) l.entries) h)
          | inr new ↦
              high k e
                (get-take k end lead (
                  subst (λ es. get_elem? es k ≡ some e)
                    (ap (λ es. kept prev l ++ es) new
                      ∙ appended_eq ruled led nobody req l lead carries mine theirs matches)
                    h)).1
        ]

-- The log and the commit index are as they were, with no success, or the request was accepted.
abbrev pub Refused : Node → Handled → Type 0
Refused n h =
    ((node_of h).log ≡ n.log)
    × ((m : Node) (r : AppendEntriesResponse) → h ≡ replied m r → r.success ≢ true)
    × ((node_of h).commit_index ≡ n.commit_index)

pub record Accepted (req : AppendEntriesRequest) (n : Node) (h : Handled) : Type 0 where
  pub node : Node
  pub response : AppendEntriesResponse
  pub handled : h ≡ replied node response
  pub current : n.current_term ≤ req.term
  pub in_term : node.current_term ≡ req.term
  pub follows_now : node.state ≡ follower
  pub log_now : node.log.entries ≡ merged_log req n.log
  pub prev_matches : PrevMatches req n.log
  pub commit_now :
      node.commit_index ≡ next_commit n.commit_index req.leader_commit (last_index node.log)

pub append_effect :
    (ruled : Ruled) (led : List (ℕ × String)) (nobody : ruled 0 ≡ sentinel ∷ [])
    (req : AppendEntriesRequest) (n : Node) (lead : List LogEntry)
    → Carries req lead
    → IsWritten ruled led n.log.entries
    → IsWritten ruled led lead
    → Refused n (handle_append_entries req n) ⊎ Accepted req n (handle_append_entries req n)
append_effect ruled led nobody req n lead carries mine theirs =
    append_cases (λ h. Refused n h ⊎ Accepted req n h) req n
      (λ stale. inl (refl, λ m r e t. cc, refl))
      (λ conflict current clash. inl (refl, λ m r e t. cc, refl))
      (λ current ok.
        accepted current (PrevMatches-check req n.log ok)
          (append_entries n.log req.entries n.commit_index) refl)
  where
    accepted :
        n.current_term ≤ req.term
        → PrevMatches req n.log
        → (o : Outcome Log) → append_entries n.log req.entries n.commit_index ≡ o
        → Refused n (accept req (following req n)) ⊎ Accepted req n (accept req (following req n))
    accepted current matches (done l) e = rw (accept-done req (following req n) l e) (
        inr (record {
          node = _;
          response = _;
          handled = refl;
          current = current;
          in_term = refl;
          follows_now = refl;
          log_now =
              entries-append_entries n.log req.entries n.commit_index req.prev_log_index
                (room ruled led nobody req n.log lead carries mine theirs matches) carries.indexed l
                e;
          prev_matches = matches;
          commit_now = refl;
        }))
    accepted current matches (panicked l) e = rw (accept-panicked req (following req n) l e) (
        inl (
          ap (λ es. record { entries = es })
              (merged_panicked (kept req.prev_log_index n.log) (rest req.prev_log_index n.log)
                  req.entries n.commit_index _
                  (panicked_log _ (
                    sym (
                      append_entries-merged n.log req.entries n.commit_index req.prev_log_index
                        (room ruled led nobody req n.log lead carries mine theirs matches)
                        carries.indexed)
                    ∙ e))
                ∙ take-append-drop (suc req.prev_log_index) n.log.entries),
          λ m r q t. cc,
          refl,
        ))
