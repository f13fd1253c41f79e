-- ===== src/Replication/Commit.antt =====
-- What `advanceCommitIndex` commits (§5.4.2 of the RAFT paper).
use smol_raft.Prelude.{
  ℕ, zero, suc, ◌+◌, ◌-◌, ◌≤◌, ◌<◌, ◌≡◌, ◌⊎◌, inl, inr, refl, ap, ◌∙◌, Bool, true, Bool-cases, ◌&&◌,
  ◌*◌, length, arith, leb, ◌==◌, if◌then◌else◌,
}
use smol_raft.Log.{pos, last_index, term_at}
use smol_raft.Node.{Node}
use smol_raft.Replication.{
  replica_count, commit_majority, advance_one, advance_from, advance_commit_index,
}

passes : ℕ → Node → Bool
passes idx n =
    (term_at n.log (pos idx) == n.current_term) && leb (commit_majority n) (replica_count idx n)

abbrev with_commit : Node → ℕ → Node
with_commit n c = record n { commit_index = c }

-- The commit index that the loop ends with.
best : ℕ → ℕ → Node → ℕ → ℕ
best zero idx n c = c
best (suc rounds) idx n c = best rounds (suc idx) n (if passes idx n then idx else c)

advance_one-passes :
    (idx c : ℕ) (n : Node)
    → advance_one idx (with_commit n c) ≡ with_commit n (if passes idx n then idx else c)
unfolding advance_one passes replica_count
advance_one-passes idx c n = elim (Bool-cases (term_at n.log (pos idx) == n.current_term)) [
  | inl t ↦ elim (Bool-cases (leb (commit_majority n) (replica_count idx n))) [
    | inl m ↦ rw (t, m)
    | inr m ↦ rw (t, m)
  ]
  | inr t ↦ rw t
]

advance_from-best :
    (rounds idx c : ℕ) (n : Node)
    → advance_from rounds idx (with_commit n c) ≡ with_commit n (best rounds idx n c)
unfolding advance_from best
advance_from-best zero idx c n = refl
advance_from-best (suc rounds) idx c n =
    ap (advance_from rounds (suc idx)) (advance_one-passes idx c n)
    ∙ advance_from-best rounds (suc idx) (if passes idx n then idx else c) n

best-ge : (rounds idx : ℕ) (n : Node) (c : ℕ) → c < idx → c ≤ best rounds idx n c
unfolding best
best-ge zero idx n c h = omega arith
best-ge (suc rounds) idx n c h =
    ground (arith, best-ge rounds (suc idx) n idx, best-ge rounds (suc idx) n c)

best-from :
    (rounds idx : ℕ) (n : Node) (c : ℕ)
    → (best rounds idx n c ≡ c)
      ⊎ ((idx ≤ best rounds idx n c)
          × (best rounds idx n c < idx + rounds)
          × (passes (best rounds idx n c) n ≡ true))
unfolding best
best-from zero idx n c = inl refl
best-from (suc rounds) idx n c =
    ground (arith, best-from rounds (suc idx) n idx, best-from rounds (suc idx) n c)

best-max :
    (rounds idx : ℕ) (n : Node) (c j : ℕ)
    → c < idx
    → idx ≤ j
    → j < idx + rounds
    → passes j n ≡ true
    → j ≤ best rounds idx n c
unfolding best
best-max zero idx n c j h lo hi p = absurd (omega arith)
best-max (suc rounds) idx n c j h lo hi p = ground (
  arith,
  best-max rounds (suc idx) n idx j,
  best-max rounds (suc idx) n c j,
  best-ge rounds (suc idx) n idx,
)

-- The index may be committed: it is above the commit index and in the log, its entry is of the
-- current term, and more than half of the members have it.
pub record IsCommittable (n : Node) (idx : ℕ) : Type 0 where
  pub above : n.commit_index < idx
  pub in_log : idx ≤ last_index n.log
  pub own_term : term_at n.log (pos idx) ≡ n.current_term
  pub majority : length n.peers + 1 < 2 * replica_count idx n

committed : Node → ℕ
committed n = best (last_index n.log - n.commit_index) (n.commit_index + 1) n n.commit_index

advance-committed : (n : Node) → advance_commit_index n ≡ with_commit n (committed n)
unfolding advance_commit_index committed
advance-committed n =
    advance_from-best (last_index n.log - n.commit_index) (n.commit_index + 1) n.commit_index n

committed-from : (n : Node) → (committed n ≡ n.commit_index) ⊎ IsCommittable n (committed n)
unfolding committed passes
committed-from n =
    ground
      (arith, best-from (last_index n.log - n.commit_index) (n.commit_index + 1) n n.commit_index)

committed-max : (n : Node) (idx : ℕ) → IsCommittable n idx → idx ≤ committed n
unfolding committed passes
committed-max n idx v =
    best-max (last_index n.log - n.commit_index) (n.commit_index + 1) n n.commit_index idx
      (omega arith) (omega arith) (omega arith) (ground arith)

-- Only the commit index changes, if at all. It moves to an index that may be committed, and to the
-- greatest one.
pub advance_commit_index-max :
    (n : Node)
    → let c = (advance_commit_index n).commit_index in
      (advance_commit_index n ≡ record n { commit_index = c })
      × ((c ≡ n.commit_index) ⊎ IsCommittable n c)
      × ((idx : ℕ) → IsCommittable n idx → idx ≤ c)
advance_commit_index-max n = rw (advance-committed n) (refl, committed-from n, committed-max n)

-- The same with the new commit index named, for the proofs that follow the node further.
pub advance_commit_index_to :
    (n : Node)
    → (c : ℕ) × (advance_commit_index n ≡ record n { commit_index = c })
      × (n.commit_index ≤ c)
      × ((c ≡ n.commit_index) ⊎ IsCommittable n c)
unfolding committed
advance_commit_index_to n = (
  committed n,
  advance-committed n,
  best-ge (last_index n.log - n.commit_index) (n.commit_index + 1) n n.commit_index (omega arith),
  committed-from n,
)
