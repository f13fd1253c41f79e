-- ===== src/Cluster/Covered.antt =====
-- A request at a member, and its commit index: what the sender had committed, the member now has.
use smol_raft.Prelude.{
  ℕ, suc, ◌+◌, ◌≤◌, ◌<◌, ◌≡◌, ◌⊎◌, inl, inr, sym, ap, ◌∙◌, subst, String, some, List, length, take,
  get_elem?, get_elem?-take, In, arith, trichotomy,
}
use smol_raft.Types.{LogEntry, AppendEntriesRequest}
use smol_raft.Log.{last_index}
use smol_raft.Node.{Node}
use smol_raft.Steps.Progress.{Progress}
use smol_raft.Replication.{Handled}
use smol_raft.Replication.Accept.{next_commit}
use smol_raft.Cluster.{Cluster}
use smol_raft.Cluster.Sane.{IsLed, IsSane}
use smol_raft.Cluster.Ruled.{Ruled, get-take}
use smol_raft.Cluster.Writes.{Matched}
use smol_raft.Cluster.Claims.{Bids, chosen_stays}
use smol_raft.Cluster.Keeping.{Kept}
use smol_raft.Cluster.Accepted.{Accepted, reach_same}
use smol_raft.Cluster.Commits.{Cover, Backed, Backed-kept}

-- Logs with the same first n entries have the same at each of them.
pub get-same :
    (es fs : List LogEntry) (n i : ℕ) {a : LogEntry}
    → take n es ≡ take n fs
    → i < n
    → get_elem? es i ≡ some a
    → get_elem? fs i ≡ some a
get-same es fs n i {a} same low g =
    (get-take i n fs (subst (λ xs. get_elem? xs i ≡ some a) same (get_elem?-take es n i low ∙ g))).1

-- The commit index of a follower moves, if at all, to at most the leader's and its own last index.
next_commit_kinds :
    (c lc last : ℕ) → (next_commit c lc last ≡ c) ⊎ ((next_commit c lc last ≤ lc) × (0 < lc))
next_commit_kinds c lc last = ground arith

module _ (members : List String) (ruled : Ruled) (bids : Bids) (s : Cluster)
    (sane : IsSane members s) (v : Matched members ruled s) (kept : Kept members ruled bids s) where
  -- The leader of a later term has the log of the earlier one up to the entry of the majority.
  pub later_same :
      (c n u : ℕ) (h : Cover members ruled s.led s.answers c n)
      → h.term ≤ u
      → ((h.term < u) → IsLed u s.led)
      → take (suc h.at) (ruled u) ≡ take (suc h.at) (ruled h.term)
  later_same c n u h le led = elim (trichotomy h.term u) [
    | inr (inl e) ↦ ap (λ t. take (suc h.at) (ruled t)) (sym e)
    | inr (inr more) ↦ absurd (omega (arith, le, more))
    | inl less ↦
        let (z, g, same) =
          chosen_stays members ruled bids s.member s.led s.asked s.sent s.answers kept h.term h.at
            h.chosen u less (led less) in
        (v.rulers u).coherent h.at z g ∙ ap (λ t. take (suc h.at) (ruled t)) same
  ]

  module _ (i : String) (mem : In i members) (req : AppendEntriesRequest) (was_sent : In req s.sent)
      (h : Handled) (acc : Accepted req (s.member i).node h)
      (moved : Progress (s.member i).node acc.node) where
    abbrev n : Node
    n = (s.member i).node

    -- A commit index that was raised: the log up to there is the sender's.
    raised :
        acc.node.commit_index ≤ req.leader_commit
        → req.leader_commit ≤ req.prev_log_index + length req.entries
        → Cover members ruled s.led s.answers req.leader_commit req.term
        → Backed members ruled s.led s.answers acc.node.commit_index acc.node.current_term
            acc.node.log.entries
    raised low within cover = inr (
      record {
        term = cover.term;
        at = cover.at;
        reaches = omega (arith, low, cover.reaches);
        past = omega (arith, cover.past, acc.in_term);
        chosen = cover.chosen;
      },
      λ j a le g.
          let sender : get_elem? (ruled req.term) j ≡ some a =
            get-same (ruled cover.term) (ruled req.term) (suc cover.at) j
              (sym (
                later_same req.leader_commit req.term req.term cover cover.past
                  (λ _. (req.leader_id, sane.authored req was_sent))))
              (omega (arith, le, low, cover.reaches)) g in
          subst (λ es. get_elem? es j ≡ some a) (sym acc.log_now)
            (get-same (ruled req.term) _ (suc req.prev_log_index + length req.entries) j
              (sym (
                reach_same ruled s.led v.nobody req n.log (ruled req.term) (v.carries req was_sent)
                  (v.follows i mem).log_written (v.rulers req.term) acc.prev_matches))
              (omega (arith, le, low, within)) sender),
    )

    pub accepted-Backed :
        Backed members ruled s.led s.answers n.commit_index n.current_term n.log.entries
        → (req.leader_commit ≤ req.prev_log_index + length req.entries)
          × ((req.leader_commit ≡ 0)
              ⊎ Cover members ruled s.led s.answers req.leader_commit req.term)
        → Backed members ruled s.led s.answers acc.node.commit_index acc.node.current_term
            acc.node.log.entries
    accepted-Backed b (within, by) =
        elim (next_commit_kinds n.commit_index req.leader_commit (last_index acc.node.log)) [
          | inl same ↦
              Backed-kept members ruled s.led s.answers n acc.node moved (acc.commit_now ∙ same) b
          | inr (low, positive) ↦ elim by [
            | inl z ↦ absurd (omega (arith, z, positive))
            | inr cover ↦ raised (omega (arith, acc.commit_now, low)) within cover
          ]
        ]
