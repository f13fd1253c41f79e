-- ===== src/Steps/Invariant/Defs.antt =====
-- The invariant of a node, and that a role change keeps it.
use smol_raft.Prelude.{ℕ, ◌+◌, ◌≤◌, List, [], ◌∷◌, arith, length, String, All}
use smol_raft.Log.{last_index}
use smol_raft.Log.Shape.{IsLog, fresh-IsLog}
use smol_raft.Node.{
  Node, Config, new_node, Indices, assign, assign_all, commit_cap, become_follower, become_leader,
}

abbrev pub ArePositive : Indices → Type 0
ArePositive = All (λ (p : String × ℕ). 1 ≤ p.1)

pub record Inv (n : Node) : Type 0 where
  pub shape : IsLog n.log.entries
  pub committed : n.commit_index ≤ last_index n.log
  pub applied : n.last_applied ≤ n.commit_index
  pub buffered : length n.commit_ch ≤ commit_cap
  pub positive : ArePositive n.next_index

pub new_node-Inv : (c : Config) → Inv (new_node c)
unfolding new_node
new_node-Inv c = record {
  shape = fresh-IsLog;
  committed = omega arith;
  applied = omega arith;
  buffered = omega arith;
  positive = tt;
}

pub become_follower-Inv : (t : ℕ) (l : String) (n : Node) → Inv n → Inv (become_follower t l n)
unfolding become_follower
become_follower-Inv t l n v = record {
  shape = v.shape;
  committed = v.committed;
  applied = v.applied;
  buffered = v.buffered;
  positive = v.positive;
}

pub assign_all-ArePositive :
    (ps : List String) (i : ℕ) (m : Indices)
    → 1 ≤ i
    → ArePositive m
    → ArePositive (assign_all ps i m)
assign_all-ArePositive [] i m h p = p
assign_all-ArePositive (x ∷ ps) i m h p = assign_all-ArePositive ps i (assign m x i) h (h, p)

pub become_leader-Inv : (n : Node) → Inv n → Inv (become_leader n)
unfolding become_leader
become_leader-Inv n v = record {
  shape = v.shape;
  committed = v.committed;
  applied = v.applied;
  buffered = v.buffered;
  positive =
      assign_all-ArePositive n.peers (last_index n.log + 1) n.next_index (omega arith) v.positive;
}
