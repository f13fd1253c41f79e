-- ===== src/Node/Roles.antt =====
-- The branches of `stepDown`, as equations for the handlers that begin with it.
use smol_raft.Prelude.{ℕ, ◌≤◌, ◌<◌, ◌≡◌, true, false, arith}
use smol_raft.Node.{Node, step_down, become_follower}

pub step_down-lt :
    (t : ℕ) (n : Node) → n.current_term < t → step_down t n ≡ (become_follower t "" n, true)
unfolding step_down
step_down-lt t n h = ground arith

pub step_down-le : (t : ℕ) (n : Node) → t ≤ n.current_term → step_down t n ≡ (n, false)
unfolding step_down
step_down-le t n h = ground arith
