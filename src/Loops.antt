-- ===== src/Loops.antt =====
-- replica/internal/raft/replication.go and node.go: the goroutines that wait on a ticker or a channel.
--
-- What a loop finds at each of its rounds is an argument: why its `select` woke, and the node as it
-- then is, for other goroutines change the node in between. `Start` and the end of a won election
-- start the loops.
pub mod Reaches
pub mod Wakes
use smol_raft.Prelude.{
  ℕ, Bool, true, false, not, ◌&&◌, String, Option, none, some, List, [], ◌∷◌, ◌++◌, map, ◌==◌,
  if◌then◌else◌,
}
use smol_raft.Types.{leader}
use smol_raft.Node.{Node, state_eq, apply_committed}

-- Why the `select` of a loop woke: the context is done, the node is stopped, or its own channel.
pub data Wake : Type 0 where
  cancelled stopping ready : Wake

-- The peers for which `sendHeartbeats` starts a `sendAppendEntries`.
unfoldable pub send_heartbeats : Node → List String
send_heartbeats n = if not (state_eq n.state leader) then [] else n.peers

-- One tick of `runHeartbeatLoop`, where `none` ends the loop. The node is read twice: for the loop's
-- test, and again by `sendHeartbeats`.
unfoldable pub heartbeat_tick : Node → Node → Option (List String)
heartbeat_tick n m = if not (state_eq n.state leader) then none else some (send_heartbeats m)

pub record Tick : Type 0 where
  pub wake : Wake
  pub tested : Node
  pub sending : Node

-- The peers that each tick sends to.
unfoldable pub heartbeat_loop : List Tick → List (List String)
heartbeat_loop [] = []
heartbeat_loop (t ∷ ts) =
    let rest = heartbeat_loop ts in
    elim t.wake [
      | cancelled ↦ []
      | stopping ↦ []
      | ready ↦ elim (heartbeat_tick t.tested t.sending) [ none ↦ [] | some peers ↦ peers ∷ rest ]
    ]

-- What a round of `runReplicationLoop` does: wait, return, or send to its peer.
pub data Woken : Type 0 where
  waits returns : Woken
  sends : String → Woken

abbrev pub still_leader : ℕ → Node → Bool
still_leader leader_term n = state_eq n.state leader && (n.current_term == leader_term)

-- The loop of a peer takes the signal from `newEntryCh`, which all these loops share.
unfoldable pub replication_round : String → ℕ → Node → Node × Woken
replication_round peer leader_term n = if not n.new_entry then (n, waits) else (
  record n { new_entry = false },
  if not (still_leader leader_term n) then returns else sends peer,
)

abbrev pub peer_of : Woken → List String
peer_of waits = []
peer_of returns = []
peer_of (sends p) = p ∷ []

-- The loops of these peers and terms try to receive, one after the other; the peers that are sent to.
unfoldable pub replication_rounds : List (String × ℕ) → Node → Node × List String
replication_rounds [] n = (n, [])
replication_rounds ((peer, t) ∷ loops) n =
    let r = replication_round peer t n in
    let rest = replication_rounds loops r.0 in (rest.0, peer_of r.1 ++ rest.1)

-- `runCommitApplier`, alone with the node.
unfoldable pub applier_loop : List Wake → Node → Node
applier_loop [] n = n
applier_loop (w ∷ ws) n = elim w [
  | cancelled ↦ n
  | stopping ↦ n
  | ready ↦ applier_loop ws (apply_committed n)
]
