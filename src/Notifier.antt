-- ===== src/Notifier.antt =====
-- replica/cmd/main.go: `runCommitNotifier`, which tells the gateway of committed entries.
--
-- `NotifyCommit` is the RPC client's; whether it fails does not matter to the loop.
pub mod Drains
use smol_raft.Prelude.{ℕ, zero, suc, Option, none, some, List, [], ◌∷◌, length, if◌then◌else◌}
use smol_raft.Types.{LogEntry, CommitNotification}
use smol_raft.Node.{Node, is_leader}

abbrev pub notification : LogEntry → CommitNotification
notification e = record { stroke = e.stroke; index = e.index; term = e.term }

-- One round of the loop: the node and what is sent, `none` where the loop waits.
unfoldable pub notify_one : Node → Option (Node × Option CommitNotification)
notify_one n = elim n.commit_ch [
  | [] ↦ none
  | e ∷ es ↦ some (record n { commit_ch = es }, if is_leader n then some (notification e) else none)
]

abbrev pub put : Option CommitNotification → List CommitNotification → List CommitNotification
put none cs = cs
put (some c) cs = c ∷ cs

-- Up to this number of rounds, with no other step of the node between them.
unfoldable pub notify_loop : ℕ → Node → Node × List CommitNotification
notify_loop zero n = (n, [])
notify_loop (suc rounds) n = elim (notify_one n) [
  | none ↦ (n, [])
  | some r ↦ let rest = notify_loop rounds r.0 in (rest.0, put r.1 rest.1)
]
