-- ===== src/Tests/NotifierTests.antt =====
-- replica/cmd/main.go: the notifier of a leader with two entries in its channel.
use smol_raft.Prelude.{◌≡◌, [], ◌∷◌}
use smol_raft.Node.{Node, is_leader}
use smol_raft.Notifier.{notification, notify_loop}
use smol_raft.Notifier.Drains.{notify_loop-drains}
use smol_raft.Tests.Samples.{leading, entry}

abbrev telling : Node
telling = record leading { commit_ch = entry 1 1 ∷ entry 2 1 ∷ [] }

notify_loop-drains_example :
    notify_loop 2 telling
    ≡ (record telling { commit_ch = [] }, notification (entry 1 1) ∷ notification (entry 2 1) ∷ [])
unfolding is_leader
notify_loop-drains_example = notify_loop-drains telling
