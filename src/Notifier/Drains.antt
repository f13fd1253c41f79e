-- ===== src/Notifier/Drains.antt =====
-- What the notifier sends for the entries in the commit channel.
use smol_raft.Prelude.{
  ◌≡◌, ap, ◌∙◌, Bool-cases, inl, inr, List, [], ◌∷◌, length, map, if◌then◌else◌,
}
use smol_raft.Types.{LogEntry}
use smol_raft.Node.{Node, is_leader}
use smol_raft.Notifier.{notification, notify_one, notify_loop}

drain_channel :
    (n : Node) (es : List LogEntry)
    → notify_loop (length es) (record n { commit_ch = es })
      ≡ (record n { commit_ch = [] }, if is_leader n then map notification es else [])
unfolding notify_loop notify_one is_leader
drain_channel n [] = elim (Bool-cases (is_leader n)) [ inl t ↦ rw t | inr f ↦ rw f ]
drain_channel n (e ∷ es) = elim (Bool-cases (is_leader n)) [
  | inl t ↦ rw t (ap (λ r. (r.0, notification e ∷ r.1)) (drain_channel n es ∙ rw t))
  | inr f ↦ rw f (drain_channel n es ∙ rw f)
]

-- As many rounds as entries wait in the commit channel empty it and change nothing else. A leader
-- sends a notification for every entry, in order; another node sends none.
pub notify_loop-drains :
    (n : Node)
    → notify_loop (length n.commit_ch) n
      ≡ (record n { commit_ch = [] }, if is_leader n then map notification n.commit_ch else [])
notify_loop-drains n = drain_channel n n.commit_ch
