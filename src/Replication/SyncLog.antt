-- ===== src/Replication/SyncLog.antt =====
-- What `GetSyncLog` returns.
use smol_raft.Prelude.{
  ℕ, zero, suc, ◌+◌, ◌-◌, ◌<◌, ◌≡◌, refl, sym, le→leb, dec_le, ap, List, [], ◌∷◌, arith, take, drop,
}
use smol_raft.Types.{LogEntry}
use smol_raft.Log.{pos, negsuc, get_from}
use smol_raft.Log.Shape.{IsLog, Indexed, Indexed-at, Indexed-drop}
use smol_raft.Node.{Node}
use smol_raft.Replication.{up_to, get_sync_log}

up_to-above : (c k : ℕ) (es : List LogEntry) → c < k → Indexed k es → up_to c es ≡ []
up_to-above c k [] h v = refl
up_to-above c k (e ∷ es) h v = ground (arith, up_to-above c (suc k) es)

take-nil : (n : ℕ) → take {A = LogEntry} n [] ≡ []
take-nil zero = refl
take-nil (suc n) = refl

up_to-take : (c k : ℕ) (es : List LogEntry) → Indexed k es → up_to c es ≡ take (c + 1 - k) es
up_to-take c k [] v = sym (take-nil (c + 1 - k))
up_to-take c k (e ∷ es) v = elim (dec_le k c) [
  | yes low ↦
      let more : c + 1 - k ≡ suc (c + 1 - suc k) = omega arith in
      rw (more, le→leb e.index c (omega arith)) (ap (◌∷◌ e) (up_to-take c (suc k) es v.1))
  | no high ↦
      let none_left : c + 1 - k ≡ 0 = omega arith in
      rw none_left (up_to-above c k (e ∷ es) (omega arith) v)
]

-- For a log with every entry under its index, `GetSyncLog` returns the entries from the given
-- index through the commit index, in order; for a negative index it returns none.
pub get_sync_log-eq :
    (n : Node)
    → IsLog n.log.entries
    → ((from : ℕ)
        → get_sync_log (pos from) n ≡ take (n.commit_index + 1 - from) (drop from n.log.entries))
      × ((i : ℕ) → get_sync_log (negsuc i) n ≡ [])
unfolding get_sync_log get_from
get_sync_log-eq n v = (
  λ from.
      up_to-take n.commit_index from (drop from n.log.entries)
        (Indexed-at _ (omega arith) (Indexed-drop 0 from n.log.entries v.indexed)),
  λ i. refl,
)
