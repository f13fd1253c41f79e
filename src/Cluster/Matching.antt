-- ===== src/Cluster/Matching.antt =====
-- The logs of the replicas against the logs of the leaders, over every step.
use smol_raft.Prelude.{
  ℕ, zero, suc, ◌≡◌, ◌⊎◌, inl, refl, sym, ap, ◌∙◌, String, some, List, [], ◌∷◌, take, get_elem?, In,
}
use smol_raft.Types.{LogEntry}
use smol_raft.Log.{sentinel, new_log}
use smol_raft.Log.Shape.{fresh-IsLog}
use smol_raft.Node.{Config, new_node}
use smol_raft.Steps.Invariant.{Reach-new_node-Inv}
use smol_raft.Steps.Invariant.Defs.{Inv}
use smol_raft.Steps.Quiet.{reply-Quiet}
use smol_raft.Cluster.{
  Cluster, new_cluster, Step, timeout, vote, count, close, send, append, reply, own, Reach, here,
  next, IsConfigured,
}
use smol_raft.Cluster.Sane.{IsLed, IsSane}
use smol_raft.Cluster.Roles.{reply-Calm}
use smol_raft.Cluster.Pending.{IsHosted}
use smol_raft.Cluster.Safety.{cluster-IsSane}
use smol_raft.Cluster.History.{member-Reach}
use smol_raft.Cluster.Ruled.{Ruled, IsWritten}
use smol_raft.Cluster.Writes.{
  Matched, Calm-Matched, vote-Matched, timeout-Matched, count-Matched, append-Matched, send-Matched,
}
use smol_raft.Cluster.Rulers.{close-Matched, own-Matched}

Step-Matched :
    {members : List String} {host : String → String} {ruled : Ruled} {s u : Cluster}
    → IsSane members s
    → ((i : String) → Inv (s.member i).node)
    → Matched members ruled s
    → Step members host s u
    → (r : Ruled) × Matched members r u
Step-Matched {members} {ruled = ruled} {s = s} sane inv v (timeout i mem e) =
    (ruled, timeout-Matched members ruled s sane v i mem e)
Step-Matched {members} {ruled = ruled} {s = s} sane inv v (vote i req mem h) =
    (ruled, vote-Matched members ruled s sane v i mem req)
Step-Matched {members} {host} {ruled = ruled} {s = s} sane inv v (count i peer resp mem mp given) =
    (ruled, count-Matched members ruled s sane v i mem peer (host peer) resp)
Step-Matched {members} {ruled = ruled} {s = s} sane inv v (close i mem) =
    close-Matched members ruled s sane v i mem
Step-Matched {members} {ruled = ruled} {s = s} sane inv v (send i peer mem e) =
    (ruled, send-Matched members ruled s sane v i mem peer (inv i) e)
Step-Matched {members} {ruled = ruled} {s = s} sane inv v (append i peer req mem h to at) =
    (ruled, append-Matched members ruled s sane v i mem req h)
Step-Matched {members} {ruled = ruled} {s = s} sane inv v (reply i peer req resp mem _ _ _) = (
  ruled,
  Calm-Matched members ruled s sane v i mem _ (reply-Calm peer req resp (s.member i).node)
      (reply-Quiet peer req (some resp) (s.member i).node).5,
)
Step-Matched {members} {ruled = ruled} {s = s} sane inv v (own i mem l) =
    own-Matched members ruled s sane v i mem l

abbrev pub sentinel_only : Ruled
sentinel_only t = sentinel ∷ []

sentinel-IsWritten : (led : List (ℕ × String)) → IsWritten sentinel_only led (sentinel ∷ [])
unfolding new_log
sentinel-IsWritten led = record {
  shape = fresh-IsLog;
  coherent = λ k e h. refl;
  known = λ k e h. only k e h;
}
  where
    only :
        (k : ℕ) (e : LogEntry)
        → get_elem? (sentinel ∷ []) k ≡ some e
        → (e.term ≡ 0) ⊎ IsLed e.term led
    only zero e h = let same : e ≡ sentinel = cc h in inl (ap (λ (x : LogEntry). x.term) same)
    only (suc k) e h = absurd (cc h)

pub new_cluster-Matched :
    (members : List String) (config : String → Config)
    → Matched members sentinel_only (new_cluster config)
unfolding new_cluster new_node new_log
new_cluster-Matched members config = record {
  nobody = refl;
  unruled = λ t _. refl;
  rulers = λ t. sentinel-IsWritten [];
  follows = λ i mem. record {
    log_written = sentinel-IsWritten [];
    rules = λ l. absurd (cc);
    late = λ up. absurd (up refl);
    elected_once = λ t h. elim h [ ];
  };
  carries = λ r h. elim h [ ];
}

pub Reach-Inv :
    {members : List String} {host : String → String} (config : String → Config) {s : Cluster}
    → Reach members host (new_cluster config) s
    → (i : String) → Inv (s.member i).node
unfolding new_cluster
Reach-Inv config r i = Reach-new_node-Inv (config i) (member-Reach r i)

module _ (members : List String) (host : String → String) (config : String → Config)
    (c : IsConfigured members config)
    (hosts : IsHosted members host (λ i. (config i).peer_addrs)) where
  pub Reach-Matched :
      {s : Cluster} → Reach members host (new_cluster config) s → (r : Ruled) × Matched members r s
  Reach-Matched here = (sentinel_only, new_cluster-Matched members config)
  Reach-Matched (next r st) =
      Step-Matched (cluster-IsSane members host config c hosts r) (Reach-Inv config r)
        (Reach-Matched r).1 st

-- Log matching. With the members configured as for election safety, and whatever messages are late,
-- lost or delivered again: if the logs of two members have entries of the same term at an index,
-- then they are the same up to this index, strokes included.
pub log_matching :
    (members : List String) (host : String → String) (config : String → Config) (s : Cluster)
    (i j : String) (k : ℕ) (a b : LogEntry)
    → IsConfigured members config
    → IsHosted members host (λ v. (config v).peer_addrs)
    → Reach members host (new_cluster config) s
    → In i members
    → In j members
    → get_elem? (s.member i).node.log.entries k ≡ some a
    → get_elem? (s.member j).node.log.entries k ≡ some b
    → a.term ≡ b.term
    → take (suc k) (s.member i).node.log.entries ≡ take (suc k) (s.member j).node.log.entries
log_matching members host config s i j k a b c hosts r mi mj h g same =
    let (ruled, v) = Reach-Matched members host config c hosts r in
    (v.follows i mi).log_written.coherent k a h
    ∙ ap (λ t. take (suc k) (ruled t)) same
    ∙ sym ((v.follows j mj).log_written.coherent k b g)
