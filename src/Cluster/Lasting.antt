-- ===== src/Cluster/Lasting.antt =====
-- What backs the commit indices, over every step of the replicas.
use smol_raft.Prelude.{inl, inr, refl, String, List, In}
use smol_raft.Node.{Config, new_node}
use smol_raft.Replication.{Handled, replied, crashed, handle_append_entries}
use smol_raft.Cluster.{
  Answer, Cluster, new_cluster, Step, timeout, vote, count, close, send, append, reply, own, Reach,
  here, next, IsConfigured, answer_of, stand, serve_vote, count_vote, close_poll, serve_append,
}
use smol_raft.Cluster.Pending.{IsHosted, Reach-IsHosted}
use smol_raft.Cluster.Safety.{cluster-IsSane, led_grows}
use smol_raft.Cluster.Ruled.{Ruled}
use smol_raft.Cluster.Writes.{Matched}
use smol_raft.Cluster.Matching.{sentinel_only, Reach-Inv, new_cluster-Matched}
use smol_raft.Cluster.Claims.{Bids}
use smol_raft.Cluster.Keeping.{Kept}
use smol_raft.Cluster.Stays.{Step-Onward, no_bids, new_cluster-Kept}
use smol_raft.Cluster.Commits.{IsCommitted, IsCommitted-more}
use smol_raft.Cluster.Advances.{Step-Advanced}

answers_grow :
    {members : List String} {host : String → String} {s u : Cluster}
    → Step members host s u
    → (a : Answer) → In a s.answers
    → In a u.answers
unfolding stand serve_vote count_vote close_poll serve_append
answers_grow (timeout i mem e) a h = h
answers_grow (vote i req mem g) a h = h
answers_grow (count i peer resp mem mp given) a h = h
answers_grow (close i mem) a h = h
answers_grow (send i peer mem e) a h = h
answers_grow {s = s} (append i peer req mem g to at) a h =
    more (handle_append_entries req (s.member i).node)
  where
    more : (k : Handled) → In a (answer_of i req k s.answers)
    more (replied n r) = inr h
    more (crashed n) = h
answers_grow (reply i peer req resp mem _ _ _) a h = h
answers_grow (own i mem l) a h = h

abbrev pub All : List String → (String → String) → Cluster → Type 0
All members host s =
    (r : Ruled) × (b : Bids) × Matched members r s
    × Kept members r b s
    × IsCommitted members host r s.member s.led s.sent s.answers

new_cluster-IsCommitted :
    (members : List String) (host : String → String) (config : String → Config)
    → let s = new_cluster config in
      IsCommitted members host sentinel_only s.member s.led s.sent s.answers
unfolding new_cluster new_node
new_cluster-IsCommitted members host config = record {
  commits = λ i mem. inl refl;
  carried = λ r h. elim h [ ];
  matches = λ i mem l. absurd (cc);
}

module _ (members : List String) (host : String → String) (config : String → Config)
    (c : IsConfigured members config)
    (hosts : IsHosted members host (λ i. (config i).peer_addrs)) where
  pub Reach-All : {s : Cluster} → Reach members host (new_cluster config) s → All members host s
  Reach-All here = (
    sentinel_only,
    no_bids,
    new_cluster-Matched members config,
    new_cluster-Kept members config,
    new_cluster-IsCommitted members host config,
  )
  Reach-All (next {t} {u} r st) =
      let (ruled, bids, v, k, com0) = Reach-All r in
      let inv = Reach-Inv config r in
      let (now, more, w, l, longer) =
        Step-Onward members host ruled bids t (cluster-IsSane members host config c hosts r) inv v k
          st in
      (
        now,
        more,
        w,
        l,
        IsCommitted-more members ruled now t.led u.led t.answers u.answers longer (led_grows st)
            (answers_grow st) host u.member u.sent
            (Step-Advanced members host ruled bids t (cluster-IsSane members host config c hosts r)
              inv v k (Reach-IsHosted members host config hosts r) com0 st),
      )
