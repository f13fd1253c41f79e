-- ===== src/Cluster/Stays.antt =====
-- The acknowledged entries and the logs of later leaders, over every step of the replicas.
use smol_raft.Prelude.{
  ℕ, zero, suc, ◌+◌, ◌<◌, ◌≡◌, ◌⊎◌, inl, inr, refl, sym, ap, ◌∙◌, subst, String, some, List, [],
  ◌∷◌, length, take, get_elem?, In, arith,
}
use smol_raft.Types.{leader, LogEntry}
use smol_raft.Log.{sentinel, new_log, append as log_append}
use smol_raft.Node.{Node, Config, new_node}
use smol_raft.Steps.Invariant.Defs.{Inv}
use smol_raft.Steps.Quiet.{ballot-Quiet, reply-Quiet}
use smol_raft.Replication.Reply.{stroke_result}
use smol_raft.Cluster.{
  Cluster, new_cluster, Step, timeout, vote, count, close, send, append, reply, own, Reach, here,
  next, IsConfigured, Local, set_node, stand, serve_vote, count_vote, close_poll, serve_append,
}
use smol_raft.Cluster.Quorum.{Distinct, Among}
use smol_raft.Cluster.Sane.{IsSane}
use smol_raft.Cluster.Roles.{Calm-refl, count-Calm, reply-Calm, own-Calm}
use smol_raft.Cluster.Leader.{finish_kinds}
use smol_raft.Cluster.Pending.{IsHosted}
use smol_raft.Cluster.Safety.{cluster-IsSane}
use smol_raft.Cluster.Ruled.{Ruled}
use smol_raft.Cluster.Extended.{Continues, Continues-refl, set_ruled}
use smol_raft.Cluster.Writes.{
  Matched, Calm-Matched, vote-Matched, timeout-Matched, count-Matched, append-Matched, send-Matched,
  own_kinds,
}
use smol_raft.Cluster.Rulers.{won-Matched, stroked-Matched, longer_log, grows, rising}
use smol_raft.Cluster.Matching.{sentinel_only, new_cluster-Matched, Reach-Inv}
use smol_raft.Cluster.Claims.{Bids, Acked, Chosen, chosen_stays}
use smol_raft.Cluster.UpToDate.{same-Holds}
use smol_raft.Cluster.Keeping.{Kept, Calm-Kept}
use smol_raft.Cluster.Voted.{vote-Kept}
use smol_raft.Cluster.Stood.{timeout-Kept, bids_then}
use smol_raft.Cluster.Answers.{append-Kept}
use smol_raft.Cluster.Stroked.{stroked-Kept}
use smol_raft.Cluster.Crowned.{won-Kept}

abbrev pub Both : List String → Cluster → Type 0
Both members s = (r : Ruled) × (b : Bids) × Matched members r s × Kept members r b s

-- After a step, with the leaders' logs continued.
abbrev pub Onward : List String → Ruled → List (ℕ × String) → Cluster → Type 0
Onward members r led s =
    (q : Ruled) × (b : Bids) × Matched members q s × Kept members q b s × Continues r q led s.led

module _ (members : List String) (host : String → String) (r : Ruled) (b : Bids) (s : Cluster)
    (sane : IsSane members s) (inv : (i : String) → Inv (s.member i).node) (v : Matched members r s)
    (k : Kept members r b s) where
  close-Onward : (i : String) → In i members → Onward members r s.led (close_poll i s)
  unfolding close_poll
  close-Onward i mem =
      elim (finish_kinds (s.member i).poll.term (s.member i).poll.votes (s.member i).node) [
        | inl e ↦ (
          r,
          b,
          rw e (
              Calm-Matched members r s sane v i mem (s.member i).node (Calm-refl (s.member i).node)
                refl),
          rw e (
              Calm-Kept members r b s sane v k i mem (s.member i) (Calm-refl (s.member i).node) refl
                refl),
          rw e (Continues-refl r s.led),
        )
        | inr (e, won) ↦ (
          set_ruled r (s.member i).poll.term (s.member i).node.log.entries,
          b,
          rw e (won-Matched members r s sane v i mem won),
          rw e (won-Kept members r b s sane v k i mem won),
          rw e (rising members r s sane v i mem won),
        )
      ]

  own-Onward :
      (i : String)
      → In i members
      → {n : Node} → Local (s.member i).node n
      → Onward members r s.led (set_node i n s)
  unfolding log_append
  own-Onward i mem {n} l = elim (own_kinds l) [
    | inl same ↦ (
      r,
      b,
      Calm-Matched members r s sane v i mem n (own-Calm l) same,
      Calm-Kept members r b s sane v k i mem (record (s.member i) { node = n }) (own-Calm l) same
          refl,
      Continues-refl r s.led,
    )
    | inr (st, e) ↦
        let (lead, same) = stroke_result st (s.member i).node e in
        let q =
          set_ruled r (s.member i).node.current_term
            (longer_log members r s sane v i mem lead st) in
        (
          q,
          b,
          subst (λ x. Matched members q (set_node i x s)) (sym same)
              (stroked-Matched members r s sane v i mem lead st),
          subst (λ x. Kept members q b (set_node i x s)) (sym same)
              (stroked-Kept members r b s sane v k i mem lead st),
          grows members r s sane v i mem lead st,
        )
  ]

  pub Step-Onward : {u : Cluster} → Step members host s u → Onward members r s.led u
  unfolding count_vote stand serve_vote serve_append
  Step-Onward (timeout i {n} {req} mem e) = (
    r,
    bids_then members r b s sane v k i mem n req e,
    timeout-Matched members r s sane v i mem e,
    timeout-Kept members r b s sane v k i mem n req e,
    Continues-refl r s.led,
  )
  Step-Onward (vote i req mem h) = (
    r,
    b,
    vote-Matched members r s sane v i mem req,
    vote-Kept members r b s sane v k i mem req h,
    Continues-refl r s.led,
  )
  Step-Onward (count i peer resp mem mp given) = (
    r,
    b,
    count-Matched members r s sane v i mem peer (host peer) resp,
    Calm-Kept members r b s sane v k i mem _
        (count-Calm (s.member i).poll.term (s.member i).poll.votes resp (s.member i).node)
        (ballot-Quiet (s.member i).poll.term (s.member i).poll.votes (some resp)
          (s.member i).node).5
        refl,
    Continues-refl r s.led,
  )
  Step-Onward (close i mem) = close-Onward i mem
  Step-Onward (send i peer mem e) = (
    r,
    b,
    send-Matched members r s sane v i mem peer (inv i) e,
    record {
      bounded = k.bounded;
      keeps = k.keeps;
      bids_made = k.bids_made;
      backing = k.backing;
      cast_past = k.cast_past;
      asked_past = k.asked_past;
      answered = λ a h ok. let (x, y) = k.answered a h ok in (inr x, y);
    },
    Continues-refl r s.led,
  )
  Step-Onward (append i peer req mem h to at) = (
    r,
    b,
    append-Matched members r s sane v i mem req h,
    append-Kept members r b s sane v k i mem req h,
    Continues-refl r s.led,
  )
  Step-Onward (reply i peer req resp mem _ _ _) = (
    r,
    b,
    Calm-Matched members r s sane v i mem _ (reply-Calm peer req resp (s.member i).node)
        (reply-Quiet peer req (some resp) (s.member i).node).5,
    Calm-Kept members r b s sane v k i mem _ (reply-Calm peer req resp (s.member i).node)
        (reply-Quiet peer req (some resp) (s.member i).node).5 refl,
    Continues-refl r s.led,
  )
  Step-Onward (own i mem l) = own-Onward i mem l

pub no_bids : Bids
no_bids u c = []

sentinel_low : (k : ℕ) (e : LogEntry) → get_elem? (sentinel ∷ []) k ≡ some e → e.term ≡ 0
sentinel_low zero e h = let same : e ≡ sentinel = cc h in ap (λ (x : LogEntry). x.term) same
sentinel_low (suc k) e h = absurd (cc h)

pub new_cluster-Kept :
    (members : List String) (config : String → Config)
    → Kept members sentinel_only no_bids (new_cluster config)
unfolding new_cluster new_node new_log
new_cluster-Kept members config = record {
  bounded = λ t k e h. omega (arith, sentinel_low k e h);
  keeps = λ v mem. record {
    below = λ k e h. omega (arith, sentinel_low k e h);
    bid = λ c. absurd (cc);
    claims = λ t k (there, by). elim by [
      | inl h ↦ elim h [ ]
      | inr (a, h, from, ok, term, low) ↦ elim h [ ]
    ];
    votes = λ u c h. elim h [ ];
  };
  bids_made = λ r h. elim h [ ];
  backing = λ u (l, h). elim h [ ];
  cast_past = λ v u c h. elim h [ ];
  asked_past = λ r h. elim h [ ];
  answered = λ a h. elim h [ ];
}

module _ (members : List String) (host : String → String) (config : String → Config)
    (c : IsConfigured members config)
    (hosts : IsHosted members host (λ i. (config i).peer_addrs)) where
  pub Reach-Both : {s : Cluster} → Reach members host (new_cluster config) s → Both members s
  Reach-Both here =
      (sentinel_only, no_bids, new_cluster-Matched members config, new_cluster-Kept members config)
  Reach-Both (next {t} r st) =
      let (ruled, bids, v, k) = Reach-Both r in
      let (now, more, w, l, longer) =
        Step-Onward members host ruled bids t (cluster-IsSane members host config c hosts r)
          (Reach-Inv config r) v k st in
      (now, more, w, l)

-- Leader completeness. Let the members be configured as for election safety, let some member's log
-- have an entry of term t at index k, and let each member of a majority have been elected in term t,
-- or have acknowledged the log of the leader of term t up to k, at whatever time. Then every leader
-- of a later term has the same log up to k, strokes included.
pub leader_completeness :
    (members : List String) (host : String → String) (config : String → Config) (s : Cluster)
    (quorum : List String) (t k : ℕ) (x j : String) (e : LogEntry)
    → IsConfigured members config
    → IsHosted members host (λ v. (config v).peer_addrs)
    → Reach members host (new_cluster config) s
    → Distinct quorum
    → Among quorum members
    → length members < length quorum + length quorum
    → ((v : String) → In v quorum → In (t, v) s.led ⊎ Acked s.answers v t k)
    → In x members
    → get_elem? (s.member x).node.log.entries k ≡ some e
    → e.term ≡ t
    → In j members
    → (s.member j).node.state ≡ leader
    → t < (s.member j).node.current_term
    → take (suc k) (s.member j).node.log.entries ≡ take (suc k) (s.member x).node.log.entries
leader_completeness members host config s quorum t k x j e c hosts r distinct among most acked mx h
      at mj lead late =
    let (ruled, bids, v, kept) = Reach-Both members host config c hosts r in
    let sane = cluster-IsSane members host config c hosts r in
    let theirs : take (suc k) (s.member x).node.log.entries ≡ take (suc k) (ruled t) =
      (v.follows x mx).log_written.coherent k e h ∙ ap (λ u. take (suc k) (ruled u)) at in
    let there = same-Holds t k (s.member x).node.log.entries (ruled t) theirs (e, h, at) in
    let chosen : Chosen members ruled s.led s.answers t k = record {
      quorum = quorum;
      distinct = distinct;
      among = among;
      most = most;
      claimed = λ y q. (there, acked y q);
    } in
    let (z, g, same) =
      chosen_stays members ruled bids s.member s.led s.asked s.sent s.answers kept t k chosen
        (s.member j).node.current_term late (j, (sane.bound j mj).leads lead) in
    let mine : get_elem? (s.member j).node.log.entries k ≡ some z =
      ap (λ es. get_elem? es k) ((v.follows j mj).rules lead) ∙ g in
    (v.follows j mj).log_written.coherent k z mine
    ∙ ap (λ u. take (suc k) (ruled u)) same
    ∙ sym theirs
