-- ===== src/Cluster/Tallied.antt =====
-- The index that a leader commits after a success response: a majority has acknowledged it.
use smol_raft.Prelude.{
  ℕ, suc, ◌≤◌, ◌<◌, ◌≡◌, inl, inr, refl, sym, ◌∙◌, subst, String, Option, none, some, Option-cases,
  List, ◌∷◌, map, length, get_elem?, In, arith,
}
use smol_raft.Types.{leader, LogEntry, AppendEntriesRequest}
use smol_raft.Log.{Log, pos, term_at}
use smol_raft.Node.{Node, index_of}
use smol_raft.Replication.{
  last_entry, index_or_zero, record_match, advance_commit_index, replica_count,
}
use smol_raft.Replication.Commit.{IsCommittable, advance_commit_index_to}
use smol_raft.Cluster.{Answer}
use smol_raft.Cluster.Quorum.{Distinct, Among}
use smol_raft.Cluster.Ruled.{Ruled}
use smol_raft.Cluster.Claims.{Holds, Acked, Chosen}
use smol_raft.Cluster.Counted.{
  matching, length-matching, In-matching, In-map, In-map_of, matching-Distinct, length-map,
}
use smol_raft.Cluster.Commits.{Backed, Matches}
use smol_raft.Cluster.Acknowledged.{noted, record_match-noted}

some_index : (o : Option ℕ) (c : ℕ) → 0 < c → c ≤ index_or_zero o → (m : ℕ) × (o ≡ some m) × (c ≤ m)
some_index none c h g = absurd (omega arith)
some_index (some m) c h g = (m, refl, g)

term_at-some : (l : Log) (k t : ℕ) → 0 < t → term_at l (pos k) ≡ t → Holds t k l.entries
unfolding term_at
term_at-some l k t h g = elim (Option-cases (get_elem? l.entries k)) [
  | inl e ↦ absurd (omega (arith, (rw (e, term_at) at g)))
  | inr (x, e) ↦ (x, e, rw (e, term_at) at g)
]

-- A leader with its log, its peers and its election.
pub record IsRuling (members : List String) (host : String → String) (ruled : Ruled)
    (led : List (ℕ × String)) (i : String) (n : Node) : Type 0 where
  pub member : In i members
  pub sized : suc (length n.peers) ≡ length members
  pub apart : Distinct (map host n.peers)
  pub others : ¬ In i (map host n.peers)
  pub inside : Among (map host n.peers) members
  pub won : In (n.current_term, i) led
  pub late : 0 < n.current_term
  pub rules : n.log.entries ≡ ruled n.current_term

noted-IsRuling :
    {members : List String} {host : String → String} {ruled : Ruled} {led : List (ℕ × String)}
    {i : String} {n : Node} (peer : String) (o : Option LogEntry)
    → IsRuling members host ruled led i n
    → IsRuling members host ruled led i (noted n peer o)
noted-IsRuling peer none v = v
noted-IsRuling peer (some e) v = record {
  member = v.member;
  sized = v.sized;
  apart = v.apart;
  others = v.others;
  inside = v.inside;
  won = v.won;
  late = v.late;
  rules = v.rules;
}

module _ (members : List String) (host : String → String) (ruled : Ruled) (led : List (ℕ × String))
    (answers : List Answer) (i : String) (n : Node) (v : IsRuling members host ruled led i n)
    (lead : n.state ≡ leader) (known : Matches host answers n) where
  module _ (c : ℕ) (may : IsCommittable n c) where
    abbrev counted : List String
    counted = matching n.match_index c n.peers

    there : Holds n.current_term c (ruled n.current_term)
    there =
        subst (Holds n.current_term c) v.rules
          (term_at-some n.log c n.current_term v.late may.own_term)

    peer_of :
        (x : String)
        → In x (map host counted)
        → (p : String) × In p n.peers
          × (c ≤ index_or_zero (index_of p n.match_index))
          × (x ≡ host p)
    peer_of x h =
        let (p, k, e) = In-map host x counted h in
        let (a, b) = In-matching n.match_index c n.peers p k in (p, a, b, e)

    of_peers : (x : String) → In x (map host counted) → In x (map host n.peers)
    of_peers x h =
        let (p, a, b, e) = peer_of x h in
        subst (λ y. In y (map host n.peers)) (sym e) (In-map_of host p n.peers a)

    ack : (x : String) → In x (map host counted) → Acked answers x n.current_term c
    ack x h =
        let (p, a, b, e) = peer_of x h in
        let (m, at, low) = some_index (index_of p n.match_index) c (omega (arith, may.above)) b in
        elim (known lead p m a at) [
          | inl z ↦ absurd (omega (arith, z, low, may.above))
          | inr (y, g, from, ok, term, reach) ↦
              (y, g, from ∙ sym e, ok, term, omega (arith, low, reach))
        ]

    -- The leader with the peers that it counts.
    pub committable-Chosen : Chosen members ruled led answers n.current_term c
    unfolding replica_count
    committable-Chosen = record {
      quorum = i ∷ map host counted;
      distinct =
          (λ h. v.others (of_peers i h), matching-Distinct host n.match_index c n.peers v.apart);
      among = λ x h. elim h [
        | inl e ↦ subst (λ y. In y members) (sym e) v.member
        | inr k ↦ v.inside x (of_peers x k)
      ];
      most = omega (
        arith,
        v.sized,
        may.majority,
        length-map host counted,
        length-matching n.match_index c n.peers,
      );
      claimed = λ x h. (
        there,
        elim h [
          | inl e ↦ inl (subst (λ y. In (n.current_term, y) led) (sym e) v.won)
          | inr k ↦ inr (ack x k)
        ],
      );
    }

    committable-Backed : Backed members ruled led answers c n.current_term n.log.entries
    committable-Backed = inr (
      record {
        term = n.current_term;
        at = c;
        reaches = omega arith;
        past = omega arith;
        chosen = committable-Chosen;
      },
      λ j a low g. subst (λ es. get_elem? es j ≡ some a) (sym v.rules) g,
    )

  -- What the leader commits, and what it knows of its peers then.
  pub advanced :
      Backed members ruled led answers n.commit_index n.current_term n.log.entries
      → let m = advance_commit_index n in
        Backed members ruled led answers m.commit_index m.current_term m.log.entries
        × Matches host answers m
  advanced b =
      let (c, e, up, kind) = advance_commit_index_to n in
      subst
        (λ m.
          Backed members ruled led answers m.commit_index m.current_term m.log.entries
          × Matches host answers m)
        (sym e)
        (
          elim kind [
            | inl same ↦
                subst (λ k. Backed members ruled led answers k n.current_term n.log.entries)
                  (sym same) b
            | inr may ↦ committable-Backed c may
          ],
          known,
        )

-- The leader's node after a success response.
pub matched_both :
    (members : List String) (host : String → String) (ruled : Ruled) (led : List (ℕ × String))
    (answers : List Answer) (i : String) (n : Node) (peer : String) (req : AppendEntriesRequest)
    → IsRuling members host ruled led i n
    → n.state ≡ leader
    → Matches host answers (record_match peer req.entries n)
    → Backed members ruled led answers n.commit_index n.current_term n.log.entries
    → let m = advance_commit_index (record_match peer req.entries n) in
      Backed members ruled led answers m.commit_index m.current_term m.log.entries
      × Matches host answers m
matched_both members host ruled led answers i n peer req v lead known b =
    let same = record_match-noted peer req.entries n in
    subst
      (λ k.
        let m = advance_commit_index k in
        Backed members ruled led answers m.commit_index m.current_term m.log.entries
        × Matches host answers m)
      (sym same) (go (last_entry req.entries) (subst (Matches host answers) same known))
  where
    go :
        (o : Option LogEntry)
        → Matches host answers (noted n peer o)
        → let m = advance_commit_index (noted n peer o) in
          Backed members ruled led answers m.commit_index m.current_term m.log.entries
          × Matches host answers m
    go none k = advanced members host ruled led answers i n v lead k b
    go (some e) k =
        advanced members host ruled led answers i (noted n peer (some e))
          (noted-IsRuling peer (some e) v) lead k b
