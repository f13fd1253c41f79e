-- ===== src/Cluster/Rulers.antt =====
-- A stroke and a won election write a leader's log, to which all logs keep.
use smol_raft.Prelude.{
  ℕ, suc, ◌+◌, ◌<◌, ◌≡◌, inl, inr, refl, sym, ap, ◌∙◌, subst, String, true, some, List, [], ◌∷◌,
  ◌++◌, length, take, drop, get_elem?, get_elem?-append_left, get_elem?-append_right, drop-get,
  lt-length_of_get, length-append, In, arith, dec_lt,
}
use smol_raft.Types.{leader, LogEntry, StrokeEvent}
use smol_raft.Log.{push, append as log_append}
use smol_raft.Log.Shape.{push-IsLog}
use smol_raft.Node.{Node, become_leader}
use smol_raft.Replication.{handle_stroke}
use smol_raft.Replication.Reply.{stroke_result}
use smol_raft.Cluster.{Cluster, update, set_node, close_poll, Local}
use smol_raft.Cluster.Sane.{IsLed, IsSane, same_leader}
use smol_raft.Cluster.Roles.{Calm-refl, own-Calm}
use smol_raft.Cluster.Leader.{Won, finish_kinds, won-IsSane}
use smol_raft.Cluster.Ruled.{Ruled, IsWritten, Follows, IsMatched, take-append}
use smol_raft.Cluster.Extended.{
  Continues, Continues-IsWritten, set_ruled, set_ruled_self, grown-Continues, extend_ruled,
}
use smol_raft.Cluster.Writes.{Matched, Calm-Matched, own_kinds}

pub get-push_last :
    (es : List LogEntry) (e : LogEntry) (k : ℕ) {x : LogEntry}
    → ¬ (k < length es)
    → get_elem? (push es e) k ≡ some x
    → x.term ≡ e.term
get-push_last es e k {x} high h =
    let y : LogEntry = record e { index = length es } in
    let at_end : k ≡ length es =
      omega (arith, lt-length_of_get (push es e) k h, length-append es (y ∷ [])) in
    let split : length es + 0 ≡ k = omega arith in
    let same : x ≡ y = cc (
      subst (λ j. get_elem? (push es e) j ≡ some y) split (get_elem?-append_right es (y ∷ []) 0),
      h,
    ) in
    ap (λ (z : LogEntry). z.term) same

-- A log that is continued by an entry is coherent with one in which it is its term's leader's log.
push-IsWritten :
    (ruled : Ruled) (led : List (ℕ × String)) (es : List LogEntry) (e : LogEntry)
    → IsWritten ruled led es
    → ruled e.term ≡ push es e
    → IsLed e.term led
    → IsWritten ruled led (push es e)
push-IsWritten ruled led es e w mine known = record {
  shape = push-IsLog es e w.shape;
  coherent = λ k x h. elim (dec_lt k (length es)) [
    | yes old ↦
        take-append (suc k) es _ old ∙ w.coherent k x (sym (get_elem?-append_left es _ k old) ∙ h)
    | no new ↦ sym (ap (take (suc k)) (ap ruled (get-push_last es e k new h) ∙ mine))
  ];
  known = λ k x h. elim (dec_lt k (length es)) [
    | yes old ↦ w.known k x (sym (get_elem?-append_left es _ k old) ∙ h)
    | no new ↦ inr (subst (λ t. IsLed t led) (sym (get-push_last es e k new h)) known)
  ];
}

module _ (members : List String) (ruled : Ruled) (s : Cluster) (sane : IsSane members s)
    (v : Matched members ruled s) (i : String) (mem : In i members) where
  module _ (lead : (s.member i).node.state ≡ leader) (st : StrokeEvent) where
    abbrev n : Node
    n = (s.member i).node

    abbrev t : ℕ
    t = n.current_term

    abbrev entry : LogEntry
    entry = record { index = 0; term = t; stroke = st }

    abbrev pub longer_log : List LogEntry
    longer_log = push n.log.entries entry

    abbrev pub stroked : Node
    stroked = record n { log = record { entries = longer_log }; new_entry = true }

    pub mine : In (t, i) s.led
    mine = (sane.bound i mem).leads lead

    pub longer : longer_log ≡ ruled t ++ record entry { index = length n.log.entries } ∷ []
    longer =
        ap (λ es. es ++ record entry { index = length n.log.entries } ∷ [])
          ((v.follows i mem).rules lead)

    late : 0 < t
    late = (v.follows i mem).late (λ e. cc (lead, e))

    pub grows : Continues ruled (set_ruled ruled t longer_log) s.led s.led
    grows =
        grown-Continues members ruled s.member s.led s.led s.sent v t longer_log _ i
          (record (s.member i) { node = stroked }) longer (λ u l. l) (i, mine) late

    IsWritten-log : IsWritten (set_ruled ruled t longer_log) s.led longer_log
    IsWritten-log =
        push-IsWritten _ s.led n.log.entries entry
          (Continues-IsWritten ruled _ s.led s.led grows n.log.entries
            (v.follows i mem).log_written)
          (set_ruled_self ruled t longer_log) (i, mine)

    pub stroked-Matched : Matched members (set_ruled ruled t longer_log) (set_node i stroked s)
    stroked-Matched =
        extend_ruled members ruled s.member s.led s.led s.sent v t longer_log _ i
          (record (s.member i) { node = stroked }) longer (λ u l. l) (i, mine) late IsWritten-log
          (record {
            log_written = IsWritten-log;
            rules = λ _. sym (set_ruled_self ruled t longer_log);
            late = λ _. late;
            elected_once = (v.follows i mem).elected_once;
          })
          (λ j mj other l e. other (
            same_leader members s sane t j i
              (subst (λ k. In (k, j) s.led) e ((sane.bound j mj).leads l)) mine))
          (λ j u _ h. h)

  pub stroke-Matched :
      (st : StrokeEvent) {n : Node}
      → handle_stroke st (s.member i).node ≡ some n
      → (r : Ruled) × Matched members r (set_node i n s)
  unfolding log_append
  stroke-Matched st {n} e =
      let (lead, same) = stroke_result st (s.member i).node e in
      (
        set_ruled ruled (s.member i).node.current_term (longer_log lead st),
        subst
            (λ x.
              Matched members (set_ruled ruled (s.member i).node.current_term (longer_log lead st))
                (set_node i x s))
            (sym same) (stroked-Matched lead st),
      )

  module _ (won : Won (s.member i).poll.term (s.member i).poll.votes (s.member i).node) where
    abbrev me : Node
    me = (s.member i).node

    abbrev term : ℕ
    term = (s.member i).poll.term

    abbrev more : List (ℕ × String)
    more = (term, i) ∷ s.led

    pub unled : ¬ IsLed term s.led
    unled (l, h) =
        let same =
          same_leader members _ (won-IsSane members s sane i mem won) term l i (inr h) (inl refl) in
        ((v.follows i mem).elected_once term (subst (λ k. In (term, k) s.led) same h)).1 won.1 won.0

    positive : 0 < term
    positive = omega (arith, won.1, (v.follows i mem).late (λ e. cc (won.0, e)))

    from_sentinel : me.log.entries ≡ ruled term ++ drop 1 me.log.entries
    from_sentinel =
        drop-get me.log.entries 0 (v.follows i mem).log_written.shape.first
        ∙ ap (λ es. es ++ drop 1 me.log.entries) (sym (v.unruled term unled))

    pub rising : Continues ruled (set_ruled ruled term me.log.entries) s.led more
    rising =
        grown-Continues members ruled s.member s.led more s.sent v term me.log.entries _ i
          (record (s.member i) { node = become_leader me }) from_sentinel (λ u (l, h). (l, inr h))
          (i, inl refl) positive

    same_log : IsWritten (set_ruled ruled term me.log.entries) more me.log.entries
    same_log =
        Continues-IsWritten ruled _ s.led more rising me.log.entries (v.follows i mem).log_written

    crowned : Follows (set_ruled ruled term me.log.entries) more i (become_leader me)
    unfolding become_leader
    crowned = record {
      log_written = same_log;
      rules = λ _.
          sym (set_ruled_self ruled term me.log.entries)
          ∙ ap (set_ruled ruled term me.log.entries) (sym won.1);
      late = λ _. omega (arith, positive, won.1);
      elected_once = λ u h. (
        elim h [
          | inl e ↦ omega (arith, ap (λ (x : ℕ × String). x.0) e, won.1)
          | inr g ↦ ((v.follows i mem).elected_once u g).0
        ],
        λ _ q. cc q,
      );
    }

    pub won-Matched :
        IsMatched members
          (set_ruled ruled term me.log.entries)
          (update s.member i (record (s.member i) { node = become_leader me }))
          more
          s.sent
    won-Matched =
        extend_ruled members ruled s.member s.led more s.sent v term me.log.entries _ i
          (record (s.member i) { node = become_leader me }) from_sentinel (λ u (l, h). (l, inr h))
          (i, inl refl) positive same_log crowned
          (λ j mj other l e. unled (j, subst (λ k. In (k, j) s.led) e ((sane.bound j mj).leads l)))
          (λ j u other h. elim h [ inl e ↦ absurd (other (ap (λ x. x.1) e)) | inr g ↦ g ])

  pub close-Matched : (r : Ruled) × Matched members r (close_poll i s)
  unfolding close_poll
  close-Matched =
      elim (finish_kinds (s.member i).poll.term (s.member i).poll.votes (s.member i).node) [
        | inl e ↦ (
          ruled,
          rw e (
              Calm-Matched members ruled s sane v i mem (s.member i).node
                (Calm-refl (s.member i).node) refl),
        )
        | inr (e, won) ↦
            (set_ruled ruled (term won) (s.member i).node.log.entries, rw e (won-Matched won))
      ]

  pub own-Matched :
      {n : Node} → Local (s.member i).node n → (r : Ruled) × Matched members r (set_node i n s)
  own-Matched {n} l = elim (own_kinds l) [
    | inl same ↦ (ruled, Calm-Matched members ruled s sane v i mem n (own-Calm l) same)
    | inr (st, e) ↦ stroke-Matched st e
  ]
