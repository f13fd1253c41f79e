-- ===== src/Cluster/Advances.antt =====
-- Every step of the replicas keeps what backs the commit indices.
use smol_raft.Prelude.{
  ℕ, zero, suc, ◌+◌, ◌≤◌, ◌≡◌, ◌⊎◌, inl, inr, refl, sym, ap, ◌∙◌, subst, String, some, Option-cases,
  List, ◌∷◌, length, length-drop, drop, In, arith,
}
use smol_raft.Types.{leader, AppendEntriesRequest, AppendEntriesResponse}
use smol_raft.Log.{last_index}
use smol_raft.Node.{Node, become_leader, index_of}
use smol_raft.Replication.{node_of, make_request, handle_append_entries, receive_reply}
use smol_raft.Replication.Reply.{reply_cases}
use smol_raft.CatchUp.Round.{request, make_request-leader}
use smol_raft.Steps
use smol_raft.Steps.Invariant.Defs.{Inv}
use smol_raft.Steps.Progress.{Progress, Step-Progress}
use smol_raft.Cluster.{
  Member, Cluster, Step, timeout, vote, count, close, send, append, reply, own, update, stand,
  serve_vote, count_vote, close_poll, serve_append,
}
use smol_raft.Cluster.Pending.{IsHosted}
use smol_raft.Cluster.Sane.{IsSane}
use smol_raft.Cluster.Leader.{finish_kinds}
use smol_raft.Cluster.History.{own_step}
use smol_raft.Cluster.Ruled.{Ruled}
use smol_raft.Cluster.Follows.{append_idle, index-pos, no_index}
use smol_raft.Cluster.Turns.{requested}
use smol_raft.Cluster.Writes.{Matched}
use smol_raft.Cluster.Claims.{Bids}
use smol_raft.Cluster.Keeping.{Kept}
use smol_raft.Cluster.Accepted.{append_effect}
use smol_raft.Cluster.Counted.{index_of-assign_all}
use smol_raft.Cluster.Steady.{
  Steady, Steady-refl, vote-Steady, timeout-Steady, count-Steady, back_up-Steady, deposed-Steady,
  own-Steady,
}
use smol_raft.Cluster.Commits.{Cover, Backed, Matches, IsCommitted, change_commit, Backed-kept}
use smol_raft.Cluster.Covered.{accepted-Backed}
use smol_raft.Cluster.Acknowledged.{record_match-Matches}
use smol_raft.Cluster.Tallied.{IsRuling, matched_both}

-- The commit index and what it knows of its peers, of a node.
abbrev Sound : List String → (String → String) → Ruled → Cluster → Node → Type 0
Sound members host ruled s n =
    Backed members ruled s.led s.answers n.commit_index n.current_term n.log.entries
    × Matches host s.answers n

-- With the elections and the answers from before.
abbrev Advanced :
    List String
    → (String → String)
    → Ruled
    → Cluster
    → (String → Member)
    → List AppendEntriesRequest
    → Type 0
Advanced members host ruled s f sent = IsCommitted members host ruled f s.led sent s.answers

request_covers :
    (n : Node) (p : ℕ)
    → n.commit_index ≤ last_index n.log
    → n.commit_index ≤ p + length (drop (suc p) n.log.entries)
unfolding last_index
request_covers n p low = omega (arith, low, length-drop (suc p) n.log.entries)

-- A leader's request reaches as far as the commit index that it tells.
sent_covers :
    (peer : String) (n : Node) {req : AppendEntriesRequest}
    → Inv n
    → n.state ≡ leader
    → make_request peer n ≡ some req
    → (req.leader_commit ≡ n.commit_index)
      × (n.commit_index ≤ req.prev_log_index + length req.entries)
sent_covers peer n {req} ok lead h = elim (Option-cases (index_of peer n.next_index)) [
  | inl e ↦ absurd (cc (no_index peer n e, h))
  | inr (k, e) ↦ known_index k e
]
  where
    known_index :
        (k : ℕ)
        → index_of peer n.next_index ≡ some k
        → (req.leader_commit ≡ n.commit_index)
          × (n.commit_index ≤ req.prev_log_index + length req.entries)
    known_index zero e = absurd (omega (arith, index-pos n.next_index peer 0 ok.positive e))
    known_index (suc p) e =
        let same : request n p ≡ req = cc (make_request-leader peer n p lead e, h) in
        subst
          (λ (r : AppendEntriesRequest).
            (r.leader_commit ≡ n.commit_index)
            × (n.commit_index ≤ r.prev_log_index + length r.entries))
          same (refl, request_covers n p ok.committed)

module _ (members : List String) (host : String → String) (ruled : Ruled) (bids : Bids)
    (s : Cluster) (sane : IsSane members s) (inv : (i : String) → Inv (s.member i).node)
    (v : Matched members ruled s) (kept : Kept members ruled bids s)
    (hosted : IsHosted members host (λ i. (s.member i).node.peers))
    (backed : IsCommitted members host ruled s.member s.led s.sent s.answers) where
  module _ (i : String) (mem : In i members) where
    abbrev n : Node
    n = (s.member i).node

    abbrev Goal : Member → Type 0
    Goal m = Advanced members host ruled s (update s.member i m) s.sent

    put : (m : Member) → Sound members host ruled s m.node → Goal m
    put m (b, k) = change_commit members host ruled s.member s.led s.sent s.answers backed i m b k

    Steady-Sound : (m : Node) → Progress n m → Steady n m → Sound members host ruled s m
    Steady-Sound m p (same, roles) = (
      Backed-kept members ruled s.led s.answers n m p same (backed.commits i mem),
      λ l q k h e.
          let (lead, term, match_index) = roles l in
          elim (backed.matches i mem lead q k (subst (λ ps. In q ps) p.same_peers h)
            (ap (index_of q) (sym match_index) ∙ e)) [
              | inl z ↦ inl z
              | inr (a, g, from, ok, t, low) ↦ inr (a, g, from, ok, t ∙ sym term, low)
            ],
    )

    step-Sound : (m : Node) → Steps.Step n m → Steady n m → Sound members host ruled s m
    step-Sound m st = Steady-Sound m (Step-Progress (inv i) st)

    won-Sound : Sound members host ruled s (become_leader n)
    unfolding become_leader
    won-Sound = (
      backed.commits i mem,
      λ l q k h e.
          let zero_now = index_of-assign_all n.peers 0 n.match_index q h in inl (cc (zero_now, e)),
    )

    close-Advanced : Advanced members host ruled s (close_poll i s).member s.sent
    unfolding close_poll
    close-Advanced = elim (finish_kinds (s.member i).poll.term (s.member i).poll.votes n) [
      | inl e ↦ rw e (put (s.member i) (backed.commits i mem, backed.matches i mem))
      | inr (e, won) ↦ rw e (put (record (s.member i) { node = become_leader n }) won-Sound)
    ]

    append-Sound :
        (req : AppendEntriesRequest)
        → In req s.sent
        → Sound members host ruled s (node_of (handle_append_entries req n))
    append-Sound req was_sent =
        let moved = Step-Progress (inv i) (Steps.Step.append req) in
        elim (append_effect ruled s.led v.nobody req n (ruled req.term) (v.carries req was_sent)
          (v.follows i mem).log_written (v.rulers req.term)) [
            | inl refused ↦ (
              Backed-kept members ruled s.led s.answers n _ moved refused.2 (backed.commits i mem),
              λ l.
                  let idle = append_idle req n l in
                  subst (Matches host s.answers) (sym idle) (backed.matches i mem) l,
            )
            | inr acc ↦
                subst (λ h. Sound members host ruled s (node_of h)) (sym acc.handled)
                  (
                    accepted-Backed members ruled bids s sane v kept i mem req was_sent _ acc
                        (subst (λ h. Progress n (node_of h)) acc.handled moved)
                        (backed.commits i mem) (backed.carried req was_sent),
                    λ l. absurd (cc (acc.follows_now, l)),
                  )
          ]

    ruling : n.state ≡ leader → IsRuling members host ruled s.led i n
    ruling lead = record {
      member = mem;
      sized = (sane.bound i mem).sized;
      apart = hosted.apart i mem;
      others = hosted.others i mem;
      inside = hosted.inside i mem;
      won = (sane.bound i mem).leads lead;
      late = (v.follows i mem).late (λ e. cc (lead, e));
      rules = (v.follows i mem).rules lead;
    }

    reply-Sound :
        (peer : String) (req : AppendEntriesRequest) (resp : AppendEntriesResponse)
        → In (record { from = host peer; to = req; says = resp }) s.answers
        → Sound members host ruled s (receive_reply peer req (some resp) n)
    reply-Sound peer req resp there =
        reply_cases (λ m. Progress n m → Sound members host ruled s m) peer req resp n
          (λ p. Steady-Sound n p (Steady-refl n))
          (λ _ p. Steady-Sound _ p (deposed-Steady resp.term "" n))
          (λ lead same ok p.
            matched_both members host ruled s.led s.answers i n peer req (ruling lead) lead
              (record_match-Matches host s.answers n peer req resp
                (v.carries req (kept.answered _ there ok).0).indexed there ok (sym same) lead
                (backed.matches i mem))
              (backed.commits i mem))
          (λ lead same ok p. Steady-Sound _ p (back_up-Steady peer resp.conflict_index n))
          (Step-Progress (inv i) (Steps.Step.reply peer req (some resp)))

  send-Advanced :
      (i peer : String) {req : AppendEntriesRequest}
      → In i members
      → make_request peer (s.member i).node ≡ some req
      → Advanced members host ruled s s.member (req ∷ s.sent)
  send-Advanced i peer {req} mem e =
      let (l, t, q) = requested peer (s.member i).node e in
      let (lc, low) = sent_covers peer (s.member i).node (inv i) l e in
      record {
        commits = backed.commits;
        carried = λ r h. elim h [
          | inr old ↦ backed.carried r old
          | inl same ↦
              subst
                (λ (x : AppendEntriesRequest).
                  (x.leader_commit ≤ x.prev_log_index + length x.entries)
                  × ((x.leader_commit ≡ 0)
                      ⊎ Cover members ruled s.led s.answers x.leader_commit x.term))
                (sym same)
                (
                  omega (arith, lc, low),
                  elim (backed.commits i mem) [
                    | inl z ↦ inl (lc ∙ z)
                    | inr (c, keeps) ↦ inr (
                        subst (λ k. Cover members ruled s.led s.answers k req.term) (sym lc)
                          (subst
                            (Cover members ruled s.led s.answers (s.member i).node.commit_index)
                            (sym t) c))
                  ],
                )
        ];
        matches = backed.matches;
      }

  pub Step-Advanced :
      {u : Cluster} → Step members host s u → Advanced members host ruled s u.member u.sent
  unfolding stand serve_vote count_vote close_poll serve_append
  Step-Advanced (timeout i {n = m} {req = req} mem e) =
      put i mem _
        (step-Sound i mem m (Steps.Step.timeout e) (timeout-Steady (s.member i).node m req e))
  Step-Advanced (vote i req mem h) =
      put i mem _ (step-Sound i mem _ (Steps.Step.vote req) (vote-Steady req (s.member i).node))
  Step-Advanced (count i peer resp mem mp given) = put i mem _ (
      step-Sound i mem _
        (Steps.Step.ballot (s.member i).poll.term (s.member i).poll.votes (some resp))
        (count-Steady (s.member i).poll.term (s.member i).poll.votes resp (s.member i).node))
  Step-Advanced (close i mem) = close-Advanced i mem
  Step-Advanced (send i peer mem e) = send-Advanced i peer mem e
  Step-Advanced (append i peer req mem h to at) = put i mem _ (append-Sound i mem req h)
  Step-Advanced (reply i peer req resp mem _ _ h) = put i mem _ (reply-Sound i mem peer req resp h)
  Step-Advanced (own i {n = m} mem l) = put i mem _ (step-Sound i mem m (own_step l) (own-Steady l))
