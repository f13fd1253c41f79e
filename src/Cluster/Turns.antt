-- ===== src/Cluster/Turns.antt =====
-- The steps of a member keep the invariant of elections.
use smol_raft.Prelude.{
  ℕ, suc, ◌≤◌, ◌≡◌, ◌≢◌, inl, inr, refl, sym, ◌∙◌, subst, String, Bool, true, false, Bool-cases,
  some, Option-cases, List, [], ◌∷◌, In, arith, if◌then◌else◌,
}
use smol_raft.Types.{leader, VoteRequest, VoteResponse, AppendEntriesRequest}
use smol_raft.Node.{Node, index_of}
use smol_raft.Election.{receive_vote, handle_vote_request, election_timeout}
use smol_raft.Replication.{make_request}
use smol_raft.Cluster.{
  Poll, Member, Answer, Cluster, update, set_member, set_node, stand, serve_vote, count_vote,
  remove_first, close_poll, serve_append,
}
use smol_raft.Cluster.Sane.{
  IsCounted, IsSane, update_self, grows_all, counted_same, change_member, same_leader, poll-IsBound,
  poll-IsLocked, poll-IsCounted,
}
use smol_raft.Cluster.Roles.{Calm, Calm-refl, Calm-IsBound, Calm-IsLocked, vote-Calm, count-Calm}
use smol_raft.Cluster.Yields.{append_kinds, yield-IsBound, yield-IsLocked}
use smol_raft.Cluster.Ballots.{
  vote_kinds, vote-IsBound, vote-IsLocked, timeout-Stands, stand-IsBound, stand-IsLocked,
}
use smol_raft.Cluster.Leader.{finish_kinds, won-IsSane}

ask_more :
    (members : List String) (s : Cluster) (r : VoteRequest)
    → r.candidate_id ≢ ""
    → IsSane members s
    → IsSane members (record s { asked = r ∷ s.asked })
ask_more members s r full v = record {
  bound = v.bound;
  counted = v.counted;
  candidates = λ q h. elim h [
    | inl e ↦ subst (λ x. x.candidate_id ≢ "") (sym e) full
    | inr k ↦ v.candidates q k
  ];
  authored = v.authored;
  majority = v.majority;
}

answers_change :
    (members : List String) (s : Cluster) (as' : List Answer)
    → IsSane members s
    → IsSane members (record s { answers = as' })
answers_change members s as' v = record {
  bound = v.bound;
  counted = v.counted;
  candidates = v.candidates;
  authored = v.authored;
  majority = v.majority;
}

pub requested :
    (peer : String) (n : Node) {req : AppendEntriesRequest}
    → make_request peer n ≡ some req
    → (n.state ≡ leader) × (req.term ≡ n.current_term) × (req.leader_id ≡ n.id)
unfolding make_request
requested peer n e = elim (Option-cases (index_of peer n.next_index)) [
  | inl h ↦ ground arith
  | inr (k, h) ↦ ground arith
]

votes_bound :
    (t votes : ℕ) (r : VoteResponse) (n : Node)
    → (receive_vote t (some r) (n, votes)).1 ≤ (if r.vote_granted then suc votes else votes)
unfolding receive_vote
votes_bound t votes r n = ground arith

module _ (members : List String) (s : Cluster) (v : IsSane members s) where
  -- A member whose node changed calmly.
  pub Calm-IsSane :
      (i : String) (n : Node)
      → In i members
      → Calm (s.member i).node n
      → IsSane members (set_node i n s)
  Calm-IsSane i n mem c =
      change_member members s v i (record (s.member i) { node = n }) mem
        (Calm-IsBound members s.led i (s.member i) n c (v.bound i mem)) (λ b h. h)
        (λ t l _.
          Calm-IsLocked members s.led i (s.member i) n c t l (λ d. (v.bound i mem).past t d))
        (counted_same members s.member i (record (s.member i) { node = n }) refl (λ b h. h)
          (v.counted i mem))

  pub append-IsSane :
      (i : String) (req : AppendEntriesRequest)
      → In i members
      → In req s.sent
      → i ≢ req.leader_id
      → IsSane members (serve_append i req s)
  unfolding serve_append
  append-IsSane i req mem h other = elim (append_kinds req (s.member i).node) [
    | inl c ↦ answers_change members _ _ (Calm-IsSane i _ mem c)
    | inr y ↦ answers_change members _ _ (
        change_member members s v i _ mem
          (yield-IsBound members s.led i (s.member i) _ req y (v.authored req h) (v.bound i mem))
          (λ b g. g)
          (yield-IsLocked members s.led i (s.member i) _ req y (v.authored req h) other
            (same_leader members s v))
          (counted_same members s.member i _ refl (λ b g. g) (v.counted i mem)))
  ]

  pub send-IsSane :
      (i peer : String) {req : AppendEntriesRequest}
      → In i members
      → make_request peer (s.member i).node ≡ some req
      → IsSane members (record s { sent = req ∷ s.sent })
  send-IsSane i peer {req} mem e =
      let (l, t, q) = requested peer (s.member i).node e in
      let b = v.bound i mem in
      record {
        bound = v.bound;
        counted = v.counted;
        candidates = v.candidates;
        authored = λ r h. elim h [
          | inl same ↦
              subst (λ (x : AppendEntriesRequest). In (x.term, x.leader_id) s.led) (sym same)
                (rw (t, q, b.named) (b.leads l))
          | inr k ↦ v.authored r k
        ];
        majority = v.majority;
      }

  pub vote-IsSane :
      (i : String) (req : VoteRequest)
      → i ≢ ""
      → In i members
      → In req s.asked
      → IsSane members (serve_vote i req s)
  unfolding serve_vote
  vote-IsSane i req named mem h =
      elim (Bool-cases (handle_vote_request req (s.member i).node).1.vote_granted) [
        | inr no_vote ↦ rw no_vote (
            Calm-IsSane i (handle_vote_request req (s.member i).node).0 mem
              (vote-Calm req (s.member i).node no_vote))
        | inl given ↦ rw given (
            let k = vote_kinds req (s.member i).node given in
            let full = v.candidates req h in
            change_member members s v i
              (record (s.member i) {
                node = (handle_vote_request req (s.member i).node).0;
                cast = (req.term, req.candidate_id) ∷ (s.member i).cast;
              })
              mem (vote-IsBound members s.led i (s.member i) _ req k (v.bound i mem) full named)
              (λ b g. inr g)
              (λ t l _.
                vote-IsLocked members s.led i (s.member i) _ req k (v.bound i mem) full named t l)
              (counted_same members s.member i _ refl (λ b g. inr g) (v.counted i mem)))
      ]

  pub timeout-IsSane :
      (i : String) {n : Node} {req : VoteRequest}
      → i ≢ ""
      → In i members
      → election_timeout (s.member i).node ≡ some (n, req)
      → IsSane members (stand i n req s)
  unfolding stand
  timeout-IsSane i {n} {req} named mem e =
      let k = timeout-Stands (s.member i).node n req e in
      let m : Member = record {
        node = n;
        poll = record { term = req.term; votes = 1; voters = i ∷ []; pending = n.peers };
        cast = (req.term, i) ∷ (s.member i).cast;
      } in
      let self = update_self s.member i m in
      ask_more members (set_member i m s) req (λ q. named (sym (v.bound i mem).named ∙ sym k.6 ∙ q))
        (change_member members s v i m mem
          (stand-IsBound members s.led i (s.member i) n m.poll req k (v.bound i mem) named)
          (λ b g. inr g)
          (λ t l _.
            stand-IsLocked members s.led i (s.member i) n m.poll req k (v.bound i mem) named t l)
          (poll-IsCounted members s.member i m (λ h. h, tt)
            (λ j h. elim h [ inl q ↦ subst (λ x. In x members) (sym q) mem | inr z ↦ elim z [ ] ])
            (λ j h. elim h [
              | inl q ↦
                  subst (λ x. In (req.term, i) (update s.member i m x).cast) (sym q)
                    (rw self (inl refl))
              | inr z ↦ elim z [ ]
            ])
            (omega arith)))

  -- The votes of i with one more from j.
  counted-IsCounted :
      (w : List String) (i j : String) (n : Node) (votes : ℕ)
      → In i members
      → In j members
      → ¬ In j (s.member i).poll.voters
      → In ((s.member i).poll.term, i) (s.member j).cast
      → votes ≤ suc (s.member i).poll.votes
      → IsCounted members
          (update s.member i (record (s.member i) {
            node = n;
            poll = record (s.member i).poll {
              votes = votes;
              voters = j ∷ (s.member i).poll.voters;
              pending = w;
            };
          }))
          i
  counted-IsCounted w i j n votes mem mj new given h =
      let c = v.counted i mem in
      let p : Poll = record (s.member i).poll {
        votes = votes;
        voters = j ∷ (s.member i).poll.voters;
        pending = w;
      } in
      let m : Member = record (s.member i) { node = n; poll = p } in
      poll-IsCounted members s.member i m (new, c.distinct)
        (λ k g. elim g [ inl q ↦ subst (λ x. In x members) (sym q) mj | inr z ↦ c.among k z ])
        (λ k g.
          grows_all s.member i m (λ b q. q) k (p.term, i)
            (elim g [
              | inl q ↦ subst (λ x. In (p.term, i) (s.member x).cast) (sym q) given
              | inr z ↦ c.given k z
            ]))
        (omega (arith, h, c.enough))

  -- The votes of i, of which no more are counted.
  uncounted-IsCounted :
      (w : List String) (i : String) (n : Node) (votes : ℕ)
      → In i members
      → votes ≤ (s.member i).poll.votes
      → IsCounted members
          (update s.member i (record (s.member i) {
            node = n;
            poll = record (s.member i).poll { votes = votes; pending = w };
          }))
          i
  uncounted-IsCounted w i n votes mem h =
      let c = v.counted i mem in
      let m : Member = record (s.member i) {
        node = n;
        poll = record (s.member i).poll { votes = votes; pending = w };
      } in
      poll-IsCounted members s.member i m c.distinct c.among
        (λ k g. grows_all s.member i m (λ b q. q) k (m.poll.term, i) (c.given k g))
        (omega (arith, h, c.enough))

  recounted-IsCounted :
      (w : List String) (i j : String) (n : Node) (votes : ℕ) (granted : Bool)
      → In i members
      → In j members
      → ¬ In j (s.member i).poll.voters
      → (granted ≡ true → In ((s.member i).poll.term, i) (s.member j).cast)
      → votes ≤ (if granted then suc (s.member i).poll.votes else (s.member i).poll.votes)
      → IsCounted members
          (update s.member i (record (s.member i) {
            node = n;
            poll = record (s.member i).poll {
              votes = votes;
              voters = if granted then j ∷ (s.member i).poll.voters else (s.member i).poll.voters;
              pending = w;
            };
          }))
          i
  recounted-IsCounted w i j n votes true mem mj new given h =
      counted-IsCounted w i j n votes mem mj new (given refl) h
  recounted-IsCounted w i j n votes false mem mj new given h = uncounted-IsCounted w i n votes mem h

  pub count-IsSane :
      (i peer j : String) (resp : VoteResponse)
      → In i members
      → In j members
      → ¬ In j (s.member i).poll.voters
      → (resp.vote_granted ≡ true → In ((s.member i).poll.term, i) (s.member j).cast)
      → IsSane members (count_vote i peer j resp s)
  unfolding count_vote
  count-IsSane i peer j resp mem mj new given =
      let w = remove_first peer (s.member i).poll.pending in
      let t = (s.member i).poll.term in
      let votes = (s.member i).poll.votes in
      let n = (receive_vote t (some resp) ((s.member i).node, votes)).0 in
      let more = (receive_vote t (some resp) ((s.member i).node, votes)).1 in
      let bound =
        Calm-IsBound members s.led i (s.member i) n (count-Calm t votes resp (s.member i).node)
          (v.bound i mem) in
      let p : Poll = record (s.member i).poll {
        votes = more;
        voters =
            if resp.vote_granted then j ∷ (s.member i).poll.voters else (s.member i).poll.voters;
        pending = w;
      } in
      change_member members s v i (record (s.member i) { node = n; poll = p }) mem
        (poll-IsBound members s.led i (record (s.member i) { node = n }) p bound) (λ b h. h)
        (λ u l _ k.
          poll-IsLocked u l i (record (s.member i) { node = n }) p
            (Calm-IsLocked members s.led i (s.member i) n
              (count-Calm t votes resp (s.member i).node) u l (λ d. (v.bound i mem).past u d) k))
        (recounted-IsCounted w i j n more resp.vote_granted mem mj new given
          (votes_bound t votes resp (s.member i).node))

  pub close-IsSane : (i : String) → In i members → IsSane members (close_poll i s)
  unfolding close_poll
  close-IsSane i mem =
      elim (finish_kinds (s.member i).poll.term (s.member i).poll.votes (s.member i).node) [
        | inl e ↦ rw e (Calm-IsSane i (s.member i).node mem (Calm-refl (s.member i).node))
        | inr (e, won) ↦ rw e (won-IsSane members s v i mem won)
      ]
