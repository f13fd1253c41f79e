-- ===== src/Cluster/Leader.antt =====
-- The end of an election: the winner's voters are the majority that is bound to it.
use smol_raft.Prelude.{
  ℕ, ◌+◌, ◌≤◌, ◌<◌, ◌≡◌, ◌≢◌, ◌⊎◌, inl, inr, refl, sym, ap, subst, String, true, false, List, [],
  ◌∷◌, length, In, arith, leb, leb→le, ℕ_discrete, Bool-cases, ◌==◌, not, ◌||◌,
}
use smol_raft.Types.{NodeState, follower, candidate, leader}
use smol_raft.Node.{Node, become_leader, state_eq}
use smol_raft.Election.{finish_election, vote_majority}
use smol_raft.Cluster.{Member, Cluster, set_node}
use smol_raft.Cluster.Quorum.{common}
use smol_raft.Cluster.Sane.{IsLed, IsBound, IsLocked, Majority, IsSane, change_member, counted_same}

pub IsLed_dec : (t : ℕ) (led : List (ℕ × String)) → IsLed t led ⊎ (¬ IsLed t led)
IsLed_dec t [] = inr (λ (l, h). h)
IsLed_dec t ((k, l) ∷ led) = elim (ℕ_discrete k t) [
  | yes e ↦ inl (l, inl (ap (λ q. (q, l)) (sym e)))
  | no n ↦ elim (IsLed_dec t led) [
    | inl (x, h) ↦ inl (x, inr h)
    | inr none ↦ inr (λ (x, h). elim h [ inl e ↦ n (ap (λ q. q.0) (sym e)) | inr g ↦ none (x, g) ])
  ]
]

-- One more election is won, by a member with a majority bound to it.
extend_led :
    (members : List String) (s : Cluster) (t : ℕ) (l : String)
    → IsSane members s
    → Majority members s.member t l
    → IsSane members (record s { led = (t, l) ∷ s.led })
extend_led members s t l sane m = record {
  bound = λ i mem.
      let b = sane.bound i mem in
      record {
        named = b.named;
        sized = b.sized;
        full = b.full;
        past = b.past;
        keeps = λ t c h e. elim (b.keeps t c h e) [ inl q ↦ inl q | inr (k, w) ↦ inr (k, inr w) ];
        once = λ t c d h g. elim (b.once t c d h g) [ inl q ↦ inl q | inr (k, w) ↦ inr (k, inr w) ];
        stands = b.stands;
        leads = λ h. inr (b.leads h);
      };
  counted = sane.counted;
  candidates = sane.candidates;
  authored = λ r h. inr (sane.authored r h);
  majority = λ u k h. elim h [
    | inl e ↦ subst (λ q. Majority members s.member q.0 q.1) (sym e) m
    | inr g ↦ sane.majority u k g
  ];
}

-- The count of the votes was won.
abbrev pub Won : ℕ → ℕ → Node → Type 0
Won t votes n = (n.state ≡ candidate) × (n.current_term ≡ t) × (vote_majority n ≤ votes)

still_candidate :
    (t : ℕ) (n : Node)
    → (not (state_eq n.state candidate) || not (n.current_term == t)) ≡ false
    → (n.state ≡ candidate) × (n.current_term ≡ t)
still_candidate t n h = ground arith

pub finish_kinds :
    (t votes : ℕ) (n : Node)
    → (finish_election t votes n ≡ (n, false))
      ⊎ ((finish_election t votes n ≡ (become_leader n, true)) × Won t votes n)
unfolding finish_election
finish_kinds t votes n =
    elim (Bool-cases (not (state_eq n.state candidate) || not (n.current_term == t))) [
      | inl gone ↦ inl (rw gone)
      | inr still ↦ elim (Bool-cases (leb (vote_majority n) votes)) [
        | inl won ↦
            let (c, e) = still_candidate t n still in
            inr (rw (still, won), (c, e, leb→le (vote_majority n) votes won))
        | inr lost ↦ inl (rw (still, lost))
      ]
    ]

module _ (members : List String) (s : Cluster) (sane : IsSane members s) (i : String)
    (mem : In i members)
    (won : Won (s.member i).poll.term (s.member i).poll.votes (s.member i).node) where
  abbrev me : Member
  me = s.member i

  abbrev WonMajority : Type 0
  WonMajority = Majority members s.member me.poll.term i

  pub voters_most : length members < length me.poll.voters + length me.poll.voters
  voters_most =
      let b = sane.bound i mem in
      let c = sane.counted i mem in omega (arith, b.sized, won.2, c.enough)

  -- Another leader of the term would share a voter with the winner.
  again : (l : String) → In (me.poll.term, l) s.led → WonMajority
  again l h =
      let p = sane.majority me.poll.term l h in
      let c = sane.counted i mem in
      let (v, a, b) =
        common members p.quorum me.poll.voters p.distinct c.distinct p.among c.among
          (omega (arith, p.most, voters_most)) in
      subst (λ k. Majority members s.member me.poll.term k)
        (sym ((p.locked v a).only i (c.given v b))) p

  module _ (none_led : ¬ IsLed me.poll.term s.led) where
    only_me : (v c : String) → In v me.poll.voters → In (me.poll.term, c) (s.member v).cast → c ≡ i
    only_me v c q h =
        let k = sane.counted i mem in
        elim ((sane.bound v (k.among v q)).once me.poll.term c i h (k.given v q)) [
          | inl e ↦ e
          | inr l ↦ absurd (none_led l)
        ]

    role :
        (v : String)
        → In v me.poll.voters
        → (s.member v).node.current_term ≡ me.poll.term
        → ((s.member v).node.state ≡ follower) ⊎ (v ≡ i)
    role v q e = by_state (s.member v).node.state refl
      where
        stood : (s.member v).node.state ≢ follower → v ≡ i
        stood up = only_me v v q (
            subst (λ k. In (k, v) (s.member v).cast) e
              ((sane.bound v ((sane.counted i mem).among v q)).stands up).0)

        by_state :
            (x : NodeState)
            → (s.member v).node.state ≡ x
            → ((s.member v).node.state ≡ follower) ⊎ (v ≡ i)
        by_state follower f = inl f
        by_state candidate f = inr (stood (λ g. cc))
        by_state leader f = inr (stood (λ g. cc))

    voter-IsLocked : (v : String) → In v me.poll.voters → IsLocked me.poll.term i v (s.member v)
    voter-IsLocked v q =
        let k = sane.counted i mem in
        record {
          voted = k.given v q;
          only = λ c h. only_me v c q h;
          stays = λ e. (
            elim ((sane.bound v (k.among v q)).keeps me.poll.term i (k.given v q) e) [
              | inl x ↦ x
              | inr l ↦ absurd (none_led l)
            ],
            role v q e,
          );
        }

    first_time : WonMajority
    first_time = record {
      quorum = me.poll.voters;
      distinct = (sane.counted i mem).distinct;
      among = (sane.counted i mem).among;
      most = voters_most;
      locked = voter-IsLocked;
    }

  majority_of_won : WonMajority
  majority_of_won = elim (IsLed_dec me.poll.term s.led) [
    | inl (l, h) ↦ again l h
    | inr no_one ↦ first_time no_one
  ]

  abbrev extended : Cluster
  extended = record s { led = (me.poll.term, i) ∷ s.led }

  lead-IsBound : IsBound members extended.led i (record me { node = become_leader me.node })
  unfolding become_leader
  lead-IsBound =
      let b = (extend_led members s me.poll.term i sane majority_of_won).bound i mem in
      record {
        named = b.named;
        sized = b.sized;
        full = b.full;
        past = b.past;
        keeps = b.keeps;
        once = b.once;
        stands = λ h. b.stands (λ f. cc (won.0, f));
        leads = λ h. inl (ap (λ k. (k, i)) won.1);
      }

  lead-IsLocked :
      (u : ℕ) (l : String)
      → IsLocked u l i me
      → IsLocked u l i (record me { node = become_leader me.node })
  unfolding become_leader
  lead-IsLocked u l k = record {
    voted = k.voted;
    only = k.only;
    stays =
        λ e. ((k.stays e).0, elim (k.stays e).1 [ inl f ↦ absurd (cc (won.0, f)) | inr q ↦ inr q ]);
  }

  pub won-IsSane : IsSane members (set_node i (become_leader me.node) extended)
  won-IsSane =
      change_member members extended (extend_led members s me.poll.term i sane majority_of_won) i
        (record me { node = become_leader me.node }) mem lead-IsBound (λ b h. h)
        (λ u l h. lead-IsLocked u l)
        (counted_same members s.member i (record me { node = become_leader me.node }) refl
          (λ b h. h) (sane.counted i mem))
