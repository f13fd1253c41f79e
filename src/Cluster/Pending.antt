-- ===== src/Cluster/Pending.antt =====
-- Each member is asked for its vote once in an election, where the peers of a member are other
-- members, none twice.
use smol_raft.Prelude.{
  ℕ, Bool, ◌≡◌, false, arith, inl, inr, sym, ap, subst, String, Bool-cases, List, [], ◌∷◌, map, In,
  str_eq, str_eq_iff, if◌then◌else◌, some,
}
use smol_raft.Types.{VoteRequest}
use smol_raft.Node.{Node, Config, new_node, become_candidate}
use smol_raft.Election.{begin_election, election_timeout}
use smol_raft.Steps
use smol_raft.Steps.Progress.{history-Progress}
use smol_raft.Cluster.{
  Poll, Member, Cluster, new_cluster, update, remove_first, stand, serve_vote, count_vote,
  close_poll, serve_append, Step, timeout, vote, count, close, send, append, reply, own, Reach,
  here, next,
}
use smol_raft.Cluster.Quorum.{Distinct, Among}
use smol_raft.Cluster.Sane.{written}
use smol_raft.Cluster.History.{member-Reach}

-- The peers of a member are other members, each once.
pub record IsHosted (members : List String) (host : String → String) (peers : String → List String)
    : Type 0 where
  pub apart : (i : String) → In i members → Distinct (map host (peers i))
  pub others : (i : String) → In i members → ¬ In i (map host (peers i))
  pub inside : (i : String) → In i members → Among (map host (peers i)) members

pub In-map :
    (host : String → String) (x : String) (ys : List String) → In x ys → In (host x) (map host ys)
In-map host x [] h = elim h [ ]
In-map host x (y ∷ ys) h = elim h [ inl e ↦ inl (ap host e) | inr k ↦ inr (In-map host x ys k) ]

In-remove_first :
    (host : String → String) (x v : String) (ys : List String)
    → In v (map host (remove_first x ys))
    → In v (map host ys)
unfolding remove_first
In-remove_first host x v [] h = h
In-remove_first host x v (y ∷ ys) h = elim (Bool-cases (str_eq y x)) [
  | inl t ↦ inr (rw t at h)
  | inr f ↦ elim (kept f) [ inl e ↦ inl e | inr k ↦ inr (In-remove_first host x v ys k) ]
]
  where
    kept : str_eq y x ≡ false → In v (host y ∷ map host (remove_first x ys))
    kept f = rw f at h

remove_first-Distinct :
    (host : String → String) (x : String) (ys : List String)
    → Distinct (map host ys)
    → Distinct (map host (remove_first x ys))
unfolding remove_first
remove_first-Distinct host x [] d = tt
remove_first-Distinct host x (y ∷ ys) d = elim (Bool-cases (str_eq y x)) [
  | inl t ↦ rw t d.1
  | inr f ↦
      rw f (λ h. d.0 (In-remove_first host x (host y) ys h), remove_first-Distinct host x ys d.1)
]

gone-remove_first :
    (host : String → String) (x : String) (ys : List String)
    → Distinct (map host ys)
    → In x ys
    → ¬ In (host x) (map host (remove_first x ys))
unfolding remove_first
gone-remove_first host x [] d h = elim h [ ]
gone-remove_first host x (y ∷ ys) d h = elim (Bool-cases (str_eq y x)) [
  | inl t ↦ rw t (subst (λ z. ¬ In (host z) (map host ys)) ((str_eq_iff y x).0 t) d.0)
  | inr f ↦ elim h [
    | inl e ↦ absurd (cc ((str_eq_iff y x).1 (sym e), f))
    | inr k ↦ rw f (λ g. elim g [
      | inl e ↦ d.0 (subst (λ z. In z (map host ys)) e (In-map host x ys k))
      | inr q ↦ gone-remove_first host x ys d.1 k q
    ])
  ]
]

-- No address that is still to answer is that of a member whose vote was counted.
pub record IsPending (members : List String) (host : String → String) (p : Poll) : Type 0 where
  pub apart : Distinct (map host p.pending)
  pub inside : Among (map host p.pending) members
  pub fresh : (v : String) → In v (map host p.pending) → ¬ In v p.voters

abbrev pub AllPending : List String → (String → String) → Cluster → Type 0
AllPending members host s = (i : String) → In i members → IsPending members host (s.member i).poll

timeout_peers :
    (n m : Node) (req : VoteRequest) → election_timeout n ≡ some (m, req) → m.peers ≡ n.peers
unfolding election_timeout begin_election become_candidate
timeout_peers n m req e = ground arith

count-IsPending :
    (members : List String) (host : String → String) (p : Poll) (peer : String) (votes : ℕ)
    (granted : Bool)
    → In peer p.pending
    → IsPending members host p
    → IsPending members host (record p {
      votes = votes;
      voters = if granted then host peer ∷ p.voters else p.voters;
      pending = remove_first peer p.pending;
    })
count-IsPending members host p peer votes granted asked v = record {
  apart = remove_first-Distinct host peer p.pending v.apart;
  inside = λ x h. v.inside x (In-remove_first host peer x p.pending h);
  fresh = λ x h. elim (Bool-cases granted) [
    | inl t ↦ rw t (λ g. elim g [
      | inl e ↦
          gone-remove_first host peer p.pending v.apart asked
            (subst (λ z. In z (map host (remove_first peer p.pending))) e h)
      | inr k ↦ v.fresh x (In-remove_first host peer x p.pending h) k
    ])
    | inr f ↦ rw f (v.fresh x (In-remove_first host peer x p.pending h))
  ];
}

module _ (members : List String) (host : String → String) where
  changed :
      (f : String → Member) (i : String) (m : Member)
      → ((j : String) → In j members → IsPending members host (f j).poll)
      → (In i members → IsPending members host m.poll)
      → (j : String) → In j members
      → IsPending members host (update f i m j).poll
  changed f i m v w j mj =
      written (λ x. IsPending members host x.poll) f i m j (λ e. w (subst (λ k. In k members) e mj))
        (λ _. v j mj)

  Step-Pending :
      {s u : Cluster}
      → IsHosted members host (λ i. (s.member i).node.peers)
      → AllPending members host s
      → Step members host s u
      → AllPending members host u
  unfolding stand serve_vote count_vote close_poll serve_append
  Step-Pending {s} hosts v (timeout i {n} {req} mem e) = changed s.member i _ v (λ _.
      subst
        (λ ps.
          IsPending members host
            (record { term = req.term; votes = 1; voters = i ∷ []; pending = ps }))
        (sym (timeout_peers (s.member i).node n req e))
        (record {
          apart = hosts.apart i mem;
          inside = hosts.inside i mem;
          fresh = λ x h g. elim g [
            | inl q ↦ hosts.others i mem (subst (λ z. In z (map host (s.member i).node.peers)) q h)
            | inr z ↦ elim z [ ]
          ];
        }))
  Step-Pending {s} hosts v (vote i req mem h) = changed s.member i _ v (v i)
  Step-Pending {s} hosts v (count i peer resp mem mp given) =
      changed s.member i _ v
        (λ _. count-IsPending members host (s.member i).poll peer _ resp.vote_granted mp (v i mem))
  Step-Pending {s} hosts v (close i mem) = changed s.member i _ v (v i)
  Step-Pending {s} hosts v (send i peer mem e) = v
  Step-Pending {s} hosts v (append i peer req mem h to at) = changed s.member i _ v (v i)
  Step-Pending {s} hosts v (reply i peer req resp mem _ _ _) = changed s.member i _ v (v i)
  Step-Pending {s} hosts v (own i mem l) = changed s.member i _ v (v i)

  module _ (config : String → Config)
      (hosts : IsHosted members host (λ i. (config i).peer_addrs)) where
    pub Reach-IsHosted :
        {s : Cluster}
        → Reach members host (new_cluster config) s
        → IsHosted members host (λ i. (s.member i).node.peers)
    unfolding new_cluster new_node
    Reach-IsHosted {s} r = record {
      apart = λ i mem. subst (λ ps. Distinct (map host ps)) (same i) (hosts.apart i mem);
      others = λ i mem. subst (λ ps. ¬ In i (map host ps)) (same i) (hosts.others i mem);
      inside = λ i mem. subst (λ ps. Among (map host ps) members) (same i) (hosts.inside i mem);
    }
      where
        same : (i : String) → (config i).peer_addrs ≡ (s.member i).node.peers
        same i = sym (history-Progress (config i) Steps.Reach.here (member-Reach r i)).same_peers

    pub Reach-Pending :
        {s : Cluster} → Reach members host (new_cluster config) s → AllPending members host s
    unfolding new_cluster
    Reach-Pending here =
        λ i mem. record { apart = tt; inside = λ x h. elim h [ ]; fresh = λ x h. elim h [ ] }
    Reach-Pending (next r st) = Step-Pending (Reach-IsHosted r) (Reach-Pending r) st
