-- ===== src/Cluster/Ballots.antt =====
-- A vote that a member gives, to another or to itself, keeps it bound and locked.
use smol_raft.Prelude.{
  ℕ, suc, ◌≤◌, ◌<◌, ◌≡◌, ◌≢◌, ◌⊎◌, inl, inr, sym, ap, ◌∙◌, subst, String, true, some, List, ◌∷◌,
  length, In, str_eq_iff, arith,
}
use smol_raft.Types.{follower, candidate, VoteRequest}
use smol_raft.Node.{Node, become_follower, become_candidate, reset_election_timer}
use smol_raft.Election.{begin_election, election_timeout, handle_vote_request, decide_vote}
use smol_raft.Election.Votes.{vote_cases}
use smol_raft.Cluster.{Member, Poll}
use smol_raft.Cluster.Sane.{IsLed, IsBound, IsLocked}

-- The node n gave its vote to the request and became m: in a later term as a follower, or in its own
-- term, where it had voted for no other.
abbrev pub Votes : VoteRequest → Node → Node → Type 0
Votes req n m =
    (m.id ≡ n.id)
    × (m.peers ≡ n.peers)
    × (m.current_term ≡ req.term)
    × (m.voted_for ≡ req.candidate_id)
    × (((n.current_term < req.term) × (m.state ≡ follower))
        ⊎ ((n.current_term ≡ req.term)
            × (m.state ≡ n.state)
            × ((n.voted_for ≡ "") ⊎ (n.voted_for ≡ req.candidate_id))))

pub vote_kinds :
    (req : VoteRequest) (n : Node)
    → (handle_vote_request req n).1.vote_granted ≡ true
    → Votes req n (handle_vote_request req n).0
unfolding decide_vote become_follower reset_election_timer
vote_kinds req n =
    vote_cases (λ r. r.1.vote_granted ≡ true → Votes req n r.0) req n (λ stale g. absurd (cc))
      (λ same g. ground (arith, str_eq_iff n.voted_for "", str_eq_iff n.voted_for req.candidate_id))
      (λ newer g. ground arith)

module _ (members : List String) (led : List (ℕ × String)) (i : String) (m : Member) (n : Node)
    (req : VoteRequest) (votes : Votes req m.node n) (b : IsBound members led i m)
    (full : req.candidate_id ≢ "") (own : i ≢ "") where
  abbrev voter : Member
  voter = record m { node = n; cast = (req.term, req.candidate_id) ∷ m.cast }

  -- The member cast a ballot in the request's term before: it was for the same candidate.
  before : (c : String) → In (req.term, c) m.cast → (c ≡ req.candidate_id) ⊎ IsLed req.term led
  before c h =
      let past = b.past req.term c h in
      elim votes.4 [
        | inl (newer, f) ↦ absurd (omega arith)
        | inr (same, s, free) ↦ elim (b.keeps req.term c h same) [
          | inr l ↦ inr l
          | inl voted ↦ inl (elim free [
            | inl e ↦ absurd (b.full req.term c h (sym voted ∙ e))
            | inr e ↦ sym voted ∙ e
          ])
        ]
      ]

  vote-keeps :
      (t : ℕ) (c : String)
      → In (t, c) voter.cast
      → n.current_term ≡ t
      → (n.voted_for ≡ c) ⊎ IsLed t led
  vote-keeps t c (inl e) now = inl (votes.3 ∙ ap (λ x. x.1) (sym e))
  vote-keeps t c (inr h) now =
      let same : t ≡ req.term = sym now ∙ votes.2 in
      elim (before c (subst (λ k. In (k, c) m.cast) same h)) [
        | inl e ↦ inl (votes.3 ∙ sym e)
        | inr l ↦ inr (subst (λ k. IsLed k led) (sym same) l)
      ]

  vote-once :
      (t : ℕ) (c d : String) → In (t, c) voter.cast → In (t, d) voter.cast → (c ≡ d) ⊎ IsLed t led
  vote-once t c d (inl e) (inl f) = inl (ap (λ x. x.1) e ∙ ap (λ x. x.1) (sym f))
  vote-once t c d (inl e) (inr g) =
      elim (before d (subst (λ k. In (k, d) m.cast) (ap (λ x. x.0) e) g)) [
        | inl s ↦ inl (ap (λ x. x.1) e ∙ sym s)
        | inr l ↦ inr (subst (λ k. IsLed k led) (ap (λ x. x.0) (sym e)) l)
      ]
  vote-once t c d (inr h) (inl f) =
      elim (before c (subst (λ k. In (k, c) m.cast) (ap (λ x. x.0) f) h)) [
        | inl s ↦ inl (s ∙ ap (λ x. x.1) (sym f))
        | inr l ↦ inr (subst (λ k. IsLed k led) (ap (λ x. x.0) (sym f)) l)
      ]
  vote-once t c d (inr h) (inr g) = b.once t c d h g

  pub vote-IsBound : IsBound members led i voter
  vote-IsBound = record {
    named = votes.0 ∙ b.named;
    sized = ap (λ ps. suc (length ps)) votes.1 ∙ b.sized;
    full = λ t c h. elim h [ inl e ↦ λ q. full (ap (λ x. x.1) (sym e) ∙ q) | inr k ↦ b.full t c k ];
    past = λ t c h. elim h [
      | inl e ↦ omega (arith, ap (λ (x : ℕ × String). x.0) e, votes.2)
      | inr k ↦ omega (arith, b.past t c k, later)
    ];
    keeps = vote-keeps;
    once = vote-once;
    stands = λ h. elim votes.4 [
      | inl (newer, f) ↦ absurd (h f)
      | inr (same, s, free) ↦
          let (x, y) = b.stands (λ e. h (s ∙ e)) in
          (
            inr (subst (λ k. In (k, i) m.cast) (same ∙ sym votes.2) x),
            votes.3 ∙ elim free [ inl e ↦ absurd (own (sym y ∙ e)) | inr e ↦ sym e ∙ y ],
          )
    ];
    leads = λ h. elim votes.4 [
      | inl (newer, f) ↦ absurd (cc)
      | inr (same, s, free) ↦ subst (λ k. In (k, i) led) (same ∙ sym votes.2) (b.leads (sym s ∙ h))
    ];
  }
    where
      later : m.node.current_term ≤ n.current_term
      later = ground arith

  pub vote-IsLocked : (t : ℕ) (l : String) → IsLocked t l i m → IsLocked t l i voter
  vote-IsLocked t l k = record {
    voted = inr k.voted;
    only = λ c h. elim h [
      | inl e ↦ ap (λ x. x.1) e ∙ bind (ap (λ x. x.0) (sym e))
      | inr g ↦ k.only c g
    ];
    stays = λ e. (
      votes.3 ∙ bind (sym votes.2 ∙ e),
      elim votes.4 [
        | inl (newer, f) ↦ inl f
        | inr (now, s, free) ↦ elim (k.stays (now ∙ sym votes.2 ∙ e)).1 [
          | inl f ↦ inl (s ∙ f)
          | inr q ↦ inr q
        ]
      ],
    );
  }
    where
      -- In the request's term the member was already locked, so the request is the leader's.
      bind : req.term ≡ t → req.candidate_id ≡ l
      bind same = elim votes.4 [
        | inl (newer, f) ↦ absurd (omega (arith, b.past t l k.voted))
        | inr (now, s, free) ↦
            let held = (k.stays (now ∙ same)).0 in
            elim free [ inl e ↦ absurd (b.full t l k.voted (sym held ∙ e)) | inr e ↦ sym e ∙ held ]
      ]

-- The node n of a candidate that starts an election.
abbrev pub Stands : VoteRequest → Node → Node → Type 0
Stands req n m =
    (m.id ≡ n.id)
    × (m.peers ≡ n.peers)
    × (m.current_term ≡ suc n.current_term)
    × (m.voted_for ≡ n.id)
    × (m.state ≡ candidate)
    × (req.term ≡ m.current_term)
    × (req.candidate_id ≡ n.id)

pub timeout-Stands :
    (n m : Node) (req : VoteRequest) → election_timeout n ≡ some (m, req) → Stands req n m
unfolding election_timeout begin_election become_candidate
timeout-Stands n m req e = ground arith

module _ (members : List String) (led : List (ℕ × String)) (i : String) (m : Member) (n : Node)
    (p : Poll) (req : VoteRequest) (stands : Stands req m.node n) (b : IsBound members led i m)
    (own : i ≢ "") where
  abbrev stander : Member
  stander = record { node = n; poll = p; cast = (req.term, i) ∷ m.cast }

  -- No ballot before was in the new term.
  new_term : (c : String) → ¬ In (n.current_term, c) m.cast
  new_term c h = omega (arith, b.past n.current_term c h, stands.2)

  is_new : (t : ℕ) (c d : String) → ◌≡◌ {A = ℕ × String} (t, c) (req.term, i) → ¬ In (t, d) m.cast
  is_new t c d e h =
      new_term d (subst (λ k. In (k, d) m.cast) (ap (λ (x : ℕ × String). x.0) e ∙ stands.5) h)

  pub stand-IsBound : IsBound members led i stander
  stand-IsBound = record {
    named = stands.0 ∙ b.named;
    sized = ap (λ ps. suc (length ps)) stands.1 ∙ b.sized;
    full = λ t c h. elim h [ inl e ↦ λ q. own (ap (λ x. x.1) (sym e) ∙ q) | inr k ↦ b.full t c k ];
    past = λ t c h. elim h [
      | inl e ↦ omega (arith, ap (λ (x : ℕ × String). x.0) e, stands.5)
      | inr k ↦ omega (arith, b.past t c k, stands.2)
    ];
    keeps = λ t c h e. elim h [
      | inl q ↦ inl (stands.3 ∙ b.named ∙ ap (λ x. x.1) (sym q))
      | inr k ↦ absurd (new_term c (subst (λ k. In (k, c) m.cast) (sym e) k))
    ];
    once = λ t c d h g. elim h [
      | inl e ↦ elim g [
        | inl f ↦ inl (ap (λ x. x.1) e ∙ ap (λ x. x.1) (sym f))
        | inr k ↦ absurd (is_new t c d e k)
      ]
      | inr k ↦ elim g [ inl f ↦ absurd (is_new t d c f k) | inr q ↦ b.once t c d k q ]
    ];
    stands = λ h. (inl (ap (λ k. (k, i)) (sym stands.5)), stands.3 ∙ b.named);
    leads = λ h. absurd (cc (stands.4, h));
  }

  pub stand-IsLocked : (t : ℕ) (l : String) → IsLocked t l i m → IsLocked t l i stander
  stand-IsLocked t l k = record {
    voted = inr k.voted;
    only = λ c h. elim h [ inl e ↦ absurd (is_new t c l e k.voted) | inr g ↦ k.only c g ];
    stays = λ e. absurd (omega (arith, b.past t l k.voted, stands.2));
  }
