-- ===== src/Election/Wins.antt =====
-- How an election ends.
use smol_raft.Prelude.{
  ℕ, suc, ◌+◌, ◌≤◌, ◌<◌, ◌≡◌, inl, inr, refl, sym, ap, ◌∙◌, subst, Bool, true, false, Option, none,
  some, List, [], ◌∷◌, In, length, leb, ltb, ◌/◌, ◌*◌, dec_lt, arith, if◌then◌else◌,
}
use smol_raft.Types.{follower, candidate, VoteResponse}
use smol_raft.Node.{Node, become_follower, become_candidate, become_leader}
use smol_raft.Election.{begin_election, receive_vote, finish_election, count_votes, start_election}

abbrev pub grants : List (Option VoteResponse) → ℕ
grants [] = 0
grants (none ∷ rs) = grants rs
grants (some r ∷ rs) = if r.vote_granted then suc (grants rs) else grants rs

-- No response is of a later term.
abbrev pub NoneLater : ℕ → List (Option VoteResponse) → Type 0
NoneLater t [] = Unit {0}
NoneLater t (none ∷ rs) = NoneLater t rs
NoneLater t (some r ∷ rs) = (r.term ≤ t) × NoneLater t rs

-- Some response is of a later term.
abbrev pub SomeLater : ℕ → List (Option VoteResponse) → Type 0
SomeLater t rs = (r : VoteResponse) × In (some r) rs × (t < r.term)

-- A response to a candidate of the election that is of no later term.
receive_counted :
    (t : ℕ) (r : VoteResponse) (c : Node) (votes : ℕ)
    → c.state ≡ candidate
    → c.current_term ≡ t
    → r.term ≤ t
    → receive_vote t (some r) (c, votes) ≡ (c, if r.vote_granted then suc votes else votes)
unfolding receive_vote
receive_counted t r c votes s e h = ground arith

one_more : (b : Bool) (v g : ℕ) → (if b then suc v else v) + g ≡ v + (if b then suc g else g)
one_more true v g = omega arith
one_more false v g = refl

count_votes-grants :
    (t : ℕ) (rs : List (Option VoteResponse)) (c : Node) (votes : ℕ)
    → c.state ≡ candidate
    → c.current_term ≡ t
    → NoneLater t rs
    → count_votes t rs (c, votes) ≡ (c, votes + grants rs)
unfolding count_votes receive_vote
count_votes-grants t [] c votes s e h = ap (λ k. (c, k)) (omega arith)
count_votes-grants t (none ∷ rs) c votes s e h = count_votes-grants t rs c votes s e h
count_votes-grants t (some r ∷ rs) c votes s e h =
    ap (count_votes t rs) (receive_counted t r c votes s e h.0)
    ∙ count_votes-grants t rs c (if r.vote_granted then suc votes else votes) s e h.1
    ∙ ap (λ k. (c, k)) (one_more r.vote_granted votes (grants rs))

receive_follower :
    (t : ℕ) (r : VoteResponse) (n : Node) (votes : ℕ)
    → n.state ≡ follower
    → (receive_vote t (some r) (n, votes)).0.state ≡ follower
unfolding receive_vote become_follower
receive_follower t r n votes f = ground arith

-- A node that stepped down during the election stays a follower.
deposed :
    (t : ℕ) (rs : List (Option VoteResponse)) (n : Node) (votes : ℕ)
    → n.state ≡ follower
    → (count_votes t rs (n, votes)).0.state ≡ follower
unfolding count_votes receive_vote
deposed t [] n votes f = f
deposed t (none ∷ rs) n votes f = deposed t rs n votes f
deposed t (some r ∷ rs) n votes f =
    let s = receive_vote t (some r) (n, votes) in
    deposed t rs s.0 s.1 (receive_follower t r n votes f)

receive_later :
    (t : ℕ) (r : VoteResponse) (n : Node) (votes : ℕ)
    → n.current_term < r.term
    → (receive_vote t (some r) (n, votes)).0.state ≡ follower
unfolding receive_vote become_follower
receive_later t r n votes h = ground arith

count_votes-later :
    (t : ℕ) (rs : List (Option VoteResponse)) (c : Node) (votes : ℕ)
    → c.state ≡ candidate
    → c.current_term ≡ t
    → SomeLater t rs
    → (count_votes t rs (c, votes)).0.state ≡ follower
unfolding count_votes receive_vote
count_votes-later t [] c votes s e (r, h, later) = elim h [ ]
count_votes-later t (none ∷ rs) c votes s e (r, inl h, later) = absurd (cc h)
count_votes-later t (none ∷ rs) c votes s e (r, inr h, later) =
    count_votes-later t rs c votes s e (r, h, later)
count_votes-later t (some q ∷ rs) c votes s e (r, h, later) = elim (dec_lt t q.term) [
  | yes up ↦
      let got = receive_vote t (some q) (c, votes) in
      deposed t rs got.0 got.1 (receive_later t q c votes (omega (arith, e, up)))
  | no low ↦ elim h [
    | inl same ↦
        absurd (
          low (subst (λ (x : VoteResponse). t < x.term) (let q_is : r ≡ q = cc same in q_is) later))
    | inr there ↦
        subst (λ (x : Node × ℕ). (count_votes t rs x).0.state ≡ follower)
          (sym (receive_counted t q c votes s e (omega arith)))
          (count_votes-later t rs c _ s e (r, there, later))
  ]
]

finish_follower :
    (t votes : ℕ) (n : Node) → n.state ≡ follower → finish_election t votes n ≡ (n, false)
unfolding finish_election
finish_follower t votes n f = ground arith

-- A majority of m: more than half of it.
majority_doubled : (m v : ℕ) → leb (m / 2 + 1) v ≡ ltb m (2 * v)
majority_doubled m v = ground arith

finish_candidate :
    (votes : ℕ) (n : Node)
    → n.state ≡ candidate
    → finish_election n.current_term votes n
      ≡ (if ltb (length n.peers + 1) (2 * votes) then (become_leader n, true) else (n, false))
unfolding finish_election
finish_candidate votes n s = rw (majority_doubled (length n.peers + 1) votes) (ground arith)

-- An election that is left alone. Where no response is of a later term, the candidate becomes leader
-- exactly if its own vote and the granted ones are a majority of the members, and otherwise stays
-- a candidate; failed calls count for nothing. Where a response is of a later term, the node ends as a
-- follower and has not won, whatever votes it got.
pub start_election-ends :
    (rs : List (Option VoteResponse)) (n : Node)
    → let c = (begin_election n).0 in
      (NoneLater c.current_term rs
        → start_election rs n ≡ (
            if ltb (length c.peers + 1) (2 * (1 + grants rs))
            then (become_leader c, true)
            else (c, false)))
      × (SomeLater c.current_term rs
          → ((start_election rs n).0.state ≡ follower) × ((start_election rs n).1 ≡ false))
unfolding start_election begin_election become_candidate
start_election-ends rs n =
    let c = become_candidate n in
    (
      λ h.
          ap (λ (s : Node × ℕ). finish_election c.current_term s.1 s.0)
            (count_votes-grants c.current_term rs c 1 refl refl h)
          ∙ finish_candidate (1 + grants rs) c refl,
      λ h.
          let s = count_votes c.current_term rs (c, 1) in
          let down = count_votes-later c.current_term rs c 1 refl refl h in
          let lost = finish_follower c.current_term s.1 s.0 down in
          (ap (λ (r : Node × Bool). r.0.state) lost ∙ down, ap (λ (r : Node × Bool). r.1) lost),
    )
