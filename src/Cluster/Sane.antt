-- ===== src/Cluster/Sane.antt =====
-- The invariant of elections: what each member's ballots say of its node, and that every leader has
-- a majority which is bound to it.
use smol_raft.Prelude.{
  ℕ, suc, ◌+◌, ◌≤◌, ◌<◌, ◌≡◌, ◌≢◌, ◌⊎◌, inl, inr, refl, sym, subst, String, Bool-cases, List,
  length, In, str_eq, str_eq_iff, arith,
}
use smol_raft.Types.{follower, leader, VoteRequest, AppendEntriesRequest}
use smol_raft.Cluster.{Poll, Member, Cluster, update, set_member}
use smol_raft.Cluster.Quorum.{Distinct, Among, common, str_dec}

abbrev pub IsLed : ℕ → List (ℕ × String) → Type 0
IsLed t led = (l : String) × In (t, l) led

-- The member i has a well-formed node and keeps to its ballots, where `led` are the elections won.
pub record IsBound (members : List String) (led : List (ℕ × String)) (i : String) (m : Member)
    : Type 0 where
  pub named : m.node.id ≡ i
  pub sized : suc (length m.node.peers) ≡ length members
  pub full : (t : ℕ) (c : String) → In (t, c) m.cast → c ≢ ""
  pub past : (t : ℕ) (c : String) → In (t, c) m.cast → t ≤ m.node.current_term
  pub keeps :
      (t : ℕ) (c : String)
      → In (t, c) m.cast
      → m.node.current_term ≡ t
      → (m.node.voted_for ≡ c) ⊎ IsLed t led
  pub once : (t : ℕ) (c d : String) → In (t, c) m.cast → In (t, d) m.cast → (c ≡ d) ⊎ IsLed t led
  pub stands : m.node.state ≢ follower → In (m.node.current_term, i) m.cast × (m.node.voted_for ≡ i)
  pub leads : m.node.state ≡ leader → In (m.node.current_term, i) led

-- The member i voted for l in term t, for no other, and cannot do so.
pub record IsLocked (t : ℕ) (l : String) (i : String) (m : Member) : Type 0 where
  pub voted : In (t, l) m.cast
  pub only : (c : String) → In (t, c) m.cast → c ≡ l
  pub stays :
      m.node.current_term ≡ t → (m.node.voted_for ≡ l) × ((m.node.state ≡ follower) ⊎ (i ≡ l))

-- The votes that the member i counted were given.
pub record IsCounted (members : List String) (f : String → Member) (i : String) : Type 0 where
  pub distinct : Distinct (f i).poll.voters
  pub among : Among (f i).poll.voters members
  pub given : (j : String) → In j (f i).poll.voters → In ((f i).poll.term, i) (f j).cast
  pub enough : (f i).poll.votes ≤ length (f i).poll.voters

-- A majority that is bound to the leader l of term t.
pub record Majority (members : List String) (f : String → Member) (t : ℕ) (l : String)
    : Type 0 where
  pub quorum : List String
  pub distinct : Distinct quorum
  pub among : Among quorum members
  pub most : length members < length quorum + length quorum
  pub locked : (v : String) → In v quorum → IsLocked t l v (f v)

pub record IsSane (members : List String) (s : Cluster) : Type 0 where
  pub bound : (i : String) → In i members → IsBound members s.led i (s.member i)
  pub counted : (i : String) → In i members → IsCounted members s.member i
  pub candidates : (r : VoteRequest) → In r s.asked → r.candidate_id ≢ ""
  pub authored : (r : AppendEntriesRequest) → In r s.sent → In (r.term, r.leader_id) s.led
  pub majority : (t : ℕ) (l : String) → In (t, l) s.led → Majority members s.member t l

-- A statement of the family at j after a write at i.
pub written {ℓ κ} :
    {A : Type ℓ} (P : A → Type κ) (f : String → A) (i : String) (a : A) (j : String)
    → (j ≡ i → P a)
    → (j ≢ i → P (f j))
    → P (update f i a j)
written P f i a j same other = elim (Bool-cases (str_eq j i)) [
  | inl t ↦ rw t (same ((str_eq_iff j i).0 t))
  | inr n ↦ rw n (other (λ e. cc ((str_eq_iff j i).1 e)))
]

pub grows_all :
    (f : String → Member) (i : String) (m : Member)
    → ((b : ℕ × String) → In b (f i).cast → In b m.cast)
    → (j : String) (b : ℕ × String) → In b (f j).cast
    → In b (update f i m j).cast
grows_all f i m grows j b =
    written (λ x. In b (f j).cast → In b x.cast) f i m j
      (λ e h. grows b (subst (λ k. In b (f k).cast) e h)) (λ n h. h)

pub update_self {ℓ} : {A : Type ℓ} (f : String → A) (i : String) (a : A) → update f i a i ≡ a
update_self f i a = written (λ x. x ≡ a) f i a i (λ _. refl) (λ n. absurd (n refl))

-- What a member counts does not matter to its ballots.
pub poll-IsBound :
    (members : List String) (led : List (ℕ × String)) (i : String) (m : Member) (p : Poll)
    → IsBound members led i m
    → IsBound members led i (record m { poll = p })
poll-IsBound members led i m p b = record {
  named = b.named;
  sized = b.sized;
  full = b.full;
  past = b.past;
  keeps = b.keeps;
  once = b.once;
  stands = b.stands;
  leads = b.leads;
}

pub poll-IsLocked :
    (t : ℕ) (l i : String) (m : Member) (p : Poll)
    → IsLocked t l i m
    → IsLocked t l i (record m { poll = p })
poll-IsLocked t l i m p k = record { voted = k.voted; only = k.only; stays = k.stays }

-- A poll of given votes.
pub poll-IsCounted :
    (members : List String) (f : String → Member) (i : String) (m : Member)
    → Distinct m.poll.voters
    → Among m.poll.voters members
    → ((j : String) → In j m.poll.voters → In (m.poll.term, i) (update f i m j).cast)
    → m.poll.votes ≤ length m.poll.voters
    → IsCounted members (update f i m) i
poll-IsCounted members f i m distinct among given enough =
    let self = update_self f i m in
    record {
      distinct = rw self distinct;
      among = rw self among;
      given = λ j h. rw self (given j (subst (λ x. In j x.poll.voters) self h));
      enough = rw self enough;
    }

-- The poll is as it was.
pub counted_same :
    (members : List String) (f : String → Member) (i : String) (m : Member)
    → m.poll ≡ (f i).poll
    → ((b : ℕ × String) → In b (f i).cast → In b m.cast)
    → IsCounted members f i
    → IsCounted members (update f i m) i
counted_same members f i m same grows c =
    poll-IsCounted members f i m (rw same c.distinct) (rw same c.among)
      (λ j h.
        subst (λ p. In (p.term, i) (update f i m j).cast) (sym same)
          (grows_all f i m grows j ((f i).poll.term, i)
            (c.given j (subst (λ p. In j p.voters) same h))))
      (rw same c.enough)

module _ (members : List String) (s : Cluster) (sane : IsSane members s) where
  -- The two leaders of a term have a voter in common.
  pub same_leader : (t : ℕ) (l k : String) → In (t, l) s.led → In (t, k) s.led → l ≡ k
  same_leader t l k h g =
      let p = sane.majority t l h in
      let q = sane.majority t k g in
      let (v, a, b) =
        common members p.quorum q.quorum p.distinct q.distinct p.among q.among
          (omega (arith, p.most, q.most)) in
      (q.locked v b).only l (p.locked v a).voted

  -- A member may change in a way that keeps it bound, forgets no ballot and keeps its locks.
  module _ (i : String) (m : Member) (mem : In i members) (bound : IsBound members s.led i m)
      (grows : (b : ℕ × String) → In b (s.member i).cast → In b m.cast)
      (locks : (t : ℕ) (l : String)
        → In (t, l) s.led
        → IsLocked t l i (s.member i)
        → IsLocked t l i m)
      (counted : IsCounted members (update s.member i m) i) where
    counted_other : (j : String) → In j members → j ≢ i → IsCounted members (update s.member i m) j
    counted_other j mj n =
        let same : update s.member i m j ≡ s.member j =
          written (λ x. x ≡ s.member j) s.member i m j (λ e. absurd (n e)) (λ _. refl) in
        let c = sane.counted j mj in
        record {
          distinct = rw same c.distinct;
          among = rw same c.among;
          given = λ k h. rw same (
              grows_all s.member i m grows k ((s.member j).poll.term, j)
                (c.given k (rw same at h)));
          enough = rw same c.enough;
        }

    pub change_member : IsSane members (set_member i m s)
    change_member = record {
      bound = λ j mj.
          written (λ x. IsBound members s.led j x) s.member i m j
            (λ e. subst (λ k. IsBound members s.led k m) (sym e) bound) (λ n. sane.bound j mj);
      counted = λ j mj. elim (str_dec j i) [
        | inl e ↦ subst (λ k. IsCounted members (update s.member i m) k) (sym e) counted
        | inr n ↦ counted_other j mj n
      ];
      candidates = sane.candidates;
      authored = sane.authored;
      majority = λ t l h.
          let p = sane.majority t l h in
          record {
            quorum = p.quorum;
            distinct = p.distinct;
            among = p.among;
            most = p.most;
            locked = λ v q.
                written (λ x. IsLocked t l v x) s.member i m v
                  (λ e.
                    subst (λ k. IsLocked t l k m) (sym e)
                      (locks t l h (subst (λ k. IsLocked t l k (s.member k)) e (p.locked v q))))
                  (λ n. p.locked v q);
          };
    }
