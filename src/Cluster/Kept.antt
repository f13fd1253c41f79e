-- ===== src/Cluster/Kept.antt =====
-- One member changes: what of the acknowledgments, the votes and the later leaders' logs stays.
use smol_raft.Prelude.{
  ℕ, suc, ◌+◌, ◌≤◌, ◌<◌, ◌≡◌, ◌≢◌, ◌⊎◌, inl, inr, sym, ap, ◌∙◌, subst, String, true, some, List,
  length, get_elem?, In, arith,
}
use smol_raft.Types.{candidate, LogEntry, VoteRequest, AppendEntriesRequest}
use smol_raft.Cluster.{Member, Answer, update}
use smol_raft.Cluster.Sane.{IsLed, written}
use smol_raft.Cluster.Ruled.{Ruled, IsWritten}
use smol_raft.Log.{last_index, last_term}
use smol_raft.Log.Merge.{as_log}
use smol_raft.Cluster.Claims.{Holds, Broken, Claimed, Bids, Keeps, IsBid, Backing, IsKept}

-- What was said of leaders' logs stays true.
pub record Lasts (r q : Ruled) (led more : List (ℕ × String)) : Type 0 where
  pub holds : (t k u : ℕ) → Holds t k (r u) → Holds t k (q u)
  pub broken : (t k n : ℕ) → Broken r led t k n → Broken q more t k n
  pub still : (u : ℕ) → IsLed u led → IsLed u more

pub same-Lasts : (r : Ruled) (led : List (ℕ × String)) → Lasts r r led led
same-Lasts r led = record { holds = λ t k u h. h; broken = λ t k n b. b; still = λ u l. l }

module _ (members : List String) (r q : Ruled) (bids now_bids : Bids) (f : String → Member)
    (led more : List (ℕ × String)) (asked ask : List VoteRequest)
    (sent post : List AppendEntriesRequest) (answers as' : List Answer)
    (v : IsKept members r bids f led asked sent answers)
    (past : (i : String)
      → In i members
      → (t : ℕ) (c : String) → In (t, c) (f i).cast
      → t ≤ (f i).node.current_term)
    (i : String) (m : Member) (mem : In i members) (lasts : Lasts r q led more)
    (rises : (f i).node.current_term ≤ m.node.current_term)
    -- New claims are the member's own, in its term or later.
    (fresh : (x : String) (t k : ℕ)
      → Claimed q more as' x t k
      → Claimed r led answers x t k ⊎ ((x ≡ i) × ((f i).node.current_term ≤ t)))
    (same : (u : ℕ) (c : String)
      → (c ≡ i → u ≤ (f i).node.current_term)
      → now_bids u c ≡ bids u c) where
  pub up : (c : String) → (f c).node.current_term ≤ (update f i m c).node.current_term
  up c =
      written (λ x. (f c).node.current_term ≤ x.node.current_term) f i m c
        (λ e. subst (λ k. (f k).node.current_term ≤ m.node.current_term) (sym e) rises)
        (λ n. omega arith)

  -- A claim of a term that a member has left is not new.
  left_behind :
      (x : String) (t k : ℕ)
      → t < (f x).node.current_term
      → Claimed q more as' x t k
      → Claimed r led answers x t k
  left_behind x t k low h = elim (fresh x t k h) [
    | inl old ↦ old
    | inr (e, high) ↦ absurd (omega (arith, ap (λ j. (f j).node.current_term) e))
  ]

  same_votes :
      (x : String) (n : Member)
      → In x members
      → (u : ℕ) (c : String) → In (u, c) (f x).cast
      → ¬ IsLed u more
      → (t k : ℕ) → t < u
      → Claimed q more as' x t k
      → Holds t k (now_bids u c) ⊎ Broken q more t k u
  same_votes x n mx u c h unled t k low claim =
      elim ((v.keeps x mx).votes u c h (λ l. unled (lasts.still u l)) t k low
        (left_behind x t k (omega (arith, past x mx u c h)) claim)) [
          | inl there ↦ inl (
              subst (Holds t k)
                (sym (
                  same u c (λ e. subst (λ j. u ≤ (f j).node.current_term) e (v.cast_past x u c h))))
                there)
          | inr b ↦ inr (lasts.broken t k u b)
        ]

  other-Keeps : (x : String) → In x members → x ≢ i → Keeps q more as' now_bids x (f x)
  other-Keeps x mx other =
      let k = v.keeps x mx in
      record {
        below = k.below;
        bid = λ c. let (a, b) = k.bid c in (a ∙ sym (same _ x (λ e. absurd (other e))), b);
        claims = λ t j h. elim (fresh x t j h) [
          | inr (e, high) ↦ absurd (other e)
          | inl old ↦
              let (low, there) = k.claims t j old in
              (low, elim there [ inl y ↦ inl y | inr b ↦ inr (lasts.broken t j _ b) ])
        ];
        votes = same_votes x (f x) mx;
      }

  -- A ballot of the member is an old one, or one of which all this is known.
  abbrev pub Ballot : ℕ → String → Type 0
  Ballot u c =
      (u ≤ (update f i m c).node.current_term)
      × (¬ IsLed u more
          → (t k : ℕ) → t < u
          → Claimed q more as' i t k
          → Holds t k (now_bids u c) ⊎ Broken q more t k u)

  same-Backing :
      (u : ℕ) → Backing members r f led answers u → Backing members q (update f i m) more as' u
  same-Backing u b = record {
    quorum = b.quorum;
    distinct = b.distinct;
    among = b.among;
    most = b.most;
    moved_on = λ x h. omega (arith, b.moved_on x h, up x);
    backed = λ x h t k low claim.
        elim (b.backed x h t k low (left_behind x t k (omega (arith, b.moved_on x h)) claim)) [
          | inl y ↦ inl (lasts.holds t k u y)
          | inr z ↦ inr (lasts.broken t k u z)
        ];
  }

  pub change-IsKept :
      ((k : ℕ) (e : LogEntry)
        → get_elem? m.node.log.entries k ≡ some e
        → e.term ≤ m.node.current_term)
      → (m.node.state ≡ candidate
          → (m.node.log.entries ≡ now_bids m.node.current_term i)
            × ((k : ℕ) (e : LogEntry)
                → get_elem? m.node.log.entries k ≡ some e
                → e.term < m.node.current_term))
      → ((t k : ℕ)
          → Claimed q more as' i t k
          → (t ≤ m.node.current_term)
            × (Holds t k m.node.log.entries ⊎ Broken q more t k (suc m.node.current_term)))
      → ((u : ℕ) (c : String) → In (u, c) m.cast → In (u, c) (f i).cast ⊎ Ballot u c)
      → ((t k : ℕ) (e : LogEntry) → get_elem? (q t) k ≡ some e → e.term ≤ t)
      → ((x : VoteRequest)
          → In x ask
          → IsBid q more now_bids x × (x.term ≤ (update f i m x.candidate_id).node.current_term))
      → ((u : ℕ) → IsLed u more → IsLed u led ⊎ Backing members q (update f i m) more as' u)
      → ((a : Answer)
          → In a as'
          → a.says.success ≡ true
          → In a.to post × (a.to.prev_log_index + length a.to.entries < length (q a.to.term)))
      → IsKept members q now_bids (update f i m) more ask post as'
  change-IsKept below bid claims ballots bounded requests backing answered = record {
    bounded = bounded;
    keeps = λ x mx.
        written (λ y. Keeps q more as' now_bids x y) f i m x
          (λ e.
            subst (λ j. Keeps q more as' now_bids j m) (sym e)
              (record {
                below = below;
                bid = bid;
                claims = claims;
                votes = λ u c h unled t k low claim. elim (ballots u c h) [
                  | inl old ↦ same_votes i m mem u c old unled t k low claim
                  | inr b ↦ b.1 unled t k low claim
                ];
              }))
          (λ n. other-Keeps x mx n);
    bids_made = λ x h. (requests x h).0;
    backing = λ u l. elim (backing u l) [ inl old ↦ same-Backing u (v.backing u old) | inr b ↦ b ];
    cast_past = λ x u c.
        written (λ y. In (u, c) y.cast → u ≤ (update f i m c).node.current_term) f i m x
          (λ e h. elim (ballots u c h) [
            | inl old ↦ omega (arith, v.cast_past i u c old, up c)
            | inr b ↦ b.0
          ])
          (λ n h. omega (arith, v.cast_past x u c h, up c));
    asked_past = λ x h. (requests x h).1;
    answered = answered;
  }

  pub same-IsBid :
      ((x : VoteRequest) → IsBid r led bids x → IsBid q more bids x)
      → (x : VoteRequest) → In x asked
      → IsBid q more now_bids x × (x.term ≤ (update f i m x.candidate_id).node.current_term)
  same-IsBid last x h =
      let b = last x (v.bids_made x h) in
      let eq =
        same x.term x.candidate_id
          (λ e. subst (λ j. x.term ≤ (f j).node.current_term) e (v.asked_past x h)) in
      (
        record {
          bid_written = subst (λ es. IsWritten q more es) (sym eq) b.bid_written;
          lower =
              subst (λ es. (k : ℕ) (e : LogEntry) → get_elem? es k ≡ some e → e.term < x.term)
                (sym eq) b.lower;
          index_told = b.index_told ∙ ap (λ es. last_index (as_log es)) (sym eq);
          term_told = b.term_told ∙ ap (λ es. last_term (as_log es)) (sym eq);
        },
        omega (arith, v.asked_past x h, up x.candidate_id),
      )
