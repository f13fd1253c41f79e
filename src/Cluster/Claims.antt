-- ===== src/Cluster/Claims.antt =====
-- What a majority has acknowledged in a term, against the logs of all later leaders.
use smol_raft.Prelude.{
  ℕ, zero, suc, ◌+◌, ◌≤◌, ◌<◌, ◌≡◌, ◌⊎◌, inl, inr, ap, ◌∙◌, String, true, some, Option-cases, List,
  length, get_elem?, In, arith, ℕ_discrete,
}
use smol_raft.Types.{candidate, LogEntry, VoteRequest, AppendEntriesRequest}
use smol_raft.Log.{last_index, last_term}
use smol_raft.Log.Merge.{as_log}
use smol_raft.Cluster.{Member, Answer}
use smol_raft.Cluster.Quorum.{Distinct, Among, common}
use smol_raft.Cluster.Sane.{IsLed}
use smol_raft.Cluster.Ruled.{Ruled, IsWritten}

-- The log has an entry of term t at index k.
abbrev pub Holds : ℕ → ℕ → List LogEntry → Type 0
Holds t k es = (e : LogEntry) × (get_elem? es k ≡ some e) × (e.term ≡ t)

pub Holds_dec : (t k : ℕ) (es : List LogEntry) → Holds t k es ⊎ (¬ Holds t k es)
Holds_dec t k es = elim (Option-cases (get_elem? es k)) [
  | inl n ↦ inr (λ (e, g, q). cc)
  | inr (x, g) ↦ elim (ℕ_discrete x.term t) [
    | yes q ↦ inl (x, g, q)
    | no d ↦
        inr (λ (e, h, q). d (ap (λ (z : LogEntry). z.term) (let same : x ≡ e = cc in same) ∙ q))
  ]
]

-- A leader of a term after t and before n does not have the entry of term t at index k.
abbrev pub Broken : Ruled → List (ℕ × String) → ℕ → ℕ → ℕ → Type 0
Broken ruled led t k n = (w : ℕ) × (t < w) × (w < n) × IsLed w led × ¬ Holds t k (ruled w)

-- The member acknowledged the log of the leader of term t up to index k.
abbrev pub Acked : List Answer → String → ℕ → ℕ → Type 0
Acked answers v t k =
    (a : Answer) × In a answers
    × (a.from ≡ v)
    × (a.says.success ≡ true)
    × (a.to.term ≡ t)
    × (k ≤ a.to.prev_log_index + length a.to.entries)

-- The leader of term t has an entry of its term at k, and the member acknowledged it or is that leader.
abbrev pub Claimed : Ruled → List (ℕ × String) → List Answer → String → ℕ → ℕ → Type 0
Claimed ruled led answers v t k = Holds t k (ruled t) × (In (t, v) led ⊎ Acked answers v t k)

abbrev pub Bids : Type 0
Bids = ℕ → String → List LogEntry

-- The member v: its log has what it acknowledged unless a later leader had not; and so has the log of
-- a candidate for which it voted, as long as the term has no leader. `bids u c` is the log with which
-- c was a candidate in term u.
pub record Keeps (ruled : Ruled) (led : List (ℕ × String)) (answers : List Answer) (bids : Bids)
    (v : String) (m : Member) : Type 0 where
  pub below :
      (k : ℕ) (e : LogEntry)
      → get_elem? m.node.log.entries k ≡ some e
      → e.term ≤ m.node.current_term
  pub bid :
      m.node.state ≡ candidate
      → (m.node.log.entries ≡ bids m.node.current_term v)
        × ((k : ℕ) (e : LogEntry)
            → get_elem? m.node.log.entries k ≡ some e
            → e.term < m.node.current_term)
  pub claims :
      (t k : ℕ)
      → Claimed ruled led answers v t k
      → (t ≤ m.node.current_term)
        × (Holds t k m.node.log.entries ⊎ Broken ruled led t k (suc m.node.current_term))
  pub votes :
      (u : ℕ) (c : String)
      → In (u, c) m.cast
      → ¬ IsLed u led
      → (t k : ℕ) → t < u
      → Claimed ruled led answers v t k
      → Holds t k (bids u c) ⊎ Broken ruled led t k u

-- The request tells the last index and term of its candidate's log.
pub record IsBid (ruled : Ruled) (led : List (ℕ × String)) (bids : Bids) (r : VoteRequest)
    : Type 0 where
  pub bid_written : IsWritten ruled led (bids r.term r.candidate_id)
  pub lower :
      (k : ℕ) (e : LogEntry) → get_elem? (bids r.term r.candidate_id) k ≡ some e → e.term < r.term
  pub index_told : r.last_log_index ≡ last_index (as_log (bids r.term r.candidate_id))
  pub term_told : r.last_log_term ≡ last_term (as_log (bids r.term r.candidate_id))

-- A majority of which each member is in term u or later, and what it acknowledged before is in the
-- log of the leader of term u, unless a leader in between did not have it.
pub record Backing (members : List String) (ruled : Ruled) (f : String → Member)
    (led : List (ℕ × String)) (answers : List Answer) (u : ℕ) : Type 0 where
  pub quorum : List String
  pub distinct : Distinct quorum
  pub among : Among quorum members
  pub most : length members < length quorum + length quorum
  pub moved_on : (v : String) → In v quorum → u ≤ (f v).node.current_term
  pub backed :
      (v : String)
      → In v quorum
      → (t k : ℕ) → t < u
      → Claimed ruled led answers v t k
      → Holds t k (ruled u) ⊎ Broken ruled led t k u

pub record IsKept (members : List String) (ruled : Ruled) (bids : Bids) (f : String → Member)
    (led : List (ℕ × String)) (asked : List VoteRequest) (sent : List AppendEntriesRequest)
    (answers : List Answer) : Type 0 where
  pub bounded : (t k : ℕ) (e : LogEntry) → get_elem? (ruled t) k ≡ some e → e.term ≤ t
  pub keeps : (v : String) → In v members → Keeps ruled led answers bids v (f v)
  pub bids_made : (r : VoteRequest) → In r asked → IsBid ruled led bids r
  pub backing : (u : ℕ) → IsLed u led → Backing members ruled f led answers u
  pub cast_past :
      (v : String) (u : ℕ) (c : String) → In (u, c) (f v).cast → u ≤ (f c).node.current_term
  pub asked_past : (r : VoteRequest) → In r asked → r.term ≤ (f r.candidate_id).node.current_term
  pub answered :
      (a : Answer)
      → In a answers
      → a.says.success ≡ true
      → In a.to sent × (a.to.prev_log_index + length a.to.entries < length (ruled a.to.term))

-- A majority has the entry of term t at index k.
pub record Chosen (members : List String) (ruled : Ruled) (led : List (ℕ × String))
    (answers : List Answer) (t k : ℕ) : Type 0 where
  pub quorum : List String
  pub distinct : Distinct quorum
  pub among : Among quorum members
  pub most : length members < length quorum + length quorum
  pub claimed : (v : String) → In v quorum → Claimed ruled led answers v t k

module _ (members : List String) (ruled : Ruled) (bids : Bids) (f : String → Member)
    (led : List (ℕ × String)) (asked : List VoteRequest) (sent : List AppendEntriesRequest)
    (answers : List Answer) (v : IsKept members ruled bids f led asked sent answers) (t k : ℕ)
    (chosen : Chosen members ruled led answers t k) where
  kept_below : (n u : ℕ) → u < n → t < u → IsLed u led → Holds t k (ruled u)
  kept_below zero u h after led_u = absurd (omega arith)
  kept_below (suc n) u h after led_u =
      let b = v.backing u led_u in
      let (x, p, q) =
        common members chosen.quorum b.quorum chosen.distinct b.distinct chosen.among b.among
          (omega (arith, chosen.most, b.most)) in
      elim (b.backed x q t k after (chosen.claimed x p)) [
        | inl holds ↦ holds
        | inr (w, later, before, led_w, not_w) ↦
            absurd (not_w (kept_below n w (omega arith) later led_w))
      ]

  -- Every leader of a later term has the entry.
  pub chosen_stays : (u : ℕ) → t < u → IsLed u led → Holds t k (ruled u)
  chosen_stays u after led_u = kept_below (suc u) u (omega arith) after led_u
