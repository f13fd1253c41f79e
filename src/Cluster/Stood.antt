-- ===== src/Cluster/Stood.antt =====
-- The start of an election: the log with which a candidate asks for votes.
use smol_raft.Prelude.{
  trichotomy, ℕ, ◌≤◌, ◌<◌, ◌≡◌, inl, inr, sym, ap, ◌∙◌, subst, String, some, List, [], ◌∷◌,
  get_elem?, In, arith, if◌then◌else◌, ◌==◌, str_eq, str_eq_iff,
}
use smol_raft.Types.{LogEntry, VoteRequest}
use smol_raft.Log.{Log, last_index, last_term}
use smol_raft.Log.Merge.{as_log}
use smol_raft.Node.{Node, become_candidate}
use smol_raft.Election.{election_timeout, begin_election}
use smol_raft.Steps.Quiet.{timeout-Quiet}
use smol_raft.Cluster.{Member, Cluster, update, stand}
use smol_raft.Cluster.Sane.{IsLed, IsSane, update_self}
use smol_raft.Cluster.Ballots.{Stands, timeout-Stands}
use smol_raft.Cluster.Ruled.{Ruled, IsWritten}
use smol_raft.Cluster.Writes.{Matched}
use smol_raft.Cluster.Claims.{Holds, Bids, IsBid}
use smol_raft.Cluster.Kept.{same-Lasts, Ballot, change-IsKept, same-IsBid}
use smol_raft.Cluster.Keeping.{Kept, pasts, claims_after, below_after}

-- The candidate's log is told in its request.
timeout_told :
    (n m : Node) (req : VoteRequest)
    → election_timeout n ≡ some (m, req)
    → (req.last_log_index ≡ last_index n.log) × (req.last_log_term ≡ last_term n.log)
unfolding election_timeout begin_election become_candidate
timeout_told n m req e = ground arith

abbrev pub set_bid : Bids → ℕ → String → List LogEntry → Bids
set_bid bids t i es u c = if u == t then (if str_eq c i then es else bids u c) else bids u c

set_bid_self :
    (bids : Bids) (t : ℕ) (i : String) (es : List LogEntry) → set_bid bids t i es t i ≡ es
set_bid_self bids t i es = ground (arith, str_eq_iff i i)

set_bid_other :
    (bids : Bids) (t : ℕ) (i : String) (es : List LogEntry) (u : ℕ) (c : String)
    → (c ≡ i → u < t)
    → set_bid bids t i es u c ≡ bids u c
set_bid_other bids t i es u c h = ground (arith, str_eq_iff c i)

module _ (members : List String) (ruled : Ruled) (bids : Bids) (s : Cluster)
    (sane : IsSane members s) (v : Matched members ruled s) (kept : Kept members ruled bids s)
    (i : String) (mem : In i members) where
  module _ (n : Node) (req : VoteRequest)
      (e : election_timeout (s.member i).node ≡ some (n, req)) where
    stood : Stands req (s.member i).node n
    stood = timeout-Stands (s.member i).node n req e

    log_same : n.log ≡ (s.member i).node.log
    log_same = (timeout-Quiet (s.member i).node n req e).5

    abbrev stander : Member
    stander = record {
      node = n;
      poll = record { term = req.term; votes = 1; voters = i ∷ []; pending = n.peers };
      cast = (req.term, i) ∷ (s.member i).cast;
    }

    abbrev pub bids_then : Bids
    bids_then = set_bid bids req.term i (s.member i).node.log.entries

    grown : (s.member i).node.current_term ≤ n.current_term
    grown = omega (arith, stood.2)

    others :
        (u : ℕ) (c : String)
        → (c ≡ i → u ≤ (s.member i).node.current_term)
        → bids_then u c ≡ bids u c
    others u c h = set_bid_other bids req.term i _ u c (λ q. omega (arith, h q, stood.2, stood.5))

    own_id : req.candidate_id ≡ i
    own_id = stood.6 ∙ (sane.bound i mem).named

    made : IsBid ruled s.led bids_then req
    made =
        let eq : bids_then req.term req.candidate_id ≡ (s.member i).node.log.entries =
          ap (bids_then req.term) own_id ∙ set_bid_self bids req.term i _ in
        let (a, b) = timeout_told (s.member i).node n req e in
        record {
          bid_written =
              subst (λ es. IsWritten ruled s.led es) (sym eq) (v.follows i mem).log_written;
          lower = λ k x h. omega (
            arith,
            stood.2,
            stood.5,
            (kept.keeps i mem).below k x (subst (λ es. get_elem? es k ≡ some x) eq h),
          );
          index_told = a ∙ ap (λ es. last_index (as_log es)) (sym eq);
          term_told = b ∙ ap (λ es. last_term (as_log es)) (sym eq);
        }

    abbrev Cast : ℕ → String → Type 0
    Cast =
        Ballot members ruled ruled bids bids_then s.member s.led s.led s.asked (req ∷ s.asked)
          s.sent s.sent s.answers s.answers kept (pasts members ruled bids s sane v kept i mem) i
          stander mem (same-Lasts ruled s.led) grown (λ x t k h. inl h) others

    there_now : req.term ≤ (update s.member i stander i).node.current_term
    there_now =
        omega (
          arith,
          stood.5,
          ap (λ (x : Member). x.node.current_term) (update_self s.member i stander),
        )

    own_ballot : Cast req.term i
    own_ballot = (
      there_now,
      λ unled t k low claim.
          elim (((claims_after members ruled bids s sane v kept i mem) n log_same grown t k
            claim).1) [
              | inl y ↦ inl (
                  subst (Holds t k)
                    (ap (λ (l : Log). l.entries) log_same ∙ sym (set_bid_self bids req.term i _)) y)
              | inr (w, after, before, led_w, lacks) ↦ elim (trichotomy w req.term) [
                | inl less ↦ inr (w, after, less, led_w, lacks)
                | inr (inl same) ↦ absurd (unled (subst (λ x. IsLed x s.led) same led_w))
                | inr (inr more) ↦ absurd (omega (arith, stood.5, before, more))
              ]
            ],
    )

    pub timeout-Kept : Kept members ruled bids_then (stand i n req s)
    unfolding stand
    timeout-Kept =
        change-IsKept members ruled ruled bids bids_then s.member s.led s.led s.asked
          (req ∷ s.asked) s.sent s.sent s.answers s.answers kept
          (pasts members ruled bids s sane v kept i mem) i stander mem (same-Lasts ruled s.led)
          grown (λ x t k h. inl h) others
          ((below_after members ruled bids s sane v kept i mem) n log_same grown)
          (λ c. (
            ap (λ (l : Log). l.entries) log_same
                ∙ sym (set_bid_self bids req.term i _)
                ∙ ap (λ t. bids_then t i) stood.5,
            λ k x h. omega (
              arith,
              stood.2,
              (kept.keeps i mem).below k x
                  (subst (λ (l : Log). get_elem? l.entries k ≡ some x) log_same h),
            ),
          ))
          ((claims_after members ruled bids s sane v kept i mem) n log_same grown)
          (λ u c h. elim h [
            | inr old ↦ inl old
            | inl q ↦ inr (subst (λ (b : ℕ × String). Cast b.0 b.1) (sym q) own_ballot)
          ])
          kept.bounded
          (λ x h. elim h [
            | inl q ↦
                subst
                  (λ (y : VoteRequest).
                    IsBid ruled s.led bids_then y
                    × (y.term ≤ (update s.member i stander y.candidate_id).node.current_term))
                  (sym q)
                  (
                    made,
                    subst (λ c. req.term ≤ (update s.member i stander c).node.current_term)
                        (sym own_id) there_now,
                  )
            | inr old ↦
                same-IsBid members ruled ruled bids bids_then s.member s.led s.led s.asked
                  (req ∷ s.asked) s.sent s.sent s.answers s.answers kept
                  (pasts members ruled bids s sane v kept i mem) i stander mem
                  (same-Lasts ruled s.led) grown (λ x t k h. inl h) others (λ x b. b) x old
          ])
          (λ u l. inl l) kept.answered
