-- ===== src/Cluster/Voted.antt =====
-- A vote: the candidate has what its voter acknowledged.
use smol_raft.Prelude.{
  trichotomy, ℕ, ◌≤◌, ◌<◌, ◌≡◌, ◌⊎◌, inl, inr, refl, sym, ◌∙◌, subst, String, Bool-cases, List, ◌∷◌,
  In, arith,
}
use smol_raft.Types.{VoteRequest}
use smol_raft.Log.{Log}
use smol_raft.Node.{Node}
use smol_raft.Election.{handle_vote_request}
use smol_raft.Election.Votes.{IsUpToDate, granted_iff}
use smol_raft.Steps.Quiet.{vote-Quiet}
use smol_raft.Cluster.{Member, Cluster, set_member, serve_vote}
use smol_raft.Cluster.Sane.{IsLed, IsSane}
use smol_raft.Cluster.Roles.{vote-Calm}
use smol_raft.Cluster.Ballots.{Votes, vote_kinds}
use smol_raft.Cluster.Ruled.{Ruled}
use smol_raft.Cluster.Writes.{Matched}
use smol_raft.Cluster.Claims.{Holds, Broken, Claimed, Bids}
use smol_raft.Cluster.Kept.{same-Lasts, up, Ballot, change-IsKept, same-IsBid}
use smol_raft.Cluster.UpToDate.{up_to_date-Holds}
use smol_raft.Cluster.Keeping.{Kept, pasts, claims_after, below_after, bid_after, Calm-Kept}

module _ (members : List String) (ruled : Ruled) (bids : Bids) (s : Cluster)
    (sane : IsSane members s) (v : Matched members ruled s) (kept : Kept members ruled bids s)
    (i : String) (mem : In i members) where
  module _ (req : VoteRequest) (asked : In req s.asked) (n : Node)
      (votes : Votes req (s.member i).node n) (log : n.log ≡ (s.member i).node.log)
      (ok : IsUpToDate req (s.member i).node.log) where
    abbrev voter : Member
    voter = record {
      node = n;
      poll = (s.member i).poll;
      cast = (req.term, req.candidate_id) ∷ (s.member i).cast;
    }

    goes_up : (s.member i).node.current_term ≤ n.current_term
    goes_up = omega (arith, votes.2, votes.4)

    -- What the voter acknowledged is in the candidate's log.
    told_all :
        ¬ IsLed req.term s.led
        → (t k : ℕ) → t < req.term
        → Claimed ruled s.led s.answers i t k
        → Holds t k (bids req.term req.candidate_id) ⊎ Broken ruled s.led t k req.term
    told_all unled t k low claim =
        let b = kept.bids_made req asked in
        elim (((claims_after members ruled bids s sane v kept i mem) n log goes_up t k claim).1) [
          | inr (w, after, before, led_w, lacks) ↦ elim (trichotomy w req.term) [
            | inl less ↦ inr (w, after, less, led_w, lacks)
            | inr (inl e) ↦ absurd (unled (subst (λ x. IsLed x s.led) e led_w))
            | inr (inr more) ↦ absurd (omega (arith, votes.2, before, more))
          ]
          | inl there ↦
              up_to_date-Holds ruled s.led kept.bounded v.rulers (s.member i).node.log.entries
                (bids req.term req.candidate_id) (v.follows i mem).log_written b.bid_written t k
                req.term b.lower (subst (λ (l : Log). Holds t k l.entries) log there) req
                b.index_told b.term_told ok
        ]

    abbrev New : ℕ → String → Type 0
    New =
        Ballot members ruled ruled bids bids s.member s.led s.led s.asked s.asked s.sent s.sent
          s.answers s.answers kept (pasts members ruled bids s sane v kept i mem) i voter mem
          (same-Lasts ruled s.led) goes_up (λ x t k h. inl h) (λ u c h. refl)

    pub voted-Kept : Kept members ruled bids (set_member i voter s)
    voted-Kept =
        change-IsKept members ruled ruled bids bids s.member s.led s.led s.asked s.asked s.sent
          s.sent s.answers s.answers kept (pasts members ruled bids s sane v kept i mem) i voter mem
          (same-Lasts ruled s.led) goes_up (λ x t k h. inl h) (λ u c h. refl)
          ((below_after members ruled bids s sane v kept i mem) n log goes_up)
          (λ c. elim votes.4 [
            | inl (newer, st) ↦ absurd (cc)
            | inr (t, st, free) ↦
                (bid_after members ruled bids s sane v kept i mem) n log (votes.2 ∙ sym t) st c
          ])
          ((claims_after members ruled bids s sane v kept i mem) n log goes_up)
          (λ u c h. elim h [
            | inr old ↦ inl old
            | inl e ↦ inr (
                subst (λ (b : ℕ × String). New b.0 b.1) (sym e)
                  (
                    omega (
                      arith,
                      kept.asked_past req asked,
                      up members ruled ruled bids bids s.member s.led s.led s.asked s.asked s.sent
                          s.sent s.answers s.answers kept
                          (pasts members ruled bids s sane v kept i mem) i voter mem
                          (same-Lasts ruled s.led) goes_up (λ x t k h. inl h) (λ u c h. refl)
                          req.candidate_id,
                    ),
                    told_all,
                  ))
          ])
          kept.bounded
          (same-IsBid members ruled ruled bids bids s.member s.led s.led s.asked s.asked s.sent
            s.sent s.answers s.answers kept (pasts members ruled bids s sane v kept i mem) i voter
            mem (same-Lasts ruled s.led) goes_up (λ x t k h. inl h) (λ u c h. refl) (λ x b. b))
          (λ u l. inl l) kept.answered

  pub vote-Kept :
      (req : VoteRequest) → In req s.asked → Kept members ruled bids (serve_vote i req s)
  unfolding serve_vote
  vote-Kept req asked =
      elim (Bool-cases (handle_vote_request req (s.member i).node).1.vote_granted) [
        | inl g ↦ rw g (
            voted-Kept req asked _ (vote_kinds req (s.member i).node g)
              (vote-Quiet req (s.member i).node).5 ((granted_iff req (s.member i).node).0 g).1)
        | inr g ↦ rw g (
            (Calm-Kept members ruled bids s sane v kept i mem) _ (vote-Calm req (s.member i).node g)
              (vote-Quiet req (s.member i).node).5 refl)
      ]
