-- ===== src/Cluster/Answers.antt =====
-- AppendEntries at a member: what it acknowledged before stays, and what it acknowledges now is there.
use smol_raft.Prelude.{
  ℕ, suc, ◌+◌, ◌≤◌, ◌<◌, ◌≡◌, ◌⊎◌, inl, inr, refl, sym, ap, ◌∙◌, subst, String, true, some, List,
  ◌∷◌, length, get_elem?, In, arith, trichotomy,
}
use smol_raft.Types.{LogEntry, AppendEntriesRequest}
use smol_raft.Node.{Node}
use smol_raft.Replication.{Handled, replied, crashed, node_of, handle_append_entries}
use smol_raft.Cluster.{Member, Cluster, Answer, answer_of, update, serve_append}
use smol_raft.Cluster.Sane.{IsSane}
use smol_raft.Cluster.Roles.{Calm}
use smol_raft.Cluster.Yields.{Yields, append_kinds}
use smol_raft.Cluster.Ruled.{Ruled}
use smol_raft.Cluster.Writes.{Matched}
use smol_raft.Cluster.Claims.{Holds, Broken, Claimed, Bids, IsKept}
use smol_raft.Cluster.Kept.{same-Lasts, change-IsKept, same-IsBid}
use smol_raft.Cluster.Keeping.{Kept, pasts, claims_after, below_after, bid_after}
use smol_raft.Cluster.Accepted.{
  Refused, Accepted, append_effect, merged_log, reach_le, new_holds, old_holds, merged_low,
}

module _ (members : List String) (ruled : Ruled) (bids : Bids) (s : Cluster)
    (sane : IsSane members s) (v : Matched members ruled s) (kept : Kept members ruled bids s)
    (i : String) (mem : In i members) (req : AppendEntriesRequest) (was_sent : In req s.sent) where
  abbrev n : Node
  n = (s.member i).node

  abbrev Goal : Handled → Type 0
  Goal h =
      IsKept members ruled bids (update s.member i (record (s.member i) { node = node_of h })) s.led
        s.asked s.sent (answer_of i req h s.answers)

  module _ (h : Handled) (refused : Refused n h)
      (kind : Calm n (node_of h) ⊎ Yields req n (node_of h)) where
    old_answer :
        (a : Answer) → In a (answer_of i req h s.answers) → a.says.success ≡ true → In a s.answers
    old_answer a mine ok = go h refl mine
      where
        go : (g : Handled) → h ≡ g → In a (answer_of i req g s.answers) → In a s.answers
        go (replied m r) e (inl same) =
            absurd (refused.1 m r e (ap (λ (x : Answer). x.says.success) (sym same) ∙ ok))
        go (replied m r) e (inr old) = old
        go (crashed m) e old = old

    old_claim :
        (x : String) (t k : ℕ)
        → Claimed ruled s.led (answer_of i req h s.answers) x t k
        → Claimed ruled s.led s.answers x t k
    old_claim x t k (there, inl l) = (there, inl l)
    old_claim x t k (there, inr (a, mine, from, ok, term, low)) =
        (there, inr (a, old_answer a mine ok, from, ok, term, low))

    rises : n.current_term ≤ (node_of h).current_term
    rises = elim kind [ inl c ↦ omega (arith, c.2) | inr y ↦ omega (arith, y.2, y.4) ]

    refused-Kept : Goal h
    refused-Kept =
        change-IsKept members ruled ruled bids bids s.member s.led s.led s.asked s.asked s.sent
          s.sent s.answers (answer_of i req h s.answers) kept
          (pasts members ruled bids s sane v kept i mem) i
          (record (s.member i) { node = node_of h }) mem (same-Lasts ruled s.led) rises
          (λ x t k c. inl (old_claim x t k c)) (λ u c q. refl)
          (below_after members ruled bids s sane v kept i mem (node_of h) refused.0 rises)
          (λ c. elim kind [
            | inl calm ↦ elim calm.2 [
              | inl (t, w, st) ↦
                  bid_after members ruled bids s sane v kept i mem (node_of h) refused.0 t st c
              | inr (t, st) ↦ absurd (cc)
            ]
            | inr y ↦ absurd (cc (y.5, c))
          ])
          (λ t k c.
            claims_after members ruled bids s sane v kept i mem (node_of h) refused.0 rises t k
              (old_claim i t k c))
          (λ u c q. inl q) kept.bounded
          (same-IsBid members ruled ruled bids bids s.member s.led s.led s.asked s.asked s.sent
            s.sent s.answers (answer_of i req h s.answers) kept
            (pasts members ruled bids s sane v kept i mem) i
            (record (s.member i) { node = node_of h }) mem (same-Lasts ruled s.led) rises
            (λ x t k c. inl (old_claim x t k c)) (λ u c q. refl) (λ x b. b))
          (λ u l. inl l) (λ a mine ok. kept.answered a (old_answer a mine ok) ok)

  lead : List LogEntry
  lead = ruled req.term

  module _ (h : Handled) (acc : Accepted req n h) where
    abbrev answer : Answer
    answer = record { from = i; to = req; says = acc.response }

    abbrev said : List Answer
    said = answer ∷ s.answers

    abbrev changed : Member
    changed = record (s.member i) { node = acc.node }

    fresh :
        (x : String) (t k : ℕ)
        → Claimed ruled s.led said x t k
        → Claimed ruled s.led s.answers x t k ⊎ ((x ≡ i) × (n.current_term ≤ t))
    fresh x t k (there, inl l) = inl (there, inl l)
    fresh x t k (there, inr (a, inr old, from, ok, term, low)) =
        inl (there, inr (a, old, from, ok, term, low))
    fresh x t k (there, inr (a, inl e, from, ok, term, low)) = inr (
      sym from ∙ ap (λ (y : Answer). y.from) e,
      omega (arith, acc.current, term, ap (λ (y : Answer). y.to.term) e),
    )

    goes_up : n.current_term ≤ acc.node.current_term
    goes_up = omega (arith, acc.current, acc.in_term)

    -- What the member acknowledged before.
    old_there :
        (t k : ℕ)
        → Claimed ruled s.led s.answers i t k
        → (t ≤ acc.node.current_term)
          × (Holds t k (merged_log req n.log) ⊎ Broken ruled s.led t k (suc acc.node.current_term))
    old_there t k claim =
        let (low, there) = (kept.keeps i mem).claims t k claim in
        (
          omega (arith, low, goes_up),
          elim there [
            | inr (w, a, b, l, lacks) ↦ inr (w, a, omega (arith, b, goes_up), l, lacks)
            | inl y ↦
                elim (old_holds ruled s.led v.nobody req n.log (ruled req.term)
                  (v.carries req was_sent) (v.follows i mem).log_written (v.rulers req.term)
                  acc.prev_matches t k y) [
                    | inl z ↦ inl z
                    | inr lacks ↦ elim (trichotomy t req.term) [
                      | inl less ↦ inr (
                        req.term,
                        less,
                        omega (arith, acc.in_term),
                        (req.leader_id, sane.authored req was_sent),
                        lacks,
                      )
                      | inr (inl e) ↦ absurd (lacks (subst (λ u. Holds t k (ruled u)) e claim.0))
                      | inr (inr more) ↦ absurd (omega (arith, low, acc.current, more))
                    ]
                  ]
          ],
        )

    all_there :
        (t k : ℕ)
        → Claimed ruled s.led said i t k
        → (t ≤ acc.node.current_term)
          × (Holds t k (merged_log req n.log) ⊎ Broken ruled s.led t k (suc acc.node.current_term))
    all_there t k (there, inl l) = old_there t k (there, inl l)
    all_there t k (there, inr (a, inr old, from, ok, term, low)) =
        old_there t k (there, inr (a, old, from, ok, term, low))
    all_there t k (there, inr (a, inl e, from, ok, term, low)) =
        let same : t ≡ req.term = sym term ∙ ap (λ (y : Answer). y.to.term) e in
        (
          omega (arith, same, acc.in_term),
          inl (
              new_holds ruled s.led v.nobody req n.log (ruled req.term) (v.carries req was_sent)
                (v.follows i mem).log_written (v.rulers req.term) acc.prev_matches t k
                (subst (λ u. Holds t k (ruled u)) same there)
                (omega
                  (arith, low, ap (λ (y : Answer). y.to.prev_log_index + length y.to.entries) e))),
        )

    accepted-Kept : IsKept members ruled bids (update s.member i changed) s.led s.asked s.sent said
    accepted-Kept =
        change-IsKept members ruled ruled bids bids s.member s.led s.led s.asked s.asked s.sent
          s.sent s.answers said kept (pasts members ruled bids s sane v kept i mem) i changed mem
          (same-Lasts ruled s.led) goes_up fresh (λ u c q. refl)
          (λ k e g.
            merged_low ruled s.led v.nobody req n.log (ruled req.term) (v.carries req was_sent)
              (v.follows i mem).log_written (v.rulers req.term) acc.prev_matches
              acc.node.current_term
              (λ j x q. omega (arith, goes_up, (kept.keeps i mem).below j x q))
              (λ j x q. omega (arith, acc.in_term, kept.bounded req.term j x q)) k e
              (subst (λ es. get_elem? es k ≡ some e) acc.log_now g))
          (λ c. absurd (cc (acc.follows_now, c)))
          (λ t k c.
            subst
              (λ es.
                (t ≤ acc.node.current_term)
                × (Holds t k es ⊎ Broken ruled s.led t k (suc acc.node.current_term)))
              (sym acc.log_now) (all_there t k c))
          (λ u c q. inl q) kept.bounded
          (same-IsBid members ruled ruled bids bids s.member s.led s.led s.asked s.asked s.sent
            s.sent s.answers said kept (pasts members ruled bids s sane v kept i mem) i changed mem
            (same-Lasts ruled s.led) goes_up fresh (λ u c q. refl) (λ x b. b))
          (λ u l. inl l)
          (λ a mine ok. elim mine [
            | inr old ↦ kept.answered a old ok
            | inl e ↦
                subst
                  (λ (y : Answer).
                    In y.to s.sent
                    × (y.to.prev_log_index + length y.to.entries < length (ruled y.to.term)))
                  (sym e)
                  (
                    was_sent,
                    omega (
                      arith,
                      reach_le ruled s.led v.nobody req n.log (ruled req.term)
                          (v.carries req was_sent) (v.follows i mem).log_written (v.rulers req.term)
                          acc.prev_matches,
                    ),
                  )
          ])

  pub append-Kept : Kept members ruled bids (serve_append i req s)
  unfolding serve_append
  append-Kept =
      elim (append_effect ruled s.led v.nobody req n (ruled req.term) (v.carries req was_sent)
        (v.follows i mem).log_written (v.rulers req.term)) [
          | inl refused ↦ refused-Kept (handle_append_entries req n) refused (append_kinds req n)
          | inr acc ↦ subst Goal (sym acc.handled) (accepted-Kept (handle_append_entries req n) acc)
        ]
