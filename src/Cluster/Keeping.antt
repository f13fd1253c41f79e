-- ===== src/Cluster/Keeping.antt =====
-- Steps that leave the logs as they are: what was acknowledged stays.
use smol_raft.Prelude.{
  ℕ, suc, ◌≤◌, ◌<◌, ◌≡◌, ◌⊎◌, inl, inr, refl, sym, ap, ◌∙◌, subst, String, some, List, get_elem?,
  In, arith,
}
use smol_raft.Types.{candidate, LogEntry}
use smol_raft.Log.{Log}
use smol_raft.Node.{Node}
use smol_raft.Cluster.{Member, Cluster, set_member}
use smol_raft.Cluster.Sane.{IsSane}
use smol_raft.Cluster.Roles.{Calm}
use smol_raft.Cluster.Ruled.{Ruled}
use smol_raft.Cluster.Writes.{Matched}
use smol_raft.Cluster.Claims.{Holds, Broken, Claimed, Bids, IsKept}
use smol_raft.Cluster.Kept.{same-Lasts, change-IsKept, same-IsBid}

abbrev pub Kept : List String → Ruled → Bids → Cluster → Type 0
Kept members ruled bids s = IsKept members ruled bids s.member s.led s.asked s.sent s.answers

module _ (members : List String) (ruled : Ruled) (bids : Bids) (s : Cluster)
    (sane : IsSane members s) (v : Matched members ruled s) (kept : Kept members ruled bids s)
    (i : String) (mem : In i members) where
  pub pasts :
      (j : String)
      → In j members
      → (t : ℕ) (c : String) → In (t, c) (s.member j).cast
      → t ≤ (s.member j).node.current_term
  pasts j mj = (sane.bound j mj).past

  -- The claims of a member whose log is the same in the same term or a later one.
  pub claims_after :
      (n : Node)
      → n.log ≡ (s.member i).node.log
      → (s.member i).node.current_term ≤ n.current_term
      → (t k : ℕ) → Claimed ruled s.led s.answers i t k
      → (t ≤ n.current_term)
        × (Holds t k n.log.entries ⊎ Broken ruled s.led t k (suc n.current_term))
  claims_after n log rises t k claim =
      let (low, there) = (kept.keeps i mem).claims t k claim in
      (
        omega (arith, low, rises),
        elim there [
          | inl y ↦ inl (subst (λ (l : Log). Holds t k l.entries) (sym log) y)
          | inr (w, a, b, l, lacks) ↦ inr (w, a, omega (arith, b, rises), l, lacks)
        ],
      )

  pub below_after :
      (n : Node)
      → n.log ≡ (s.member i).node.log
      → (s.member i).node.current_term ≤ n.current_term
      → (k : ℕ) (e : LogEntry) → get_elem? n.log.entries k ≡ some e
      → e.term ≤ n.current_term
  below_after n log rises k e h = omega (
    arith,
    rises,
    (kept.keeps i mem).below k e (subst (λ (l : Log). get_elem? l.entries k ≡ some e) log h),
  )

  pub bid_after :
      (n : Node)
      → n.log ≡ (s.member i).node.log
      → n.current_term ≡ (s.member i).node.current_term
      → n.state ≡ (s.member i).node.state
      → n.state ≡ candidate
      → (n.log.entries ≡ bids n.current_term i)
        × ((k : ℕ) (e : LogEntry) → get_elem? n.log.entries k ≡ some e → e.term < n.current_term)
  bid_after n log term state c =
      let (a, b) = (kept.keeps i mem).bid (sym state ∙ c) in
      (
        ap (λ (l : Log). l.entries) log ∙ a ∙ ap (λ t. bids t i) (sym term),
        λ k e h.
            omega (arith, term, b k e (subst (λ (l : Log). get_elem? l.entries k ≡ some e) log h)),
      )

  pub Calm-Kept :
      (m : Member)
      → Calm (s.member i).node m.node
      → m.node.log ≡ (s.member i).node.log
      → m.cast ≡ (s.member i).cast
      → Kept members ruled bids (set_member i m s)
  Calm-Kept m calm log cast =
      let rises : (s.member i).node.current_term ≤ m.node.current_term = omega (arith, calm.2) in
      change-IsKept members ruled ruled bids bids s.member s.led s.led s.asked s.asked s.sent s.sent
        s.answers s.answers kept pasts i m mem (same-Lasts ruled s.led) rises (λ x t k h. inl h)
        (λ u c h. refl) (below_after m.node log rises)
        (λ c. elim calm.2 [
          | inl (t, w, st) ↦ bid_after m.node log t st c
          | inr (t, st) ↦ absurd (cc)
        ])
        (claims_after m.node log rises) (λ u c h. inl (subst (λ b. In (u, c) b) cast h))
        kept.bounded
        (same-IsBid members ruled ruled bids bids s.member s.led s.led s.asked s.asked s.sent s.sent
          s.answers s.answers kept pasts i m mem (same-Lasts ruled s.led) rises (λ x t k h. inl h)
          (λ u c h. refl) (λ x b. b))
        (λ u l. inl l) kept.answered
