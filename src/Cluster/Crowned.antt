-- ===== src/Cluster/Crowned.antt =====
-- A won election, which begins a leader's log: what was acknowledged stays.
use smol_raft.Prelude.{
  ℕ, suc, ◌≤◌, ◌<◌, ◌≡◌, inl, inr, refl, sym, ap, ◌∙◌, subst, String, some, List, ◌∷◌, get_elem?,
  In, arith, ℕ_discrete,
}
use smol_raft.Types.{leader, LogEntry}
use smol_raft.Log.{Log}
use smol_raft.Node.{Node, become_leader}
use smol_raft.Cluster.{Member, Cluster, update}
use smol_raft.Cluster.Sane.{IsLed, IsSane}
use smol_raft.Cluster.Leader.{Won, voters_most}
use smol_raft.Cluster.Ruled.{Ruled}
use smol_raft.Cluster.Extended.{Continues, set_ruled, set_ruled_self, set_ruled_other}
use smol_raft.Cluster.Writes.{Matched}
use smol_raft.Cluster.Rulers.{unled, rising}
use smol_raft.Cluster.Claims.{Holds, Broken, Claimed, Bids, Backing, IsKept}
use smol_raft.Cluster.Kept.{Lasts, up, change-IsKept, same-IsBid}
use smol_raft.Cluster.Keeping.{Kept, pasts}
use smol_raft.Cluster.Longer.{Continues-Holds, Continues-IsBid, Continues-length, set_ruled_all}

module _ (members : List String) (ruled : Ruled) (bids : Bids) (s : Cluster)
    (sane : IsSane members s) (v : Matched members ruled s) (kept : Kept members ruled bids s)
    (i : String) (mem : In i members) where
  abbrev n : Node
  n = (s.member i).node

  module _ (won : Won (s.member i).poll.term (s.member i).poll.votes n) where
    abbrev term : ℕ
    term = (s.member i).poll.term

    abbrev more : List (ℕ × String)
    more = (term, i) ∷ s.led

    abbrev since : Ruled
    since = set_ruled ruled term n.log.entries

    abbrev crowned : Member
    crowned = record (s.member i) { node = become_leader n }

    extends : Continues ruled since s.led more
    extends = rising members ruled s sane v i mem won

    nobody_yet : ¬ IsLed term s.led
    nobody_yet = unled members ruled s sane v i mem won

    bid_of :
        (n.log.entries ≡ bids n.current_term i)
        × ((k : ℕ) (e : LogEntry) → get_elem? n.log.entries k ≡ some e → e.term < n.current_term)
    bid_of = (kept.keeps i mem).bid won.0

    won-Lasts : Lasts ruled since s.led more
    won-Lasts = record {
      holds = λ x k u h. Continues-Holds ruled since s.led more extends x k u h;
      broken = λ x k m (w, a, b, (l, led_w), lacks). (
        w,
        a,
        b,
        (l, inr led_w),
        λ h. lacks (
            subst (Holds x k)
              (set_ruled_other ruled term w n.log.entries
                (λ e. nobody_yet (subst (λ z. IsLed z s.led) e (l, led_w))))
              h),
      );
      still = λ u (l, h). (l, inr h);
    }

    old_claim :
        (x : String) (y k : ℕ)
        → Claimed since more s.answers x y k
        → Claimed ruled s.led s.answers x y k
    old_claim x y k (there, by) = elim (ℕ_discrete y term) [
      | yes e ↦
          let (z, g, q) =
            subst (Holds y k) (ap since e ∙ set_ruled_self ruled term n.log.entries) there in
          absurd (omega (arith, bid_of.1 k z g, q, won.1))
      | no d ↦ (
        subst (Holds y k) (set_ruled_other ruled term y n.log.entries d) there,
        elim by [
          | inl l ↦ elim l [
            | inl e ↦ absurd (d (ap (λ (b : ℕ × String). b.0) e))
            | inr old ↦ inl old
          ]
          | inr acked ↦ inr acked
        ],
      )
    ]

    same_term : (become_leader n).current_term ≡ n.current_term
    unfolding become_leader
    same_term = refl

    same_entries : (become_leader n).log ≡ n.log
    unfolding become_leader
    same_entries = refl

    leads_now : (become_leader n).state ≡ leader
    unfolding become_leader
    leads_now = refl

    stays_up : n.current_term ≤ (become_leader n).current_term
    stays_up = omega (arith, same_term)

    new-Backing : Backing members since (update s.member i crowned) more s.answers term
    new-Backing =
        let c = sane.counted i mem in
        record {
          quorum = (s.member i).poll.voters;
          distinct = c.distinct;
          among = c.among;
          most = voters_most members s sane i mem won;
          moved_on = λ x h. omega (
            arith,
            (sane.bound x (c.among x h)).past term i (c.given x h),
            up members ruled since bids bids s.member s.led more s.asked s.asked s.sent s.sent
                s.answers s.answers kept (pasts members ruled bids s sane v kept i mem) i crowned
                mem won-Lasts stays_up (λ x t k c. inl (old_claim x t k c)) (λ u c q. refl) x,
          );
          backed = λ x h y k low claim.
              elim ((kept.keeps x (c.among x h)).votes term i (c.given x h) nobody_yet y k low
                (old_claim x y k claim)) [
                  | inl there ↦ inl (
                      subst (Holds y k)
                        (ap (λ z. bids z i) (sym won.1)
                          ∙ sym bid_of.0
                          ∙ sym (set_ruled_self ruled term n.log.entries))
                        there)
                  | inr b ↦ inr (won-Lasts.broken y k term b)
                ];
        }

    pub won-Kept :
        IsKept members since bids (update s.member i crowned) more s.asked s.sent s.answers
    won-Kept =
        change-IsKept members ruled since bids bids s.member s.led more s.asked s.asked s.sent
          s.sent s.answers s.answers kept (pasts members ruled bids s sane v kept i mem) i crowned
          mem won-Lasts stays_up (λ x t k c. inl (old_claim x t k c)) (λ u c q. refl)
          (λ k e g. omega (
            arith,
            same_term,
            (kept.keeps i mem).below k e
                (subst (λ (l : Log). get_elem? l.entries k ≡ some e) same_entries g),
          ))
          (λ c. absurd (cc (leads_now, c)))
          (λ y k c.
            let (low, there) = (kept.keeps i mem).claims y k (old_claim i y k c) in
            (
              omega (arith, low, same_term),
              elim there [
                | inl h ↦ inl (subst (λ (l : Log). Holds y k l.entries) (sym same_entries) h)
                | inr b ↦ inr (
                    subst (λ z. Broken since more y k (suc z)) (sym same_term)
                      (won-Lasts.broken y k _ b))
              ],
            ))
          (λ u c q. inl q)
          (set_ruled_all (λ u es. (k : ℕ) (e : LogEntry) → get_elem? es k ≡ some e → e.term ≤ u)
            ruled term n.log.entries (λ k e g. omega (arith, bid_of.1 k e g, won.1))
            (λ u d. kept.bounded u))
          (same-IsBid members ruled since bids bids s.member s.led more s.asked s.asked s.sent
            s.sent s.answers s.answers kept (pasts members ruled bids s sane v kept i mem) i crowned
            mem won-Lasts stays_up (λ x t k c. inl (old_claim x t k c)) (λ u c q. refl)
            (Continues-IsBid ruled since s.led more bids extends))
          (λ u (l, h). elim h [
            | inl e ↦ inr (
                subst (λ z. Backing members since (update s.member i crowned) more s.answers z)
                  (ap (λ (b : ℕ × String). b.0) (sym e)) new-Backing)
            | inr old ↦ inl (l, old)
          ])
          (λ a got ok.
            let (was, short) = kept.answered a got ok in
            (was, omega (arith, short, Continues-length ruled since s.led more extends a.to.term)))
