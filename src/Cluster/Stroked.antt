-- ===== src/Cluster/Stroked.antt =====
-- A stroke, which continues a leader's log: what was acknowledged stays.
use smol_raft.Prelude.{
  ℕ, ◌≤◌, ◌<◌, ◌≡◌, ◌≢◌, ◌⊎◌, inl, inr, refl, sym, ap, ◌∙◌, subst, String, true, some, List, length,
  get_elem?, get_elem?-append_left, lt-length_of_get, In, arith, dec_lt, ℕ_discrete,
}
use smol_raft.Types.{leader, LogEntry, StrokeEvent}
use smol_raft.Log.{push}
use smol_raft.Node.{Node}
use smol_raft.Cluster.{Member, Cluster, set_node}
use smol_raft.Cluster.Sane.{IsSane, same_leader}
use smol_raft.Cluster.Ruled.{Ruled}
use smol_raft.Cluster.Extended.{Continues, set_ruled, set_ruled_self}
use smol_raft.Cluster.Writes.{Matched}
use smol_raft.Cluster.Rulers.{get-push_last, stroked, mine, longer, grows}
use smol_raft.Cluster.Claims.{Holds, Claimed, Bids}
use smol_raft.Cluster.Kept.{Lasts, change-IsKept, same-IsBid}
use smol_raft.Cluster.Keeping.{Kept, pasts}
use smol_raft.Cluster.Longer.{Continues-Holds, Continues-IsBid, Continues-length, set_ruled_all}

module _ (members : List String) (ruled : Ruled) (bids : Bids) (s : Cluster)
    (sane : IsSane members s) (v : Matched members ruled s) (kept : Kept members ruled bids s)
    (i : String) (mem : In i members) where
  abbrev n : Node
  n = (s.member i).node

  module _ (lead : n.state ≡ leader) (st : StrokeEvent) where
    abbrev t : ℕ
    t = n.current_term

    abbrev entry : LogEntry
    entry = record { index = 0; term = t; stroke = st }

    abbrev log : List LogEntry
    log = push n.log.entries entry

    abbrev now : Ruled
    now = set_ruled ruled t log

    abbrev after : Member
    after = record (s.member i) {
      node = record n { log = record { entries = log }; new_entry = true };
    }

    continues : Continues ruled now s.led s.led
    continues = grows members ruled s sane v i mem lead st

    rules : n.log.entries ≡ ruled t
    rules = (v.follows i mem).rules lead

    -- An entry of an earlier term was there before.
    earlier : (x k u : ℕ) → Holds x k (now u) → (u ≡ t → x ≢ t) → Holds x k (ruled u)
    earlier x k u h differs =
        set_ruled_all (λ w es. Holds x k es → (w ≡ t → x ≢ t) → Holds x k (ruled w)) ruled t log
          (λ (e, g, q) d. elim (dec_lt k (length n.log.entries)) [
            | yes low ↦
                subst (Holds x k) rules
                  (e, sym (get_elem?-append_left n.log.entries _ k low) ∙ g, q)
            | no high ↦ absurd (d refl (sym q ∙ get-push_last n.log.entries entry k high g))
          ])
          (λ w _ h d. h) u h differs

    stroke-Lasts : Lasts ruled now s.led s.led
    stroke-Lasts = record {
      holds = λ x k u h. Continues-Holds ruled now s.led s.led continues x k u h;
      broken = λ x k m (w, a, b, l, lacks).
          (w, a, b, l, λ h. lacks (earlier x k w h (λ e. omega arith)));
      still = λ u l. l;
    }

    fresh :
        (x : String) (y k : ℕ)
        → Claimed now s.led s.answers x y k
        → Claimed ruled s.led s.answers x y k ⊎ ((x ≡ i) × (t ≤ y))
    fresh x y k (there, by) = elim (ℕ_discrete y t) [
      | no d ↦ inl (earlier y k y there (λ e. d), by)
      | yes e ↦ elim by [
        | inl l ↦ inr (
          same_leader members s sane t x i (subst (λ z. In (z, x) s.led) e l)
              (mine members ruled s sane v i mem lead st),
          omega arith,
        )
        | inr (a, got, from, ok, term, low) ↦
            let (_, short) = kept.answered a got ok in
            let (z, g, q) = there in
            let inside : k < length (ruled y) =
              subst (λ u. k < length (ruled u)) term (omega arith) in
            let (tail, longer) = continues.longer y in
            inl (
              (
                z,
                sym (get_elem?-append_left (ruled y) tail k inside)
                    ∙ ap (λ es. get_elem? es k) (sym longer)
                    ∙ g,
                q,
              ),
              inr (a, got, from, ok, term, low),
            )
      ]
    ]

    pushed_low :
        (m : ℕ)
        → ((k : ℕ) (e : LogEntry) → get_elem? n.log.entries k ≡ some e → e.term ≤ m)
        → t ≤ m
        → (k : ℕ) (e : LogEntry) → get_elem? log k ≡ some e
        → e.term ≤ m
    pushed_low m low le k e g = elim (dec_lt k (length n.log.entries)) [
      | yes old ↦ low k e (sym (get_elem?-append_left n.log.entries _ k old) ∙ g)
      | no new ↦ omega (arith, get-push_last n.log.entries entry k new g)
    ]

    pushed_holds : (x k : ℕ) → Holds x k n.log.entries → Holds x k log
    pushed_holds x k (e, h, q) =
        (e, get_elem?-append_left n.log.entries _ k (lt-length_of_get n.log.entries k h) ∙ h, q)

    pub stroked-Kept :
        Kept members now bids (set_node i (stroked members ruled s sane v i mem lead st) s)
    stroked-Kept =
        change-IsKept members ruled now bids bids s.member s.led s.led s.asked s.asked s.sent s.sent
          s.answers s.answers kept (pasts members ruled bids s sane v kept i mem) i after mem
          stroke-Lasts (omega arith) fresh (λ u c q. refl)
          (pushed_low t (kept.keeps i mem).below (omega arith)) (λ c. absurd (cc (lead, c)))
          (λ y k c. elim (ℕ_discrete y t) [
            | yes e ↦
                (omega arith, inl (subst (Holds y k) (ap now e ∙ set_ruled_self ruled t log) c.0))
            | no d ↦
                let (low, there) =
                  (kept.keeps i mem).claims y k (earlier y k y c.0 (λ e. d), c.1) in
                (
                  low,
                  elim there [
                    | inl h ↦ inl (pushed_holds y k h)
                    | inr b ↦ inr (stroke-Lasts.broken y k _ b)
                  ],
                )
          ])
          (λ u c q. inl q)
          (set_ruled_all (λ u es. (k : ℕ) (e : LogEntry) → get_elem? es k ≡ some e → e.term ≤ u)
            ruled t log (pushed_low t (kept.keeps i mem).below (omega arith))
            (λ u d. kept.bounded u))
          (same-IsBid members ruled now bids bids s.member s.led s.led s.asked s.asked s.sent s.sent
            s.answers s.answers kept (pasts members ruled bids s sane v kept i mem) i after mem
            stroke-Lasts (omega arith) fresh (λ u c q. refl)
            (Continues-IsBid ruled now s.led s.led bids continues))
          (λ u l. inl l)
          (λ a got ok.
            let (was, short) = kept.answered a got ok in
            (was, omega (arith, short, Continues-length ruled now s.led s.led continues a.to.term)))
