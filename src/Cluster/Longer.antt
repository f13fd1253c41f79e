-- ===== src/Cluster/Longer.antt =====
-- What stays of the leaders' logs when one of them grows.
use smol_raft.Prelude.{
  ℕ, ◌≤◌, ◌≢◌, sym, ap, ◌∙◌, subst, String, List, length, get_elem?, get_elem?-append_left,
  lt-length_of_get, length-append, arith, ℕ_discrete,
}
use smol_raft.Types.{LogEntry, VoteRequest}
use smol_raft.Cluster.Ruled.{Ruled}
use smol_raft.Cluster.Extended.{
  Continues, Continues-IsWritten, set_ruled, set_ruled_self, set_ruled_other,
}
use smol_raft.Cluster.Rulers.{longer}
use smol_raft.Cluster.Claims.{Holds, Bids, IsBid}

-- A longer leader's log holds what it held.
pub Continues-Holds :
    (r q : Ruled) (led more : List (ℕ × String))
    → Continues r q led more
    → (t k u : ℕ) → Holds t k (r u)
    → Holds t k (q u)
Continues-Holds r q led more c t k u (e, h, same) =
    let (tail, longer) = c.longer u in
    (
      e,
      ap (λ es. get_elem? es k) longer
          ∙ get_elem?-append_left (r u) tail k (lt-length_of_get (r u) k h)
          ∙ h,
      same,
    )

pub Continues-IsBid :
    (r q : Ruled) (led more : List (ℕ × String)) (bids : Bids)
    → Continues r q led more
    → (x : VoteRequest) → IsBid r led bids x
    → IsBid q more bids x
Continues-IsBid r q led more bids c x b = record {
  bid_written = Continues-IsWritten r q led more c _ b.bid_written;
  lower = b.lower;
  index_told = b.index_told;
  term_told = b.term_told;
}

pub Continues-length :
    (r q : Ruled) (led more : List (ℕ × String))
    → Continues r q led more
    → (u : ℕ) → length (r u) ≤ length (q u)
Continues-length r q led more c u =
    let (tail, longer) = c.longer u in omega (arith, ap length longer, length-append (r u) tail)

-- A statement of each leader's log after a write at t.
pub set_ruled_all {ℓ} :
    (P : ℕ → List LogEntry → Type ℓ) (r : Ruled) (t : ℕ) (es : List LogEntry)
    → P t es
    → ((u : ℕ) → u ≢ t → P u (r u))
    → (u : ℕ) → P u (set_ruled r t es u)
set_ruled_all P r t es new old u = elim (ℕ_discrete u t) [
  | yes e ↦
      subst (λ x. P x (set_ruled r t es x)) (sym e) (subst (P t) (sym (set_ruled_self r t es)) new)
  | no n ↦ subst (P u) (sym (set_ruled_other r t u es n)) (old u n)
]
