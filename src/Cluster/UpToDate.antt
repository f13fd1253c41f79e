-- ===== src/Cluster/UpToDate.antt =====
-- A candidate's log that is at least as up to date as the voter's.
use smol_raft.Prelude.{
  ℕ, suc, ◌-◌, ◌≤◌, ◌<◌, ◌≡◌, ◌⊎◌, inl, inr, refl, sym, ◌∙◌, subst, String, some, Option-cases,
  List, length, take, get_elem?, get_elem?-take, lt-length_of_get, length-le_of_get, arith, dec_lt,
}
use smol_raft.Types.{LogEntry, VoteRequest}
use smol_raft.Log.{last_index, last_term}
use smol_raft.Log.Merge.{as_log}
use smol_raft.Election.Votes.{IsUpToDate}
use smol_raft.Cluster.Ruled.{Ruled, IsWritten, get-take}
use smol_raft.Cluster.Claims.{Holds, Holds_dec, Broken}

-- Logs with the same beginning hold the same there.
pub same-Holds :
    (t k : ℕ) (es fs : List LogEntry)
    → take (suc k) es ≡ take (suc k) fs
    → Holds t k es
    → Holds t k fs
same-Holds t k es fs same (e, h, q) = (
  e,
  (get-take k (suc k) fs (
      subst (λ xs. get_elem? xs k ≡ some e) same
        (get_elem?-take es (suc k) k (omega arith) ∙ h))).1,
  q,
)

pub take-Holds : (t k n : ℕ) (es : List LogEntry) → k < n → Holds t k es → Holds t k (take n es)
take-Holds t k n es low (e, h, q) = (e, get_elem?-take es n k low ∙ h, q)

pub Holds-take : (t k n : ℕ) (es : List LogEntry) → Holds t k (take n es) → Holds t k es
Holds-take t k n es (e, h, q) = (e, (get-take k n es h).1, q)

last_term-get :
    (es : List LogEntry) {e : LogEntry}
    → get_elem? es (length es - 1) ≡ some e
    → last_term (as_log es) ≡ e.term
unfolding last_term
last_term-get es h = rw (h, last_term)

module _ (ruled : Ruled) (led : List (ℕ × String))
    (bounded : (t k : ℕ) (e : LogEntry) → get_elem? (ruled t) k ≡ some e → e.term ≤ t) where
  -- A log is the beginning of that of its last entry's leader.
  last_of :
      (es : List LogEntry)
      → IsWritten ruled led es
      → (e : LogEntry) × (get_elem? es (length es - 1) ≡ some e)
        × (last_term (as_log es) ≡ e.term)
        × (take (length es) es ≡ take (length es) (ruled e.term))
        × (0 < length es)
  last_of es w =
      let long = lt-length_of_get es 0 w.shape.first in
      elim (Option-cases (get_elem? es (length es - 1))) [
        | inl n ↦ absurd (omega (arith, length-le_of_get es (length es - 1) n))
        | inr (e, h) ↦
            let whole : suc (length es - 1) ≡ length es = omega arith in
            (
              e,
              h,
              last_term-get es h,
              subst (λ n. take n es ≡ take n (ruled e.term)) whole (w.coherent (length es - 1) e h),
              long,
            )
      ]

  from_leader :
      (es : List LogEntry) (n t k u : ℕ)
      → take n es ≡ take n (ruled u)
      → k < n
      → Holds t k es
      → Holds t k (ruled u)
  from_leader es n t k u same low h =
      Holds-take t k n (ruled u) (subst (Holds t k) same (take-Holds t k n es low h))

  holds_low : (t k u : ℕ) → Holds t k (ruled u) → t ≤ u
  holds_low t k u (e, h, q) = omega (arith, bounded u k e h, q)

  module _ (rulers : (t : ℕ) → IsWritten ruled led (ruled t)) (mine bid : List LogEntry)
      (w : IsWritten ruled led mine) (b : IsWritten ruled led bid) (t k u : ℕ)
      (lower : (j : ℕ) (e : LogEntry) → get_elem? bid j ≡ some e → e.term < u)
      (h : Holds t k mine) where
    in_mine : k < length mine
    in_mine = lt-length_of_get mine k h.1

    -- The candidate's last term is later.
    later :
        (x y : LogEntry)
        → (take (length mine) mine ≡ take (length mine) (ruled x.term))
        → (get_elem? bid (length bid - 1) ≡ some y)
        → (take (length bid) bid ≡ take (length bid) (ruled y.term))
        → 0 < length bid
        → x.term < y.term
        → Holds t k bid ⊎ Broken ruled led t k u
    later x y mx hy my long newer =
        let low = holds_low t k x.term (from_leader mine (length mine) t k x.term mx in_mine h) in
        elim (Holds_dec t k (ruled y.term)) [
          | inr lacks ↦ elim (b.known (length bid - 1) y hy) [
            | inl z ↦ absurd (omega arith)
            | inr l ↦ inr (y.term, omega arith, lower (length bid - 1) y hy, l, lacks)
          ]
          | inl (e, g, q) ↦ elim (dec_lt k (length bid)) [
            | yes inside ↦ inl (
                Holds-take t k (length bid) bid (
                  subst (Holds t k) (sym my)
                    (take-Holds t k (length bid) (ruled y.term) inside (e, g, q))))
            | no past ↦ absurd (omega (arith, beyond e g q past low))
          ]
        ]
      where
        -- The candidate's last entry would be of a term up to t.
        beyond :
            (e : LogEntry)
            → get_elem? (ruled y.term) k ≡ some e
            → e.term ≡ t
            → ¬ (k < length bid)
            → t ≤ x.term
            → y.term ≤ t
        beyond e g q past low =
            let at : Holds y.term (length bid - 1) (ruled y.term) =
              from_leader bid (length bid) y.term (length bid - 1) y.term my (omega arith)
                (y, hy, refl) in
            let moved =
              subst (Holds y.term (length bid - 1)) ((rulers y.term).coherent k e g)
                (take-Holds y.term (length bid - 1) (suc k) (ruled y.term) (omega arith) at) in
            omega (
              arith,
              q,
              holds_low y.term (length bid - 1) e.term
                  (Holds-take y.term (length bid - 1) (suc k) (ruled e.term) moved),
            )

    -- What a voter's log holds is in the log of a candidate whose log is as up to date, unless a leader
    -- in between did not have it.
    pub up_to_date-Holds :
        (req : VoteRequest)
        → req.last_log_index ≡ last_index (as_log bid)
        → req.last_log_term ≡ last_term (as_log bid)
        → IsUpToDate req (as_log mine)
        → Holds t k bid ⊎ Broken ruled led t k u
    unfolding last_index
    up_to_date-Holds req index_told term_told ok =
        let (x, hx, tx, mx, lx) = last_of mine w in
        let (y, hy, ty, my, long) = last_of bid b in
        elim ok [
          | inl newer ↦ later x y mx hy my long (omega (arith, tx, ty, term_told, newer))
          | inr (same, no_fewer) ↦
              let room : length mine ≤ length bid = omega (arith, index_told, no_fewer) in
              let terms : x.term ≡ y.term = omega (arith, same, tx, ty, term_told) in
              let there : Holds t k (ruled y.term) =
                subst (λ v. Holds t k (ruled v)) terms
                  (from_leader mine (length mine) t k x.term mx in_mine h) in
              inl (
                Holds-take t k (length bid) bid (
                  subst (Holds t k) (sym my) (
                    take-Holds t k (length bid) (ruled y.term) (omega (arith, in_mine, room))
                      there)))
        ]
