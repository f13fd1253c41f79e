-- ===== src/Log/Cases.antt =====
-- The ways one round of `AppendEntries` can go, and the rule for its loop.
use smol_raft.Prelude.{
  ℕ, ◌≤◌, ◌<◌, ◌≡◌, ◌≢◌, none, some, Option-cases, Bool-cases, inl, inr, List, [], ◌∷◌, arith,
  get_elem?, take, leb, ◌==◌,
}
use smol_raft.Types.{LogEntry}
use smol_raft.Log.{Outcome, done, panicked, state_of, push, append_one, append_loop, ◌>>=◌}

module _ {ℓ} (P : Outcome (List LogEntry) → Type ℓ) (es : List LogEntry) (e : LogEntry) (c : ℕ)
    (free : get_elem? es e.index ≡ none → P (done (push es e)))
    (same : (x : LogEntry) → get_elem? es e.index ≡ some x → x.term ≡ e.term → P (done es))
    (fault : (x : LogEntry)
      → get_elem? es e.index ≡ some x
      → x.term ≢ e.term
      → e.index ≤ c
      → P (panicked es))
    (cut : (x : LogEntry)
      → get_elem? es e.index ≡ some x
      → x.term ≢ e.term
      → c < e.index
      → P (done (push (take e.index es) e))) where
  taken_cases : (x : LogEntry) → get_elem? es e.index ≡ some x → P (append_one es e c)
  unfolding append_one
  taken_cases x q = elim (Bool-cases (x.term == e.term)) [
    | inl t ↦ rw (q, append_one) (rw t (same x q (ground arith)))
    | inr t ↦ elim (Bool-cases (leb e.index c)) [
      | inl l ↦ rw (q, append_one) (rw (t, l) (fault x q (ground arith) (ground arith)))
      | inr l ↦ rw (q, append_one) (rw (t, l) (cut x q (ground arith) (ground arith)))
    ]
  ]

  pub append_one_cases : P (append_one es e c)
  unfolding append_one
  append_one_cases = elim (Option-cases (get_elem? es e.index)) [
    | inl q ↦ rw (q, append_one) (free q)
    | inr (x, q) ↦ taken_cases x q
  ]

module _ {ℓ} (P : List LogEntry → Type ℓ) (c : ℕ)
    (keep : (es : List LogEntry) (e : LogEntry) → P es → P (state_of (append_one es e c))) where
  -- What each round keeps, the loop keeps, also when it panics.
  pub append_loop_inv : (es new : List LogEntry) → P es → P (state_of (append_loop es new c))
  unfolding append_loop
  append_loop_inv es [] h = h
  append_loop_inv es (e ∷ new) h =
      after (append_one es e c) (keep es e h) (λ es'. append_loop_inv es' new)
    where
      after :
          (o : Outcome (List LogEntry))
          → P (state_of o)
          → ((es' : List LogEntry) → P es' → P (state_of (append_loop es' new c)))
          → P (state_of (o >>= λ es'. append_loop es' new c))
      after (done es') g rec = rec es' g
      after (panicked es') g rec = g
