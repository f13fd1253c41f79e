-- ===== src/Server/Served.antt =====
-- What requests to the handlers of strokes and heartbeats do to a replica.
use smol_raft.Prelude.{
  true, length, ℕ, ◌≡◌, ◌≢◌, refl, ap, inl, inr, String, not, Bool-cases, Option, Option-cases, [],
  ◌∷◌, str_eq, str_eq_iff, ◌⊎◌, ◌++◌, some, none, arith, false,
}
use smol_raft.Types.{leader, StrokeEvent, VoteRequest, AppendEntriesRequest, AppendEntriesResponse}
use smol_raft.Log.{
  append as log_append, ℤ, Log, done, panicked, append_loop, append_entries as log_append_entries,
}
use smol_raft.Node.{Node, state_eq, status, signal_new_entry}
use smol_raft.Replication.{Handled, replied, crashed, handle_stroke}
use smol_raft.Replication.Replies.{Result, handle_append_entries-Result}
use smol_raft.Server.{
  StrokeAnswer, served, accepted, not_the_leader, Body, HttpRequest, Answer, refused, aborted, post,
  answer, serve_append, serve_heartbeat, serve_stroke, http_heartbeat, http_stroke,
}

post_cases {ℓ κ μ} :
    {A : Type ℓ} {B : Type κ} (P : Node × Answer B → Type μ) (decode : Body → Option A)
    (serve : A → Node → Node × Answer B) (r : HttpRequest) (n : Node)
    → ((code : ℕ) → P (n, refused code))
    → ((a : A) → P (serve a n))
    → P (post decode serve r n)
unfolding post
post_cases P decode serve r n bad good = elim (Bool-cases (not (str_eq r.verb "POST"))) [
  | inl t ↦ rw (t, post) (bad 405)
  | inr f ↦ elim (Option-cases (decode r.body)) [
    | inl e ↦ rw (f, e, post) (bad 400)
    | inr (a, e) ↦ rw (f, e, post) (good a)
  ]
]

log_of_done : (l : Log) (c : ℕ) {l' : Log} → log_append_entries l [] c ≡ done l' → l' ≡ l
unfolding log_append_entries append_loop
log_of_done l c h = cc

never : (l : Log) (c : ℕ) {l' : Log} → ¬ (log_append_entries l [] c ≡ panicked l')
unfolding log_append_entries append_loop
never l c h = cc

-- The log is as it was, and the handler did not panic.
abbrev Keeps : Node → Node × Answer AppendEntriesResponse → Type 0
Keeps n a = (a.0.log ≡ n.log) × (a.1 ≢ aborted)

kept_of_Result :
    (req : AppendEntriesRequest) (n : Node) (h : Handled)
    → Result (record req { entries = [] }) n h
    → Keeps n (answer h)
kept_of_Result req n (crashed m) res = absurd (never n.log n.commit_index res.log_panicked)
kept_of_Result req n (replied m r) (inl (ok, acc)) =
    (log_of_done n.log n.commit_index acc.log_merged, λ e. cc)
kept_of_Result req n (replied m r) (inr (bad, ref)) = (
  elim ref.reason [
    | inl (s, same, z) ↦ ap (λ (x : Node). x.log) same
    | inr (c, same, z, y, x) ↦ ap (λ (x : Node). x.log) same
  ],
  λ e. cc,
)

serve_heartbeat-Keeps : (req : AppendEntriesRequest) (n : Node) → Keeps n (serve_heartbeat req n)
unfolding serve_heartbeat serve_append
serve_heartbeat-Keeps req n =
    kept_of_Result req n _ (handle_append_entries-Result (record req { entries = [] }) n)

-- The node with an entry of its term for the stroke, and the signal that there is one.
abbrev pub extended : StrokeEvent → Node → Node
extended s n = record n {
  log = record {
    entries =
        n.log.entries
        ++ record { index = length n.log.entries; term = n.current_term; stroke = s } ∷ [];
  };
  new_entry = true;
}

-- The four ways in which a request to the stroke handler ends, with the node after it.
abbrev pub StrokeServed :
    (Body → Option StrokeEvent) → HttpRequest → Node → Node × Answer StrokeAnswer → Type 0
StrokeServed decode_stroke r n a =
    ((s : StrokeEvent) × (r.verb ≡ "POST")
      × (decode_stroke r.body ≡ some s)
      × (n.state ≡ leader)
      × (a.1 ≡ served 202 accepted)
      × (a.0 ≡ extended s n))
    ⊎ ((s : StrokeEvent) × (r.verb ≡ "POST")
        × (decode_stroke r.body ≡ some s)
        × (n.state ≢ leader)
        × (a ≡ (n, served 503 (not_the_leader n.leader_id))))
    ⊎ ((r.verb ≡ "POST") × (decode_stroke r.body ≡ none) × (a ≡ (n, refused 400)))
    ⊎ ((r.verb ≢ "POST") × (a ≡ (n, refused 405)))

stroke_taken :
    (s : StrokeEvent) (n : Node)
    → state_eq n.state leader ≡ true
    → serve_stroke s n ≡ (extended s n, served 202 accepted)
unfolding serve_stroke handle_stroke signal_new_entry log_append
stroke_taken s n l = let e : handle_stroke s n ≡ some (extended s n) = rw l in rw (e, serve_stroke)

stroke_refused :
    (s : StrokeEvent) (n : Node)
    → state_eq n.state leader ≡ false
    → serve_stroke s n ≡ (n, served 503 (not_the_leader n.leader_id))
unfolding serve_stroke handle_stroke status
stroke_refused s n l = let e : handle_stroke s n ≡ none = rw l in rw (e, serve_stroke)

module _ (decode_vote : Body → Option VoteRequest)
    (decode_append : Body → Option AppendEntriesRequest) (decode_stroke : Body → Option StrokeEvent)
    (atoi : String → Option ℤ) where
  -- A request to the stroke handler, in each of its four cases: a leader appends an entry of its term
  -- with the stroke, its index the length of the log, and answers 202; another node answers 503 with the
  -- leader it knows of; a body that is no stroke is answered 400, and another method 405. In the
  -- last three cases the node is as it was.
  pub http_stroke_appends :
      (r : HttpRequest) (n : Node)
      → StrokeServed decode_stroke r n
          (http_stroke decode_vote decode_append decode_stroke atoi r n)
  unfolding http_stroke post
  http_stroke_appends r n = elim (Bool-cases (str_eq r.verb "POST")) [
    | inr f ↦ inr (inr (inr (λ e. cc ((str_eq_iff r.verb "POST").1 e, f), rw f)))
    | inl t ↦
        let named = (str_eq_iff r.verb "POST").0 t in
        elim (Option-cases (decode_stroke r.body)) [
          | inl e ↦ inr (inr (inl (named, e, rw (t, e))))
          | inr (s, e) ↦ elim (Bool-cases (state_eq n.state leader)) [
            | inl l ↦ inl (
              s,
              named,
              e,
              ground arith,
              rw (t, e) (ap (λ p. p.1) (stroke_taken s n l)),
              rw (t, e) (ap (λ p. p.0) (stroke_taken s n l)),
            )
            | inr l ↦ inr (inl (s, named, e, ground arith, rw (t, e) (stroke_refused s n l)))
          ]
        ]
  ]

  -- A request to the heartbeat handler leaves the log as it is whatever its body holds, and its
  -- handler never panics.
  pub http_heartbeat_keeps_log :
      (r : HttpRequest) (n : Node)
      → let a = http_heartbeat decode_vote decode_append decode_stroke atoi r n in
        (a.0.log ≡ n.log) × (a.1 ≢ aborted)
  unfolding http_heartbeat
  http_heartbeat_keeps_log r n =
      post_cases (Keeps n) decode_append serve_heartbeat r n (λ code. (refl, λ e. cc))
        (λ req. serve_heartbeat-Keeps req n)
