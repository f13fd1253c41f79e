-- ===== src/CatchUp/Round.antt =====
-- One round between the leader and its peer: the request, and the two answers to it.
use smol_raft.Prelude.{
  ℕ, suc, ◌≤◌, ◌<◌, ◌≡◌, inl, inr, refl, sym, ap, ◌∙◌, subst, String, true, false, some,
  Option-cases, arith, drop, get_elem?, length, lt-length_of_get, str_eq_iff,
}
use smol_raft.Types.{leader, LogEntry, AppendEntriesRequest, AppendEntriesResponse}
use smol_raft.Log.{Log, last_index, get_from, term_at, pos, sentinel}
use smol_raft.Log.Shape.{IsLog, Indexed-at, Indexed-drop}
use smol_raft.Log.Merge.{rest, first_conflict}
use smol_raft.Node.{Node, Indices, index_of, assign}
use smol_raft.Node.Roles.{step_down-le}
use smol_raft.Replication.{
  replied, check_prev, respond, make_request, handle_append_entries, receive_reply, back_up,
}
use smol_raft.Replication.Follow.{following, handle-current}
use smol_raft.Replication.Accept.{
  PrevMatches, SparesCommitted, appended, next_commit, handle_append_entries-accepts,
}
use smol_raft.CatchUp.Merge.{AgreesFrom, AgreesTo, conflict_above, AgreesFrom-merged}
use smol_raft.CatchUp.{catch_up}

-- The request of the leader n for a peer whose next index is p + 1.
abbrev pub request : Node → ℕ → AppendEntriesRequest
request n p = record {
  term = n.current_term;
  leader_id = n.id;
  prev_log_index = p;
  prev_log_term = term_at n.log (pos p);
  entries = drop (suc p) n.log.entries;
  leader_commit = n.commit_index;
}

pub make_request-leader :
    (peer : String) (n : Node) (p : ℕ)
    → n.state ≡ leader
    → index_of peer n.next_index ≡ some (suc p)
    → make_request peer n ≡ some (request n p)
unfolding make_request get_from
make_request-leader peer n p lead next =
    rw (lead, next, make_request)
      (ap
        (λ q.
          some (record (request n p) { prev_log_index = q; prev_log_term = term_at n.log (pos q) }))
        (omega arith))

pub term_at-get :
    (l : Log) (i : ℕ) {e : LogEntry} → get_elem? l.entries i ≡ some e → term_at l (pos i) ≡ e.term
unfolding term_at
term_at-get l i h = rw (h, term_at)

pub index_of-assign :
    (m : Indices) (key : String) (value : ℕ) → index_of key (assign m key value) ≡ some value
index_of-assign m key value = rw ((str_eq_iff key key).1 refl)

-- The node m after it refused the request.
abbrev refusal : ℕ → ℕ → AppendEntriesResponse
refusal t conflict = record { term = t; success = false; conflict_index = conflict }

module _ (peer : String) (n : Node) (p : ℕ) (lead : n.state ≡ leader) (t conflict : ℕ)
    (old : t ≤ n.current_term) (positive : 1 ≤ conflict) where
  receive_reply-refusal :
      receive_reply peer (request n p) (some (refusal t conflict)) n
      ≡ record n { next_index = assign n.next_index peer conflict }
  unfolding receive_reply back_up
  receive_reply-refusal = rw (step_down-le t n old) (rw lead (ground arith))

module _ (n m : Node) (p : ℕ) (shape_n : IsLog n.log.entries) (shape_m : IsLog m.log.entries)
    (terms : m.current_term ≤ n.current_term)
    (agree : AgreesTo m.commit_index n.log.entries m.log.entries)
    (matches : PrevMatches (request n p) m.log) where
  room : p < length m.log.entries
  room = elim matches [
    | inl e ↦ omega (arith, lt-length_of_get m.log.entries 0 shape_m.first)
    | inr (x, g, t) ↦ lt-length_of_get m.log.entries p g
  ]

  spares : SparesCommitted (request n p) m
  spares =
      elim (Option-cases (first_conflict (suc p) (rest p m.log) (drop (suc p) n.log.entries))) [
        | inl e ↦ inl e
        | inr (j, e) ↦
            inr (j, e, conflict_above n.log.entries m.log p room m.commit_index j agree e)
      ]

  here :
      (b : LogEntry)
      → get_elem? n.log.entries p ≡ some b
      → (a : LogEntry) × (get_elem? m.log.entries p ≡ some a) × (a.term ≡ b.term)
  here b h = elim matches [
    | inl e ↦
        let at_n : get_elem? n.log.entries p ≡ some sentinel =
          subst (λ k. get_elem? n.log.entries k ≡ some sentinel) (sym e) shape_n.first in
        let at_m : get_elem? m.log.entries p ≡ some sentinel =
          subst (λ k. get_elem? m.log.entries k ≡ some sentinel) (sym e) shape_m.first in
        (sentinel, at_m, cc)
    | inr (x, g, t) ↦ (x, g, t ∙ term_at-get n.log p h)
  ]

  -- The state of the peer after it accepted the request.
  abbrev settled : Node
  settled = record (following (request n p) m) {
    log = appended (request n p) m.log;
    commit_index =
        next_commit m.commit_index n.commit_index (last_index (appended (request n p) m.log));
  }

  pub round-accepts :
      handle_append_entries (request n p) m
      ≡ replied settled (record { term = n.current_term; success = true; conflict_index = 0 })
  round-accepts =
      handle_append_entries-accepts (request n p) m shape_m
        (Indexed-at (drop (suc p) n.log.entries) (omega arith)
          (Indexed-drop 0 (suc p) n.log.entries shape_n.indexed))
        terms matches spares

  pub AgreesFrom-settled : AgreesFrom p n.log.entries settled.log.entries
  AgreesFrom-settled = AgreesFrom-merged n.log.entries m.log p room here

-- After a round that the peer refuses the leader's next index is the conflict index.
pub catch_up-refused :
    (rounds : ℕ) (peer : String) (n m : Node) (p conflict : ℕ)
    → n.state ≡ leader
    → index_of peer n.next_index ≡ some (suc p)
    → m.current_term ≤ n.current_term
    → check_prev (request n p) m.log ≡ some conflict
    → 1 ≤ conflict
    → catch_up (suc rounds) peer n m
      ≡ catch_up rounds peer
          (record n { next_index = assign n.next_index peer conflict })
          (following (request n p) m)
unfolding catch_up respond
catch_up-refused rounds peer n m p conflict lead next terms clash positive =
    rw (make_request-leader peer n p lead next, catch_up)
      (rw (handle-current (request n p) m terms) (
        rw (clash, respond)
          (ap (λ n'. catch_up rounds peer n' (following (request n p) m))
            (receive_reply-refusal peer n p lead m.current_term conflict terms positive))))

-- A round that the peer accepts is the last.
pub catch_up-accepted :
    (rounds : ℕ) (peer : String) (n m m' : Node) (p t : ℕ)
    → n.state ≡ leader
    → index_of peer n.next_index ≡ some (suc p)
    → handle_append_entries (request n p) m
      ≡ replied m' (record { term = t; success = true; conflict_index = 0 })
    → catch_up (suc rounds) peer n m
      ≡ some (
        receive_reply peer
            (request n p)
            (some (record { term = t; success = true; conflict_index = 0 }))
            n,
        m',
      )
unfolding catch_up
catch_up-accepted rounds peer n m m' p t lead next ok =
    rw (make_request-leader peer n p lead next, catch_up) (rw ok)
