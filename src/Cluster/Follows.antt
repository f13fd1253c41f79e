-- ===== src/Cluster/Follows.antt =====
-- The operations of one member, and that its log keeps to the leaders' logs.
use smol_raft.Prelude.{
  ℕ, zero, suc, ◌≤◌, ◌≡◌, ◌⊎◌, inl, inr, refl, sym, ap, ◌∙◌, subst, String, Bool-cases, none, some,
  Option-cases, List, [], ◌∷◌, drop, get_elem?, get_elem?-drop, arith, str_eq,
}
use smol_raft.Types.{leader, LogEntry, VoteRequest, AppendEntriesRequest}
use smol_raft.Log.{Log, Outcome, done, panicked, append_entries, term_at, pos}
use smol_raft.Log.Shape.{IsLog, Indexed-at, Indexed-drop}
use smol_raft.Node.{Node, Indices, index_of}
use smol_raft.Replication.{node_of, handle_append_entries, accept, make_request}
use smol_raft.Replication.Follow.{following, append_cases}
use smol_raft.Replication.Accept.{accept-done, accept-panicked}
use smol_raft.Steps.Invariant.Defs.{ArePositive}
use smol_raft.CatchUp.Round.{request, make_request-leader, term_at-get}
use smol_raft.Cluster.Roles.{Calm}
use smol_raft.Cluster.Yields.{Yields}
use smol_raft.Cluster.Ballots.{Votes, Stands}
use smol_raft.Cluster.Ruled.{Ruled, IsWritten, Follows, Carries}

module _ (ruled : Ruled) (led : List (ℕ × String)) (i : String) (n m : Node)
    (h : Follows ruled led i n) where
  pub Calm-Follows : Calm n m → m.log ≡ n.log → Follows ruled led i m
  Calm-Follows c same = record {
    log_written = subst (λ (l : Log). IsWritten ruled led l.entries) (sym same) h.log_written;
    rules = λ l. elim c.2 [
      | inl (t, v, s) ↦ ap (λ (x : Log). x.entries) same ∙ h.rules (sym s ∙ l) ∙ ap ruled (sym t)
      | inr (t, s) ↦ absurd (cc)
    ];
    late = λ up. elim c.2 [
      | inl (t, v, s) ↦ omega (arith, h.late (λ e. up (s ∙ e)), t)
      | inr (t, s) ↦ absurd (up s)
    ];
    elected_once = λ t g.
        let (le, one) = h.elected_once t g in
        (
          omega (arith, c.2),
          λ e q. elim c.2 [ inl (u, v, s) ↦ one (sym u ∙ e) (sym s ∙ q) | inr (u, s) ↦ cc ],
        );
  }

  pub vote-Follows : (req : VoteRequest) → Votes req n m → m.log ≡ n.log → Follows ruled led i m
  vote-Follows req k same = record {
    log_written = subst (λ (l : Log). IsWritten ruled led l.entries) (sym same) h.log_written;
    rules = λ l. elim k.4 [
      | inl (newer, f) ↦ absurd (cc)
      | inr (t, s, free) ↦
          ap (λ (x : Log). x.entries) same ∙ h.rules (sym s ∙ l) ∙ ap ruled (t ∙ sym k.2)
    ];
    late = λ up. elim k.4 [
      | inl (newer, f) ↦ absurd (up f)
      | inr (t, s, free) ↦ omega (arith, h.late (λ e. up (s ∙ e)), t, k.2)
    ];
    elected_once = λ t g.
        let (le, one) = h.elected_once t g in
        (
          omega (arith, k.4, k.2),
          λ e q. elim k.4 [
            | inl (newer, f) ↦ cc
            | inr (u, s, free) ↦ one (u ∙ sym k.2 ∙ e) (sym s ∙ q)
          ],
        );
  }

  pub stand-Follows : (req : VoteRequest) → Stands req n m → m.log ≡ n.log → Follows ruled led i m
  stand-Follows req k same = record {
    log_written = subst (λ (l : Log). IsWritten ruled led l.entries) (sym same) h.log_written;
    rules = λ l. absurd (cc (k.4, l));
    late = λ up. omega (arith, k.2);
    elected_once = λ t g.
        let (le, one) = h.elected_once t g in (omega (arith, k.2), λ e q. omega (arith, k.2));
  }

accept_state : (req : AppendEntriesRequest) (n : Node) → (node_of (accept req n)).state ≡ n.state
accept_state req n = go (append_entries n.log req.entries n.commit_index) refl
  where
    go :
        (o : Outcome Log)
        → append_entries n.log req.entries n.commit_index ≡ o
        → (node_of (accept req n)).state ≡ n.state
    go (done l) e = rw (accept-done req n l e)
    go (panicked l) e = rw (accept-panicked req n l e)

-- A node that leads after a request did nothing with it.
pub append_idle :
    (req : AppendEntriesRequest) (n : Node)
    → (node_of (handle_append_entries req n)).state ≡ leader
    → node_of (handle_append_entries req n) ≡ n
append_idle req n =
    append_cases (λ h. (node_of h).state ≡ leader → node_of h ≡ n) req n (λ _ _. refl)
      (λ _ _ _ l. absurd (cc l)) (λ _ _ l. absurd (cc (accept_state req (following req n), l)))

pub append-Follows :
    (ruled : Ruled) (led : List (ℕ × String)) (i : String) (n : Node) (req : AppendEntriesRequest)
    → Follows ruled led i n
    → Calm n (node_of (handle_append_entries req n))
      ⊎ Yields req n (node_of (handle_append_entries req n))
    → IsWritten ruled led (node_of (handle_append_entries req n)).log.entries
    → Follows ruled led i (node_of (handle_append_entries req n))
append-Follows ruled led i n req h kind w =
    let m = node_of (handle_append_entries req n) in
    record {
      log_written = w;
      rules = λ l.
          let idle = append_idle req n l in
          ap (λ (x : Node). x.log.entries) idle
          ∙ h.rules (ap (λ (x : Node). x.state) (sym idle) ∙ l)
          ∙ ap (λ (x : Node). ruled x.current_term) (sym idle);
      late = λ up. elim kind [
        | inl c ↦ elim c.2 [
          | inl (t, v, s) ↦ omega (arith, h.late (λ e. up (s ∙ e)), t)
          | inr (t, s) ↦ absurd (up s)
        ]
        | inr y ↦ absurd (up y.5)
      ];
      elected_once = λ t g.
          let (le, once) = h.elected_once t g in
          elim kind [
            | inl c ↦ (
              omega (arith, c.2),
              λ e q. elim c.2 [ inl (u, v, s) ↦ once (sym u ∙ e) (sym s ∙ q) | inr (u, s) ↦ cc ],
            )
            | inr y ↦ (omega (arith, y.2, y.4), λ e q. cc (y.5, q))
          ];
    }

pub index-pos :
    (m : Indices) (peer : String) (k : ℕ) → ArePositive m → index_of peer m ≡ some k → 1 ≤ k
index-pos [] peer k p h = absurd (cc)
index-pos ((q, j) ∷ m) peer k p h = elim (Bool-cases (str_eq q peer)) [
  | inl t ↦ ground (arith, p.0)
  | inr f ↦ index-pos m peer k p.1 (rw f at h)
]

pub no_index :
    (peer : String) (n : Node) → index_of peer n.next_index ≡ none → make_request peer n ≡ none
unfolding make_request
no_index peer n e = ground arith

term_at-none : (l : Log) (k : ℕ) → get_elem? l.entries k ≡ none → term_at l (pos k) ≡ 0
unfolding term_at
term_at-none l k e = rw (e, term_at)

drop_past : (k : ℕ) (es : List LogEntry) → get_elem? es k ≡ none → drop (suc k) es ≡ []
drop_past k [] e = refl
drop_past zero (x ∷ es) e = absurd (cc)
drop_past (suc k) (x ∷ es) e = drop_past k es e

request-Carries : (n : Node) (p : ℕ) → IsLog n.log.entries → Carries (request n p) n.log.entries
request-Carries n p shape = record {
  indexed =
      Indexed-at (drop (suc p) n.log.entries) (omega arith)
        (Indexed-drop 0 (suc p) n.log.entries shape.indexed);
  from_log = λ k e g. sym (get_elem?-drop n.log.entries (suc p) k) ∙ g;
  behind = elim (Option-cases (get_elem? n.log.entries p)) [
    | inl e ↦ inr (term_at-none n.log p e, drop_past p n.log.entries e)
    | inr (x, e) ↦ inl (x, e, sym (term_at-get n.log p e))
  ];
}

-- A leader's request carries its own log.
pub sent-Carries :
    (peer : String) (n : Node) {req : AppendEntriesRequest}
    → ArePositive n.next_index
    → IsLog n.log.entries
    → n.state ≡ leader
    → make_request peer n ≡ some req
    → Carries req n.log.entries
sent-Carries peer n {req} positive shape lead h = elim (Option-cases (index_of peer n.next_index)) [
  | inl e ↦ absurd (cc (no_index peer n e, h))
  | inr (k, e) ↦ known_index k e
]
  where
    known_index : (k : ℕ) → index_of peer n.next_index ≡ some k → Carries req n.log.entries
    known_index zero e = absurd (omega (arith, index-pos n.next_index peer 0 positive e))
    known_index (suc p) e =
        subst (λ r. Carries r n.log.entries) (cc (make_request-leader peer n p lead e, h))
          (request-Carries n p shape)
