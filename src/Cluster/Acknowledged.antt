-- ===== src/Cluster/Acknowledged.antt =====
-- A success response at the leader: what it records of the peer, which the peer acknowledged.
use smol_raft.Prelude.{
  ℕ, suc, ◌+◌, ◌≤◌, ◌≡◌, ◌≢◌, inl, inr, refl, sym, ap, ◌∙◌, subst, String, Bool-cases, true, Option,
  none, some, Option-cases, List, [], ◌∷◌, length, In, arith, str_eq, str_eq_iff,
}
use smol_raft.Types.{leader, LogEntry, AppendEntriesRequest, AppendEntriesResponse}
use smol_raft.Log.Shape.{Indexed}
use smol_raft.Node.{Node, Indices, index_of, assign}
use smol_raft.Replication.{last_entry, record_match}
use smol_raft.CatchUp.Round.{index_of-assign}
use smol_raft.Cluster.{Answer}
use smol_raft.Cluster.Quorum.{str_dec}
use smol_raft.Cluster.Claims.{Acked}
use smol_raft.Cluster.Commits.{Matches}

last_index_of :
    (k : ℕ) (es : List LogEntry) (e : LogEntry)
    → Indexed (suc k) es
    → last_entry es ≡ some e
    → e.index ≡ k + length es
last_index_of k [] e h g = absurd (cc)
last_index_of k (x ∷ []) e h g =
    omega (arith, h.0, (let same : x ≡ e = cc in ap (λ (y : LogEntry). y.index) same))
last_index_of k (x ∷ y ∷ es) e h g = omega (arith, last_index_of (suc k) (y ∷ es) e h.1 g)

assign_other :
    (m : Indices) (key : String) (value : ℕ) (p : String)
    → p ≢ key
    → index_of p (assign m key value) ≡ index_of p m
assign_other m key value p n = elim (Bool-cases (str_eq key p)) [
  | inl t ↦ absurd (n (sym ((str_eq_iff key p).0 t)))
  | inr f ↦ rw f
]

-- The leader's node, with the match index of the peer written or not.
abbrev pub noted : Node → String → Option LogEntry → Node
noted n peer none = n
noted n peer (some e) = record n {
  next_index = assign n.next_index peer (e.index + 1);
  match_index = assign n.match_index peer e.index;
}

pub record_match-noted :
    (peer : String) (es : List LogEntry) (n : Node)
    → record_match peer es n ≡ noted n peer (last_entry es)
unfolding record_match
record_match-noted peer es n = elim (Option-cases (last_entry es)) [
  | inl e ↦ rw (e, record_match)
  | inr (x, e) ↦ rw (e, record_match)
]

module _ (host : String → String) (answers : List Answer) (n : Node) (peer : String)
    (req : AppendEntriesRequest) (resp : AppendEntriesResponse)
    (indexed : Indexed (suc req.prev_log_index) req.entries)
    (there : In (record { from = host peer; to = req; says = resp }) answers)
    (ok : resp.success ≡ true) (term : req.term ≡ n.current_term) (lead : n.state ≡ leader)
    (known : Matches host answers n) where
  by_answer :
      (p : String) (m : ℕ)
      → p ≡ peer
      → m ≤ req.prev_log_index + length req.entries
      → Acked answers (host p) n.current_term m
  by_answer p m e low =
      (record { from = host peer; to = req; says = resp }, there, ap host (sym e), ok, term, low)

  noted-Matches :
      (o : Option LogEntry) → last_entry req.entries ≡ o → Matches host answers (noted n peer o)
  noted-Matches none e l p m h g = known lead p m h g
  noted-Matches (some x) e l p m h g = elim (str_dec p peer) [
    | inl same ↦
        let at : index_of p (assign n.match_index peer x.index) ≡ some x.index =
          subst (λ q. index_of q (assign n.match_index peer x.index) ≡ some x.index) (sym same)
            (index_of-assign n.match_index peer x.index) in
        let value : x.index ≡ m = cc (at, g) in
        inr (
          by_answer p m same
            (omega (arith, value, last_index_of req.prev_log_index req.entries x indexed e)))
    | inr other ↦ known lead p m h (sym (assign_other n.match_index peer x.index p other) ∙ g)
  ]

  pub record_match-Matches : Matches host answers (record_match peer req.entries n)
  record_match-Matches =
      subst (Matches host answers) (sym (record_match-noted peer req.entries n))
        (noted-Matches (last_entry req.entries) refl)
