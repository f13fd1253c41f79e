-- ===== src/Cluster/Commits.antt =====
-- A commit index against what majorities have acknowledged, and what the growth of the leaders' logs
-- and of the answers leaves of it.
use smol_raft.Prelude.{
  ℕ, ◌+◌, ◌≤◌, ◌≡◌, ◌⊎◌, inl, inr, refl, sym, ap, ◌∙◌, subst, String, some, List, [], ◌∷◌, length,
  get_elem?, get_elem?-append_left, lt-length_of_get, In, arith,
}
use smol_raft.Types.{leader, LogEntry, AppendEntriesRequest}
use smol_raft.Log.Committed.{KeepsTo}
use smol_raft.Node.{Node, index_of}
use smol_raft.Steps.Progress.{Progress}
use smol_raft.Cluster.{Member, Answer, update}
use smol_raft.Cluster.Sane.{written}
use smol_raft.Cluster.Ruled.{Ruled}
use smol_raft.Cluster.Extended.{Continues}
use smol_raft.Cluster.Longer.{Continues-Holds}
use smol_raft.Cluster.Claims.{Holds, Acked, Chosen}

-- A majority has an entry of a term up to u at an index from c on.
pub record Cover (members : List String) (ruled : Ruled) (led : List (ℕ × String))
    (answers : List Answer) (c u : ℕ) : Type 0 where
  pub term : ℕ
  pub at : ℕ
  pub reaches : c ≤ at
  pub past : term ≤ u
  pub chosen : Chosen members ruled led answers term at

-- The log is up to the commit index c that of a leader with such an entry.
abbrev pub Backed :
    List String → Ruled → List (ℕ × String) → List Answer → ℕ → ℕ → List LogEntry → Type 0
Backed members ruled led answers c u es =
    (c ≡ 0) ⊎ ((v : Cover members ruled led answers c u) × KeepsTo c (ruled v.term) es)

-- What a leader knows of its peers, they acknowledged.
abbrev pub Matches : (String → String) → List Answer → Node → Type 0
Matches host answers n =
    n.state ≡ leader
    → (p : String) (m : ℕ) → In p n.peers
    → index_of p n.match_index ≡ some m
    → (m ≡ 0) ⊎ Acked answers (host p) n.current_term m

pub record IsCommitted (members : List String) (host : String → String) (ruled : Ruled)
    (f : String → Member) (led : List (ℕ × String)) (sent : List AppendEntriesRequest)
    (answers : List Answer) : Type 0 where
  pub commits :
      (i : String)
      → In i members
      → Backed members ruled led answers
          (f i).node.commit_index
          (f i).node.current_term
          (f i).node.log.entries
  pub carried :
      (r : AppendEntriesRequest)
      → In r sent
      → (r.leader_commit ≤ r.prev_log_index + length r.entries)
        × ((r.leader_commit ≡ 0) ⊎ Cover members ruled led answers r.leader_commit r.term)
  pub matches : (i : String) → In i members → Matches host answers (f i).node

module _ (members : List String) (host : String → String) (ruled : Ruled) (f : String → Member)
    (led : List (ℕ × String)) (sent : List AppendEntriesRequest) (answers : List Answer)
    (v : IsCommitted members host ruled f led sent answers) where
  pub change_commit :
      (i : String) (m : Member)
      → Backed members ruled led answers m.node.commit_index m.node.current_term m.node.log.entries
      → Matches host answers m.node
      → IsCommitted members host ruled (update f i m) led sent answers
  change_commit i m b k = record {
    commits = λ j mem.
        written
          (λ x.
            Backed members ruled led answers x.node.commit_index x.node.current_term
              x.node.log.entries)
          f i m j (λ _. b) (λ _. v.commits j mem);
    carried = v.carried;
    matches =
        λ j mem. written (λ x. Matches host answers x.node) f i m j (λ _. k) (λ _. v.matches j mem);
  }

pub Acked-more :
    (answers more : List Answer)
    → ((a : Answer) → In a answers → In a more)
    → (v : String) (t k : ℕ) → Acked answers v t k
    → Acked more v t k
Acked-more answers more grows v t k (a, h, from, ok, term, low) =
    (a, grows a h, from, ok, term, low)

module _ (members : List String) (r q : Ruled) (led more : List (ℕ × String))
    (answers later : List Answer) (c : Continues r q led more)
    (elected : (b : ℕ × String) → In b led → In b more)
    (grows : (a : Answer) → In a answers → In a later) where
  Chosen-more : (t k : ℕ) → Chosen members r led answers t k → Chosen members q more later t k
  Chosen-more t k h = record {
    quorum = h.quorum;
    distinct = h.distinct;
    among = h.among;
    most = h.most;
    claimed = λ v g.
        let (there, by) = h.claimed v g in
        (
          Continues-Holds r q led more c t k t there,
          elim by [
            | inl l ↦ inl (elected (t, v) l)
            | inr a ↦ inr (Acked-more answers later grows v t k a)
          ],
        );
  }

  Cover-more : (c u : ℕ) → Cover members r led answers c u → Cover members q more later c u
  Cover-more c u h = record {
    term = h.term;
    at = h.at;
    reaches = h.reaches;
    past = h.past;
    chosen = Chosen-more h.term h.at h.chosen;
  }

-- There is a member in the majority.
pub Chosen-Holds :
    (members : List String) (ruled : Ruled) (led : List (ℕ × String)) (answers : List Answer)
    (t k : ℕ)
    → Chosen members ruled led answers t k
    → Holds t k (ruled t)
Chosen-Holds members ruled led answers t k h = go h.quorum refl
  where
    go : (vs : List String) → h.quorum ≡ vs → Holds t k (ruled t)
    go [] e = absurd (omega (arith, h.most, ap length e))
    go (x ∷ vs) e = (h.claimed x (subst (λ ys. In x ys) (sym e) (inl refl))).0

module _ (members : List String) (r q : Ruled) (led more : List (ℕ × String))
    (answers later : List Answer) (c : Continues r q led more)
    (elected : (b : ℕ × String) → In b led → In b more)
    (grows : (a : Answer) → In a answers → In a later) where
  -- The leader's log of the cover is the same up to the commit index when it is longer.
  Backed-more :
      (n u : ℕ) (es : List LogEntry)
      → Backed members r led answers n u es
      → Backed members q more later n u es
  unfolding Cover-more
  Backed-more n u es (inl z) = inl z
  Backed-more n u es (inr (h, keeps)) = inr (
    Cover-more members r q led more answers later c elected grows n u h,
    λ i a low g.
        let (tail, longer) = c.longer h.term in
        let there = Chosen-Holds members r led answers h.term h.at h.chosen in
        keeps i a low (
          sym (
            get_elem?-append_left (r h.term) tail i
              (omega (arith, h.reaches, lt-length_of_get (r h.term) h.at there.1)))
          ∙ ap (λ es. get_elem? es i) (sym longer)
          ∙ g),
  )

  pub IsCommitted-more :
      (host : String → String) (f : String → Member) (sent : List AppendEntriesRequest)
      → IsCommitted members host r f led sent answers
      → IsCommitted members host q f more sent later
  IsCommitted-more host f sent v = record {
    commits = λ i mem.
        Backed-more (f i).node.commit_index (f i).node.current_term (f i).node.log.entries
          (v.commits i mem);
    carried = λ x h.
        let (low, by) = v.carried x h in
        (
          low,
          elim by [
            | inl z ↦ inl z
            | inr h ↦ inr (
                Cover-more members r q led more answers later c elected grows x.leader_commit x.term
                  h)
          ],
        );
    matches = λ i mem lead p m h e. elim (v.matches i mem lead p m h e) [
      | inl z ↦ inl z
      | inr a ↦ inr (Acked-more answers later grows (host p) (f i).node.current_term m a)
    ];
  }

-- A commit index that stays is backed by what backed it.
pub Backed-kept :
    (members : List String) (ruled : Ruled) (led : List (ℕ × String)) (answers : List Answer)
    (n m : Node)
    → Progress n m
    → m.commit_index ≡ n.commit_index
    → Backed members ruled led answers n.commit_index n.current_term n.log.entries
    → Backed members ruled led answers m.commit_index m.current_term m.log.entries
Backed-kept members ruled led answers n m p same (inl z) = inl (same ∙ z)
Backed-kept members ruled led answers n m p same (inr (h, keeps)) = inr (
  record {
    term = h.term;
    at = h.at;
    reaches = omega (arith, same, h.reaches);
    past = omega (arith, h.past, p.term_kept);
    chosen = h.chosen;
  },
  λ i a low g.
      let within : i ≤ n.commit_index = omega (arith, same, low) in
      p.entries_kept i a within (keeps i a within g),
)
