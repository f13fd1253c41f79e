-- ===== src/Cluster/Ruled.antt =====
-- The logs of the replicas against the logs of the leaders: `ruled t` is the log of the leader of term
-- t as it last was, and for a term without a leader the sentinel alone.
use smol_raft.Prelude.{
  ℕ, zero, suc, ◌+◌, ◌≤◌, ◌<◌, ◌≡◌, ◌≢◌, ◌⊎◌, refl, sym, ap, ◌∙◌, subst, String, some, List, [],
  ◌∷◌, ◌++◌, length, take, get_elem?, get_elem?-take, lt-length_of_get, length-take, In, arith,
  dec_lt,
}
use smol_raft.Types.{follower, candidate, leader, LogEntry, AppendEntriesRequest}
use smol_raft.Log.{sentinel}
use smol_raft.Log.Shape.{IsLog, Indexed}
use smol_raft.Node.{Node}
use smol_raft.Cluster.{Member, update}
use smol_raft.Cluster.Sane.{IsLed, written}

abbrev pub Ruled : Type 0
Ruled = ℕ → List LogEntry

-- Up to any of its entries, the log is that of the leader of the entry's term.
abbrev pub Coherent : Ruled → List LogEntry → Type 0
Coherent ruled es =
    (k : ℕ) (e : LogEntry) → get_elem? es k ≡ some e → take (suc k) es ≡ take (suc k) (ruled e.term)

-- Every entry has the term of a leader, or is the sentinel's.
abbrev pub Known : List (ℕ × String) → List LogEntry → Type 0
Known led es = (k : ℕ) (e : LogEntry) → get_elem? es k ≡ some e → (e.term ≡ 0) ⊎ IsLed e.term led

pub record IsWritten (ruled : Ruled) (led : List (ℕ × String)) (es : List LogEntry) : Type 0 where
  pub shape : IsLog es
  pub coherent : Coherent ruled es
  pub known : Known led es

-- The node of member i has such a log, which as a leader's is that of its term.
pub record Follows (ruled : Ruled) (led : List (ℕ × String)) (i : String) (n : Node) : Type 0 where
  pub log_written : IsWritten ruled led n.log.entries
  pub rules : n.state ≡ leader → n.log.entries ≡ ruled n.current_term
  pub late : n.state ≢ follower → 0 < n.current_term
  pub elected_once :
      (t : ℕ) → In (t, i) led → (t ≤ n.current_term) × (n.current_term ≡ t → n.state ≢ candidate)

-- The request carries entries of the log es, and the term of the entry before them; if there was no such
-- entry it carries nothing.
pub record Carries (req : AppendEntriesRequest) (es : List LogEntry) : Type 0 where
  pub indexed : Indexed (suc req.prev_log_index) req.entries
  pub from_log :
      (k : ℕ) (e : LogEntry)
      → get_elem? req.entries k ≡ some e
      → get_elem? es (suc req.prev_log_index + k) ≡ some e
  pub behind :
      ((x : LogEntry) × (get_elem? es req.prev_log_index ≡ some x) × (x.term ≡ req.prev_log_term))
      ⊎ ((req.prev_log_term ≡ 0) × (req.entries ≡ []))

pub record IsMatched (members : List String) (ruled : Ruled) (f : String → Member)
    (led : List (ℕ × String)) (sent : List AppendEntriesRequest) : Type 0 where
  pub nobody : ruled 0 ≡ sentinel ∷ []
  pub unruled : (t : ℕ) → (¬ IsLed t led) → ruled t ≡ sentinel ∷ []
  pub rulers : (t : ℕ) → IsWritten ruled led (ruled t)
  pub follows : (i : String) → In i members → Follows ruled led i (f i).node
  pub carries : (r : AppendEntriesRequest) → In r sent → Carries r (ruled r.term)

pub change_follower :
    {members : List String} {ruled : Ruled} {f : String → Member} {led : List (ℕ × String)}
    {sent : List AppendEntriesRequest} (v : IsMatched members ruled f led sent) (i : String)
    (m : Member)
    → Follows ruled led i m.node
    → IsMatched members ruled (update f i m) led sent
change_follower {members} {ruled} {f} {led} v i m h = record {
  nobody = v.nobody;
  unruled = v.unruled;
  rulers = v.rulers;
  follows = λ j mem.
      written (λ x. Follows ruled led j x.node) f i m j
        (λ e. subst (λ k. Follows ruled led k m.node) (sym e) h) (λ n. v.follows j mem);
  carries = v.carries;
}

pub take-take : (k n : ℕ) (es : List LogEntry) → k ≤ n → take k (take n es) ≡ take k es
take-take zero n es h = refl
take-take (suc k) zero es h = absurd (omega arith)
take-take (suc k) (suc n) [] h = refl
take-take (suc k) (suc n) (x ∷ es) h = ap (◌∷◌ x) (take-take k n es (omega arith))

pub take-append : (k : ℕ) (xs ys : List LogEntry) → k ≤ length xs → take k (xs ++ ys) ≡ take k xs
take-append zero xs ys h = refl
take-append (suc k) [] ys h = absurd (omega arith)
take-append (suc k) (x ∷ xs) ys h = ap (◌∷◌ x) (take-append k xs ys (omega arith))

pub get-take :
    (k n : ℕ) (es : List LogEntry) {e : LogEntry}
    → get_elem? (take n es) k ≡ some e
    → (k < n) × (get_elem? es k ≡ some e)
get-take k n es h = elim (dec_lt k n) [
  | yes low ↦ (low, sym (get_elem?-take es n k low) ∙ h)
  | no high ↦ absurd (omega (arith, lt-length_of_get (take n es) k h, length-take n es))
]

-- The beginning of such a log is one.
pub take-IsWritten :
    (ruled : Ruled) (led : List (ℕ × String)) (n : ℕ) (es : List LogEntry)
    → IsWritten ruled led es
    → IsLog (take n es)
    → IsWritten ruled led (take n es)
take-IsWritten ruled led n es w shape = record {
  shape = shape;
  coherent = λ k e h.
      let (low, g) = get-take k n es h in take-take (suc k) n es (omega arith) ∙ w.coherent k e g;
  known = λ k e h. w.known k e (get-take k n es h).1;
}
