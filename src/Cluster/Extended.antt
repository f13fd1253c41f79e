-- ===== src/Cluster/Extended.antt =====
-- A leader's log grows, at its election and with every stroke; the other logs keep to the leaders'.
use smol_raft.Prelude.{
  ℕ, suc, ◌≤◌, ◌<◌, ◌≡◌, ◌≢◌, inl, inr, sym, ap, ◌∙◌, subst, String, some, List, [], ◌++◌,
  append-nil, length, take, get_elem?, get_elem?-append_left, lt-length_of_get, length-take, In,
  arith, ℕ_discrete, if◌then◌else◌, ◌==◌,
}
use smol_raft.Types.{leader, LogEntry, AppendEntriesRequest}
use smol_raft.Cluster.{Member, update}
use smol_raft.Cluster.Sane.{IsLed, written}
use smol_raft.Cluster.Ruled.{Ruled, IsWritten, Follows, Carries, IsMatched, take-append}

-- Every leader's log is continued, and every election stays won.
pub record Continues (r q : Ruled) (led more : List (ℕ × String)) : Type 0 where
  pub longer : (t : ℕ) → (tail : List LogEntry) × (q t ≡ r t ++ tail)
  pub still : (t : ℕ) → IsLed t led → IsLed t more

pub Continues-refl : (r : Ruled) (led : List (ℕ × String)) → Continues r r led led
Continues-refl r led = record { longer = λ t. ([], sym (append-nil (r t))); still = λ t l. l }

module _ (r q : Ruled) (led more : List (ℕ × String)) (c : Continues r q led more) where
  pub Continues-IsWritten : (es : List LogEntry) → IsWritten r led es → IsWritten q more es
  Continues-IsWritten es w = record {
    shape = w.shape;
    coherent = λ k e h.
        let (tail, longer) = c.longer e.term in
        let same = w.coherent k e h in
        let long : suc k ≤ length (r e.term) = omega (
          arith,
          ap length same,
          length-take (suc k) es,
          length-take (suc k) (r e.term),
          lt-length_of_get es k h,
        ) in
        same ∙ sym (take-append (suc k) (r e.term) tail long) ∙ ap (take (suc k)) (sym longer);
    known = λ k e h. elim (w.known k e h) [ inl z ↦ inl z | inr l ↦ inr (c.still e.term l) ];
  }

  get_longer : (t k : ℕ) (e : LogEntry) → get_elem? (r t) k ≡ some e → get_elem? (q t) k ≡ some e
  get_longer t k e h =
      let (tail, longer) = c.longer t in
      subst (λ es. get_elem? es k ≡ some e) (sym longer)
        (get_elem?-append_left (r t) tail k (lt-length_of_get (r t) k h) ∙ h)

  pub Continues-Carries :
      (req : AppendEntriesRequest) → Carries req (r req.term) → Carries req (q req.term)
  Continues-Carries req h = record {
    indexed = h.indexed;
    from_log = λ k e g. get_longer req.term _ e (h.from_log k e g);
    behind = elim h.behind [
      | inl (x, g, t) ↦ inl (x, get_longer req.term _ x g, t)
      | inr z ↦ inr z
    ];
  }

abbrev pub set_ruled : Ruled → ℕ → List LogEntry → Ruled
set_ruled r t es u = if u == t then es else r u

pub set_ruled_self : (r : Ruled) (t : ℕ) (es : List LogEntry) → set_ruled r t es t ≡ es
set_ruled_self r t es = ground arith

pub set_ruled_other : (r : Ruled) (t u : ℕ) (es : List LogEntry) → u ≢ t → set_ruled r t es u ≡ r u
set_ruled_other r t u es n = ground arith

module _ (members : List String) (ruled : Ruled) (f : String → Member)
    (led more : List (ℕ × String)) (sent : List AppendEntriesRequest)
    (v : IsMatched members ruled f led sent) (t : ℕ) (es tail : List LogEntry) (i : String)
    (m : Member) (longer : es ≡ ruled t ++ tail) (still : (u : ℕ) → IsLed u led → IsLed u more)
    (now : IsLed t more) (late : 0 < t) where
  abbrev grown : Ruled
  grown = set_ruled ruled t es

  pub grown-Continues : Continues ruled grown led more
  grown-Continues = record {
    longer = λ u. elim (ℕ_discrete u t) [
      | yes e ↦ (
        tail,
        subst (λ k. grown k ≡ ruled k ++ tail) (sym e) (set_ruled_self ruled t es ∙ longer),
      )
      | no n ↦ ([], set_ruled_other ruled t u es n ∙ sym (append-nil (ruled u)))
    ];
    still = still;
  }

  pub extend_ruled :
      IsWritten grown more es
      → Follows grown more i m.node
      → ((j : String)
          → In j members
          → j ≢ i
          → (f j).node.state ≡ leader
          → (f j).node.current_term ≢ t)
      → ((j : String) (u : ℕ) → j ≢ i → In (u, j) more → In (u, j) led)
      → IsMatched members grown (update f i m) more sent
  extend_ruled w mine others same = record {
    nobody = set_ruled_other ruled t 0 es (λ e. omega arith) ∙ v.nobody;
    unruled = λ u no_one.
        set_ruled_other ruled t u es (λ e. no_one (subst (λ k. IsLed k more) (sym e) now))
        ∙ v.unruled u (λ l. no_one (still u l));
    rulers = λ u. elim (ℕ_discrete u t) [
      | yes e ↦
          subst (λ k. IsWritten grown more (grown k)) (sym e)
            (subst (IsWritten grown more) (sym (set_ruled_self ruled t es)) w)
      | no n ↦
          subst (IsWritten grown more) (sym (set_ruled_other ruled t u es n))
            (Continues-IsWritten ruled grown led more grown-Continues (ruled u) (v.rulers u))
    ];
    follows = λ j mem.
        written (λ x. Follows grown more j x.node) f i m j
          (λ e. subst (λ k. Follows grown more k m.node) (sym e) mine)
          (λ n.
            let h = v.follows j mem in
            record {
              log_written =
                  Continues-IsWritten ruled grown led more grown-Continues (f j).node.log.entries
                    h.log_written;
              rules = λ l.
                  h.rules l
                  ∙ sym (set_ruled_other ruled t (f j).node.current_term es (others j mem n l));
              late = h.late;
              elected_once = λ u g. h.elected_once u (same j u n g);
            });
    carries = λ req h. Continues-Carries ruled grown led more grown-Continues req (v.carries req h);
  }
