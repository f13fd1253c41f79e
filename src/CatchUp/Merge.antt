-- ===== src/CatchUp/Merge.antt =====
-- What a merge with the leader's entries does to the follower's log.
use smol_raft.Prelude.{
  ℕ, zero, suc, ◌+◌, ◌-◌, ◌≤◌, ◌<◌, ◌≡◌, ◌≢◌, inl, inr, refl, sym, ◌∙◌, some, List, [], ◌∷◌, ◌++◌,
  arith, length, get_elem?, drop, get_elem?-append_left, get_elem?-append_right, get_elem?-take,
  get_elem?-drop, ◌==◌, Bool-cases, subst, dec_le, dec_lt,
}
use smol_raft.Types.{LogEntry}
use smol_raft.Log.{Log}
use smol_raft.Log.Merge.{overwrite, first_conflict, kept, rest, length-kept}

-- A conflict is a position at which the two lists differ in their terms.
pub first_conflict_differs :
    (k : ℕ) (old new : List LogEntry) (j : ℕ)
    → first_conflict k old new ≡ some j
    → (i : ℕ) × (x : LogEntry) × (e : LogEntry) × (j ≡ k + i)
      × (get_elem? old i ≡ some x)
      × (get_elem? new i ≡ some e)
      × (x.term ≢ e.term)
first_conflict_differs k [] new j h = absurd (cc)
first_conflict_differs k (x ∷ old) [] j h = absurd (cc)
first_conflict_differs k (x ∷ old) (e ∷ new) j h = elim (Bool-cases (x.term == e.term)) [
  | inl t ↦
      let (i, y, f, at, gy, gf, d) = first_conflict_differs (suc k) old new j (ground arith) in
      (suc i, y, f, omega arith, gy, gf, d)
  | inr t ↦ (0, x, e, ground arith, refl, refl, ground arith)
]

-- After the merge every new entry is matched in its term.
get-overwrite :
    (old new : List LogEntry) (i : ℕ) (e : LogEntry)
    → get_elem? new i ≡ some e
    → (x : LogEntry) × (get_elem? (overwrite old new) i ≡ some x) × (x.term ≡ e.term)
get-overwrite [] new i e h = (e, h, refl)
get-overwrite (x ∷ old) [] i e h = absurd (cc)
get-overwrite (x ∷ old) (f ∷ new) zero e h = elim (Bool-cases (x.term == f.term)) [
  | inl t ↦ (x, rw t, ground arith)
  | inr t ↦ (f, rw t, cc)
]
get-overwrite (x ∷ old) (f ∷ new) (suc i) e h = elim (Bool-cases (x.term == f.term)) [
  | inl t ↦ let (y, g, d) = get-overwrite old new i e h in (y, rw t g, d)
  | inr t ↦ (e, rw t h, refl)
]

-- The log m has an entry of the same term wherever the log n has one, from index p on.
abbrev pub AgreesFrom : ℕ → List LogEntry → List LogEntry → Type 0
AgreesFrom p n m =
    (i : ℕ) (b : LogEntry)
    → p ≤ i
    → get_elem? n i ≡ some b
    → (a : LogEntry) × (get_elem? m i ≡ some a) × (a.term ≡ b.term)

-- No two entries at an index up to c differ in their terms.
abbrev pub AgreesTo : ℕ → List LogEntry → List LogEntry → Type 0
AgreesTo c n m =
    (i : ℕ) (a b : LogEntry)
    → i ≤ c
    → get_elem? m i ≡ some a
    → get_elem? n i ≡ some b
    → a.term ≡ b.term

module _ (n : List LogEntry) (l : Log) (p : ℕ) (room : p < length l.entries) where
  pub conflict_above :
      (c j : ℕ)
      → AgreesTo c n l.entries
      → first_conflict (suc p) (rest p l) (drop (suc p) n) ≡ some j
      → c < j
  conflict_above c j agree h =
      let (i, x, e, at, gx, ge, d) =
        first_conflict_differs (suc p) (rest p l) (drop (suc p) n) j h in
      let gx' : get_elem? l.entries (suc p + i) ≡ some x =
        sym (get_elem?-drop l.entries (suc p) i) ∙ gx in
      let ge' : get_elem? n (suc p + i) ≡ some e = sym (get_elem?-drop n (suc p) i) ∙ ge in
      elim (dec_le (suc p + i) c) [
        | yes low ↦ absurd (d (agree (suc p + i) x e low gx' ge'))
        | no high ↦ omega arith
      ]

  get-merged_new :
      (i : ℕ) (b : LogEntry)
      → get_elem? n (suc p + i) ≡ some b
      → (a : LogEntry) × (get_elem? (kept p l ++ overwrite (rest p l) (drop (suc p) n)) (suc p + i)
          ≡ some a)
        × (a.term ≡ b.term)
  get-merged_new i b h =
      let (x, g, d) =
        get-overwrite (rest p l) (drop (suc p) n) i b (get_elem?-drop n (suc p) i ∙ h) in
      let there : get_elem? (kept p l ++ overwrite (rest p l) (drop (suc p) n))
            (length (kept p l) + i)
          ≡ some x =
        get_elem?-append_right (kept p l) _ i ∙ g in
      (
        x,
        subst (λ k. get_elem? (kept p l ++ overwrite (rest p l) (drop (suc p) n)) (k + i) ≡ some x)
            (length-kept p l room) there,
        d,
      )

  -- If the two logs agree at p, then the merge agrees from there on.
  pub AgreesFrom-merged :
      ((b : LogEntry)
        → get_elem? n p ≡ some b
        → (a : LogEntry) × (get_elem? l.entries p ≡ some a) × (a.term ≡ b.term))
      → AgreesFrom p n (kept p l ++ overwrite (rest p l) (drop (suc p) n))
  AgreesFrom-merged here i b low h = elim (dec_lt p i) [
    | no last ↦
        let same : i ≡ p = omega arith in
        let (a, g, d) = here b (subst (λ k. get_elem? n k ≡ some b) same h) in
        (
          a,
          subst (λ k. get_elem? (kept p l ++ overwrite (rest p l) (drop (suc p) n)) k ≡ some a)
              (sym same)
              (get_elem?-append_left (kept p l) _ p (omega (arith, length-kept p l room))
                ∙ get_elem?-take l.entries (suc p) p (omega arith)
                ∙ g),
          d,
        )
    | yes later ↦
        let split : i ≡ suc p + (i - suc p) = omega arith in
        let (a, g, d) =
          get-merged_new (i - suc p) b (subst (λ k. get_elem? n k ≡ some b) split h) in
        (
          a,
          subst (λ k. get_elem? (kept p l ++ overwrite (rest p l) (drop (suc p) n)) k ≡ some a)
              (sym split) g,
          d,
        )
  ]
