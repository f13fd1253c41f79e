-- ===== src/Cluster/Counted.antt =====
-- The peers that a leader counts for an index, as a majority of the members.
use smol_raft.Prelude.{
  ℕ, suc, ◌≤◌, ◌≡◌, ◌⊎◌, inl, inr, refl, sym, ap, subst, String, true, Bool-cases, some, List, [],
  ◌∷◌, length, map, In, leb, leb→le, if◌then◌else◌, arith, str_eq, str_eq_iff,
}
use smol_raft.Node.{Indices, index_of, assign, assign_all}
use smol_raft.Replication.{index_or_zero, count_matching}
use smol_raft.Cluster.Quorum.{Distinct}

-- The peers whose match index is at least idx.
pub matching : Indices → ℕ → List String → List String
matching m idx [] = []
matching m idx (p ∷ ps) =
    let rest = matching m idx ps in
    if leb idx (index_or_zero (index_of p m)) then p ∷ rest else rest

pub length-matching :
    (m : Indices) (idx : ℕ) (ps : List String)
    → length (matching m idx ps) ≡ count_matching m idx ps
unfolding matching count_matching
length-matching m idx [] = refl
length-matching m idx (p ∷ ps) = elim (Bool-cases (leb idx (index_or_zero (index_of p m)))) [
  | inl t ↦ rw t (omega (arith, length-matching m idx ps))
  | inr f ↦ rw f (omega (arith, length-matching m idx ps))
]

-- Such a peer is one of the list and has such a match index.
pub In-matching :
    (m : Indices) (idx : ℕ) (ps : List String) (p : String)
    → In p (matching m idx ps)
    → In p ps × (idx ≤ index_or_zero (index_of p m))
unfolding matching
In-matching m idx [] p h = elim h [ ]
In-matching m idx (q ∷ ps) p h = elim (Bool-cases (leb idx (index_or_zero (index_of q m)))) [
  | inr f ↦ let (a, b) = In-matching m idx ps p (rw f at h) in (inr a, b)
  | inl t ↦ at_head t (rw t at h) (In-matching m idx ps p)
]
  where
    at_head :
        leb idx (index_or_zero (index_of q m)) ≡ true
        → (p ≡ q) ⊎ In p (matching m idx ps)
        → (In p (matching m idx ps) → In p ps × (idx ≤ index_or_zero (index_of p m)))
        → ((p ≡ q) ⊎ In p ps) × (idx ≤ index_or_zero (index_of p m))
    at_head t (inl e) ih = (
      inl e,
      subst (λ x. idx ≤ index_or_zero (index_of x m)) (sym e)
          (leb→le idx (index_or_zero (index_of q m)) t),
    )
    at_head t (inr k) ih = let (a, b) = ih k in (inr a, b)

pub In-map :
    (f : String → String) (x : String) (xs : List String)
    → In x (map f xs)
    → (y : String) × In y xs × (x ≡ f y)
In-map f x [] h = elim h [ ]
In-map f x (y ∷ ys) (inl e) = (y, inl refl, e)
In-map f x (y ∷ ys) (inr h) = let (z, i, e) = In-map f x ys h in (z, inr i, e)

pub In-map_of :
    (f : String → String) (y : String) (xs : List String) → In y xs → In (f y) (map f xs)
In-map_of f y [] h = elim h [ ]
In-map_of f y (x ∷ xs) (inl e) = inl (ap f e)
In-map_of f y (x ∷ xs) (inr h) = inr (In-map_of f y xs h)

pub matching-Distinct :
    (f : String → String) (m : Indices) (idx : ℕ) (ps : List String)
    → Distinct (map f ps)
    → Distinct (map f (matching m idx ps))
unfolding matching
matching-Distinct f m idx [] d = tt
matching-Distinct f m idx (p ∷ ps) d = elim (Bool-cases (leb idx (index_or_zero (index_of p m)))) [
  | inr no_match ↦ rw no_match (matching-Distinct f m idx ps d.1)
  | inl t ↦ rw t (
    λ h.
        let (y, i, e) = In-map f (f p) (matching m idx ps) h in
        d.0 (subst (λ z. In z (map f ps)) (sym e) (In-map_of f y ps (In-matching m idx ps y i).0)),
    matching-Distinct f m idx ps d.1,
  )
]

pub length-map : (f : String → String) (xs : List String) → length (map f xs) ≡ length xs
length-map f [] = refl
length-map f (x ∷ xs) = ap suc (length-map f xs)

-- A new leader's match indices are 0.
assign_all_kept :
    (ps : List String) (v : ℕ) (m : Indices) (p : String)
    → index_of p m ≡ some v
    → index_of p (assign_all ps v m) ≡ some v
assign_all_kept [] v m p h = h
assign_all_kept (q ∷ ps) v m p h =
    assign_all_kept ps v (assign m q v) p
      (elim (Bool-cases (str_eq q p)) [ inl t ↦ rw t | inr f ↦ rw f h ])

pub index_of-assign_all :
    (ps : List String) (v : ℕ) (m : Indices) (p : String)
    → In p ps
    → index_of p (assign_all ps v m) ≡ some v
index_of-assign_all [] v m p h = elim h [ ]
index_of-assign_all (q ∷ ps) v m p (inl e) =
    assign_all_kept ps v (assign m q v) p (rw ((str_eq_iff q p).1 (sym e)))
index_of-assign_all (q ∷ ps) v m p (inr h) = index_of-assign_all ps v (assign m q v) p h
