-- ===== src/Hub/Sets.antt =====
-- The set of registered clients, and the store of their channels.
use smol_raft.Prelude.{ℕ, ◌≡◌, refl, true, false, Bool-cases, inl, inr, List, [], ◌∷◌, arith, ◌==◌}
use smol_raft.Hub.{has, remove}

-- No client is listed twice.
abbrev pub Distinct : List ℕ → Type 0
Distinct [] = Unit {0}
Distinct (c ∷ cs) = (has c cs ≡ false) × Distinct cs

pub has-remove : (c d : ℕ) (cs : List ℕ) → has d cs ≡ false → has d (remove c cs) ≡ false
has-remove c d [] h = refl
has-remove c d (x ∷ cs) h = ground (arith, has-remove c d cs)

pub has-remove_same : (c : ℕ) (cs : List ℕ) → has c (remove c cs) ≡ false
has-remove_same c [] = refl
has-remove_same c (x ∷ cs) = ground (arith, has-remove_same c cs)

pub has_of_remove : (c d : ℕ) (cs : List ℕ) → has d (remove c cs) ≡ true → has d cs ≡ true
has_of_remove c d cs h = elim (Bool-cases (has d cs)) [
  | inl t ↦ t
  | inr f ↦ absurd (cc (has-remove c d cs f))
]

pub remove-Distinct : (c : ℕ) (cs : List ℕ) → Distinct cs → Distinct (remove c cs)
remove-Distinct c [] h = tt
remove-Distinct c (x ∷ cs) h = elim (Bool-cases (x == c)) [
  | inl t ↦ rw t (remove-Distinct c cs h.1)
  | inr f ↦ rw f (has-remove c x cs h.0, remove-Distinct c cs h.1)
]

pub differs_of_has : (c d : ℕ) (cs : List ℕ) → has c cs ≡ false → has d cs ≡ true → (d == c) ≡ false
differs_of_has c d cs h g = elim (Bool-cases (d == c)) [
  | inr f ↦ f
  | inl t ↦ absurd (cc (eq_of d c t))
]
  where
    eq_of : (a b : ℕ) → (a == b) ≡ true → a ≡ b
    eq_of a b h = ground arith
