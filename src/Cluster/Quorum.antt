-- ===== src/Cluster/Quorum.antt =====
-- Two majorities of the members have a member in common.
use smol_raft.Prelude.{
  suc, ◌+◌, ◌≤◌, ◌<◌, ◌≡◌, ◌≢◌, ◌⊎◌, inl, inr, refl, sym, ap, ◌∙◌, subst, String, false, Bool-cases,
  List, [], ◌∷◌, length, In, str_eq, str_eq_iff, if◌then◌else◌, arith,
}

-- No string is listed twice.
abbrev pub Distinct : List String → Type 0
Distinct [] = Unit {0}
Distinct (x ∷ xs) = (¬ In x xs) × Distinct xs

pub str_dec : (a b : String) → (a ≡ b) ⊎ (a ≢ b)
str_dec a b = elim (Bool-cases (str_eq a b)) [
  | inl t ↦ inl ((str_eq_iff a b).0 t)
  | inr f ↦ inr (λ e. cc ((str_eq_iff a b).1 e))
]

pub In_dec : (x : String) (xs : List String) → In x xs ⊎ (¬ In x xs)
In_dec x [] = inr (λ h. h)
In_dec x (y ∷ ys) = elim (str_dec x y) [
  | inl e ↦ inl (inl e)
  | inr n ↦ elim (In_dec x ys) [
    | inl h ↦ inl (inr h)
    | inr m ↦ inr (λ h. elim h [ inl e ↦ n e | inr k ↦ m k ])
  ]
]

without : String → List String → List String
without x [] = []
without x (y ∷ ys) = let rest = without x ys in if str_eq y x then rest else y ∷ rest

In-without : (x v : String) (ys : List String) → In v (without x ys) → In v ys × (v ≢ x)
unfolding without
In-without x v [] h = elim h [ ]
In-without x v (y ∷ ys) h = elim (Bool-cases (str_eq y x)) [
  | inl t ↦ let r = In-without x v ys (rw t at h) in (inr r.0, r.1)
  | inr f ↦ elim (kept f) [
    | inl e ↦ (inl e, λ same. cc ((str_eq_iff y x).1 (sym e ∙ same)))
    | inr k ↦ let r = In-without x v ys k in (inr r.0, r.1)
  ]
]
  where
    kept : str_eq y x ≡ false → (v ≡ y) ⊎ In v (without x ys)
    kept f = rw f at h

without-Distinct : (x : String) (ys : List String) → Distinct ys → Distinct (without x ys)
unfolding without
without-Distinct x [] d = tt
without-Distinct x (y ∷ ys) d = elim (Bool-cases (str_eq y x)) [
  | inl t ↦ rw t (without-Distinct x ys d.1)
  | inr f ↦ rw f (λ h. d.0 (In-without x y ys h).0, without-Distinct x ys d.1)
]

length-without_absent :
    (x : String) (ys : List String) → ¬ In x ys → length (without x ys) ≡ length ys
unfolding without
length-without_absent x [] h = refl
length-without_absent x (y ∷ ys) h = elim (Bool-cases (str_eq y x)) [
  | inl t ↦ absurd (h (inl (sym ((str_eq_iff y x).0 t))))
  | inr f ↦ rw f (ap suc (length-without_absent x ys (λ k. h (inr k))))
]

length-without :
    (x : String) (ys : List String) → Distinct ys → length ys ≤ suc (length (without x ys))
unfolding without
length-without x [] d = omega arith
length-without x (y ∷ ys) d = elim (Bool-cases (str_eq y x)) [
  | inl t ↦ rw t (
      omega (arith, length-without_absent x ys (subst (λ z. ¬ In z ys) ((str_eq_iff y x).0 t) d.0)))
  | inr f ↦ rw f (omega (arith, length-without x ys d.1))
]

abbrev pub Among : List String → List String → Type 0
Among xs ms = (v : String) → In v xs → In v ms

Among-tail : (x : String) (xs ms : List String) → Among xs (x ∷ ms) → ¬ In x xs → Among xs ms
Among-tail x xs ms a n v h = elim (a v h) [
  | inl e ↦ absurd (n (subst (λ z. In z xs) e h))
  | inr k ↦ k
]

Among-without : (x : String) (xs ms : List String) → Among xs (x ∷ ms) → Among (without x xs) ms
Among-without x xs ms a v h =
    let r = In-without x v xs h in elim (a v r.0) [ inl e ↦ absurd (r.1 e) | inr k ↦ k ]

-- Two lists of distinct members, together longer than the list of members, have one in common.
pub common :
    (ms xs ys : List String)
    → Distinct xs
    → Distinct ys
    → Among xs ms
    → Among ys ms
    → length ms < length xs + length ys
    → (v : String) × In v xs × In v ys
common [] [] [] dx dy ax ay h = absurd (omega arith)
common [] (x ∷ xs) ys dx dy ax ay h = absurd (ax x (inl refl))
common [] [] (y ∷ ys) dx dy ax ay h = absurd (ay y (inl refl))
common (m ∷ ms) xs ys dx dy ax ay h = elim (In_dec m xs) [
  | inl here ↦ elim (In_dec m ys) [
    | inl also ↦ (m, here, also)
    | inr not_y ↦
        let (v, p, q) =
          common ms (without m xs) ys (without-Distinct m xs dx) dy (Among-without m xs ms ax)
            (Among-tail m ys ms ay not_y) (omega (arith, length-without m xs dx)) in
        (v, (In-without m v xs p).0, q)
  ]
  | inr not_x ↦
      let (v, p, q) =
        common ms xs (without m ys) dx (without-Distinct m ys dy) (Among-tail m xs ms ax not_x)
          (Among-without m ys ms ay) (omega (arith, length-without m ys dy)) in
      (v, p, (In-without m v ys q).0)
]
