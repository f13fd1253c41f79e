-- ===== src/Addrs/Parses.antt =====
-- What `splitAddrs` returns.
use Prim.Native.Char.{Char}
use smol_raft.Prelude.{
  ◌≡◌, ◌≢◌, refl, ap, ◌∙◌, String, false, Bool-cases, inl, inr, List, [], ◌∷◌, All, str_eq,
  str_eq_iff,
}
use smol_raft.Addrs.{
  is_comma, onto, split_commas, trim_left, trim_right, trim_space, non_blank, split_addrs,
  split_replica_addrs,
}
use smol_raft.Addrs.Trim.{Lacks, trim_space_idem, trim_space-Lacks}

-- A text that may stand for an address: not empty, no comma in it, no white space at its ends.
pub record IsAddr (s : String) : Type 0 where
  pub filled : s ≢ ""
  pub lacks : Lacks s
  pub trimmed : trim_space s ≡ s

onto-Lacks :
    (c : Char) (ps : List String) → is_comma c ≡ false → All Lacks ps → All Lacks (onto c ps)
onto-Lacks c [] h g = ((h, tt), tt)
onto-Lacks c (p ∷ ps) h g = ((h, g.0), g.1)

split_commas-Lacks : (s : String) → All Lacks (split_commas s)
unfolding split_commas
split_commas-Lacks String.[] = (tt, tt)
split_commas-Lacks (String.◌∷◌ c s) = elim (Bool-cases (is_comma c)) [
  | inl t ↦ rw t (tt, split_commas-Lacks s)
  | inr f ↦ rw f (onto-Lacks c (split_commas s) f (split_commas-Lacks s))
]

non_blank-IsAddr : (ps : List String) → All Lacks ps → All IsAddr (non_blank ps)
unfolding non_blank
non_blank-IsAddr [] h = tt
non_blank-IsAddr (p ∷ ps) h = elim (Bool-cases (str_eq (trim_space p) "")) [
  | inl t ↦ rw t (non_blank-IsAddr ps h.1)
  | inr f ↦ rw f (
    record {
      filled = λ e. cc ((str_eq_iff (trim_space p) "").1 e);
      lacks = trim_space-Lacks p h.0;
      trimmed = trim_space_idem p;
    },
    non_blank-IsAddr ps h.1,
  )
]

-- Whatever the variable holds, each address is not empty, has no comma in it and no white space at its
-- ends.
pub split_addrs-IsAddr : (s : String) → All IsAddr (split_addrs s)
unfolding split_addrs
split_addrs-IsAddr s = elim (Bool-cases (str_eq s "")) [
  | inl t ↦ rw t tt
  | inr f ↦ rw f (non_blank-IsAddr (split_commas s) (split_commas-Lacks s))
]

abbrev text_append : String → String → String
text_append String.[] t = t
text_append (String.◌∷◌ c s) t = String.◌∷◌ c (text_append s t)

-- The addresses with commas between them.
abbrev pub join_commas : List String → String
join_commas [] = ""
join_commas (p ∷ []) = p
join_commas (p ∷ q ∷ ps) = text_append p (String.◌∷◌ "," (join_commas (q ∷ ps)))

split_part : (p : String) → Lacks p → split_commas p ≡ p ∷ []
unfolding split_commas
split_part String.[] h = refl
split_part (String.◌∷◌ c p) h = rw (h.0, split_part p h.1)

split_before :
    (p s : String) → Lacks p → split_commas (text_append p (String.◌∷◌ "," s)) ≡ p ∷ split_commas s
unfolding split_commas
split_before String.[] s h = refl
split_before (String.◌∷◌ c p) s h = rw (h.0, split_before p s h.1)

split_joined :
    (p : String) (ps : List String)
    → All Lacks (p ∷ ps)
    → split_commas (join_commas (p ∷ ps)) ≡ p ∷ ps
split_joined p [] h = split_part p h.0
split_joined p (q ∷ ps) h =
    split_before p (join_commas (q ∷ ps)) h.0 ∙ ap (◌∷◌ p) (split_joined q ps h.1)

non_blank_same : (ps : List String) → All IsAddr ps → non_blank ps ≡ ps
unfolding non_blank
non_blank_same [] h = refl
non_blank_same (p ∷ ps) h = elim (Bool-cases (str_eq p "")) [
  | inl t ↦ absurd (h.0.filled ((str_eq_iff p "").0 t))
  | inr f ↦ rw (h.0.trimmed, f) (ap (◌∷◌ p) (non_blank_same ps h.1))
]

All-Lacks : (ps : List String) → All IsAddr ps → All Lacks ps
All-Lacks [] h = tt
All-Lacks (p ∷ ps) h = (h.0.lacks, All-Lacks ps h.1)

no_text : (c : Char) (s : String) → ◌≢◌ {A = String} (String.◌∷◌ c s) ""
no_text c s e = cc

pub joined_filled : (p : String) (ps : List String) → p ≢ "" → join_commas (p ∷ ps) ≢ ""
joined_filled p [] n = n
joined_filled String.[] (q ∷ ps) n = λ _. n refl
joined_filled (String.◌∷◌ c p) (q ∷ ps) n = no_text c _

-- Addresses that are joined with commas are read back.
pub split_addrs-join : (ps : List String) → All IsAddr ps → split_addrs (join_commas ps) ≡ ps
unfolding split_addrs
split_addrs-join [] h = refl
split_addrs-join (p ∷ ps) h = elim (Bool-cases (str_eq (join_commas (p ∷ ps)) "")) [
  | inr f ↦
      rw f (ap non_blank (split_joined p ps (All-Lacks (p ∷ ps) h)) ∙ non_blank_same (p ∷ ps) h)
  | inl t ↦ absurd (joined_filled p ps h.0.filled ((str_eq_iff _ "").0 t))
]

no_addrs : non_blank (split_commas "") ≡ []
unfolding non_blank split_commas trim_space trim_left trim_right
no_addrs = refl

-- Without its test for an empty text `splitAddrs` returns the same.
pub split_replica_addrs-same : (s : String) → split_replica_addrs s ≡ split_addrs s
unfolding split_replica_addrs split_addrs
split_replica_addrs-same s = elim (Bool-cases (str_eq s "")) [
  | inl t ↦ rw t (ap (λ x. non_blank (split_commas x)) ((str_eq_iff s "").0 t) ∙ no_addrs)
  | inr f ↦ rw f
]
