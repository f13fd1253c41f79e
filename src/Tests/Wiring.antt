-- ===== src/Tests/Wiring.antt =====
-- Three replicas whose peer addresses are the ids of the two others.
use smol_raft.Prelude.{
  suc, length, ◌≡◌, ◌≢◌, refl, sym, ◌∙◌, subst, inl, inr, String, List, [], ◌∷◌, map, In, str_eq,
  str_eq_iff, if◌then◌else◌,
}
use mathlib.Core.Bool.{false≢true}
use smol_raft.Node.{Config}
use smol_raft.Cluster.{IsConfigured}
use smol_raft.Cluster.Pending.{IsHosted}
use smol_raft.Cluster.Quorum.{Distinct, Among}

abbrev pub three : List String
three = "n1" ∷ "n2" ∷ "n3" ∷ []

abbrev peers_of : String → List String
peers_of i =
    if str_eq i "n1"
    then "n2" ∷ "n3" ∷ []
    else if str_eq i "n2"
    then "n1" ∷ "n3" ∷ []
    else "n1" ∷ "n2" ∷ []

abbrev pub wired : String → Config
wired i = record { node_id = i; peer_addrs = peers_of i; gateway_addr = "gw" }

abbrev pub itself : String → String
itself addr = addr

n1_full : ◌≢◌ {A = String} "n1" ""
n1_full e = false≢true ((str_eq_iff "n1" "").1 e)

n2_full : ◌≢◌ {A = String} "n2" ""
n2_full e = false≢true ((str_eq_iff "n2" "").1 e)

n3_full : ◌≢◌ {A = String} "n3" ""
n3_full e = false≢true ((str_eq_iff "n3" "").1 e)

pub n2_is_not_n1 : ◌≢◌ {A = String} "n2" "n1"
n2_is_not_n1 e = false≢true ((str_eq_iff "n2" "n1").1 e)

n3_is_not_n1 : ◌≢◌ {A = String} "n3" "n1"
n3_is_not_n1 e = false≢true ((str_eq_iff "n3" "n1").1 e)

pub n3_is_not_n2 : ◌≢◌ {A = String} "n3" "n2"
n3_is_not_n2 e = false≢true ((str_eq_iff "n3" "n2").1 e)

-- A statement of the three members.
each {ℓ} : (P : String → Type ℓ) → P "n1" → P "n2" → P "n3" → (i : String) → In i three → P i
each P a b c i h = elim h [
  | inl e ↦ subst P (sym e) a
  | inr g ↦ elim g [
    | inl e ↦ subst P (sym e) b
    | inr k ↦ elim k [ inl e ↦ subst P (sym e) c | inr z ↦ elim z [ ] ]
  ]
]

pub wired-IsConfigured : IsConfigured three wired
wired-IsConfigured = record {
  full = λ i h. elim h [
    | inl e ↦ λ q. n1_full (sym e ∙ q)
    | inr g ↦ elim g [
      | inl e ↦ λ q. n2_full (sym e ∙ q)
      | inr k ↦ elim k [ inl e ↦ λ q. n3_full (sym e ∙ q) | inr z ↦ elim z [ ] ]
    ]
  ];
  named = λ i h. refl;
  sized = each (λ i. suc (length (peers_of i)) ≡ 3) refl refl refl;
}

not_of : (a b c : String) → c ≢ a → c ≢ b → ¬ In c (a ∷ b ∷ [])
not_of a b c n m h = elim h [ inl e ↦ n e | inr g ↦ elim g [ inl e ↦ m e | inr z ↦ elim z [ ] ] ]

pub wired-IsHosted : IsHosted three itself (λ i. (wired i).peer_addrs)
wired-IsHosted = record {
  apart =
      each (λ i. Distinct (map itself (peers_of i)))
        (alone "n2" "n3" (λ e. n3_is_not_n2 (sym e)), (λ h. h, tt))
        (alone "n1" "n3" (λ e. n3_is_not_n1 (sym e)), (λ h. h, tt))
        (alone "n1" "n2" (λ e. n2_is_not_n1 (sym e)), (λ h. h, tt));
  others =
      each (λ i. ¬ In i (map itself (peers_of i)))
        (not_of "n2" "n3" "n1" (λ e. n2_is_not_n1 (sym e)) (λ e. n3_is_not_n1 (sym e)))
        (not_of "n1" "n3" "n2" n2_is_not_n1 (λ e. n3_is_not_n2 (sym e)))
        (not_of "n1" "n2" "n3" n3_is_not_n1 n3_is_not_n2);
  inside =
      each (λ i. Among (map itself (peers_of i)) three) (λ v h. inr h)
        (λ v h. elim h [ inl e ↦ inl e | inr g ↦ inr (inr g) ])
        (λ v h. elim h [
          | inl e ↦ inl e
          | inr g ↦ inr (elim g [ inl e ↦ inl e | inr z ↦ elim z [ ] ])
        ]);
}
  where
    alone : (a b : String) → a ≢ b → ¬ In a (b ∷ [])
    alone a b n h = elim h [ inl e ↦ n e | inr z ↦ elim z [ ] ]
