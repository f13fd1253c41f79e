-- ===== src/Addrs/Trim.antt =====
-- What `strings.TrimSpace` leaves is trimmed.
use Prim.Native.Char.{Char}
use smol_raft.Prelude.{◌≡◌, refl, ap, ◌∙◌, String, false, Bool-cases, inl, inr}
use smol_raft.Addrs.{is_space, is_comma, trim_left, unless_blank, trim_right, trim_space}

-- The text does not begin with white space.
abbrev Starts : String → Type 0
Starts String.[] = Unit {0}
Starts (String.◌∷◌ c s) = is_space c ≡ false

-- No character of the text is a comma.
abbrev pub Lacks : String → Type 0
Lacks String.[] = Unit {0}
Lacks (String.◌∷◌ c s) = (is_comma c ≡ false) × Lacks s

trim_left-Starts : (s : String) → Starts (trim_left s)
unfolding trim_left
trim_left-Starts String.[] = tt
trim_left-Starts (String.◌∷◌ c s) = elim (Bool-cases (is_space c)) [
  | inl t ↦ rw t (trim_left-Starts s)
  | inr f ↦ rw f f
]

trim_left_same : (s : String) → Starts s → trim_left s ≡ s
unfolding trim_left
trim_left_same String.[] h = refl
trim_left_same (String.◌∷◌ c s) h = rw h

unless_blank-Starts : (c : Char) (t : String) → is_space c ≡ false → Starts (unless_blank c t)
unless_blank-Starts c String.[] h = rw h h
unless_blank-Starts c (String.◌∷◌ d t) h = h

trim_right-Starts : (s : String) → Starts s → Starts (trim_right s)
unfolding trim_right
trim_right-Starts String.[] h = tt
trim_right-Starts (String.◌∷◌ c s) h = unless_blank-Starts c (trim_right s) h

trim_right-unless :
    (c : Char) (t : String) → trim_right t ≡ t → trim_right (unless_blank c t) ≡ unless_blank c t
unfolding trim_right
trim_right-unless c String.[] h = elim (Bool-cases (is_space c)) [
  | inl t ↦ rw t
  | inr f ↦ rw (f, trim_right) (rw f)
]
trim_right-unless c (String.◌∷◌ d t) h = ap (unless_blank c) h

trim_right_idem : (s : String) → trim_right (trim_right s) ≡ trim_right s
unfolding trim_right
trim_right_idem String.[] = refl
trim_right_idem (String.◌∷◌ c s) = trim_right-unless c (trim_right s) (trim_right_idem s)

pub trim_space_idem : (s : String) → trim_space (trim_space s) ≡ trim_space s
unfolding trim_space
trim_space_idem s =
    ap trim_right (
      trim_left_same (trim_right (trim_left s))
        (trim_right-Starts (trim_left s) (trim_left-Starts s)))
    ∙ trim_right_idem (trim_left s)

trim_left-Lacks : (s : String) → Lacks s → Lacks (trim_left s)
unfolding trim_left
trim_left-Lacks String.[] h = tt
trim_left-Lacks (String.◌∷◌ c s) h = elim (Bool-cases (is_space c)) [
  | inl t ↦ rw t (trim_left-Lacks s h.1)
  | inr f ↦ rw f h
]

unless_blank-Lacks :
    (c : Char) (t : String) → is_comma c ≡ false → Lacks t → Lacks (unless_blank c t)
unless_blank-Lacks c String.[] h g = elim (Bool-cases (is_space c)) [
  | inl t ↦ rw t tt
  | inr f ↦ rw f (h, tt)
]
unless_blank-Lacks c (String.◌∷◌ d t) h g = (h, g)

trim_right-Lacks : (s : String) → Lacks s → Lacks (trim_right s)
unfolding trim_right
trim_right-Lacks String.[] h = tt
trim_right-Lacks (String.◌∷◌ c s) h =
    unless_blank-Lacks c (trim_right s) h.0 (trim_right-Lacks s h.1)

pub trim_space-Lacks : (s : String) → Lacks s → Lacks (trim_space s)
unfolding trim_space
trim_space-Lacks s h = trim_right-Lacks (trim_left s) (trim_left-Lacks s h)
