-- ===== src/Addrs.antt =====
-- replica/cmd/main.go and gateway/cmd/main.go: `splitAddrs`, which both have.
--
-- A text is split and trimmed character by character. `split_commas` and `trim_space` are
-- `strings.Split` at "," and `strings.TrimSpace`, with the characters that `unicode.IsSpace` names.
pub mod Trim
pub mod Parses
use Prim.Native.Char.{Char, code}
use smol_raft.Prelude.{
  ℕ, String, Bool, true, false, not, ◌&&◌, ◌||◌, List, [], ◌∷◌, map, leb, ◌==◌, str_eq,
  if◌then◌else◌,
}

abbrev pub is_comma : Char → Bool
is_comma c = code c == b','

unfoldable pub is_space : Char → Bool
is_space c =
    let k = code c in
    (leb b'\t' k && leb k b'\r')
    || (k == b' ')
    || (k == 133)
    || (k == 160)
    || (k == 5760)
    || (leb 8192 k && leb k 8202)
    || (k == 8232)
    || (k == 8233)
    || (k == 8239)
    || (k == 8287)
    || (k == 12288)

-- The character before the first part.
abbrev pub onto : Char → List String → List String
onto c [] = (String.◌∷◌ c String.[]) ∷ []
onto c (p ∷ ps) = String.◌∷◌ c p ∷ ps

unfoldable pub split_commas : String → List String
split_commas String.[] = String.[] ∷ []
split_commas (String.◌∷◌ c s) =
    let parts = split_commas s in if is_comma c then String.[] ∷ parts else onto c parts

unfoldable pub trim_left : String → String
trim_left String.[] = String.[]
trim_left (String.◌∷◌ c s) = let rest = trim_left s in if is_space c then rest else String.◌∷◌ c s

abbrev pub unless_blank : Char → String → String
unless_blank c String.[] = if is_space c then String.[] else String.◌∷◌ c String.[]
unless_blank c (String.◌∷◌ d s) = String.◌∷◌ c (String.◌∷◌ d s)

unfoldable pub trim_right : String → String
trim_right String.[] = String.[]
trim_right (String.◌∷◌ c s) = unless_blank c (trim_right s)

unfoldable pub trim_space : String → String
trim_space s = trim_right (trim_left s)

-- The loop over the parts.
unfoldable pub non_blank : List String → List String
non_blank [] = []
non_blank (p ∷ ps) =
    let t = trim_space p in let rest = non_blank ps in if not (str_eq t "") then t ∷ rest else rest

-- The replica's.
unfoldable pub split_addrs : String → List String
split_addrs s = if str_eq s "" then [] else non_blank (split_commas s)

-- The gateway's.
unfoldable pub split_replica_addrs : String → List String
split_replica_addrs s = non_blank (split_commas s)
