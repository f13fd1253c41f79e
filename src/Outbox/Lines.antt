-- ===== src/Outbox/Lines.antt =====
-- What the browser reads of the frames.
use smol_raft.Prelude.{
  ℕ, ◌≡◌, refl, sym, ap, ◌∙◌, false, List, [], ◌∷◌, ◌++◌, append_assoc, append-nil, All, ◌==◌,
  if◌then◌else◌,
}
use smol_raft.Hub.{Bytes}
use smol_raft.Outbox.{Frame, text, ping, close_frame, drain}

-- No byte is a newline, as in JSON.
abbrev pub IsLine : Bytes → Type 0
IsLine [] = Unit {0}
IsLine (b ∷ m) = ((b == b'\n') ≡ false) × IsLine m

-- What the browser does with a frame: it splits the text at newlines.
abbrev onto : ℕ → List Bytes → List Bytes
onto b [] = (b ∷ []) ∷ []
onto b (m ∷ ms) = (b ∷ m) ∷ ms

abbrev pub lines : Bytes → List Bytes
lines [] = [] ∷ []
lines (b ∷ m) = let rest = lines m in if b == b'\n' then [] ∷ rest else onto b rest

abbrev pub read_frame : Frame → List Bytes
read_frame (text m) = lines m
read_frame ping = []
read_frame close_frame = []

abbrev pub read_frames : List Frame → List Bytes
read_frames [] = []
read_frames (f ∷ fs) = read_frame f ++ read_frames fs

read_frames-append :
    (fs gs : List Frame) → read_frames (fs ++ gs) ≡ read_frames fs ++ read_frames gs
read_frames-append [] gs = refl
read_frames-append (f ∷ fs) gs =
    ap (◌++◌ (read_frame f)) (read_frames-append fs gs)
    ∙ sym (append_assoc (read_frame f) (read_frames fs) (read_frames gs))

lines-drain :
    (m : Bytes) (ms : List Bytes) → IsLine m → All IsLine ms → lines (m ++ drain ms) ≡ m ∷ ms
unfolding drain
lines-drain [] [] h g = refl
lines-drain [] (n ∷ ns) h g = ap (◌∷◌ []) (lines-drain n ns g.0 g.1)
lines-drain (b ∷ m) ms h g = rw (h.0, lines-drain m ms h.1 g)

-- A frame of the messages that were queued.
pub written_read :
    (fs : List Frame) (m : Bytes) (ms : List Bytes)
    → IsLine m
    → All IsLine ms
    → read_frames (fs ++ text (m ++ drain ms) ∷ []) ≡ read_frames fs ++ m ∷ ms
written_read fs m ms h g =
    read_frames-append fs (text (m ++ drain ms) ∷ [])
    ∙ ap (λ xs. read_frames fs ++ xs) (append-nil (lines (m ++ drain ms)) ∙ lines-drain m ms h g)

pub silent_read :
    (fs : List Frame) (f : Frame) → read_frame f ≡ [] → read_frames (fs ++ f ∷ []) ≡ read_frames fs
silent_read fs f h =
    read_frames-append fs (f ∷ [])
    ∙ ap (λ xs. read_frames fs ++ (xs ++ [])) h
    ∙ append-nil (read_frames fs)
