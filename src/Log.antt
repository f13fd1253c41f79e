-- ===== src/Log.antt =====
-- replica/internal/raft/log.go: the replicated log. `entries` is the slice, its head the sentinel.
-- Each method runs under the log's mutex, so it is one step on the record.
mod Cases
pub mod Shape
pub mod Merge
pub mod Committed
pub mod Redelivery
use smol_raft.Prelude.{
  ℕ, ◌-◌, Option, none, some, List, [], ◌∷◌, ◌++◌, length, get_elem?, take, drop, leb, ◌==◌,
  if◌then◌else◌,
}
use smol_raft.Types.{LogEntry, zero_stroke}

pub record Log : Type 0 where
  pub entries : List LogEntry

-- Go's `int`, for the indices that a method checks against 0: `negsuc n` is -(n + 1).
pub data ℤ : Type 0 where
  pos : ℕ → ℤ
  negsuc : ℕ → ℤ

-- How a method ends that may panic: either way the state stays as the statements before left it,
-- since the deferred unlock runs.
pub data Outcome {ℓ} (A : Type ℓ) : Type ℓ where
  done : A → Outcome A
  panicked : A → Outcome A

abbrev pub state_of {ℓ} : {A : Type ℓ} → Outcome A → A
state_of (done a) = a
state_of (panicked a) = a

abbrev pub sentinel : LogEntry
sentinel = record { index = 0; term = 0; stroke = zero_stroke }

abbrev pub zero_entry : LogEntry
zero_entry = record { index = 0; term = 0; stroke = zero_stroke }

unfoldable pub new_log : Log
new_log = record { entries = sentinel ∷ [] }

-- `entry.Index = len(l.entries); l.entries = append(l.entries, entry)`
abbrev pub push : List LogEntry → LogEntry → List LogEntry
push es e = es ++ record e { index = length es } ∷ []

unfoldable pub append : Log → LogEntry → Log × ℕ
append l e = (record { entries = push l.entries e }, length l.entries)

-- One round of the loop of `AppendEntries`.
unfoldable pub append_one : List LogEntry → LogEntry → ℕ → Outcome (List LogEntry)
append_one es e commit_index = elim (get_elem? es e.index) [
  | none ↦ done (push es e)
  | some existing ↦
      if existing.term == e.term
      then done es
      else if leb e.index commit_index
      then panicked es
      else done (push (take e.index es) e)
]

infixl 5 ◌>>=◌
abbrev pub ◌>>=◌ {ℓ} : {A : Type ℓ} → Outcome A → (A → Outcome A) → Outcome A
done a >>= f = f a
panicked a >>= f = panicked a

-- A panic leaves the loop; the rounds before it have been made.
unfoldable pub append_loop : List LogEntry → List LogEntry → ℕ → Outcome (List LogEntry)
append_loop es [] commit_index = done es
append_loop es (e ∷ new) commit_index =
    append_one es e commit_index >>= λ es'. append_loop es' new commit_index

abbrev pub map_outcome {ℓ κ} : {A : Type ℓ} {B : Type κ} → (A → B) → Outcome A → Outcome B
map_outcome f (done a) = done (f a)
map_outcome f (panicked a) = panicked (f a)

unfoldable pub append_entries : Log → List LogEntry → ℕ → Outcome Log
append_entries l new commit_index =
    map_outcome (λ es. record { entries = es }) (append_loop l.entries new commit_index)

unfoldable pub get_entry : Log → ℤ → Option LogEntry
get_entry l (pos i) = get_elem? l.entries i
get_entry l (negsuc n) = none

-- `nil` and an empty slice have the same entries.
unfoldable pub get_from : Log → ℤ → List LogEntry
get_from l (pos i) = drop i l.entries
get_from l (negsuc n) = []

unfoldable pub last_index : Log → ℕ
last_index l = length l.entries - 1

-- `l.entries[len(l.entries)-1].Term`; the slice is never empty, since it holds the sentinel.
unfoldable pub last_term : Log → ℕ
last_term l = elim (get_elem? l.entries (length l.entries - 1)) [ none ↦ 0 | some e ↦ e.term ]

unfoldable pub log_length : Log → ℕ
log_length l = length l.entries - 1

unfoldable pub term_at : Log → ℤ → ℕ
term_at l (pos i) = elim (get_elem? l.entries i) [ none ↦ 0 | some e ↦ e.term ]
term_at l (negsuc n) = 0
