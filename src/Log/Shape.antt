-- ===== src/Log/Shape.antt =====
-- The shape of a log: the sentinel first, and each entry stored under its own index.
use smol_raft.Prelude.{
  ℕ, zero, suc, ◌+◌, ◌<◌, ◌≡◌, refl, subst, ◌∙◌, some, List, [], ◌∷◌, ◌++◌, arith, length,
  get_elem?, take, drop, get_elem?-append_left, get_elem?-take, lt-length_of_get,
}
use smol_raft.Types.{LogEntry}
use smol_raft.Log.Cases.{append_one_cases, append_loop_inv}
use smol_raft.Log.{
  Log, state_of, sentinel, new_log, push, append, append_one, append_loop, append_entries,
}

-- The entries carry the indices k, k + 1, and so on.
abbrev pub Indexed : ℕ → List LogEntry → Type 0
Indexed k [] = Unit {0}
Indexed k (e ∷ es) = (e.index ≡ k) × Indexed (suc k) es

pub record IsLog (es : List LogEntry) : Type 0 where
  pub first : get_elem? es 0 ≡ some sentinel
  pub indexed : Indexed 0 es

pub Indexed-at : {k m : ℕ} (es : List LogEntry) → k ≡ m → Indexed k es → Indexed m es
Indexed-at es e h = subst (λ n. Indexed n es) e h

pub Indexed-append :
    (k : ℕ) (xs ys : List LogEntry)
    → Indexed k xs
    → Indexed (k + length xs) ys
    → Indexed k (xs ++ ys)
Indexed-append k [] ys h g = Indexed-at ys (omega arith) g
Indexed-append k (x ∷ xs) ys h g =
    (h.0, Indexed-append (suc k) xs ys h.1 (Indexed-at ys (omega arith) g))

pub Indexed-take : (k n : ℕ) (xs : List LogEntry) → Indexed k xs → Indexed k (take n xs)
Indexed-take k zero xs h = tt
Indexed-take k (suc n) [] h = tt
Indexed-take k (suc n) (x ∷ xs) h = (h.0, Indexed-take (suc k) n xs h.1)

pub Indexed-drop : (k n : ℕ) (xs : List LogEntry) → Indexed k xs → Indexed (k + n) (drop n xs)
Indexed-drop k zero xs h = Indexed-at xs (omega arith) h
Indexed-drop k (suc n) [] h = tt
Indexed-drop k (suc n) (x ∷ xs) h =
    Indexed-at (drop n xs) (omega arith) (Indexed-drop (suc k) n xs h.1)

pub index-get :
    (k : ℕ) (es : List LogEntry) (i : ℕ) {e : LogEntry}
    → Indexed k es
    → get_elem? es i ≡ some e
    → e.index ≡ k + i
index-get k [] i h g = absurd (cc)
index-get k (x ∷ xs) zero h g = ground arith
index-get k (x ∷ xs) (suc i) h g = omega (arith, index-get (suc k) xs i h.1 g)

pub push-IsLog : (es : List LogEntry) (e : LogEntry) → IsLog es → IsLog (push es e)
push-IsLog es e v = record {
  first = get_elem?-append_left es _ 0 (lt-length_of_get es 0 v.first) ∙ v.first;
  indexed = Indexed-append 0 es _ v.indexed (omega arith);
}

pub take-IsLog : (n : ℕ) (es : List LogEntry) → 0 < n → IsLog es → IsLog (take n es)
take-IsLog n es h v = record {
  first = get_elem?-take es n 0 h ∙ v.first;
  indexed = Indexed-take 0 n es v.indexed;
}

-- An entry with index 0 meets the sentinel, which is never cut off: 0 is at most any commit index.
append_one-IsLog :
    (es : List LogEntry) (e : LogEntry) (c : ℕ) → IsLog es → IsLog (state_of (append_one es e c))
append_one-IsLog es e c v =
    append_one_cases (λ o. IsLog (state_of o)) es e c (λ _. push-IsLog es e v) (λ _ _ _. v)
      (λ _ _ _ _. v)
      (λ _ _ _ h. push-IsLog (take e.index es) e (take-IsLog e.index es (omega arith) v))

pub fresh-IsLog : IsLog new_log.entries
unfolding new_log
fresh-IsLog = record { first = refl; indexed = omega arith }

pub append-IsLog : (l : Log) (e : LogEntry) → IsLog l.entries → IsLog (append l e).0.entries
unfolding append
append-IsLog l e v = push-IsLog l.entries e v

pub state_of-append_entries :
    (l : Log) (new : List LogEntry) (c : ℕ)
    → (state_of (append_entries l new c)).entries ≡ state_of (append_loop l.entries new c)
unfolding append_entries
state_of-append_entries l new c = ground arith

pub append_entries-IsLog :
    (l : Log) (new : List LogEntry) (c : ℕ)
    → IsLog l.entries
    → IsLog (state_of (append_entries l new c)).entries
append_entries-IsLog l new c v =
    rw (state_of-append_entries l new c)
      (append_loop_inv IsLog c (λ es e. append_one-IsLog es e c) l.entries new v)
