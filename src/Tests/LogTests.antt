-- ===== src/Tests/LogTests.antt =====
-- replica/internal/raft/log.go on small logs.
use smol_raft.Prelude.{◌≡◌, refl, some, [], ◌∷◌, arith}
use smol_raft.Log.{Log, append_entries, done, panicked, map_outcome, append_loop, append_one}
use smol_raft.Log.Merge.{append_entries-merged, kept, rest, merged, as_log}
use smol_raft.Log.Redelivery.{append_entries_twice, append_entries_stale}
use smol_raft.Tests.Samples.{numbered, log_of}

abbrev old : Log
old = log_of (1 ∷ 1 ∷ 2 ∷ [])

conflict_cuts : append_entries old (numbered 2 (1 ∷ 4 ∷ [])) 1 ≡ done (log_of (1 ∷ 1 ∷ 4 ∷ []))
unfolding append_entries append_loop append_one
conflict_cuts = refl

committed_panics : append_entries old (numbered 2 (3 ∷ [])) 2 ≡ panicked old
unfolding append_entries append_loop append_one
committed_panics = refl

append_entries-merged_example :
    append_entries old (numbered 2 (1 ∷ 4 ∷ [])) 1
    ≡ map_outcome as_log (merged (kept 1 old) (rest 1 old) (numbered 2 (1 ∷ 4 ∷ [])) 1 (some 3))
append_entries-merged_example =
    append_entries-merged old (numbered 2 (1 ∷ 4 ∷ [])) 1 1 (omega arith) (omega arith)

append_entries_twice_example :
    append_entries (log_of (1 ∷ 1 ∷ 4 ∷ [])) (numbered 2 (1 ∷ 4 ∷ [])) 3
    ≡ done (log_of (1 ∷ 1 ∷ 4 ∷ []))
append_entries_twice_example =
    append_entries_twice old (numbered 2 (1 ∷ 4 ∷ [])) 1 1 (omega arith) (omega arith)
      (log_of (1 ∷ 1 ∷ 4 ∷ [])) 3 conflict_cuts

append_entries_stale_example : append_entries old (numbered 2 (1 ∷ [])) 3 ≡ done old
append_entries_stale_example =
    append_entries_stale old (numbered 2 (1 ∷ [])) 3 1 (omega arith) (omega arith) refl
      (omega arith)
