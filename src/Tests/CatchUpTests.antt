-- ===== src/Tests/CatchUpTests.antt =====
-- A leader and a peer whose logs part after the second entry.
use smol_raft.Prelude.{zero, suc, refl, [], ◌∷◌, arith}
use smol_raft.Log.Shape.{IsLog}
use smol_raft.Node.{Node}
use smol_raft.CatchUp.Merge.{AgreesTo}
use smol_raft.CatchUp.Ends.{CaughtUp, catch_up-CaughtUp}
use smol_raft.Tests.Samples.{node_a, leading, log_of}

abbrev ahead : Node
ahead = record leading {
  current_term = 4;
  log = log_of (1 ∷ 1 ∷ 2 ∷ 4 ∷ []);
  next_index = ("n2", 5) ∷ [];
}

abbrev behind : Node
behind = record node_a { id = "n2"; log = log_of (1 ∷ 1 ∷ 3 ∷ []) }

ahead-IsLog : IsLog ahead.log.entries
ahead-IsLog = record { first = refl; indexed = omega arith }

behind-IsLog : IsLog behind.log.entries
behind-IsLog = record { first = refl; indexed = omega arith }

agree_so_far : AgreesTo 1 ahead.log.entries behind.log.entries
agree_so_far zero a b low g h = ground arith
agree_so_far (suc zero) a b low g h = ground arith
agree_so_far (suc (suc i)) a b low g h = absurd (omega arith)

catch_up-CaughtUp_example : CaughtUp 5 "n2" ahead behind 5
catch_up-CaughtUp_example =
    catch_up-CaughtUp 5 "n2" ahead behind 5 refl ahead-IsLog behind-IsLog (omega arith) agree_so_far
      refl (omega arith) (omega arith)
