-- ===== src/Tests/LoopsTests.antt =====
-- replica/internal/raft/replication.go: a leader's loops, and its election timer.
use smol_raft.Prelude.{
  suc, ◌+◌, ◌≤◌, ◌≡◌, refl, inl, inr, true, false, some, [], ◌∷◌, drop, In, arith,
}
use smol_raft.Types.{zero_stroke, leader, AppendEntriesRequest}
use smol_raft.Node.{new_node, become_candidate, become_leader}
use smol_raft.Election.{begin_election, finish_election}
use smol_raft.Replication.{make_request}
use smol_raft.Loops.{replication_rounds, send_heartbeats}
use smol_raft.Loops.Reaches.{heartbeats_miss_none}
use smol_raft.Loops.Wakes.{stroke_wakes_one}
use smol_raft.Timer.{
  election_timeout_min, election_timeout_max, Clock, waiting, start_timer, elapse, here, next,
  passes,
}
use smol_raft.Timer.Bounds.{fires_in_time}
use smol_raft.Tests.Samples.{config, node_a}
use smol_raft.Tests.StepTests.{elected, elected-Reach, after_stroke, takes_stroke}

n1_leads : elected.state ≡ leader
unfolding begin_election finish_election new_node become_candidate become_leader
n1_leads = refl

n3_is_a_peer : In "n3" elected.peers
unfolding begin_election finish_election new_node become_candidate become_leader
n3_is_a_peer = inr (inl refl)

heartbeats_miss_none_example :
    In "n3" (send_heartbeats elected)
    × ((req : AppendEntriesRequest) × (make_request "n3" elected ≡ some req)
        × (req.term ≡ elected.current_term)
        × (req.entries ≡ drop (suc req.prev_log_index) elected.log.entries))
heartbeats_miss_none_example = heartbeats_miss_none config "n3" elected-Reach n1_leads n3_is_a_peer

-- The loop of n3 gets the signal, and that of n2 nothing.
stroke_wakes_one_example :
    replication_rounds (("n3", 2) ∷ ("n2", 2) ∷ []) after_stroke
    ≡ (record after_stroke { new_entry = false }, "n3" ∷ [])
stroke_wakes_one_example = stroke_wakes_one zero_stroke _ "n3" 2 (("n2", 2) ∷ []) takes_stroke

-- The timer was set at 7 to 500 ms and 100 ns, and then a second passes.
abbrev later : Clock
later = elapse 1000000000 (start_timer 7 100 node_a)

fires_in_time_example :
    (later.timer.fired ≡ true → later.since + election_timeout_min ≤ later.now)
    × (later.phase ≡ waiting
        → later.since + election_timeout_max ≤ later.now
        → later.timer.fired ≡ true)
fires_in_time_example = fires_in_time 7 100 node_a (omega arith) (next here (passes 1000000000))
