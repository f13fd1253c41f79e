-- ===== src/Tests/StepTests.antt =====
-- Histories of one node.
use smol_raft.Prelude.{◌≡◌, refl, some, true, get_elem?}
use smol_raft.Types.{zero_stroke}
use smol_raft.Node.{Node, new_node, signal_new_entry}
use smol_raft.Election.{begin_election, election_timeout, finish_election, handle_vote_request}
use smol_raft.Replication.{handle_stroke}
use smol_raft.Log.{append}
use smol_raft.Steps.{Reach, here, next, vote, timeout, elect, stroke}
use smol_raft.Steps.Invariant.{Inv, Reach-new_node-Inv}
use smol_raft.Steps.Progress.{Progress, history-Progress, leader_append_only}
use smol_raft.Tests.Samples.{config, asks, leading, entry}

-- The timer of a new node fires, and it wins with two votes.
abbrev pub elected : Node
elected = (finish_election 1 2 (begin_election (new_node config)).0).0

pub elected-Reach : Reach (new_node config) elected
unfolding election_timeout new_node
elected-Reach = next (next here (timeout refl)) (elect 1 2)

Reach-new_node-Inv_example : Inv elected
Reach-new_node-Inv_example = Reach-new_node-Inv config elected-Reach

history-Progress_example : Progress elected (handle_vote_request (asks 5 "n2") elected).0
history-Progress_example = history-Progress config elected-Reach (next here (vote (asks 5 "n2")))

abbrev pub after_stroke : Node
after_stroke = record leading {
  log = (append leading.log (record { index = 0; term = 2; stroke = zero_stroke })).0;
  new_entry = true;
}

pub takes_stroke : handle_stroke zero_stroke leading ≡ some after_stroke
unfolding handle_stroke signal_new_entry
takes_stroke = refl

leader_append_only_example : get_elem? after_stroke.log.entries 3 ≡ some (entry 3 2)
leader_append_only_example = leader_append_only (stroke zero_stroke takes_stroke) refl 3 refl
