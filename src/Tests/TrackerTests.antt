-- ===== src/Tests/TrackerTests.antt =====
-- gateway/internal/leader/tracker.go against replicas with fixed answers.
use smol_raft.Prelude.{
  ◌≡◌, ◌⊎◌, String, none, some, [], ◌∷◌, In, str_eq, if◌then◌else◌, arith, str_eq_iff,
}
use smol_raft.Types.{StatusResponse, follower, leader, NodeState}
use smol_raft.Tracker.{Fetch, Tracker, poll}
use smol_raft.Tracker.Finds.{SaidLeader, SaidIn, poll_sound}

abbrev pub reports : NodeState → StatusResponse
reports s = record {
  node_id = "n2";
  state = s;
  term = 1;
  log_length = 0;
  commit_index = 0;
  leader_id = "n2";
}

-- r1 is down, r2 leads, all others follow.
abbrev pub answers : Fetch
answers k a =
    if str_eq a "r1"
    then none
    else if str_eq a "r2"
    then some (reports leader)
    else some (reports follower)

abbrev pub tracker : Tracker
tracker = record { leader_addr = "r3"; replica_addrs = "r1" ∷ "r3" ∷ "r2" ∷ [] }

poll_sound_example :
    ((poll answers tracker 0).0.leader_addr ≡ "")
    ⊎ (In (poll answers tracker 0).0.leader_addr tracker.replica_addrs
        × SaidIn answers 0 (poll answers tracker 0).1 (poll answers tracker 0).0.leader_addr)
poll_sound_example = poll_sound answers tracker 0

pub only_r2 : (b : String) → SaidLeader answers b → b ≡ "r2"
only_r2 b (k, st, e, l) = ground (arith, str_eq_iff b "r2")
