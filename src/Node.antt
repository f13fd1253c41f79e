-- ===== src/Node.antt =====
-- replica/internal/raft/node.go: the state of one RAFT node, its role changes, its status and the
-- loop that hands committed entries to the commit channel.
--
-- A method that holds the node's mutex is one step on the record. The maps `nextIndex` and
-- `matchIndex` are lists of their writes, newest first. Of the coordination channels, the two of
-- capacity 1 that carry no data are flags (a signal is pending), the commit channel is the list of
-- buffered entries, oldest first, and `stopCh` is the flag `stopped`. The logger and the RPC client
-- keep no state that the protocol reads.
pub mod Roles
pub mod Apply
use smol_raft.Prelude.{
  ℕ, zero, suc, ◌+◌, ◌-◌, String, Bool, true, false, Option, none, some, List, [], ◌∷◌, ◌++◌,
  length, drop, ltb, ◌==◌, if◌then◌else◌, str_eq,
}
use smol_raft.Types.{NodeState, follower, candidate, leader, LogEntry, StatusResponse}
use smol_raft.Log.{Log, pos, new_log, get_entry, last_index, log_length}

pub record Config : Type 0 where
  pub node_id : String
  pub peer_addrs : List String
  pub gateway_addr : String

pub data ConfigError : Type 0 where
  node_id_required peer_addrs_required gateway_addr_required : ConfigError

-- `none` is the nil error.
unfoldable pub validate : Config → Option ConfigError
validate c =
    if str_eq c.node_id ""
    then some node_id_required
    else if length c.peer_addrs == 0
    then some peer_addrs_required
    else if str_eq c.gateway_addr ""
    then some gateway_addr_required
    else none

-- A `map[string]int`.
abbrev pub Indices : Type 0
Indices = List (String × ℕ)

-- `m[key]`, `none` at a missing key.
abbrev pub index_of : String → Indices → Option ℕ
index_of key [] = none
index_of key ((k, i) ∷ m) = if str_eq k key then some i else index_of key m

-- `m[key] = value`
abbrev pub assign : Indices → String → ℕ → Indices
assign m key value = (key, value) ∷ m

pub record Node : Type 0 where
  pub id : String
  pub current_term : ℕ
  pub voted_for : String
  pub log : Log
  pub state : NodeState
  pub commit_index : ℕ
  pub last_applied : ℕ
  pub leader_id : String
  pub next_index : Indices
  pub match_index : Indices
  pub peers : List String
  pub gateway_addr : String
  pub reset_election : Bool
  pub new_entry : Bool
  pub commit_ch : List LogEntry
  pub stopped : Bool

-- The capacity of the commit channel.
abbrev pub commit_cap : ℕ
commit_cap = 256

unfoldable pub new_node : Config → Node
new_node c = record {
  id = c.node_id;
  current_term = 0;
  voted_for = "";
  log = new_log;
  state = follower;
  commit_index = 0;
  last_applied = 0;
  leader_id = "";
  next_index = [];
  match_index = [];
  peers = c.peer_addrs;
  gateway_addr = c.gateway_addr;
  reset_election = false;
  new_entry = false;
  commit_ch = [];
  stopped = false;
}

unfoldable pub stop : Node → Node
stop n = record n { stopped = true }

unfoldable pub status : Node → StatusResponse
status n = record {
  node_id = n.id;
  state = n.state;
  term = n.current_term;
  log_length = log_length n.log;
  commit_index = n.commit_index;
  leader_id = n.leader_id;
}

-- `n.state == s`
abbrev pub state_eq : NodeState → NodeState → Bool
state_eq follower follower = true
state_eq candidate candidate = true
state_eq leader leader = true
state_eq _ _ = false

unfoldable pub is_leader : Node → Bool
is_leader n = state_eq n.state leader

unfoldable pub become_follower : ℕ → String → Node → Node
become_follower term leader_id n = record n {
  state = follower;
  current_term = term;
  voted_for = "";
  leader_id = leader_id;
}

unfoldable pub become_candidate : Node → Node
become_candidate n = record n {
  state = candidate;
  current_term = n.current_term + 1;
  voted_for = n.id;
  leader_id = "";
}

-- The loop of `becomeLeader` over the peers, on one map: every peer gets the value.
abbrev pub assign_all : List String → ℕ → Indices → Indices
assign_all [] value m = m
assign_all (p ∷ ps) value m = assign_all ps value (assign m p value)

unfoldable pub become_leader : Node → Node
become_leader n = record n {
  state = leader;
  leader_id = n.id;
  next_index = assign_all n.peers (last_index n.log + 1) n.next_index;
  match_index = assign_all n.peers 0 n.match_index;
}

-- A signal that is already pending stays.
unfoldable pub reset_election_timer : Node → Node
reset_election_timer n = record n { reset_election = true }

unfoldable pub signal_new_entry : Node → Node
signal_new_entry n = record n { new_entry = true }

-- The node afterwards, and whether it stepped down.
unfoldable pub step_down : ℕ → Node → Node × Bool
step_down remote_term n =
    if ltb n.current_term remote_term then (become_follower remote_term "" n, true) else (n, false)

-- A send to the commit channel that drops the oldest entry when the channel is full.
abbrev pub send_commit : List LogEntry → LogEntry → List LogEntry
send_commit ch e = if ltb (length ch) commit_cap then ch ++ e ∷ [] else drop 1 ch ++ e ∷ []

-- The loop of `applyCommitted` from index i, with `rounds` indices left up to the commit index.
unfoldable pub apply_from : ℕ → ℕ → Node → Node
apply_from zero i n = n
apply_from (suc rounds) i n = elim (get_entry n.log (pos i)) [
  | none ↦ n
  | some e ↦
      apply_from rounds (suc i)
        (record n { commit_ch = send_commit n.commit_ch e; last_applied = i })
]

-- The method releases the mutex between rounds. It is the only writer of `lastApplied`, and the
-- entries up to the commit index that it read do not change, so it is taken as one step.
unfoldable pub apply_committed : Node → Node
apply_committed n = apply_from (n.commit_index - n.last_applied) (n.last_applied + 1) n
