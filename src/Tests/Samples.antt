-- ===== src/Tests/Samples.antt =====
-- Logs, requests and nodes for the tests.
use smol_raft.Prelude.{ℕ, String, List, [], ◌∷◌, suc, false}
use smol_raft.Types.{zero_stroke, LogEntry, VoteRequest, AppendEntriesRequest, leader, follower}
use smol_raft.Log.{Log, sentinel}
use smol_raft.Node.{Config, Node}

abbrev pub entry : ℕ → ℕ → LogEntry
entry i t = record { index = i; term = t; stroke = zero_stroke }

-- The sentinel, and entries of the given terms.
abbrev pub numbered : ℕ → List ℕ → List LogEntry
numbered i [] = []
numbered i (t ∷ ts) = entry i t ∷ numbered (suc i) ts

abbrev pub log_of : List ℕ → Log
log_of ts = record { entries = sentinel ∷ numbered 1 ts }

abbrev pub config : Config
config = record { node_id = "n1"; peer_addrs = "n2" ∷ "n3" ∷ []; gateway_addr = "gw" }

-- A follower in term 3 with terms 1, 1, 2 in its log and the first entry committed.
abbrev pub node_a : Node
node_a = record {
  id = "n1";
  current_term = 3;
  voted_for = "";
  log = log_of (1 ∷ 1 ∷ 2 ∷ []);
  state = follower;
  commit_index = 1;
  last_applied = 1;
  leader_id = "";
  next_index = [];
  match_index = [];
  peers = "n2" ∷ "n3" ∷ [];
  gateway_addr = "gw";
  reset_election = false;
  new_entry = false;
  commit_ch = [];
  stopped = false;
}

-- A request for a vote in a term, by a candidate whose last entry is of term 2 at index 3.
abbrev pub asks : ℕ → String → VoteRequest
asks t c = record { term = t; candidate_id = c; last_log_index = 3; last_log_term = 2 }

-- The leader of term 4 sends entries of terms 1 and 4 behind index 1.
abbrev pub sends : AppendEntriesRequest
sends = record {
  term = 4;
  leader_id = "n2";
  prev_log_index = 1;
  prev_log_term = 1;
  entries = numbered 2 (1 ∷ 4 ∷ []);
  leader_commit = 2;
}

-- The same node as the leader of term 2, with peer n2 up to date.
abbrev pub leading : Node
leading = record node_a {
  state = leader;
  current_term = 2;
  voted_for = "n1";
  next_index = ("n2", 4) ∷ ("n3", 2) ∷ [];
  match_index = ("n2", 3) ∷ [];
}
