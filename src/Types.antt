-- ===== src/Types.antt =====
-- types/types.go: the data that the services exchange. Terms and indices are natural numbers; a
-- float64, which the services only carry, is its 64-bit pattern; ids and colours are texts.
use smol_raft.Prelude.{ℕ, String, List, [], Bool}

-- The constants `Follower`, `Candidate` and `Leader`.
pub data NodeState : Type 0 where
  follower candidate leader : NodeState

abbrev pub Float64 : Type 0
Float64 = ℕ

pub record Point : Type 0 where
  pub x : Float64
  pub y : Float64

pub record StrokeEvent : Type 0 where
  pub id : String
  pub kind : String
  pub target_id : String
  pub points : List Point
  pub color : String
  pub width : Float64
  pub user_id : String

-- The zero value that Go gives to a stroke that is not written out.
abbrev pub zero_stroke : StrokeEvent
zero_stroke = record {
  id = "";
  kind = "";
  target_id = "";
  points = [];
  color = "";
  width = 0;
  user_id = "";
}

pub record LogEntry : Type 0 where
  pub index : ℕ
  pub term : ℕ
  pub stroke : StrokeEvent

pub record VoteRequest : Type 0 where
  pub term : ℕ
  pub candidate_id : String
  pub last_log_index : ℕ
  pub last_log_term : ℕ

pub record VoteResponse : Type 0 where
  pub term : ℕ
  pub vote_granted : Bool

pub record AppendEntriesRequest : Type 0 where
  pub term : ℕ
  pub leader_id : String
  pub prev_log_index : ℕ
  pub prev_log_term : ℕ
  pub entries : List LogEntry
  pub leader_commit : ℕ

pub record AppendEntriesResponse : Type 0 where
  pub term : ℕ
  pub success : Bool
  pub conflict_index : ℕ

pub record StatusResponse : Type 0 where
  pub node_id : String
  pub state : NodeState
  pub term : ℕ
  pub log_length : ℕ
  pub commit_index : ℕ
  pub leader_id : String

pub record CommitNotification : Type 0 where
  pub stroke : StrokeEvent
  pub index : ℕ
  pub term : ℕ

-- What the gateway puts into the `Payload` of a message, whose type in Go is `interface{}`: a stroke,
-- or the map with the one key "message".
pub data WsPayload : Type 0 where
  stroke_payload : StrokeEvent → WsPayload
  error_payload : String → WsPayload

pub record WsMessage : Type 0 where
  pub kind : String
  pub payload : WsPayload
