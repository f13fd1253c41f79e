-- ===== src/Steps.antt =====
-- replica/internal/raft: the steps of one node. Each runs under the node's mutex, in any order and
-- with any request, response or count that the environment delivers.
pub mod Invariant
pub mod Quiet
pub mod Progress
use smol_raft.Prelude.{ℕ, ◌≡◌, String, Option, some, List, ◌∷◌, false}
use smol_raft.Types.{
  StrokeEvent, LogEntry, VoteRequest, VoteResponse, AppendEntriesRequest, AppendEntriesResponse,
}
use smol_raft.Node.{Node, Config, new_node, apply_committed, stop}
use smol_raft.Election.{election_timeout, receive_vote, finish_election, handle_vote_request}
use smol_raft.Replication.{handle_stroke, receive_reply, node_of, handle_append_entries}

pub data Step (n : Node) : Node → Type 0 where
  vote : (req : VoteRequest) → Step n (handle_vote_request req n).0
  timeout : {m : Node} {req : VoteRequest} → election_timeout n ≡ some (m, req) → Step n m
  ballot :
      (term votes : ℕ) (resp : Option VoteResponse) → Step n (receive_vote term resp (n, votes)).0
  elect : (term votes : ℕ) → Step n (finish_election term votes n).0
  append : (req : AppendEntriesRequest) → Step n (node_of (handle_append_entries req n))
  reply :
      (peer : String) (req : AppendEntriesRequest) (resp : Option AppendEntriesResponse)
      → Step n (receive_reply peer req resp n)
  stroke : {m : Node} (s : StrokeEvent) → handle_stroke s n ≡ some m → Step n m
  apply : Step n (apply_committed n)
  halt : Step n (stop n)
  -- the goroutines that receive from the channels
  timer_reset : Step n (record n { reset_election = false })
  replicate : Step n (record n { new_entry = false })
  notify :
      {e : LogEntry} {es : List LogEntry}
      → n.commit_ch ≡ e ∷ es
      → Step n (record n { commit_ch = es })

pub data Reach (n : Node) : Node → Type 0 where
  here : Reach n n
  next : {m k : Node} → Reach n m → Step m k → Reach n k
