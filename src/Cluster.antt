-- ===== src/Cluster.antt =====
-- replica/internal/raft, all replicas together: the nodes, the messages that were ever sent, and the
-- steps in any order, with messages lost, late, or delivered again.
--
-- A member is known by its id. A peer address stands for the member `host addr`. What a member
-- counts of an election is its own `votes` of `startElection`, and `pending` the peer addresses whose
-- `requestVoteFromPeer` has not come back; an address that is configured twice is in it twice.
-- `voters` and `cast` are not in the program: they record whose votes were counted, and what votes the
-- member ever gave. So is `led`, the elections that were won.
pub mod Quorum
pub mod Sane
pub mod Roles
pub mod Yields
pub mod Ballots
pub mod Turns
pub mod Pending
pub mod Safety
pub mod Ruled
pub mod Merged
pub mod Extended
pub mod History
pub mod Follows
pub mod Writes
pub mod Rulers
pub mod Matching
pub mod Claims
pub mod UpToDate
pub mod Accepted
pub mod Kept
pub mod Keeping
pub mod Voted
pub mod Stood
pub mod Longer
pub mod Stroked
pub mod Answers
pub mod Crowned
pub mod Stays
pub mod Steady
pub mod Counted
pub mod Commits
pub mod Covered
pub mod Acknowledged
pub mod Tallied
pub mod Advances
pub mod Lasting
pub mod Agreement
pub mod Leader
use smol_raft.Prelude.{
  ℕ, suc, length, ◌≡◌, ◌≢◌, String, Bool, true, false, Option, some, List, [], ◌∷◌, In, str_eq,
  if◌then◌else◌,
}
use smol_raft.Types.{
  StrokeEvent, LogEntry, VoteRequest, VoteResponse, AppendEntriesRequest, AppendEntriesResponse,
}
use smol_raft.Node.{Node, Config, new_node, apply_committed, stop}
use smol_raft.Election.{election_timeout, receive_vote, finish_election, handle_vote_request}
use smol_raft.Replication.{
  Handled, replied, crashed, node_of, handle_stroke, make_request, receive_reply,
  handle_append_entries,
}

-- The election that a member holds, or held last: its term and the votes counted.
pub record Poll : Type 0 where
  pub term : ℕ
  pub votes : ℕ
  pub voters : List String
  pub pending : List String

pub record Member : Type 0 where
  pub node : Node
  pub poll : Poll
  pub cast : List (ℕ × String)

-- An answer to AppendEntries, by whom and to what.
pub record Answer : Type 0 where
  pub from : String
  pub to : AppendEntriesRequest
  pub says : AppendEntriesResponse

pub record Cluster : Type 0 where
  pub member : String → Member
  pub asked : List VoteRequest
  pub sent : List AppendEntriesRequest
  pub answers : List Answer
  pub led : List (ℕ × String)

abbrev pub update {ℓ} : {A : Type ℓ} → (String → A) → String → A → String → A
update f i a j = if str_eq j i then a else f j

abbrev pub set_member : String → Member → Cluster → Cluster
set_member i m s = record s { member = update s.member i m }

abbrev pub set_node : String → Node → Cluster → Cluster
set_node i n s = set_member i (record (s.member i) { node = n }) s

abbrev pub fresh_poll : Poll
fresh_poll = record { term = 0; votes = 0; voters = []; pending = [] }

unfoldable pub new_cluster : (String → Config) → Cluster
new_cluster config = record {
  member = λ i. record { node = new_node (config i); poll = fresh_poll; cast = [] };
  asked = [];
  sent = [];
  answers = [];
  led = [];
}

-- `startElection` up to its requests: the candidate votes for itself, and asks each of its peers.
unfoldable pub stand : String → Node → VoteRequest → Cluster → Cluster
stand i n req s =
    record (set_member i
      (record {
        node = n;
        poll = record { term = req.term; votes = 1; voters = i ∷ []; pending = n.peers };
        cast = (req.term, i) ∷ (s.member i).cast;
      })
      s) { asked = req ∷ s.asked }

-- `HandleVoteRequest` at a member.
unfoldable pub serve_vote : String → VoteRequest → Cluster → Cluster
serve_vote i req s =
    let r = handle_vote_request req (s.member i).node in
    set_member i
      (record (s.member i) {
        node = r.0;
        cast =
            if r.1.vote_granted
            then (req.term, req.candidate_id) ∷ (s.member i).cast
            else (s.member i).cast;
      })
      s

-- The list without the first occurrence.
unfoldable pub remove_first : String → List String → List String
remove_first x [] = []
remove_first x (y ∷ ys) = let rest = remove_first x ys in if str_eq y x then ys else y ∷ rest

-- A member counts the response of j, which it asked at the address peer.
unfoldable pub count_vote : String → String → String → VoteResponse → Cluster → Cluster
count_vote i peer j resp s =
    let p = (s.member i).poll in
    let r = receive_vote p.term (some resp) ((s.member i).node, p.votes) in
    set_member i
      (record (s.member i) {
        node = r.0;
        poll = record p {
          votes = r.1;
          voters = if resp.vote_granted then j ∷ p.voters else p.voters;
          pending = remove_first peer p.pending;
        };
      })
      s

unfoldable pub close_poll : String → Cluster → Cluster
close_poll i s =
    let p = (s.member i).poll in
    let r = finish_election p.term p.votes (s.member i).node in
    record (set_node i r.0 s) { led = if r.1 then (p.term, i) ∷ s.led else s.led }

abbrev answer_of : String → AppendEntriesRequest → Handled → List Answer → List Answer
answer_of i req (replied n r) as' = record { from = i; to = req; says = r } ∷ as'
answer_of i req (crashed n) as' = as'

unfoldable pub serve_append : String → AppendEntriesRequest → Cluster → Cluster
serve_append i req s =
    let h = handle_append_entries req (s.member i).node in
    record (set_node i (node_of h) s) { answers = answer_of i req h s.answers }

-- What a node does by itself.
pub data Local (n : Node) : Node → Type 0 where
  stroke : {m : Node} (s : StrokeEvent) → handle_stroke s n ≡ some m → Local n m
  apply : Local n (apply_committed n)
  halt : Local n (stop n)
  timer_reset : Local n (record n { reset_election = false })
  replicate : Local n (record n { new_entry = false })
  notify :
      {e : LogEntry} {es : List LogEntry}
      → n.commit_ch ≡ e ∷ es
      → Local n (record n { commit_ch = es })

module _ (members : List String) (host : String → String) where
  -- A vote is asked at each peer address, and what comes back from there is what `host` of it
  -- answered. A request for AppendEntries reaches the peers of its sender, whoever they are.
  pub data Step (s : Cluster) : Cluster → Type 0 where
    timeout :
        (i : String) {n : Node} {req : VoteRequest}
        → In i members
        → election_timeout (s.member i).node ≡ some (n, req)
        → Step s (stand i n req s)
    vote :
        (i : String) (req : VoteRequest)
        → In i members
        → In req s.asked
        → Step s (serve_vote i req s)
    count :
        (i peer : String) (resp : VoteResponse)
        → In i members
        → In peer (s.member i).poll.pending
        → (resp.vote_granted ≡ true → In ((s.member i).poll.term, i) (s.member (host peer)).cast)
        → Step s (count_vote i peer (host peer) resp s)
    close : (i : String) → In i members → Step s (close_poll i s)
    send :
        (i peer : String) {req : AppendEntriesRequest}
        → In i members
        → make_request peer (s.member i).node ≡ some req
        → Step s (record s { sent = req ∷ s.sent })
    append :
        (i peer : String) (req : AppendEntriesRequest)
        → In i members
        → In req s.sent
        → In peer (s.member req.leader_id).node.peers
        → host peer ≡ i
        → Step s (serve_append i req s)
    reply :
        (i peer : String) (req : AppendEntriesRequest) (resp : AppendEntriesResponse)
        → In i members
        → In peer (s.member i).node.peers
        → req.leader_id ≡ i
        → In (record { from = host peer; to = req; says = resp }) s.answers
        → Step s (set_node i (receive_reply peer req (some resp) (s.member i).node) s)
    own :
        (i : String) {n : Node} → In i members → Local (s.member i).node n → Step s (set_node i n s)

  pub data Reach (s : Cluster) : Cluster → Type 0 where
    here : Reach s s
    next : {t u : Cluster} → Reach s t → Step t u → Reach s u

-- Every member is configured with its id and with as many peers as there are other members.
pub record IsConfigured (members : List String) (config : String → Config) : Type 0 where
  pub full : (i : String) → In i members → i ≢ ""
  pub named : (i : String) → In i members → (config i).node_id ≡ i
  pub sized : (i : String) → In i members → suc (length (config i).peer_addrs) ≡ length members
