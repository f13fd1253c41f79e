-- ===== src/Lib.antt =====
-- smolRAFT: a replicated drawing board on a simplified RAFT.
--
-- The program. Replicas (replica/) keep a replicated log of drawing strokes. One of them leads; it
-- takes strokes from the gateway, appends them to its log, sends the log to its peers and commits
-- what a majority has. The gateway (gateway/) finds the leader, forwards the strokes of browser
-- clients to it, and broadcasts committed strokes. types/ has the messages between them.
--
-- The model, by file:
--   Types            types/types.go: the wire types.
--   Log              replica/internal/raft/log.go: `Log` is the slice, each method a function.
--                    `append_one` is a round of the loop of `AppendEntries`, `append_loop` the loop.
--                    A panic is the outcome `panicked`, which keeps the state reached.
--   Node             replica/internal/raft/node.go: `Node` is the struct; role changes, status,
--                    configuration and `applyCommitted`.
--   Election         replica/internal/raft/election.go: `startElection` in the three parts between
--                    which it releases the mutex, and `HandleVoteRequest`.
--   Replication      replica/internal/raft/replication.go: `HandleStroke`, `sendAppendEntries` in
--                    the two parts around its call, `advanceCommitIndex`, `HandleAppendEntries` and
--                    `GetSyncLog`.
--   Steps            the steps of a node in any order, with any message that arrives.
--   Cluster          all replicas together: the members, the messages that were ever sent, and the
--                    steps in any order, messages being lost, late or delivered again.
--   CatchUp          a leader and one peer: rounds of `sendAppendEntries` and `HandleAppendEntries`.
--   Loops            replica/internal/raft/replication.go and node.go: the loops of heartbeats, of
--                    replication and of the commit applier, with what each round finds as an argument.
--   Timer            replica/internal/raft/election.go: `runElectionTimer` and its timer, in time.
--   Addrs            replica/cmd/main.go and gateway/cmd/main.go: `splitAddrs`.
--   Boot             the same files: `main` from the environment to the node, or to the hub.
--   Tracker          gateway/internal/leader/tracker.go: `poll` over the replicas' answers, which are
--                    the parameter `fetch`, by the number of the call and the address.
--   Watch            gateway/internal/leader/tracker.go: `fetchStatus` over HTTP, the loop of `Start`.
--   Server           replica/internal/server/handler.go: the HTTP handlers, with the JSON decoders as
--                    parameters.
--   Notifier         replica/cmd/main.go: the loop of `runCommitNotifier`.
--   Hub              gateway/internal/gateway/hub.go: the cases of the loop of `Run` as functions on
--                    the hub and the clients' channels; of handler.go the sends to one client.
--   Rpc              replica/internal/raft/rpc.go: the calls of `HTTPRPCClient`, with the transport
--                    as a parameter; Server/Mux (replica/internal/server/server.go) can be that.
--   Gateway          gateway/internal/gateway/handler.go and server.go: the HTTP handlers, the loop of
--                    `readPump` and the fetch of `replayHistory`.
--   Outbox           gateway/internal/gateway/handler.go: `writePump` with a client's channel; the
--                    results of the socket are arguments.
--   Forward          gateway/internal/gateway/handler.go: `forwardToLeader`, with the answers to its
--                    POSTs as a parameter.
--   Tests            runs of the model on small inputs, and the theorems at concrete inputs.
-- The children of a module hold its proofs, named for what they prove. Prelude has the shared names,
-- Boolean tests and list lemmas.
--
-- Numbers. Terms, indices and counts are natural numbers: the program starts them at 0 and only
-- adds, and 64-bit overflow is out of reach. A message with a negative number, which only a sender
-- outside the program could make, is not modelled; where a method itself checks an index against 0
-- its argument is an integer. A float64 is carried as its bit pattern. Loops recur on the list or on
-- the rounds left, so none needs fuel; `catch_up` and `notify_loop` take the
-- number of rounds to play, `watch` the number of ticks.
--
-- Not modelled: the scheduling of goroutines (a step happens when the environment says so; time is in
-- Timer alone), the inside of HTTP, of JSON and of the socket (encoders, decoders, the transport and
-- the socket's results are parameters), logging, the start and stop of the HTTP servers, signals, and
-- restarts, after which a replica has lost its state.
mod Prelude
pub mod Types
pub mod Log
pub mod Addrs
pub mod Node
pub mod Election
pub mod Replication
pub mod Steps
pub mod CatchUp
pub mod Loops
pub mod Timer
pub mod Cluster
pub mod Server
pub mod Rpc
pub mod Notifier
pub mod Boot
pub mod Hub
pub mod Outbox
pub mod Forward
pub mod Gateway
pub mod Tracker
pub mod Watch
mod Tests
