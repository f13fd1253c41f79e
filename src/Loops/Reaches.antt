-- ===== src/Loops/Reaches.antt =====
-- A leader knows a next index for every peer, so that its heartbeats reach them all.
use smol_raft.Prelude.{
  ℕ, zero, suc, ◌+◌, ◌≡◌, inl, inr, refl, sym, ap, ◌∙◌, subst, String, Bool-cases, Option, some,
  none, Option-cases, List, drop, ltb, In, str_eq, arith,
}
use smol_raft.Types.{
  leader, VoteRequest, VoteResponse, AppendEntriesRequest, AppendEntriesResponse, StrokeEvent,
  LogEntry,
}
use smol_raft.Log.{get_entry, last_index, pos}
use smol_raft.Node.{
  Node, Config, new_node, Indices, index_of, assign, apply_from, apply_committed, stop,
  become_follower, become_candidate, become_leader, send_commit, reset_election_timer,
  signal_new_entry,
}
use smol_raft.Election.{
  begin_election, election_timeout, receive_vote, finish_election, handle_vote_request, decide_vote,
}
use smol_raft.Election.Votes.{vote_cases}
use smol_raft.Replication.{
  back_up, handle_stroke, make_request, index_or_zero, node_of, handle_append_entries,
  receive_reply, record_match, advance_commit_index, last_entry,
}
use smol_raft.Replication.Reply.{reply_cases}
use smol_raft.Replication.Commit.{advance_commit_index_to}
use smol_raft.Cluster.Follows.{append_idle, index-pos}
use smol_raft.CatchUp.Round.{request, make_request-leader}
use smol_raft.Steps.{
  Step, Reach, here, next, vote, timeout, ballot, elect, append, reply, stroke, apply, halt,
  timer_reset, replicate, notify,
}
use smol_raft.Steps.Progress.{Step-Progress}
use smol_raft.Steps.Invariant.{Reach-new_node-Inv}
use smol_raft.Cluster.Counted.{index_of-assign_all}
use smol_raft.Cluster.Leader.{finish_kinds}
use smol_raft.Cluster.Acknowledged.{noted, record_match-noted}
use smol_raft.Loops.{send_heartbeats}

-- The map has the keys of the other.
abbrev HasKeys : Indices → Indices → Type 0
HasKeys m old = (p : String) (k : ℕ) → index_of p old ≡ some k → (j : ℕ) × (index_of p m ≡ some j)

-- A node that leads after a step led before, and has the next indices it had, or newer ones.
abbrev Leads : Node → Node → Type 0
Leads n m = m.state ≡ leader → (n.state ≡ leader) × HasKeys m.next_index n.next_index

-- The same, with the map as it was.
abbrev Follows : Node → Node → Type 0
Follows n m = m.state ≡ leader → (n.state ≡ leader) × (m.next_index ≡ n.next_index)

Follows-Leads : (n m : Node) → Follows n m → Leads n m
Follows-Leads n m h l = let (lead, same) = h l in (lead, λ p k e. (k, ap (index_of p) same ∙ e))

assign-HasKeys : (m : Indices) (key : String) (v : ℕ) → HasKeys (assign m key v) m
assign-HasKeys m key v p k e = elim (Bool-cases (str_eq key p)) [
  | inl t ↦ (v, rw t)
  | inr f ↦ (k, rw f e)
]

vote-Follows : (req : VoteRequest) (n : Node) → Follows n (handle_vote_request req n).0
unfolding decide_vote become_follower reset_election_timer
vote-Follows req n =
    vote_cases (λ r. Follows n r.0) req n (λ stale l. (l, refl)) (λ same. ground arith)
      (λ newer. ground arith)

timeout-Follows :
    (n m : Node) (req : VoteRequest) → election_timeout n ≡ some (m, req) → Follows n m
unfolding election_timeout begin_election become_candidate
timeout-Follows n m req e = ground arith

ballot-Follows :
    (t votes : ℕ) (resp : Option VoteResponse) (n : Node)
    → Follows n (receive_vote t resp (n, votes)).0
unfolding receive_vote become_follower
ballot-Follows t votes none n l = (l, refl)
ballot-Follows t votes (some resp) n l = ground arith

append-Follows :
    (req : AppendEntriesRequest) (n : Node) → Follows n (node_of (handle_append_entries req n))
append-Follows req n l =
    let idle = append_idle req n l in
    (ap (λ (x : Node). x.state) (sym idle) ∙ l, ap (λ (x : Node). x.next_index) idle)

deposed-Follows : (t : ℕ) (l : String) (n : Node) → Follows n (become_follower t l n)
unfolding become_follower
deposed-Follows t l n lead = absurd (cc)

apply-Follows : (rounds i : ℕ) (n : Node) → Follows n (apply_from rounds i n)
unfolding apply_from
apply-Follows zero i n l = (l, refl)
apply-Follows (suc rounds) i n l = elim (Option-cases (get_entry n.log (pos i))) [
  | inl e ↦ rw (e, apply_from) (rw (e, apply_from) at l, refl)
  | inr (x, e) ↦
      rw (e, apply_from)
        (apply-Follows rounds (suc i)
          (record n { commit_ch = send_commit n.commit_ch x; last_applied = i })
          (rw (e, apply_from) at l))
]

stroke-Follows : (s : StrokeEvent) (n m : Node) → handle_stroke s n ≡ some m → Follows n m
unfolding handle_stroke signal_new_entry
stroke-Follows s n m e = ground arith

back_up-Leads : (peer : String) (i : ℕ) (n : Node) → Leads n (back_up peer i n)
unfolding back_up
back_up-Leads peer i n = elim (Bool-cases (ltb 0 i)) [
  | inl t ↦ rw t (λ l. (l, assign-HasKeys n.next_index peer i))
  | inr f ↦ elim (Bool-cases (ltb 1 (index_or_zero (index_of peer n.next_index)))) [
    | inl t ↦ rw (f, t) (λ l. (l, assign-HasKeys n.next_index peer _))
    | inr g ↦ rw (f, g) (λ l. (l, λ p k e. (k, e)))
  ]
]

matched-Leads :
    (peer : String) (es : List LogEntry) (n : Node)
    → Leads n (advance_commit_index (record_match peer es n))
matched-Leads peer es n =
    let (c, e, up, kind) = advance_commit_index_to (record_match peer es n) in
    subst (Leads n) (sym e) (
      subst (λ (m : Node). Leads n (record m { commit_index = c }))
        (sym (record_match-noted peer es n)) (go (last_entry es) c))
  where
    go : (o : Option LogEntry) (c : ℕ) → Leads n (record (noted n peer o) { commit_index = c })
    go none c l = (l, λ p k e. (k, e))
    go (some x) c l = (l, assign-HasKeys n.next_index peer (x.index + 1))

reply-Leads :
    (peer : String) (req : AppendEntriesRequest) (resp : Option AppendEntriesResponse) (n : Node)
    → Leads n (receive_reply peer req resp n)
unfolding receive_reply
reply-Leads peer req none n = λ l. (l, λ p k e. (k, e))
reply-Leads peer req (some r) n =
    reply_cases (λ m. Leads n m) peer req r n (λ l. (l, λ p k e. (k, e)))
      (λ _. Follows-Leads n (become_follower r.term "" n) (deposed-Follows r.term "" n))
      (λ _ _ _. matched-Leads peer req.entries n) (λ _ _ _. back_up-Leads peer r.conflict_index n)

-- A leader has an index for each of its peers.
abbrev IsKnowing : Node → Type 0
IsKnowing n =
    n.state ≡ leader → (p : String) → In p n.peers → (k : ℕ) × (index_of p n.next_index ≡ some k)

Leads-IsKnowing : (n m : Node) → m.peers ≡ n.peers → Leads n m → IsKnowing n → IsKnowing m
Leads-IsKnowing n m same leads v l p h =
    let (lead, keys) = leads l in let (k, e) = v lead p (subst (λ ps. In p ps) same h) in keys p k e

elect-IsKnowing : (t votes : ℕ) (n : Node) → IsKnowing n → IsKnowing (finish_election t votes n).0
unfolding become_leader
elect-IsKnowing t votes n v = elim (finish_kinds t votes n) [
  | inl e ↦ rw e v
  | inr (e, won) ↦
      rw e (λ l p h. (last_index n.log + 1, index_of-assign_all n.peers _ n.next_index p h))
]

Step-IsKnowing : {n m : Node} → m.peers ≡ n.peers → Step n m → IsKnowing n → IsKnowing m
unfolding stop apply_committed
Step-IsKnowing {n} {m} same (elect t votes) v = elect-IsKnowing t votes n v
Step-IsKnowing {n} {m} same (reply peer req resp) v =
    Leads-IsKnowing n m same (reply-Leads peer req resp n) v
Step-IsKnowing {n} {m} same (vote req) v =
    Leads-IsKnowing n m same (Follows-Leads n m (vote-Follows req n)) v
Step-IsKnowing {n} {m} same (timeout {req = req} e) v =
    Leads-IsKnowing n m same (Follows-Leads n m (timeout-Follows n m req e)) v
Step-IsKnowing {n} {m} same (ballot t votes resp) v =
    Leads-IsKnowing n m same (Follows-Leads n m (ballot-Follows t votes resp n)) v
Step-IsKnowing {n} {m} same (append req) v =
    Leads-IsKnowing n m same (Follows-Leads n m (append-Follows req n)) v
Step-IsKnowing {n} {m} same (stroke s e) v =
    Leads-IsKnowing n m same (Follows-Leads n m (stroke-Follows s n m e)) v
Step-IsKnowing {n} {m} same apply v =
    Leads-IsKnowing n m same (Follows-Leads n m (apply-Follows _ _ n)) v
Step-IsKnowing {n} same halt v = v
Step-IsKnowing {n} same timer_reset v = v
Step-IsKnowing {n} same replicate v = v
Step-IsKnowing {n} same (notify e) v = v

Reach-IsKnowing : (c : Config) {n : Node} → Reach (new_node c) n → IsKnowing n
unfolding new_node
Reach-IsKnowing c here = λ l. absurd (cc)
Reach-IsKnowing c (next {m = k} r st) =
    Step-IsKnowing (Step-Progress (Reach-new_node-Inv c r) st).same_peers st (Reach-IsKnowing c r)

-- After whatever steps of a new node: if it leads, then a round of heartbeats goes to every one of its
-- peers, and for each of them there is a request to send, of the leader's term, that carries all its
-- entries behind the entry it names.
pub heartbeats_miss_none :
    (c : Config) {n : Node} (p : String)
    → Reach (new_node c) n
    → n.state ≡ leader
    → In p n.peers
    → In p (send_heartbeats n)
      × ((req : AppendEntriesRequest) × (make_request p n ≡ some req)
          × (req.term ≡ n.current_term)
          × (req.entries ≡ drop (suc req.prev_log_index) n.log.entries))
unfolding send_heartbeats
heartbeats_miss_none c {n} p r lead h =
    (rw lead h, let (k, e) = Reach-IsKnowing c r lead p h in go k e)
  where
    go :
        (k : ℕ)
        → index_of p n.next_index ≡ some k
        → (req : AppendEntriesRequest) × (make_request p n ≡ some req)
          × (req.term ≡ n.current_term)
          × (req.entries ≡ drop (suc req.prev_log_index) n.log.entries)
    go zero e =
        absurd (omega (arith, index-pos n.next_index p 0 (Reach-new_node-Inv c r).positive e))
    go (suc k) e = (request n k, make_request-leader p n k lead e, refl, refl)
