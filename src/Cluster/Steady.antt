-- ===== src/Cluster/Steady.antt =====
-- The operations of a member that leave its commit index and, while it leads, what it knows of its peers.
use smol_raft.Prelude.{ℕ, zero, suc, ◌≡◌, inl, inr, refl, String, some, Option-cases, arith}
use smol_raft.Types.{leader, VoteRequest, VoteResponse}
use smol_raft.Log.{get_entry, pos}
use smol_raft.Node.{
  Node, apply_from, apply_committed, stop, become_follower, become_candidate, send_commit,
  reset_election_timer, signal_new_entry,
}
use smol_raft.Election.{
  begin_election, election_timeout, receive_vote, handle_vote_request, decide_vote,
}
use smol_raft.Election.Votes.{vote_cases}
use smol_raft.Replication.{back_up, handle_stroke}
use smol_raft.Cluster.{Local, stroke, apply, halt, timer_reset, replicate, notify}

abbrev pub Steady : Node → Node → Type 0
Steady n m =
    (m.commit_index ≡ n.commit_index)
    × (m.state ≡ leader
        → (n.state ≡ leader) × (m.current_term ≡ n.current_term) × (m.match_index ≡ n.match_index))

pub Steady-refl : (n : Node) → Steady n n
Steady-refl n = (refl, λ l. (l, refl, refl))

pub vote-Steady : (req : VoteRequest) (n : Node) → Steady n (handle_vote_request req n).0
unfolding decide_vote become_follower reset_election_timer
vote-Steady req n =
    vote_cases (λ r. Steady n r.0) req n (λ stale. Steady-refl n) (λ same. ground arith)
      (λ newer. ground arith)

pub timeout-Steady :
    (n m : Node) (req : VoteRequest) → election_timeout n ≡ some (m, req) → Steady n m
unfolding election_timeout begin_election become_candidate
timeout-Steady n m req e = ground arith

pub count-Steady :
    (t votes : ℕ) (resp : VoteResponse) (n : Node)
    → Steady n (receive_vote t (some resp) (n, votes)).0
unfolding receive_vote become_follower
count-Steady t votes resp n = ground arith

pub back_up-Steady : (peer : String) (i : ℕ) (n : Node) → Steady n (back_up peer i n)
unfolding back_up
back_up-Steady peer i n = ground arith

pub deposed-Steady : (t : ℕ) (l : String) (n : Node) → Steady n (become_follower t l n)
unfolding become_follower
deposed-Steady t l n = ground arith

apply-Steady : (rounds i : ℕ) (n : Node) → Steady n (apply_from rounds i n)
unfolding apply_from
apply-Steady zero i n = Steady-refl n
apply-Steady (suc rounds) i n = elim (Option-cases (get_entry n.log (pos i))) [
  | inl e ↦ rw (e, apply_from) (Steady-refl n)
  | inr (x, e) ↦
      rw (e, apply_from)
        (apply-Steady rounds (suc i)
          (record n { commit_ch = send_commit n.commit_ch x; last_applied = i }))
]

pub own-Steady : {n m : Node} → Local n m → Steady n m
unfolding stop apply_committed handle_stroke signal_new_entry
own-Steady {n} (stroke s e) = ground arith
own-Steady {n} apply = apply-Steady _ _ n
own-Steady {n} halt = Steady-refl n
own-Steady {n} timer_reset = Steady-refl n
own-Steady {n} replicate = Steady-refl n
own-Steady {n} (notify e) = Steady-refl n
