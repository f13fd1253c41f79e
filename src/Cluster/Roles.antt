-- ===== src/Cluster/Roles.antt =====
-- How the operations change a node's term, vote and role, and that its member stays bound.
use smol_raft.Prelude.{
  ℕ, zero, suc, ◌≤◌, ◌<◌, ◌≡◌, ◌⊎◌, inl, inr, refl, sym, ap, ◌∙◌, subst, String, false, some,
  Option-cases, List, length, In, arith,
}
use smol_raft.Types.{
  follower, LogEntry, VoteRequest, VoteResponse, AppendEntriesRequest, AppendEntriesResponse,
}
use smol_raft.Log.{get_entry, pos}
use smol_raft.Node.{
  Node, apply_from, apply_committed, stop, become_follower, send_commit, signal_new_entry,
}
use smol_raft.Election.{receive_vote, handle_vote_request, decide_vote}
use smol_raft.Election.Votes.{vote_cases}
use smol_raft.Replication.{
  handle_stroke, record_match, back_up, receive_reply, advance_commit_index,
}
use smol_raft.Replication.Commit.{advance_commit_index_to}
use smol_raft.Replication.Reply.{reply_cases}
use smol_raft.Cluster.{Member, Local, stroke, apply, halt, timer_reset, replicate, notify}
use smol_raft.Cluster.Sane.{IsBound, IsLocked}

-- The node is in the same role, or has become a follower of a later term that has not voted.
abbrev pub Calm : Node → Node → Type 0
Calm n m =
    (m.id ≡ n.id)
    × (m.peers ≡ n.peers)
    × (((m.current_term ≡ n.current_term) × (m.voted_for ≡ n.voted_for) × (m.state ≡ n.state))
        ⊎ ((n.current_term < m.current_term) × (m.state ≡ follower)))

module _ (members : List String) (led : List (ℕ × String)) (i : String) (m : Member) (n : Node)
    (calm : Calm m.node n) where
  pub Calm-IsBound : IsBound members led i m → IsBound members led i (record m { node = n })
  Calm-IsBound b = record {
    named = calm.0 ∙ b.named;
    sized = ap (λ ps. suc (length ps)) calm.1 ∙ b.sized;
    full = b.full;
    past = λ t c h. omega (arith, b.past t c h);
    keeps = λ t c h e. ground (arith, b.past t c h, b.keeps t c h);
    once = b.once;
    stands = λ h. elim calm.2 [
      | inl (t, v, s) ↦
          let (x, y) = b.stands (λ e. h (s ∙ e)) in (subst (λ k. In (k, i) m.cast) (sym t) x, v ∙ y)
      | inr (t, s) ↦ absurd (h s)
    ];
    leads = λ h. elim calm.2 [
      | inl (t, v, s) ↦ subst (λ k. In (k, i) led) (sym t) (b.leads (sym s ∙ h))
      | inr (t, s) ↦ absurd (cc)
    ];
  }

  pub Calm-IsLocked :
      (t : ℕ) (l : String)
      → ((c : String) → In (t, c) m.cast → t ≤ m.node.current_term)
      → IsLocked t l i m
      → IsLocked t l i (record m { node = n })
  Calm-IsLocked t l past k = record {
    voted = k.voted;
    only = k.only;
    stays = λ e. ground (arith, past l k.voted, k.stays);
  }

pub Calm-refl : (n : Node) → Calm n n
Calm-refl n = (refl, refl, inl (refl, refl, refl))

pub Calm-trans : (n m k : Node) → Calm n m → Calm m k → Calm n k
Calm-trans n m k p q = ground arith

-- No vote was given to the request.
pub vote-Calm :
    (req : VoteRequest) (n : Node)
    → (handle_vote_request req n).1.vote_granted ≡ false
    → Calm n (handle_vote_request req n).0
unfolding decide_vote become_follower
vote-Calm req n =
    vote_cases (λ r. r.1.vote_granted ≡ false → Calm n r.0) req n (λ stale g. ground arith)
      (λ same g. ground arith) (λ newer g. ground arith)

pub count-Calm :
    (t votes : ℕ) (resp : VoteResponse) (n : Node)
    → Calm n (receive_vote t (some resp) (n, votes)).0
unfolding receive_vote become_follower
count-Calm t votes resp n = ground arith

match-Calm : (peer : String) (es : List LogEntry) (n : Node) → Calm n (record_match peer es n)
unfolding record_match
match-Calm peer es n = ground arith

back_up-Calm : (peer : String) (i : ℕ) (n : Node) → Calm n (back_up peer i n)
unfolding back_up
back_up-Calm peer i n = ground arith

advance-Calm : (n : Node) → Calm n (advance_commit_index n)
advance-Calm n = let (c, e, up, how) = advance_commit_index_to n in rw e (Calm-refl n)

pub reply-Calm :
    (peer : String) (req : AppendEntriesRequest) (r : AppendEntriesResponse) (n : Node)
    → Calm n (receive_reply peer req (some r) n)
unfolding become_follower
reply-Calm peer req r n =
    reply_cases (Calm n) peer req r n (Calm-refl n) (λ h. ground arith)
      (λ _ _ _.
        let s = record_match peer req.entries n in
        Calm-trans n s (advance_commit_index s) (match-Calm peer req.entries n) (advance-Calm s))
      (λ _ _ _. back_up-Calm peer r.conflict_index n)

apply-Calm : (rounds i : ℕ) (n : Node) → Calm n (apply_from rounds i n)
unfolding apply_from
apply-Calm zero i n = Calm-refl n
apply-Calm (suc rounds) i n = elim (Option-cases (get_entry n.log (pos i))) [
  | inl e ↦ rw (e, apply_from) (Calm-refl n)
  | inr (x, e) ↦
      rw (e, apply_from)
        (apply-Calm rounds (suc i)
          (record n { commit_ch = send_commit n.commit_ch x; last_applied = i }))
]

pub own-Calm : {n m : Node} → Local n m → Calm n m
unfolding stop apply_committed handle_stroke signal_new_entry
own-Calm {n} (stroke s e) = ground arith
own-Calm {n} apply = apply-Calm _ _ n
own-Calm {n} halt = Calm-refl n
own-Calm {n} timer_reset = Calm-refl n
own-Calm {n} replicate = Calm-refl n
own-Calm {n} (notify e) = Calm-refl n
