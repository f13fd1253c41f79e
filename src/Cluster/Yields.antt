-- ===== src/Cluster/Yields.antt =====
-- AppendEntries and the end of an election: how they change a member's role.
use smol_raft.Prelude.{
  ℕ, suc, ◌≤◌, ◌≡◌, ◌≢◌, ◌⊎◌, inl, inr, refl, sym, ap, ◌∙◌, subst, String, List, length, In, arith,
}
use smol_raft.Types.{NodeState, follower, candidate, leader, AppendEntriesRequest}
use smol_raft.Log.{Log, Outcome, done, panicked, append_entries}
use smol_raft.Node.{Node}
use smol_raft.Replication.{node_of, handle_append_entries, accept}
use smol_raft.Replication.Follow.{following, append_cases}
use smol_raft.Replication.Accept.{accept-done, accept-panicked}
use smol_raft.Cluster.{Member}
use smol_raft.Cluster.Sane.{IsBound, IsLocked}
use smol_raft.Cluster.Roles.{Calm, Calm-refl, Calm-trans}

-- A candidate or leader of the request's term has become a follower in it, without a vote.
abbrev pub Yields : AppendEntriesRequest → Node → Node → Type 0
Yields req n m =
    (m.id ≡ n.id)
    × (m.peers ≡ n.peers)
    × (n.current_term ≡ req.term)
    × (n.state ≢ follower)
    × (m.current_term ≡ req.term)
    × (m.state ≡ follower)

follow_kinds :
    (req : AppendEntriesRequest) (n : Node)
    → n.current_term ≤ req.term
    → Calm n (following req n) ⊎ Yields req n (following req n)
follow_kinds req n h = kinds n.state refl
  where
    kinds :
        (s : NodeState) → n.state ≡ s → Calm n (following req n) ⊎ Yields req n (following req n)
    kinds follower e = inl (ground arith)
    kinds candidate e = ground arith
    kinds leader e = ground arith

accept-Calm : (req : AppendEntriesRequest) (n : Node) → Calm n (node_of (accept req n))
accept-Calm req n = go (append_entries n.log req.entries n.commit_index) refl
  where
    go :
        (o : Outcome Log)
        → append_entries n.log req.entries n.commit_index ≡ o
        → Calm n (node_of (accept req n))
    go (done l) e = rw (accept-done req n l e) (refl, refl, inl (refl, refl, refl))
    go (panicked l) e = rw (accept-panicked req n l e) (refl, refl, inl (refl, refl, refl))

Yields-Calm :
    (req : AppendEntriesRequest) (n m k : Node)
    → Yields req n m
    → Calm m k
    → m.state ≡ follower
    → k.current_term ≡ m.current_term
    → Yields req n k
Yields-Calm req n m k y c f t = ground arith

accept_same :
    (req : AppendEntriesRequest) (n : Node) → (node_of (accept req n)).current_term ≡ n.current_term
accept_same req n = go (append_entries n.log req.entries n.commit_index) refl
  where
    go :
        (o : Outcome Log)
        → append_entries n.log req.entries n.commit_index ≡ o
        → (node_of (accept req n)).current_term ≡ n.current_term
    go (done l) e = rw (accept-done req n l e)
    go (panicked l) e = rw (accept-panicked req n l e)

pub append_kinds :
    (req : AppendEntriesRequest) (n : Node)
    → Calm n (node_of (handle_append_entries req n))
      ⊎ Yields req n (node_of (handle_append_entries req n))
append_kinds req n =
    append_cases (λ h. Calm n (node_of h) ⊎ Yields req n (node_of h)) req n
      (λ stale. inl (Calm-refl n)) (λ conflict current clash. follow_kinds req n current)
      (λ current ok. elim (follow_kinds req n current) [
        | inl c ↦ inl (
            Calm-trans n (following req n) (node_of (accept req (following req n))) c
              (accept-Calm req (following req n)))
        | inr y ↦ inr (
            Yields-Calm req n (following req n) (node_of (accept req (following req n))) y
              (accept-Calm req (following req n)) refl (accept_same req (following req n)))
      ])

module _ (members : List String) (led : List (ℕ × String)) (i : String) (m : Member) (n : Node)
    (req : AppendEntriesRequest) (yields : Yields req m.node n)
    (author : In (req.term, req.leader_id) led) where
  pub yield-IsBound : IsBound members led i m → IsBound members led i (record m { node = n })
  yield-IsBound b = record {
    named = yields.0 ∙ b.named;
    sized = ap (λ ps. suc (length ps)) yields.1 ∙ b.sized;
    full = b.full;
    past = λ t c h. omega (arith, b.past t c h);
    keeps = λ t c h e.
        inr (req.leader_id, subst (λ k. In (k, req.leader_id) led) (sym yields.4 ∙ e) author);
    once = b.once;
    stands = λ h. absurd (h yields.5);
    leads = λ h. absurd (cc);
  }

  pub yield-IsLocked :
      i ≢ req.leader_id
      → ((t : ℕ) (l k : String) → In (t, l) led → In (t, k) led → l ≡ k)
      → (t : ℕ) (l : String) → In (t, l) led
      → IsLocked t l i m
      → IsLocked t l i (record m { node = n })
  yield-IsLocked other same t l h k = record {
    voted = k.voted;
    only = k.only;
    stays = λ e.
        let now : m.node.current_term ≡ t = yields.2 ∙ sym yields.4 ∙ e in
        elim (k.stays now).1 [
          | inl f ↦ absurd (yields.3 f)
          | inr self ↦ absurd (
              other (
                self
                ∙ same t l req.leader_id h
                    (subst (λ q. In (q, req.leader_id) led) (sym yields.4 ∙ e) author)))
        ];
  }
