-- ===== src/Cluster/Writes.antt =====
-- The steps of a member that leave the leaders' logs as they are, and that its log keeps to them.
use smol_raft.Prelude.{
  ◌≡◌, ◌⊎◌, inl, inr, refl, sym, ap, ◌∙◌, subst, String, Bool-cases, some, List, ◌∷◌, In, arith,
}
use smol_raft.Types.{StrokeEvent, VoteRequest, VoteResponse, AppendEntriesRequest}
use smol_raft.Node.{Node, apply_committed, stop}
use smol_raft.Election.{handle_vote_request, election_timeout}
use smol_raft.Replication.{make_request, handle_stroke}
use smol_raft.Steps.Invariant.Defs.{Inv}
use smol_raft.Steps.Quiet.{vote-Quiet, timeout-Quiet, ballot-Quiet, apply-Quiet}
use smol_raft.Cluster.{
  Cluster, set_node, stand, serve_vote, count_vote, serve_append, Local, stroke, apply, halt,
  timer_reset, replicate, notify,
}
use smol_raft.Cluster.Sane.{IsSane}
use smol_raft.Cluster.Roles.{Calm, vote-Calm, count-Calm}
use smol_raft.Cluster.Yields.{append_kinds}
use smol_raft.Cluster.Ballots.{vote_kinds, timeout-Stands}
use smol_raft.Cluster.Turns.{requested}
use smol_raft.Cluster.Ruled.{Ruled, Carries, IsMatched, change_follower}
use smol_raft.Cluster.Merged.{append-IsWritten}
use smol_raft.Cluster.Follows.{
  Calm-Follows, vote-Follows, stand-Follows, append-Follows, sent-Carries,
}

abbrev pub Matched : List String → Ruled → Cluster → Type 0
Matched members ruled s = IsMatched members ruled s.member s.led s.sent

pub own_kinds :
    {n m : Node}
    → Local n m
    → (m.log ≡ n.log) ⊎ ((st : StrokeEvent) × (handle_stroke st n ≡ some m))
unfolding stop apply_committed
own_kinds (stroke st e) = inr (st, e)
own_kinds {n} apply = inl (apply-Quiet _ _ n (omega arith)).5
own_kinds halt = inl refl
own_kinds timer_reset = inl refl
own_kinds replicate = inl refl
own_kinds (notify e) = inl refl

module _ (members : List String) (ruled : Ruled) (s : Cluster) (sane : IsSane members s)
    (v : Matched members ruled s) (i : String) (mem : In i members) where
  pub Calm-Matched :
      (n : Node)
      → Calm (s.member i).node n
      → n.log ≡ (s.member i).node.log
      → Matched members ruled (set_node i n s)
  Calm-Matched n c same =
      change_follower v i (record (s.member i) { node = n })
        (Calm-Follows ruled s.led i (s.member i).node n (v.follows i mem) c same)

  pub vote-Matched : (req : VoteRequest) → Matched members ruled (serve_vote i req s)
  unfolding serve_vote
  vote-Matched req =
      change_follower v i _
        (elim (Bool-cases (handle_vote_request req (s.member i).node).1.vote_granted) [
          | inl g ↦
              vote-Follows ruled s.led i (s.member i).node _ (v.follows i mem) req
                (vote_kinds req (s.member i).node g) (vote-Quiet req (s.member i).node).5
          | inr g ↦
              Calm-Follows ruled s.led i (s.member i).node _ (v.follows i mem)
                (vote-Calm req (s.member i).node g) (vote-Quiet req (s.member i).node).5
        ])

  pub timeout-Matched :
      {n : Node} {req : VoteRequest}
      → election_timeout (s.member i).node ≡ some (n, req)
      → Matched members ruled (stand i n req s)
  unfolding stand
  timeout-Matched {n} {req} e = change_follower v i _ (
      stand-Follows ruled s.led i (s.member i).node n (v.follows i mem) req
        (timeout-Stands (s.member i).node n req e) (timeout-Quiet (s.member i).node n req e).5)

  pub count-Matched :
      (peer j : String) (resp : VoteResponse) → Matched members ruled (count_vote i peer j resp s)
  unfolding count_vote
  count-Matched peer j resp =
      let t = (s.member i).poll.term in
      let votes = (s.member i).poll.votes in
      change_follower v i _ (
        Calm-Follows ruled s.led i (s.member i).node _ (v.follows i mem)
          (count-Calm t votes resp (s.member i).node)
          (ballot-Quiet t votes (some resp) (s.member i).node).5)

  pub append-Matched :
      (req : AppendEntriesRequest) → In req s.sent → Matched members ruled (serve_append i req s)
  unfolding serve_append
  append-Matched req h = change_follower v i _ (
      append-Follows ruled s.led i (s.member i).node req (v.follows i mem)
        (append_kinds req (s.member i).node)
        (append-IsWritten ruled s.led req (s.member i).node (ruled req.term) v.nobody
          (v.carries req h) (v.follows i mem).log_written (v.rulers req.term)))

  pub send-Matched :
      (peer : String) {req : AppendEntriesRequest}
      → Inv (s.member i).node
      → make_request peer (s.member i).node ≡ some req
      → Matched members ruled (record s { sent = req ∷ s.sent })
  send-Matched peer {req} inv e =
      let (l, t, q) = requested peer (s.member i).node e in
      let h = v.follows i mem in
      let mine : Carries req (ruled req.term) =
        subst (Carries req) (h.rules l ∙ ap ruled (sym t))
          (sent-Carries peer (s.member i).node inv.positive inv.shape l e) in
      record {
        nobody = v.nobody;
        unruled = v.unruled;
        rulers = v.rulers;
        follows = v.follows;
        carries = λ r g. elim g [
          | inl same ↦
              subst (λ (x : AppendEntriesRequest). Carries x (ruled x.term)) (sym same) mine
          | inr k ↦ v.carries r k
        ];
      }
