-- ===== src/Cluster/History.antt =====
-- What a replica goes through in the cluster is a history of a single node.
use smol_raft.Prelude.{sym, subst, String, some, List}
use smol_raft.Node.{Node}
use smol_raft.Steps
use smol_raft.Cluster.{
  Member, Cluster, update, stand, serve_vote, count_vote, close_poll, serve_append, Local, stroke,
  apply, halt, timer_reset, replicate, notify, Step, timeout, vote, count, close, send, append,
  reply, own, Reach, here, next,
}
use smol_raft.Cluster.Sane.{written}

pub own_step : {n m : Node} → Local n m → Steps.Step n m
own_step (stroke s e) = Steps.Step.stroke s e
own_step apply = Steps.Step.apply
own_step halt = Steps.Step.halt
own_step timer_reset = Steps.Step.timer_reset
own_step replicate = Steps.Step.replicate
own_step (notify e) = Steps.Step.notify e

one : {n m : Node} → Steps.Step n m → Steps.Reach n m
one st = Steps.Reach.next Steps.Reach.here st

-- A write at i is a step of the node of i, and none of another's.
at_member :
    (f : String → Member) (i : String) (m : Member) (j : String)
    → Steps.Step (f i).node m.node
    → Steps.Reach (f j).node (update f i m j).node
at_member f i m j st =
    written (λ x. Steps.Reach (f j).node x.node) f i m j
      (λ e. one (subst (λ k. Steps.Step (f k).node m.node) (sym e) st)) (λ _. Steps.Reach.here)

member_step :
    {members : List String} {host : String → String} {s u : Cluster}
    → Step members host s u
    → (j : String) → Steps.Reach (s.member j).node (u.member j).node
unfolding stand serve_vote count_vote close_poll serve_append
member_step {s = s} (timeout i mem e) j = at_member s.member i _ j (Steps.Step.timeout e)
member_step {s = s} (vote i req mem h) j = at_member s.member i _ j (Steps.Step.vote req)
member_step {s = s} (count i peer resp mem mp given) j =
    at_member s.member i _ j (Steps.Step.ballot _ _ (some resp))
member_step {s = s} (close i mem) j = at_member s.member i _ j (Steps.Step.elect _ _)
member_step {s = s} (send i peer mem e) j = Steps.Reach.here
member_step {s = s} (append i peer req mem h to at) j =
    at_member s.member i _ j (Steps.Step.append req)
member_step {s = s} (reply i peer req resp mem _ _ _) j =
    at_member s.member i _ j (Steps.Step.reply peer req (some resp))
member_step {s = s} (own i mem l) j = at_member s.member i _ j (own_step l)

joined : {n m k : Node} → Steps.Reach n m → Steps.Reach m k → Steps.Reach n k
joined r Steps.Reach.here = r
joined r (Steps.Reach.next s st) = Steps.Reach.next (joined r s) st

-- Whatever the cluster goes through takes the node of each member only through the steps of a node.
pub member-Reach :
    {members : List String} {host : String → String} {s u : Cluster}
    → Reach members host s u
    → (j : String) → Steps.Reach (s.member j).node (u.member j).node
member-Reach here j = Steps.Reach.here
member-Reach (next r st) j = joined (member-Reach r j) (member_step st j)
