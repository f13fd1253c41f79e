-- ===== src/Cluster/Safety.antt =====
-- Election safety: every step of the replicas keeps the invariant, so that no term has two leaders.
use smol_raft.Prelude.{
  ℕ, ◌≡◌, ◌≢◌, inl, inr, refl, sym, subst, map, String, Bool-cases, List, In, arith,
}
use smol_raft.Types.{leader}
use smol_raft.Node.{Config, new_node}
use smol_raft.Election.{finish_election}
use smol_raft.Cluster.{
  Cluster, new_cluster, stand, serve_vote, count_vote, close_poll, serve_append, Step, timeout,
  vote, count, close, send, append, reply, own, Reach, here, next, IsConfigured,
}
use smol_raft.Cluster.Sane.{IsSane, same_leader}
use smol_raft.Cluster.Pending.{IsHosted, AllPending, In-map, Reach-IsHosted, Reach-Pending}
use smol_raft.Cluster.Roles.{reply-Calm, own-Calm}
use smol_raft.Cluster.Turns.{
  Calm-IsSane, append-IsSane, send-IsSane, vote-IsSane, timeout-IsSane, count-IsSane, close-IsSane,
}

Step-IsSane :
    {members : List String} {host : String → String} {s u : Cluster}
    → ((i : String) → In i members → i ≢ "")
    → IsHosted members host (λ i. (s.member i).node.peers)
    → AllPending members host s
    → IsSane members s
    → Step members host s u
    → IsSane members u
Step-IsSane {members} {host} {s = s} full hosts asked v (timeout i mem e) =
    timeout-IsSane members s v i (full i mem) mem e
Step-IsSane {members} {host} {s = s} full hosts asked v (vote i req mem h) =
    vote-IsSane members s v i req (full i mem) mem h
Step-IsSane {members} {host} {s = s} full hosts asked v (count i peer resp mem mp given) =
    let there = In-map host peer (s.member i).poll.pending mp in
    count-IsSane members s v i peer (host peer) resp mem ((asked i mem).inside (host peer) there)
      ((asked i mem).fresh (host peer) there) given
Step-IsSane {members} {host} {s = s} full hosts asked v (close i mem) =
    close-IsSane members s v i mem
Step-IsSane {members} {host} {s = s} full hosts asked v (send i peer mem e) =
    send-IsSane members s v i peer mem e
Step-IsSane {members} {host} {s = s} full hosts asked v (append i peer req mem h to at) =
    append-IsSane members s v i req mem h (λ e. hosts.others i mem (
      subst (λ z. In z (map host (s.member i).node.peers)) at
        (In-map host peer (s.member i).node.peers
          (subst (λ l. In peer (s.member l).node.peers) (sym e) to))))
Step-IsSane {members} {host} {s = s} full hosts asked v (reply i peer req resp mem _ _ _) =
    Calm-IsSane members s v i _ mem (reply-Calm peer req resp (s.member i).node)
Step-IsSane {members} {host} {s = s} full hosts asked v (own i mem l) =
    Calm-IsSane members s v i _ mem (own-Calm l)

new_cluster-IsSane :
    (members : List String) (config : String → Config)
    → IsConfigured members config
    → IsSane members (new_cluster config)
unfolding new_cluster new_node
new_cluster-IsSane members config c = record {
  bound = λ i mem. record {
    named = c.named i mem;
    sized = c.sized i mem;
    full = λ t d h. elim h [ ];
    past = λ t d h. elim h [ ];
    keeps = λ t d h. elim h [ ];
    once = λ t d e h. elim h [ ];
    stands = λ h. absurd (h refl);
    leads = λ h. absurd (cc);
  };
  counted = λ i mem. record {
    distinct = tt;
    among = λ j h. elim h [ ];
    given = λ j h. elim h [ ];
    enough = omega arith;
  };
  candidates = λ r h. elim h [ ];
  authored = λ r h. elim h [ ];
  majority = λ t l h. elim h [ ];
}

pub cluster-IsSane :
    (members : List String) (host : String → String) (config : String → Config)
    → IsConfigured members config
    → IsHosted members host (λ i. (config i).peer_addrs)
    → {s : Cluster} → Reach members host (new_cluster config) s
    → IsSane members s
cluster-IsSane members host config c hosts here = new_cluster-IsSane members config c
cluster-IsSane members host config c hosts (next r st) =
    Step-IsSane c.full (Reach-IsHosted members host config hosts r)
      (Reach-Pending members host config hosts r) (cluster-IsSane members host config c hosts r) st

-- The elections that were won stay won.
pub led_grows :
    {members : List String} {host : String → String} {s u : Cluster}
    → Step members host s u
    → (b : ℕ × String) → In b s.led
    → In b u.led
unfolding stand serve_vote count_vote close_poll serve_append
led_grows (timeout i mem e) b h = h
led_grows (vote i req mem g) b h = h
led_grows (count i peer resp mem mp given) b h = h
led_grows {s = s} (close i mem) b h =
    elim (Bool-cases
      (finish_election (s.member i).poll.term (s.member i).poll.votes (s.member i).node).1) [
        | inl t ↦ rw t (inr h)
        | inr f ↦ rw f h
      ]
led_grows (send i peer mem e) b h = h
led_grows (append i peer req mem g to at) b h = h
led_grows (reply i peer req resp mem _ _ _) b h = h
led_grows (own i mem l) b h = h

led_stays :
    {members : List String} {host : String → String} {s u : Cluster}
    → Reach members host s u
    → (b : ℕ × String) → In b s.led
    → In b u.led
led_stays here b h = h
led_stays (next r st) b h = led_grows st b (led_stays r b h)

pub joined :
    {members : List String} {host : String → String} {s t u : Cluster}
    → Reach members host s t
    → Reach members host t u
    → Reach members host s u
joined r here = r
joined r (next q st) = next (joined r q) st

-- Election safety. Let every member be configured with its own id and with as many peers as there are
-- other members, and let the peers of each be other members, none twice. Then, in whatever order messages arrive, late, lost or again, a member that leads
-- in some state and one that leads in the same term, then or at any later time, are the same.
pub one_leader :
    (members : List String) (host : String → String) (config : String → Config) (s u : Cluster)
    (i j : String)
    → IsConfigured members config
    → IsHosted members host (λ k. (config k).peer_addrs)
    → Reach members host (new_cluster config) s
    → Reach members host s u
    → In i members
    → In j members
    → (s.member i).node.state ≡ leader
    → (u.member j).node.state ≡ leader
    → (s.member i).node.current_term ≡ (u.member j).node.current_term
    → i ≡ j
one_leader members host config s u i j c hosts before later mi mj li lj same =
    let v = cluster-IsSane members host config c hosts before in
    let w = cluster-IsSane members host config c hosts (joined before later) in
    let first = led_stays later _ ((v.bound i mi).leads li) in
    same_leader members u w (u.member j).node.current_term i j
      (subst (λ t. In (t, i) u.led) same first) ((w.bound j mj).leads lj)
