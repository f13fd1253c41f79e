-- ===== src/Watch/Finds.antt =====
-- The tracker against the replicas' own HTTP servers.
use smol_raft.Prelude.{
  ℕ, zero, suc, ◌≡◌, refl, sym, ap, ◌∙◌, subst, inl, inr, String, Bool, Bool-cases, true, false,
  Option, none, some, In,
}
use smol_raft.Types.{StatusResponse, leader}
use smol_raft.Node.{Node, status}
use smol_raft.Server.{Body, http_status}
use smol_raft.Server.Mux.{serve_http, serve_read}
use smol_raft.Rpc.{Url, Codec}
use smol_raft.Tracker.{Fetch, Tracker, poll, set_leader}
use smol_raft.Tracker.Finds.{SaidLeader, AlwaysLeads, poll_caches}
use smol_raft.Watch.{status_url, fetch_status, fetch_from, poll_ticks, watch}

poll-replicas :
    (fetch : Fetch) (t : Tracker) (k : ℕ) → (poll fetch t k).0.replica_addrs ≡ t.replica_addrs
unfolding poll set_leader
poll-replicas fetch t k = refl

ticks_keep :
    (fetch : Fetch) (ticks : ℕ) (r : Tracker × ℕ) (a : String)
    → In a r.0.replica_addrs
    → AlwaysLeads fetch a
    → ((b : String) → SaidLeader fetch b → b ≡ a)
    → r.0.leader_addr ≡ a
    → (poll_ticks fetch ticks r).0.leader_addr ≡ a
unfolding poll_ticks
ticks_keep fetch zero r a known leads only e = e
ticks_keep fetch (suc ticks) r a known leads only e =
    ticks_keep fetch ticks (poll fetch r.0 r.1) a
      (subst (λ as'. In a as') (sym (poll-replicas fetch r.0 r.1)) known) leads only
      (poll_caches fetch r.0 r.1 a known leads only)

abbrev map_status : Option Node → Option StatusResponse
map_status none = none
map_status (some n) = some (status n)

module _ (is_url : Url → Bool) (c : Codec) (decode_status : Body → Option StatusResponse)
    (nodes : ℕ → String → Option Node)
    (reads : (j : ℕ) (b : String) (n : Node)
      → nodes j b ≡ some n
      → decode_status (c.encode_status (status n)) ≡ some (status n)) where
  fetch_status-reads :
      (addr : String) (n : Node)
      → decode_status (c.encode_status (status n)) ≡ some (status n)
      → is_url (status_url addr) ≡ true
      → (fetch_status is_url (serve_http c) decode_status addr n).1 ≡ some (status n)
  unfolding fetch_status serve_http serve_read http_status
  fetch_status-reads addr n d u = rw u d

  fetched :
      (k : ℕ) (addr : String)
      → is_url (status_url addr) ≡ true
      → fetch_from is_url c decode_status nodes k addr ≡ map_status (nodes k addr)
  unfolding fetch_from
  fetched k addr u = go (nodes k addr) refl
    where
      go :
          (o : Option Node)
          → nodes k addr ≡ o
          → fetch_from is_url c decode_status nodes k addr ≡ map_status o
      go none e = rw (e, fetch_from)
      go (some n) e = rw (e, fetch_from) (fetch_status-reads addr n (reads k addr n e) u)

  unreached :
      (k : ℕ) (addr : String)
      → is_url (status_url addr) ≡ false
      → fetch_from is_url c decode_status nodes k addr ≡ none
  unfolding fetch_from fetch_status
  unreached k addr u = go (nodes k addr) refl
    where
      go :
          (o : Option Node)
          → nodes k addr ≡ o
          → fetch_from is_url c decode_status nodes k addr ≡ none
      go none e = rw (e, fetch_from)
      go (some n) e = rw (e, fetch_from) (rw u)

  -- The loop of `Start` against the replicas' own servers, after its first poll and any number of ticks.
  -- If one known replica is reached at every call and always leads, its status URL is accepted, and
  -- none other leads whenever it is reached, then the tracker's leader is that replica. A status is
  -- read as it was written.
  pub watch_finds :
      (t : Tracker) (ticks k : ℕ) (a : String)
      → is_url (status_url a) ≡ true
      → In a t.replica_addrs
      → ((j : ℕ) → (n : Node) × (nodes j a ≡ some n) × (n.state ≡ leader))
      → ((b : String) (j : ℕ) (n : Node) → nodes j b ≡ some n → n.state ≡ leader → b ≡ a)
      → (watch (fetch_from is_url c decode_status nodes) ticks t k).0.leader_addr ≡ a
  unfolding watch status
  watch_finds t ticks k a url known leads only =
      ticks_keep fetch ticks (poll fetch t k) a
        (subst (λ as'. In a as') (sym (poll-replicas fetch t k)) known) always no_other
        (poll_caches fetch t k a known always no_other)
    where
      fetch : Fetch
      fetch = fetch_from is_url c decode_status nodes

      always : AlwaysLeads fetch a
      always j = let (n, e, lead) = leads j in (status n, fetched j a url ∙ ap map_status e, lead)

      other :
          (b : String) (j : ℕ) (o : Option Node) (st : StatusResponse)
          → nodes j b ≡ o
          → map_status o ≡ some st
          → st.state ≡ leader
          → b ≡ a
      other b j none st e h l = absurd (cc h)
      other b j (some n) st e h l = only b j n e (cc (h, l))

      no_other : (b : String) → SaidLeader fetch b → b ≡ a
      no_other b (j, st, e, l) = elim (Bool-cases (is_url (status_url b))) [
        | inl u ↦ other b j (nodes j b) st refl (sym (fetched j b u) ∙ e) l
        | inr n ↦ absurd (cc (unreached j b n, e))
      ]
