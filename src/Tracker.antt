-- ===== src/Tracker.antt =====
-- gateway/internal/leader/tracker.go: how the gateway finds the leader.
--
-- `fetchStatus` asks a replica over HTTP. Its answers are a parameter: `fetch k addr` is what the
-- k-th call of a run gets from addr, `none` for an error. The calls are counted, so that a replica
-- may answer differently each time.
pub mod Finds
use smol_raft.Prelude.{
  ℕ, suc, String, Bool, true, false, not, ◌&&◌, Option, none, some, List, [], ◌∷◌, if◌then◌else◌,
  str_eq,
}
use smol_raft.Types.{StatusResponse, leader}
use smol_raft.Node.{state_eq}

abbrev pub Fetch : Type 0
Fetch = ℕ → String → Option StatusResponse

pub record Tracker : Type 0 where
  pub leader_addr : String
  pub replica_addrs : List String

unfoldable pub new_tracker : List String → Tracker
new_tracker addrs = record { leader_addr = ""; replica_addrs = addrs }

unfoldable pub set_leader : String → Tracker → Tracker
set_leader addr t = record t { leader_addr = addr }

-- The replica calls itself `id` and leads.
abbrev pub is_named_leader : String → Option StatusResponse → Bool
is_named_leader id none = false
is_named_leader id (some st) = str_eq st.node_id id && state_eq st.state leader

abbrev pub addr_or_empty : Option String → String
addr_or_empty none = ""
addr_or_empty (some a) = a

module _ (fetch : Fetch) where
  -- The inner loop: the replica that has the id and leads, and the number of the next call.
  unfoldable pub find_named : String → List String → ℕ → Option String × ℕ
  find_named id [] k = (none, k)
  find_named id (a ∷ addrs) k =
      let rest = find_named id addrs (suc k) in
      if is_named_leader id (fetch k a) then (some a, suc k) else rest

  -- One round of the outer loop, over all replicas `all`.
  unfoldable pub ask : List String → String → ℕ → Option String × ℕ
  ask all a k = elim (fetch k a) [
    | none ↦ (none, suc k)
    | some st ↦
        if state_eq st.state leader
        then (some a, suc k)
        else if not (str_eq st.leader_id "")
        then find_named st.leader_id all (suc k)
        else (none, suc k)
  ]

  -- A round that found the leader returns.
  unfoldable pub poll_loop : List String → List String → ℕ → Option String × ℕ
  poll_loop all [] k = (none, k)
  poll_loop all (a ∷ addrs) k =
      let r = ask all a k in
      let rest = poll_loop all addrs r.1 in elim r.0 [ none ↦ rest | some b ↦ (some b, r.1) ]

  -- `PollOnce`, and the number of the next call.
  unfoldable pub poll : Tracker → ℕ → Tracker × ℕ
  poll t k =
      let r = poll_loop t.replica_addrs t.replica_addrs k in (set_leader (addr_or_empty r.0) t, r.1)
