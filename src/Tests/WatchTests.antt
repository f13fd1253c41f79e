-- ===== src/Tests/WatchTests.antt =====
-- gateway/internal/leader/tracker.go against three replicas, of which r2 leads and r1 is down.
use smol_raft.Prelude.{
  ℕ, zero, suc, ◌≡◌, ◌⊎◌, refl, subst, Bool-cases, inl, inr, String, Option, none, some, [], ◌∷◌,
  str_eq, str_eq_iff, if◌then◌else◌,
}
use smol_raft.Types.{NodeState, follower, candidate, leader, StatusResponse}
use smol_raft.Node.{Node, status}
use smol_raft.Server.{Body}
use smol_raft.Rpc.{Codec}
use smol_raft.Watch.{fetch_from, watch}
use smol_raft.Watch.Finds.{watch_finds}
use smol_raft.Tests.Samples.{node_a, leading}
use smol_raft.Tests.RpcTests.{codec, any_url}
use smol_raft.Tests.TrackerTests.{tracker}

abbrev state_number : NodeState → ℕ
state_number follower = 0
state_number candidate = 0
state_number leader = 1

abbrev read_state : Body → Option StatusResponse
read_state (zero ∷ b) = some (status node_a)
read_state (suc n ∷ b) = some (status leading)
read_state [] = none

abbrev states : Codec
states = record codec { encode_status = λ st. state_number st.state ∷ [] }

abbrev nodes : ℕ → String → Option Node
nodes k a = if str_eq a "r1" then none else if str_eq a "r2" then some leading else some node_a

-- The node is that of r2, or the follower's.
known : (b : String) (n : Node) → nodes 0 b ≡ some n → ((leading ≡ n) × (b ≡ "r2")) ⊎ (node_a ≡ n)
known b n e = elim (Bool-cases (str_eq b "r1")) [
  | inl t ↦ absurd (cc (rw t at e))
  | inr f ↦ elim (Bool-cases (str_eq b "r2")) [
    | inl t ↦ inl (let same : leading ≡ n = cc (rw (f, t) at e) in same, (str_eq_iff b "r2").0 t)
    | inr g ↦ inr (let same : node_a ≡ n = cc (rw (f, g) at e) in same)
  ]
]

states_read :
    (j : ℕ) (b : String) (n : Node)
    → nodes j b ≡ some n
    → read_state (states.encode_status (status n)) ≡ some (status n)
unfolding status
states_read j b n e = elim (known b n e) [
  | inl (same, _) ↦
      subst (λ m. read_state (states.encode_status (status m)) ≡ some (status m)) same refl
  | inr same ↦ subst (λ m. read_state (states.encode_status (status m)) ≡ some (status m)) same refl
]

watch_finds_example :
    (watch (fetch_from any_url states read_state nodes) 3 tracker 0).0.leader_addr ≡ "r2"
watch_finds_example =
    watch_finds any_url states read_state nodes states_read tracker 3 0 "r2" refl
      (inr (inr (inl refl))) (λ j. (leading, refl, refl))
      (λ b j n e l. elim (known b n e) [
        | inl (_, is_r2) ↦ is_r2
        | inr same ↦ absurd (cc (same, l))
      ])
