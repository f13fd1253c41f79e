-- ===== src/Tests/ForwardTests.antt =====
-- gateway/internal/gateway/handler.go: a stroke after the leader has changed from r3 to r2.
use smol_raft.Prelude.{
  ℕ, ◌+◌, ◌≤◌, ◌≡◌, ◌≢◌, ◌⊎◌, ◌↔◌, suc, refl, inl, inr, String, Option, none, some, [], ◌∷◌, str_eq,
  str_eq_iff, if◌then◌else◌,
}
use mathlib.Core.Bool.{false≢true}
use smol_raft.Types.{StrokeEvent, zero_stroke, leader}
use smol_raft.Tracker.{poll, poll_loop, ask, find_named, set_leader}
use smol_raft.Hub.{Bytes}
use smol_raft.Forward.{Forwarded, Post, forward_to_leader, forward_to_leader_addr}
use smol_raft.Forward.Failover.{Took, forward_to_leader-Took, forward_to_leader_fails_over}
use smol_raft.Tests.TrackerTests.{answers, tracker, only_r2, reports}

abbrev one_byte : StrokeEvent → Option Bytes
one_byte s = some (1 ∷ [])

-- r2 takes strokes, the others say that they do not lead.
abbrev takes_at_r2 : Post
takes_at_r2 k a m = if str_eq a "r2" then some 202 else some 503

abbrev r2 : String
r2 = "r2"

named : r2 ≢ ""
named e = false≢true ((str_eq_iff "r2" "").1 e)

-- The POST to r3 is refused, the poll finds r2, and the second POST succeeds.
goes_through : (forward_to_leader answers takes_at_r2 one_byte zero_stroke tracker 0 0).error ≡ none
unfolding forward_to_leader forward_to_leader_addr poll poll_loop ask find_named set_leader
goes_through = refl

abbrev forwarded : Forwarded
forwarded = forward_to_leader answers takes_at_r2 one_byte zero_stroke tracker 0 0

forward_to_leader_fails_over_example :
    (Took answers takes_at_r2 one_byte zero_stroke 0 "r3"
      × (forwarded.error ≡ none)
      × (forwarded.posts ≡ 1))
    ⊎ ((k : ℕ) × (0 ≤ k)
        × (k ≤ 0 + 1)
        × (forwarded.posts ≡ suc k)
        × (forwarded.tracker.leader_addr ≡ "r2")
        × ((forwarded.error ≡ none) ↔ (takes_at_r2 k "r2" (1 ∷ []) ≡ some 202)))
forward_to_leader_fails_over_example =
    forward_to_leader_fails_over answers takes_at_r2 one_byte zero_stroke tracker 0 0 "r2" (1 ∷ [])
      (inr (inr (inl refl))) (λ k. (reports leader, refl, refl)) only_r2 named refl

forward_to_leader-Took_example :
    ((forward_to_leader answers takes_at_r2 one_byte zero_stroke tracker 0 0).posts ≤ 0 + 2)
    × (Took answers takes_at_r2 one_byte zero_stroke 0 "r3"
        ⊎ ((k : ℕ) × (0 ≤ k)
            × (k ≤ 0 + 1)
            × Took answers takes_at_r2 one_byte zero_stroke k
                (poll answers tracker 0).0.leader_addr))
forward_to_leader-Took_example =
    forward_to_leader-Took answers takes_at_r2 one_byte zero_stroke tracker 0 0 goes_through
