-- ===== src/Tests/CompletenessTests.antt =====
-- After n1's entry of term 1 was acknowledged by n2, n2 is elected in term 2 with the vote of n3.
use smol_raft.Prelude.{
  ◌≡◌, ◌⊎◌, refl, sym, subst, inl, inr, String, true, some, List, [], ◌∷◌, get_elem?, take, In,
  arith,
}
use smol_raft.Types.{leader, VoteRequest}
use smol_raft.Log.{append_entries, append_loop, append_one, new_log, last_index, last_term}
use smol_raft.Node.{
  new_node, become_candidate, become_leader, become_follower, step_down, reset_election_timer,
}
use smol_raft.Election.{
  begin_election, election_timeout, receive_vote, finish_election, handle_vote_request, decide_vote,
}
use smol_raft.Replication.{
  handle_append_entries, follow, respond, accept, check_prev, advance_follower,
}
use smol_raft.Cluster.{
  Cluster, new_cluster, stand, serve_vote, count_vote, close_poll, timeout, vote, count, close,
  serve_append, Reach, next,
}
use smol_raft.Cluster.Claims.{Acked}
use smol_raft.Cluster.Quorum.{Distinct, Among}
use smol_raft.Cluster.Stays.{leader_completeness}
use smol_raft.Tests.Samples.{entry}
use smol_raft.Tests.Wiring.{three, wired, itself, wired-IsConfigured, wired-IsHosted, n2_is_not_n1}
use smol_raft.Tests.ClusterTests.{start, shared, shared-Reach, news}

abbrev paper : VoteRequest
paper = (begin_election (shared.member "n2").node).1

abbrev stood_again : Cluster
stood_again = stand "n2" (begin_election (shared.member "n2").node).0 paper shared

abbrev voted_again : Cluster
voted_again = serve_vote "n3" paper stood_again

abbrev counted_again : Cluster
counted_again = count_vote "n2" "n3" "n3" (record { term = 2; vote_granted = true }) voted_again

abbrev led_again : Cluster
led_again = close_poll "n2" counted_again

led_again-Reach : Reach three itself start led_again
unfolding stand serve_vote count_vote close_poll new_cluster new_node begin_election
    become_candidate last_index last_term new_log election_timeout handle_vote_request step_down
    decide_vote become_follower reset_election_timer receive_vote finish_election become_leader
    serve_append handle_append_entries follow respond accept check_prev append_entries append_loop
    append_one advance_follower
led_again-Reach =
    next
      (next
        (next (next shared-Reach (timeout "n2" (inr (inl refl)) refl))
          (vote "n3" paper (inr (inr (inl refl))) (inl refl)))
        (count "n2" "n3" (record { term = 2; vote_granted = true }) (inr (inl refl))
          (inr (inl refl)) (λ _. inl refl)))
      (close "n2" (inr (inl refl)))

n1_was_elected : In (1, "n1") led_again.led
unfolding stand serve_vote count_vote close_poll new_cluster new_node begin_election
    become_candidate last_index last_term new_log election_timeout handle_vote_request step_down
    decide_vote become_follower reset_election_timer receive_vote finish_election become_leader
    serve_append handle_append_entries follow respond accept check_prev append_entries append_loop
    append_one advance_follower
n1_was_elected = inr (inl refl)

n2_acknowledged : Acked led_again.answers "n2" 1 1
unfolding stand serve_vote count_vote close_poll new_cluster new_node begin_election
    become_candidate last_index last_term new_log election_timeout handle_vote_request step_down
    decide_vote become_follower reset_election_timer receive_vote finish_election become_leader
    serve_append handle_append_entries follow respond accept check_prev append_entries append_loop
    append_one advance_follower
n2_acknowledged = (
  record { from = "n2"; to = news; says = record { term = 1; success = true; conflict_index = 0 } },
  inl refl,
  refl,
  refl,
  refl,
  omega arith,
)

n2_leads_again :
    ((led_again.member "n2").node.state ≡ leader) × ((led_again.member "n2").node.current_term ≡ 2)
unfolding stand serve_vote count_vote close_poll new_cluster new_node begin_election
    become_candidate last_index last_term new_log election_timeout handle_vote_request step_down
    decide_vote become_follower reset_election_timer receive_vote finish_election become_leader
    serve_append handle_append_entries follow respond accept check_prev append_entries append_loop
    append_one advance_follower
n2_leads_again = (refl, refl)

n1_keeps_it : get_elem? (led_again.member "n1").node.log.entries 1 ≡ some (entry 1 1)
unfolding stand serve_vote count_vote close_poll new_cluster new_node begin_election
    become_candidate last_index last_term new_log election_timeout handle_vote_request step_down
    decide_vote become_follower reset_election_timer receive_vote finish_election become_leader
    serve_append handle_append_entries follow respond accept check_prev append_entries append_loop
    append_one advance_follower
n1_keeps_it = refl

abbrev two : List String
two = "n1" ∷ "n2" ∷ []

two-Distinct : Distinct two
two-Distinct =
    (λ h. elim h [ inl e ↦ n2_is_not_n1 (sym e) | inr z ↦ elim z [ ] ], (λ h. elim h [ ], tt))

two-Among : Among two three
two-Among v h = elim h [
  | inl e ↦ inl e
  | inr g ↦ elim g [ inl e ↦ inr (inl e) | inr z ↦ elim z [ ] ]
]

two_acknowledged : (v : String) → In v two → In (1, v) led_again.led ⊎ Acked led_again.answers v 1 1
two_acknowledged v h = elim h [
  | inl e ↦ inl (subst (λ u. In (1, u) led_again.led) (sym e) n1_was_elected)
  | inr g ↦ elim g [
    | inl e ↦ inr (subst (λ u. Acked led_again.answers u 1 1) (sym e) n2_acknowledged)
    | inr z ↦ elim z [ ]
  ]
]

leader_completeness_example :
    take 2 (led_again.member "n2").node.log.entries
    ≡ take 2 (led_again.member "n1").node.log.entries
leader_completeness_example =
    leader_completeness three itself wired led_again two 1 1 "n1" "n2" (entry 1 1)
      wired-IsConfigured wired-IsHosted led_again-Reach two-Distinct two-Among (omega arith)
      two_acknowledged (inl refl) n1_keeps_it refl (inr (inl refl)) n2_leads_again.0
      (omega (arith, n2_leads_again.1))
