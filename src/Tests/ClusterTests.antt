-- ===== src/Tests/ClusterTests.antt =====
-- Three replicas, of which n1 is elected in term 1 with the vote of n2.
use smol_raft.Prelude.{◌≡◌, refl, inl, inr, String, true, some, [], ◌∷◌, get_elem?, take, In}
use smol_raft.Types.{leader, VoteRequest, AppendEntriesRequest, zero_stroke}
use smol_raft.Log.{
  sentinel, append, append_entries, append_loop, append_one, new_log, last_index, last_term,
  term_at, get_from,
}
use smol_raft.Node.{
  new_node, become_candidate, become_leader, become_follower, step_down, reset_election_timer,
  signal_new_entry,
}
use smol_raft.Election.{
  begin_election, election_timeout, receive_vote, finish_election, handle_vote_request, decide_vote,
}
use smol_raft.Replication.{
  make_request, handle_stroke, handle_append_entries, follow, respond, accept, check_prev,
  advance_follower,
}
use smol_raft.Cluster.{
  Cluster, new_cluster, stand, serve_vote, count_vote, close_poll, timeout, vote, count, close,
  send, append as deliver, own, stroke, set_node, serve_append, Reach, here, next,
}
use smol_raft.Cluster.Safety.{one_leader}
use smol_raft.Cluster.Matching.{log_matching}
use smol_raft.Tests.Wiring.{three, wired, itself, wired-IsConfigured, wired-IsHosted}
use smol_raft.Tests.Samples.{entry}

abbrev pub start : Cluster
start = new_cluster wired

abbrev pub stood : Cluster
stood =
    stand "n1" (begin_election (start.member "n1").node).0
      (begin_election (start.member "n1").node).1 start

abbrev pub ballot_paper : VoteRequest
ballot_paper = (begin_election (start.member "n1").node).1

abbrev pub voted : Cluster
voted = serve_vote "n2" ballot_paper stood

abbrev pub counted : Cluster
counted = count_vote "n1" "n2" "n2" (record { term = 1; vote_granted = true }) voted

abbrev pub elected : Cluster
elected = close_poll "n1" counted

pub elected-Reach : Reach three itself start elected
unfolding stand serve_vote count_vote close_poll new_cluster new_node begin_election
    become_candidate last_index last_term new_log election_timeout handle_vote_request step_down
    decide_vote become_follower reset_election_timer
elected-Reach =
    next
      (next
        (next (next here (timeout "n1" (inl refl) refl))
          (vote "n2" ballot_paper (inr (inl refl)) (inl refl)))
        (count "n1" "n2" (record { term = 1; vote_granted = true }) (inl refl) (inl refl)
          (λ _. inl refl)))
      (close "n1" (inl refl))

pub n1_leads : (elected.member "n1").node.state ≡ leader
unfolding stand serve_vote count_vote close_poll new_cluster new_node begin_election
    become_candidate last_index last_term new_log election_timeout handle_vote_request step_down
    decide_vote become_follower reset_election_timer receive_vote finish_election become_leader
n1_leads = refl

one_leader_example : ◌≡◌ {A = String} "n1" "n1"
one_leader_example =
    one_leader three itself wired elected elected "n1" "n1" wired-IsConfigured wired-IsHosted
      elected-Reach here (inl refl) (inl refl) n1_leads n1_leads refl

-- n1 takes a stroke and sends it, and n2 appends it.
abbrev pub drawn : Cluster
drawn =
    set_node "n1"
      (record (elected.member "n1").node {
        log = record { entries = sentinel ∷ entry 1 1 ∷ [] };
        new_entry = true;
      })
      elected

abbrev pub news : AppendEntriesRequest
news = record {
  term = 1;
  leader_id = "n1";
  prev_log_index = 0;
  prev_log_term = 0;
  entries = entry 1 1 ∷ [];
  leader_commit = 0;
}

abbrev pub told : Cluster
told = record drawn { sent = news ∷ drawn.sent }

abbrev pub shared : Cluster
shared = serve_append "n2" news told

drawn_by : handle_stroke zero_stroke (elected.member "n1").node ≡ some (drawn.member "n1").node
unfolding stand serve_vote count_vote close_poll new_cluster new_node begin_election
    become_candidate last_index last_term new_log election_timeout handle_vote_request step_down
    decide_vote become_follower reset_election_timer receive_vote finish_election become_leader
    handle_stroke signal_new_entry append
drawn_by = refl

news_made : make_request "n2" (drawn.member "n1").node ≡ some news
unfolding stand serve_vote count_vote close_poll new_cluster new_node begin_election
    become_candidate last_index last_term new_log election_timeout handle_vote_request step_down
    decide_vote become_follower reset_election_timer receive_vote finish_election become_leader
    make_request get_from term_at
news_made = refl

n2_is_peer : In "n2" (told.member "n1").node.peers
unfolding stand serve_vote count_vote close_poll new_cluster new_node begin_election
    become_candidate last_index last_term new_log election_timeout handle_vote_request step_down
    decide_vote become_follower reset_election_timer receive_vote finish_election become_leader
n2_is_peer = inl refl

pub shared-Reach : Reach three itself start shared
shared-Reach =
    next
      (next (next elected-Reach (own "n1" (inl refl) (stroke zero_stroke drawn_by)))
        (send "n1" "n2" (inl refl) news_made))
      (deliver "n2" "n2" news (inr (inl refl)) (inl refl) n2_is_peer refl)

n1_has_it : get_elem? (shared.member "n1").node.log.entries 1 ≡ some (entry 1 1)
unfolding stand serve_vote count_vote close_poll new_cluster new_node begin_election
    become_candidate last_index last_term new_log election_timeout handle_vote_request step_down
    decide_vote become_follower reset_election_timer receive_vote finish_election become_leader
    serve_append
n1_has_it = refl

n2_has_it : get_elem? (shared.member "n2").node.log.entries 1 ≡ some (entry 1 1)
unfolding stand serve_vote count_vote close_poll new_cluster new_node begin_election
    become_candidate last_index last_term new_log election_timeout handle_vote_request step_down
    decide_vote become_follower reset_election_timer receive_vote finish_election become_leader
    serve_append handle_append_entries follow respond accept check_prev append_entries append_loop
    append_one advance_follower
n2_has_it = refl

log_matching_example :
    take 2 (shared.member "n1").node.log.entries ≡ take 2 (shared.member "n2").node.log.entries
log_matching_example =
    log_matching three itself wired shared "n1" "n2" 1 (entry 1 1) (entry 1 1) wired-IsConfigured
      wired-IsHosted shared-Reach (inl refl) (inr (inl refl)) n1_has_it n2_has_it refl
