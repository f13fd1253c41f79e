-- ===== src/CatchUp/Ends.antt =====
-- A leader that exchanges enough rounds with a peer brings it up to its own log.
use smol_raft.Prelude.{
  ℕ, zero, suc, ◌≤◌, ◌<◌, ◌≡◌, inl, inr, ◌∙◌, String, some, Option-cases, arith,
}
use smol_raft.Types.{leader}
use smol_raft.Log.Shape.{IsLog}
use smol_raft.Node.{Node, index_of, assign}
use smol_raft.Replication.{check_prev}
use smol_raft.Replication.Follow.{following}
use smol_raft.Replication.Accept.{PrevMatches-check, check_prev-bounds}
use smol_raft.CatchUp.Merge.{AgreesFrom, AgreesTo}
use smol_raft.CatchUp.Round.{
  request, index_of-assign, round-accepts, AgreesFrom-settled, catch_up-refused, catch_up-accepted,
}
use smol_raft.CatchUp.{catch_up}

-- The rounds end, after which the peer agrees with the log of n from an index p below k on.
abbrev pub CaughtUp : ℕ → String → Node → Node → ℕ → Type 0
CaughtUp rounds peer n m k =
    (n' : Node) × (m' : Node) × (p : ℕ) × (catch_up rounds peer n m ≡ some (n', m'))
    × (p < k)
    × AgreesFrom p n.log.entries m'.log.entries

-- Let n lead, with next index k for the peer, let both logs be well formed, the peer's term be no
-- later than the leader's, and no entry up to the peer's commit index differ in term from the
-- leader's.
-- Then k rounds are enough: the peer accepts one of them, none panics, and from some index below k on
-- the peer has an entry of the same term wherever the leader has one.
pub catch_up-CaughtUp :
    (rounds : ℕ) (peer : String) (n m : Node) (k : ℕ)
    → n.state ≡ leader
    → IsLog n.log.entries
    → IsLog m.log.entries
    → m.current_term ≤ n.current_term
    → AgreesTo m.commit_index n.log.entries m.log.entries
    → index_of peer n.next_index ≡ some k
    → 1 ≤ k
    → k ≤ rounds
    → CaughtUp rounds peer n m k
catch_up-CaughtUp rounds peer n m zero lead shape_n shape_m terms agree next low high =
    absurd (omega arith)
catch_up-CaughtUp zero peer n m (suc p) lead shape_n shape_m terms agree next low high =
    absurd (omega arith)
catch_up-CaughtUp (suc rounds) peer n m (suc p) lead shape_n shape_m terms agree next low high =
    elim (Option-cases (check_prev (request n p) m.log)) [
      | inl ok ↦
          let matches = PrevMatches-check (request n p) m.log ok in
          (
            _,
            _,
            p,
            catch_up-accepted rounds peer n m _ p _ lead next
                (round-accepts n m p shape_n shape_m terms agree matches),
            omega arith,
            AgreesFrom-settled n m p shape_n shape_m terms agree matches,
          )
      | inr (conflict, clash) ↦
          let bounds = check_prev-bounds (request n p) m.log conflict clash in
          let (n', m', q, ends, below, agrees) =
            catch_up-CaughtUp rounds peer
              (record n { next_index = assign n.next_index peer conflict })
              (following (request n p) m) conflict lead shape_n shape_m (omega arith) agree
              (index_of-assign n.next_index peer conflict) bounds.0 (omega arith) in
          (
            n',
            m',
            q,
            catch_up-refused rounds peer n m p conflict lead next terms clash bounds.0 ∙ ends,
            omega arith,
            agrees,
          )
    ]
