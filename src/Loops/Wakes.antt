-- ===== src/Loops/Wakes.antt =====
-- One signal for the replication loops of all peers.
use smol_raft.Prelude.{
  ℕ, ◌≡◌, refl, ap, ◌∙◌, String, true, false, some, List, [], ◌∷◌, ◌++◌, append-nil, if◌then◌else◌,
  Bool-cases, inl, inr, arith,
}
use smol_raft.Types.{StrokeEvent}
use smol_raft.Node.{Node}
use smol_raft.Replication.{handle_stroke}
use smol_raft.Replication.Reply.{stroke_result}
use smol_raft.Loops.{waits, peer_of, still_leader, replication_round, replication_rounds}

round_without :
    (p : String) (t : ℕ) (n : Node) → n.new_entry ≡ false → replication_round p t n ≡ (n, waits)
unfolding replication_round
round_without p t n h = ground arith

rounds_without :
    (loops : List (String × ℕ)) (n : Node)
    → n.new_entry ≡ false
    → replication_rounds loops n ≡ (n, [])
unfolding replication_rounds
rounds_without [] n h = refl
rounds_without ((p, t) ∷ loops) n h =
    ap (λ r. let rest = replication_rounds loops r.0 in (rest.0, peer_of r.1 ++ rest.1))
      (round_without p t n h)
    ∙ rounds_without loops n h

round_with :
    (p : String) (t : ℕ) (n : Node)
    → n.new_entry ≡ true
    → let r = replication_round p t n in
      (r.0 ≡ record n { new_entry = false })
      × (peer_of r.1 ≡ (if still_leader t n then p ∷ [] else []))
unfolding replication_round
round_with p t n h = elim (Bool-cases (still_leader t n)) [
  | inl s ↦ rw (h, s) (refl, refl)
  | inr s ↦ rw (h, s) (refl, refl)
]

-- A stroke that the leader took signals the replication loops, of whatever peers and terms, and however
-- many there are. Only the loop that receives first acts on it: it sends to its own peer if the node
-- still leads in its term, and otherwise to none. No other loop sends.
pub stroke_wakes_one :
    (s : StrokeEvent) (n : Node) {m : Node} (peer : String) (t : ℕ) (loops : List (String × ℕ))
    → handle_stroke s n ≡ some m
    → replication_rounds ((peer, t) ∷ loops) m
      ≡ (record m { new_entry = false }, if still_leader t m then peer ∷ [] else [])
unfolding replication_rounds
stroke_wakes_one s n {m} peer t loops e =
    let (a, b) = round_with peer t m (ap (λ (x : Node). x.new_entry) (stroke_result s n e).1) in
    let rest = rounds_without loops (record m { new_entry = false }) refl in
    cc (a, b, rest, append-nil (peer_of (replication_round peer t m).1))
