-- ===== src/Cluster/Agreement.antt =====
-- State machine safety: what any two members have committed, they have the same, and no request makes
-- a member panic.
use smol_raft.Prelude.{
  ℕ, zero, suc, ◌+◌, ◌≤◌, ◌<◌, ◌≡◌, inl, inr, refl, sym, ◌∙◌, subst, String, some, Option-cases,
  List, get_elem?, get_elem?-drop, lt-length_of_get, length-le_of_get, In, arith, dec_lt, dec_le,
}
use smol_raft.Types.{LogEntry, AppendEntriesRequest, AppendEntriesResponse}
use smol_raft.Log.{last_index, sentinel}
use smol_raft.Log.Merge.{rest, first_conflict}
use smol_raft.Node.{Node, Config}
use smol_raft.Replication.{replied, handle_append_entries}
use smol_raft.Replication.Follow.{append_cases}
use smol_raft.Replication.Accept.{PrevMatches-check, SparesCommitted, handle_append_entries-accepts}
use smol_raft.CatchUp.Merge.{first_conflict_differs}
use smol_raft.Steps.Invariant.Defs.{Inv}
use smol_raft.Steps.Progress.{history-Progress}
use smol_raft.Cluster.{Cluster, new_cluster, Reach, IsConfigured}
use smol_raft.Cluster.Pending.{IsHosted}
use smol_raft.Cluster.Safety.{cluster-IsSane, joined}
use smol_raft.Cluster.Sane.{IsLed, IsSane}
use smol_raft.Cluster.History.{member-Reach}
use smol_raft.Cluster.Ruled.{Ruled}
use smol_raft.Cluster.Writes.{Matched}
use smol_raft.Cluster.Matching.{Reach-Inv}
use smol_raft.Cluster.Claims.{Bids}
use smol_raft.Cluster.Keeping.{Kept}
use smol_raft.Cluster.Commits.{Cover, IsCommitted, Chosen-Holds}
use smol_raft.Cluster.Covered.{get-same, later_same}
use smol_raft.Cluster.Lasting.{Reach-All}

module _ (members : List String) (host : String → String) (ruled : Ruled) (bids : Bids)
    (s : Cluster) (sane : IsSane members s) (inv : (i : String) → Inv (s.member i).node)
    (v : Matched members ruled s) (kept : Kept members ruled bids s)
    (backed : IsCommitted members host ruled s.member s.led s.sent s.answers) where
  cover_led :
      (c u : ℕ) (h : Cover members ruled s.led s.answers c u) → 0 < h.term → IsLed h.term s.led
  cover_led c u h late =
      let (e, g, same) = Chosen-Holds members ruled s.led s.answers h.term h.at h.chosen in
      elim ((v.rulers h.term).known h.at e g) [
        | inl z ↦ absurd (omega (arith, z, same, late))
        | inr l ↦ subst (λ t. IsLed t s.led) same l
      ]

  -- The entry at a committed index, in the log and in that of a leader.
  at_commit :
      (x : String) (k : ℕ)
      → In x members
      → 0 < k
      → k ≤ (s.member x).node.commit_index
      → (h : Cover members ruled s.led s.answers
          (s.member x).node.commit_index
          (s.member x).node.current_term)
        × (a : LogEntry) × (get_elem? (ruled h.term) k ≡ some a)
        × (get_elem? (s.member x).node.log.entries k ≡ some a)
  at_commit x k mx positive low = elim (backed.commits x mx) [
    | inl z ↦ absurd (omega (arith, z))
    | inr (h, keeps) ↦
        let there = Chosen-Holds members ruled s.led s.answers h.term h.at h.chosen in
        let inside = lt-length_of_get (ruled h.term) h.at there.1 in
        elim (Option-cases (get_elem? (ruled h.term) k)) [
          | inl e ↦ absurd (omega (arith, length-le_of_get (ruled h.term) k e, inside, h.reaches))
          | inr (a, g) ↦ (h, a, g, keeps k a low g)
        ]
  ]

  -- A committed entry is in the log of every later leader.
  up_to_leader :
      (c u k t : ℕ) (h : Cover members ruled s.led s.answers c u) {a : LogEntry}
      → k ≤ c
      → h.term ≤ t
      → (h.term < t → IsLed t s.led)
      → get_elem? (ruled h.term) k ≡ some a
      → get_elem? (ruled t) k ≡ some a
  up_to_leader c u k t h low le led g =
      get-same (ruled h.term) (ruled t) (suc h.at) k
        (sym (later_same members ruled bids s sane v kept c u t h le led))
        (omega (arith, low, h.reaches)) g

  agree_now :
      (x y : String) (k : ℕ)
      → In x members
      → In y members
      → k ≤ (s.member x).node.commit_index
      → k ≤ (s.member y).node.commit_index
      → (a : LogEntry) × (get_elem? (s.member x).node.log.entries k ≡ some a)
        × (get_elem? (s.member y).node.log.entries k ≡ some a)
  agree_now x y zero mx my lx ly = (sentinel, (inv x).shape.first, (inv y).shape.first)
  agree_now x y (suc j) mx my lx ly =
      let k = suc j in
      let (h, a, ga, la) = at_commit x k mx (omega arith) lx in
      let (g, b, gb, lb) = at_commit y k my (omega arith) ly in
      elim (dec_le h.term g.term) [
        | yes le ↦
            let moved =
              up_to_leader _ _ k g.term h lx le (λ less. cover_led _ _ g (omega (arith, less)))
                ga in
            (a, la, cc (moved, gb, lb))
        | no more ↦
            let moved =
              up_to_leader _ _ k h.term g ly (omega arith)
                (λ less. cover_led _ _ h (omega (arith, less))) gb in
            (a, la, cc (moved, ga, lb))
      ]

  -- No entry of a request that was sent conflicts with a committed one.
  spares :
      (i : String) (req : AppendEntriesRequest)
      → In i members
      → In req s.sent
      → (s.member i).node.current_term ≤ req.term
      → SparesCommitted req (s.member i).node
  spares i req mem h current =
      let n = (s.member i).node in
      elim (Option-cases
        (first_conflict (suc req.prev_log_index) (rest req.prev_log_index n.log) req.entries)) [
          | inl e ↦ inl e
          | inr (j, e) ↦ inr (
            j,
            e,
            elim (dec_lt n.commit_index j) [
              | yes above ↦ above
              | no low ↦
                  let (p, x, y, at, gx, gy, differ) =
                    first_conflict_differs (suc req.prev_log_index) (rest req.prev_log_index n.log)
                      req.entries j e in
                  let (cover, a, ga, la) = at_commit i j mem (omega arith) (omega arith) in
                  let there : get_elem? (ruled req.term) (suc req.prev_log_index + p) ≡ some y =
                    (v.carries req h).from_log p y gy in
                  let here : get_elem? n.log.entries (suc req.prev_log_index + p) ≡ some x =
                    sym (get_elem?-drop n.log.entries (suc req.prev_log_index) p) ∙ gx in
                  let moved : get_elem? (ruled req.term) j ≡ some a =
                    up_to_leader _ _ j req.term cover (omega arith) (omega (arith, cover.past))
                      (λ _. (req.leader_id, sane.authored req h)) ga in
                  absurd (differ (cc (at, there, here, moved, la)))
            ],
          )
        ]

  answers_now :
      (i : String) (req : AppendEntriesRequest)
      → In i members
      → In req s.sent
      → (m : Node) × (r : AppendEntriesResponse) × (handle_append_entries req (s.member i).node
          ≡ replied m r)
  answers_now i req mem h =
      let n = (s.member i).node in
      append_cases
        (λ k.
          handle_append_entries req n ≡ k
          → (m : Node) × (r : AppendEntriesResponse) × (k ≡ replied m r))
        req n (λ _ _. (_, _, refl)) (λ _ _ _ _. (_, _, refl))
        (λ current ok e. (
          _,
          _,
          sym e
              ∙ handle_append_entries-accepts req n (inv i).shape (v.carries req h).indexed current
                  (PrevMatches-check req n.log ok) (spares i req mem h current),
        ))
        refl

-- State machine safety. Let the members and their peers be configured as for election safety. Then, whatever messages are late, lost or delivered again, an
-- index that a member has committed and that a member has committed at that or any later time has the
-- same entry in the logs of both, stroke included.
pub committed_agree :
    (members : List String) (host : String → String) (config : String → Config) (s u : Cluster)
    (x y : String) (k : ℕ)
    → IsConfigured members config
    → IsHosted members host (λ i. (config i).peer_addrs)
    → Reach members host (new_cluster config) s
    → Reach members host s u
    → In x members
    → In y members
    → k ≤ (s.member x).node.commit_index
    → k ≤ (u.member y).node.commit_index
    → (a : LogEntry) × (get_elem? (s.member x).node.log.entries k ≡ some a)
      × (get_elem? (u.member y).node.log.entries k ≡ some a)
unfolding new_cluster last_index
committed_agree members host config s u x y k c hosts before later mx my lx ly =
    let r = joined before later in
    let (ruled, bids, v, kept, backed) = Reach-All members host config c hosts r in
    let went = history-Progress (config x) (member-Reach before x) (member-Reach later x) in
    let (a, g, h) =
      agree_now members host ruled bids u (cluster-IsSane members host config c hosts r)
        (Reach-Inv config r) v kept backed x y k mx my (omega (arith, lx, went.commit_kept)) ly in
    elim (Option-cases (get_elem? (s.member x).node.log.entries k)) [
      | inl e ↦ absurd (
          omega (
            arith,
            length-le_of_get (s.member x).node.log.entries k e,
            lx,
            (Reach-Inv config before x).committed,
            lt-length_of_get (s.member x).node.log.entries 0
                (Reach-Inv config before x).shape.first,
          ))
      | inr (b, e) ↦ (a, (let moved = went.entries_kept k b lx e in cc (moved, e, g)), h)
    ]

-- No panic. With the members and their peers configured so, no request that a leader ever sent makes
-- the handler of AppendEntries panic, at whichever member and whenever it arrives: it answers.
pub never_panics :
    (members : List String) (host : String → String) (config : String → Config) (s : Cluster)
    (i : String) (req : AppendEntriesRequest)
    → IsConfigured members config
    → IsHosted members host (λ j. (config j).peer_addrs)
    → Reach members host (new_cluster config) s
    → In i members
    → In req s.sent
    → (m : Node) × (r : AppendEntriesResponse) × (handle_append_entries req (s.member i).node
        ≡ replied m r)
never_panics members host config s i req c hosts r mem h =
    let (ruled, bids, v, kept, backed) = Reach-All members host config c hosts r in
    answers_now members host ruled bids s (cluster-IsSane members host config c hosts r)
      (Reach-Inv config r) v kept backed i req mem h
