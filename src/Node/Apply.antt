-- ===== src/Node/Apply.antt =====
-- What `applyCommitted` puts on the commit channel.
use smol_raft.Prelude.{
  ℕ, zero, suc, ◌+◌, ◌-◌, ◌≤◌, ◌<◌, ◌≡◌, refl, sym, ap, ◌∙◌, List, [], ◌∷◌, ◌++◌, append_assoc,
  append-nil, arith, length, take, drop, length-append, length-drop, drop-append_left, drop-drop,
  drop-get, get_elem?-some, ltb, Bool-cases, inl, inr,
}
use smol_raft.Types.{LogEntry}
use smol_raft.Log.{get_entry}
use smol_raft.Node.{Node, commit_cap, send_commit, apply_from, apply_committed}

-- The last k entries of a list.
abbrev pub last_of : ℕ → List LogEntry → List LogEntry
last_of k es = drop (length es - k) es

abbrev send_all : List LogEntry → List LogEntry → List LogEntry
send_all ch [] = ch
send_all ch (e ∷ es) = send_all (send_commit ch e) es

length-last_of : (k : ℕ) (es : List LogEntry) → length (last_of k es) ≤ k
length-last_of k es = omega (arith, length-drop (length es - k) es)

last_of_short : (k : ℕ) (es : List LogEntry) → length es ≤ k → last_of k es ≡ es
last_of_short k es h = let z : length es - k ≡ 0 = omega arith in rw z

-- Entries that are dropped early are dropped in the end.
last_of-append :
    (k : ℕ) (xs ys : List LogEntry) → last_of k (last_of k xs ++ ys) ≡ last_of k (xs ++ ys)
last_of-append k xs ys =
    ap (last_of k) (sym (drop-append_left (length xs - k) xs ys (omega arith)))
    ∙ drop-drop _ (length xs - k) (xs ++ ys)
    ∙ ap (λ n. drop n (xs ++ ys))
        (omega (arith, length-drop (length xs - k) (xs ++ ys), length-append xs ys))

send_commit-last_of :
    (ch : List LogEntry) (e : LogEntry)
    → length ch ≤ commit_cap
    → send_commit ch e ≡ last_of commit_cap (ch ++ e ∷ [])
send_commit-last_of ch e h = elim (Bool-cases (ltb (length ch) commit_cap)) [
  | inl room ↦
      rw room
        (sym (last_of_short commit_cap (ch ++ e ∷ []) (ground (arith, length-append ch (e ∷ [])))))
  | inr full ↦
      let one : length (ch ++ e ∷ []) - commit_cap ≡ 1 =
        ground (arith, length-append ch (e ∷ [])) in
      rw (full, one) (sym (drop-append_left 1 ch (e ∷ []) (ground arith)))
]

send_all-last_of :
    (ch es : List LogEntry)
    → length ch ≤ commit_cap
    → send_all ch es ≡ last_of commit_cap (ch ++ es)
send_all-last_of ch [] h =
    sym (ap (last_of commit_cap) (append-nil ch) ∙ last_of_short commit_cap ch h)
send_all-last_of ch (e ∷ es) h =
    let s = send_commit-last_of ch e h in
    ap (λ c. send_all c es) s
    ∙ send_all-last_of (last_of commit_cap (ch ++ e ∷ [])) es
        (length-last_of commit_cap (ch ++ e ∷ []))
    ∙ last_of-append commit_cap (ch ++ e ∷ []) es
    ∙ ap (last_of commit_cap) (append_assoc ch (e ∷ []) es)

apply_from-eq :
    (rounds i : ℕ) (n : Node)
    → n.last_applied + 1 ≡ i
    → i + rounds ≤ length n.log.entries
    → apply_from rounds i n ≡ record n {
      commit_ch = send_all n.commit_ch (take rounds (drop i n.log.entries));
      last_applied = n.last_applied + rounds;
    }
unfolding apply_from get_entry
apply_from-eq zero i n e h =
    let z : n.last_applied ≡ n.last_applied + 0 = omega arith in
    ap (λ k. record n { last_applied = k }) z
apply_from-eq (suc rounds) i n e h =
    let (x, g) = get_elem?-some n.log.entries i (omega arith) in
    let same : i + rounds ≡ n.last_applied + suc rounds = omega arith in
    rw (g, apply_from)
      (rw (drop-get n.log.entries i g) (
        apply_from-eq rounds (suc i)
          (record n { commit_ch = send_commit n.commit_ch x; last_applied = i }) (omega arith)
          (omega arith)
        ∙ ap
            (λ k. record n {
              commit_ch =
                  send_all (send_commit n.commit_ch x) (take rounds (drop (suc i) n.log.entries));
              last_applied = k;
            })
            same))

-- For a node whose commit index is in its log and not below the applied index, and whose channel is
-- within its capacity: `applyCommitted` sends the entries after the applied index up to the commit
-- index, in order, so that the channel holds the last 256 of what it held and these; the applied
-- index becomes the commit index, and nothing else changes.
pub apply_committed-eq :
    (n : Node)
    → n.last_applied ≤ n.commit_index
    → n.commit_index < length n.log.entries
    → length n.commit_ch ≤ commit_cap
    → apply_committed n ≡ record n {
      last_applied = n.commit_index;
      commit_ch = last_of commit_cap (
          n.commit_ch
          ++ take (n.commit_index - n.last_applied) (drop (n.last_applied + 1) n.log.entries));
    }
unfolding apply_committed
apply_committed-eq n low inside room =
    let rounds = n.commit_index - n.last_applied in
    let i = n.last_applied + 1 in
    let all : n.last_applied + rounds ≡ n.commit_index = omega arith in
    apply_from-eq rounds i n refl (omega arith)
    ∙ ap (λ (c : List LogEntry). record n { commit_ch = c; last_applied = n.last_applied + rounds })
        (send_all-last_of n.commit_ch (take rounds (drop i n.log.entries)) room)
    ∙ ap
        (λ (k : ℕ). record n {
          last_applied = k;
          commit_ch = last_of commit_cap (n.commit_ch ++ take rounds (drop i n.log.entries));
        })
        all
