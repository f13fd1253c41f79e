-- ===== src/Forward/Failover.antt =====
-- What success of a forwarded stroke means, and that a change of the leader is survived.
use smol_raft.Prelude.{
  ℕ, suc, ◌+◌, ◌≤◌, ◌≡◌, ◌≢◌, ◌⊎◌, ◌↔◌, inl, inr, refl, sym, ap, ◌∙◌, String, false, Bool-cases,
  Option, Option-cases, none, some, str_eq, str_eq_iff, In, arith,
}
use smol_raft.Types.{StrokeEvent}
use smol_raft.Tracker.{Fetch, Tracker, poll}
use smol_raft.Tracker.Finds.{SaidLeader, AlwaysLeads, poll_caches}
use smol_raft.Hub.{Bytes}
use smol_raft.Forward.{Post, ForwardError, check_status, forward_to_leader_addr, forward_to_leader}

module _ (fetch : Fetch) (post : Post) (encode : StrokeEvent → Option Bytes)
    (stroke : StrokeEvent) where
  -- The POST of this number took the stroke to the address and was answered with 202.
  abbrev pub Took : ℕ → String → Type 0
  Took k addr = (m : Bytes) × (encode stroke ≡ some m) × (post k addr m ≡ some 202) × (addr ≢ "")

  check_status-none : (o : Option ℕ) → check_status o ≡ none → o ≡ some 202
  check_status-none none h = absurd (cc)
  check_status-none (some s) h = ap some (ground arith)

  unnamed : (addr : String) → str_eq addr "" ≡ false → addr ≢ ""
  unnamed addr h e = cc ((str_eq_iff addr "").1 e)

  named : (addr : String) → addr ≢ "" → str_eq addr "" ≡ false
  named addr h = elim (Bool-cases (str_eq addr "")) [
    | inl t ↦ absurd (h ((str_eq_iff addr "").0 t))
    | inr f ↦ f
  ]

  addr-Took :
      (addr : String) (k : ℕ)
      → (forward_to_leader_addr fetch post encode stroke addr k).0 ≡ none
      → Took k addr
  unfolding forward_to_leader_addr
  addr-Took addr k = elim (Bool-cases (str_eq addr "")) [
    | inl t ↦ rw (t, forward_to_leader_addr) (λ h. absurd (cc))
    | inr f ↦ elim (Option-cases (encode stroke)) [
      | inl e ↦ rw (f, e, forward_to_leader_addr) (λ h. absurd (cc))
      | inr (m, e) ↦
          rw (f, e, forward_to_leader_addr)
            (λ h. (m, refl, check_status-none (post k addr m) h, unnamed addr f))
    ]
  ]

  addr_posts :
      (addr : String) (k : ℕ)
      → (k ≤ (forward_to_leader_addr fetch post encode stroke addr k).1)
        × ((forward_to_leader_addr fetch post encode stroke addr k).1 ≤ suc k)
  unfolding forward_to_leader_addr
  addr_posts addr k = elim (Bool-cases (str_eq addr "")) [
    | inl t ↦ rw (t, forward_to_leader_addr) (omega arith)
    | inr f ↦ elim (Option-cases (encode stroke)) [
      | inl e ↦ rw (f, e, forward_to_leader_addr) (omega arith)
      | inr (m, e) ↦ rw (f, e, forward_to_leader_addr) (omega arith)
    ]
  ]

  addr_result :
      (addr : String) (k : ℕ) (m : Bytes)
      → addr ≢ ""
      → encode stroke ≡ some m
      → forward_to_leader_addr fetch post encode stroke addr k
        ≡ (check_status (post k addr m), suc k)
  unfolding forward_to_leader_addr
  addr_result addr k m n e = rw (named addr n, e, forward_to_leader_addr)

  first_counts :
      (addr : String) (k : ℕ)
      → (forward_to_leader_addr fetch post encode stroke addr k).0 ≡ none
      → (forward_to_leader_addr fetch post encode stroke addr k).1 ≡ suc k
  first_counts addr k h =
      let (m, e, ok, n) = addr-Took addr k h in ap (λ p. p.1) (addr_result addr k m n e)

  module _ (t : Tracker) (polls posts : ℕ) where
    first : Option ForwardError × ℕ
    first = forward_to_leader_addr fetch post encode stroke t.leader_addr posts

    forward-first :
        first.0 ≡ none
        → forward_to_leader fetch post encode stroke t polls posts
          ≡ record { tracker = t; polls = polls; posts = first.1; error = none }
    unfolding forward_to_leader first
    forward-first h = rw (h, forward_to_leader)

    second : Option ForwardError × ℕ
    second =
        forward_to_leader_addr fetch post encode stroke (poll fetch t polls).0.leader_addr first.1

    forward-second :
        (e : ForwardError)
        → first.0 ≡ some e
        → forward_to_leader fetch post encode stroke t polls posts ≡ record {
          tracker = (poll fetch t polls).0;
          polls = (poll fetch t polls).1;
          posts = second.1;
          error = second.0;
        }
    unfolding forward_to_leader first second
    forward-second e h = rw (h, forward_to_leader)

    -- However forwarding a stroke ends, it made at most two POSTs.
    pub forward_posts : (forward_to_leader fetch post encode stroke t polls posts).posts ≤ posts + 2
    unfolding first second
    forward_posts = elim (Option-cases first.0) [
      | inl e ↦ rw (forward-first e) (omega (arith, addr_posts t.leader_addr posts))
      | inr (x, e) ↦ rw (forward-second x e) (
          omega (
            arith,
            addr_posts t.leader_addr posts,
            addr_posts (poll fetch t polls).0.leader_addr first.1,
          ))
    ]

    -- If forwarding a stroke ends without an error, then at most two POSTs were made, and the
    -- stroke was taken: by the cached leader at the first, or by the leader that the poll then
    -- found at the last.
    pub forward_to_leader-Took :
        (forward_to_leader fetch post encode stroke t polls posts).error ≡ none
        → ((forward_to_leader fetch post encode stroke t polls posts).posts ≤ posts + 2)
          × (Took posts t.leader_addr
              ⊎ ((k : ℕ) × (posts ≤ k)
                  × (k ≤ posts + 1)
                  × Took k (poll fetch t polls).0.leader_addr))
    unfolding first second
    forward_to_leader-Took = elim (Option-cases first.0) [
      | inl e ↦ rw (forward-first e) (λ h.
          (omega (arith, addr_posts t.leader_addr posts), inl (addr-Took t.leader_addr posts e)))
      | inr (x, e) ↦ rw (forward-second x e) (λ h. (
        omega (
          arith,
          addr_posts t.leader_addr posts,
          addr_posts (poll fetch t polls).0.leader_addr first.1,
        ),
        inr (
          first.1,
          (addr_posts t.leader_addr posts).0,
          omega (arith, addr_posts t.leader_addr posts),
          addr-Took (poll fetch t polls).0.leader_addr first.1 h,
        ),
      ))
    ]

    -- If a known replica always answers as leader, and no other ever does, then a stroke that can be
    -- encoded is taken at the first POST by the leader that was cached, without an error; or the
    -- last POST carries it to that replica, which is then cached, and forwarding ends without an
    -- error exactly if this POST was answered with 202.
    pub forward_to_leader_fails_over :
        (a : String) (m : Bytes)
        → In a t.replica_addrs
        → AlwaysLeads fetch a
        → ((b : String) → SaidLeader fetch b → b ≡ a)
        → a ≢ ""
        → encode stroke ≡ some m
        → let r = forward_to_leader fetch post encode stroke t polls posts in
          (Took posts t.leader_addr × (r.error ≡ none) × (r.posts ≡ suc posts))
          ⊎ ((k : ℕ) × (posts ≤ k)
              × (k ≤ posts + 1)
              × (r.posts ≡ suc k)
              × (r.tracker.leader_addr ≡ a)
              × ((r.error ≡ none) ↔ (post k a m ≡ some 202)))
    unfolding first second
    forward_to_leader_fails_over a m known leads only n e = elim (Option-cases first.0) [
      | inl h ↦
          rw (forward-first h)
            (inl (addr-Took t.leader_addr posts h, refl, first_counts t.leader_addr posts h))
      | inr (x, h) ↦
          let found : (poll fetch t polls).0.leader_addr ≡ a =
            poll_caches fetch t polls a known leads only in
          let last : second ≡ (check_status (post first.1 a m), suc first.1) =
            ap (λ b. forward_to_leader_addr fetch post encode stroke b first.1) found
            ∙ addr_result a first.1 m n e in
          rw (forward-second x h) (
            inr (
              first.1,
              (addr_posts t.leader_addr posts).0,
              omega (arith, addr_posts t.leader_addr posts),
              ap (λ p. p.1) last,
              found,
              (
                λ z. check_status-none (post first.1 a m) (sym (ap (λ p. p.0) last) ∙ z),
                λ z. ap (λ p. p.0) last ∙ ap check_status z,
              ),
            ))
    ]
