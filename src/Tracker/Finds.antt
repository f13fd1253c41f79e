-- ===== src/Tracker/Finds.antt =====
-- Which address a poll ends with.
use smol_raft.Prelude.{
  ℕ, suc, ◌≤◌, ◌<◌, ◌≡◌, ◌⊎◌, Option, inl, inr, sym, subst, not, if◌then◌else◌, ap, ◌∙◌, String,
  true, Bool-cases, Option-cases, none, some, List, [], ◌∷◌, arith, str_eq, In,
}
use smol_raft.Types.{StatusResponse, leader}
use smol_raft.Node.{state_eq}
use smol_raft.Tracker.{
  Fetch, Tracker, is_named_leader, find_named, ask, poll_loop, addr_or_empty, poll, set_leader,
}

module _ (fetch : Fetch) where
  -- The replica answered some call as leader.
  abbrev pub SaidLeader : String → Type 0
  SaidLeader a = (k : ℕ) × (st : StatusResponse) × (fetch k a ≡ some st) × (st.state ≡ leader)

  -- The replica answered a call from number lo on and below number hi as leader.
  abbrev pub SaidIn : ℕ → ℕ → String → Type 0
  SaidIn lo hi a =
      (k : ℕ) × (st : StatusResponse) × (lo ≤ k)
      × (k < hi)
      × (fetch k a ≡ some st)
      × (st.state ≡ leader)

  pub SaidIn-SaidLeader : (lo hi : ℕ) (a : String) → SaidIn lo hi a → SaidLeader a
  SaidIn-SaidLeader lo hi a (k, st, low, high, e, l) = (k, st, e, l)

  SaidIn-wider :
      (lo hi lo' hi' : ℕ) (a : String) → lo' ≤ lo → hi ≤ hi' → SaidIn lo hi a → SaidIn lo' hi' a
  SaidIn-wider lo hi lo' hi' a p q (k, st, low, high, e, l) =
      (k, st, omega arith, omega arith, e, l)

  named_leader :
      (id a : String) (k : ℕ) → is_named_leader id (fetch k a) ≡ true → SaidIn k (suc k) a
  named_leader id a k h = elim (Option-cases (fetch k a)) [
    | inl e ↦ absurd (cc (ap (is_named_leader id) e, h))
    | inr (st, e) ↦ (k, st, omega arith, omega arith, e, ground arith)
  ]

  find_named_calls :
      (id : String) (addrs : List String) (k : ℕ) → k ≤ (find_named fetch id addrs k).1
  unfolding find_named
  find_named_calls id [] k = omega arith
  find_named_calls id (a ∷ addrs) k = elim (Bool-cases (is_named_leader id (fetch k a))) [
    | inl t ↦ rw t (omega arith)
    | inr t ↦ rw t (omega (arith, find_named_calls id addrs (suc k)))
  ]

  find_named_sound :
      (id : String) (addrs : List String) (k : ℕ) {b : String}
      → (find_named fetch id addrs k).0 ≡ some b
      → In b addrs × SaidIn k (find_named fetch id addrs k).1 b
  unfolding find_named
  find_named_sound id [] k = λ h. absurd (cc)
  find_named_sound id (a ∷ addrs) k {b} = elim (Bool-cases (is_named_leader id (fetch k a))) [
    | inl t ↦ rw t (λ h.
        let same : a ≡ b = cc in
        (inl (sym same), subst (SaidIn k (suc k)) same (named_leader id a k t)))
    | inr t ↦ rw t (λ h.
        let r = find_named_sound id addrs (suc k) h in
        (
          inr r.0,
          SaidIn-wider (suc k) (find_named fetch id addrs (suc k)).1 k
              (find_named fetch id addrs (suc k)).1 b (omega arith) (omega arith) r.1,
        ))
  ]

  -- What a round does with an answer.
  abbrev after_answer : List String → String → ℕ → StatusResponse → Option String × ℕ
  after_answer all a k st =
      if state_eq st.state leader
      then (some a, suc k)
      else if not (str_eq st.leader_id "")
      then find_named fetch st.leader_id all (suc k)
      else (none, suc k)

  ask_calls : (all : List String) (a : String) (k : ℕ) → k ≤ (ask fetch all a k).1
  unfolding ask
  ask_calls all a k = elim (Option-cases (fetch k a)) [
    | inl e ↦ rw (e, ask) (omega arith)
    | inr (st, e) ↦ rw (e, ask) (answered st)
  ]
    where
      answered : (st : StatusResponse) → k ≤ (after_answer all a k st).1
      answered st = elim (Bool-cases (state_eq st.state leader)) [
        | inl l ↦ rw l (omega arith)
        | inr l ↦ elim (Bool-cases (not (str_eq st.leader_id ""))) [
          | inl told ↦ rw (l, told) (omega (arith, find_named_calls st.leader_id all (suc k)))
          | inr silent ↦ rw (l, silent) (omega arith)
        ]
      ]

  -- A round ends with the replica asked, or with one of all that was asked in turn.
  ask_sound :
      (all : List String) (a : String) (k : ℕ) {b : String}
      → (ask fetch all a k).0 ≡ some b
      → ((b ≡ a) ⊎ In b all) × SaidIn k (ask fetch all a k).1 b
  unfolding ask
  ask_sound all a k {b} = elim (Option-cases (fetch k a)) [
    | inl e ↦ rw (e, ask) (λ h. absurd (cc))
    | inr (st, e) ↦ rw (e, ask) (answered st e)
  ]
    where
      answered :
          (st : StatusResponse)
          → fetch k a ≡ some st
          → (after_answer all a k st).0 ≡ some b
          → ((b ≡ a) ⊎ In b all) × SaidIn k (after_answer all a k st).1 b
      answered st e = elim (Bool-cases (state_eq st.state leader)) [
        | inl l ↦ rw l (λ h.
            let same : a ≡ b = cc in
            (
              inl (sym same),
              subst (SaidIn k (suc k)) same (k, st, omega arith, omega arith, e, ground arith),
            ))
        | inr l ↦ elim (Bool-cases (not (str_eq st.leader_id ""))) [
          | inl told ↦
              rw (l, told)
                (λ h.
                  let r = find_named_sound st.leader_id all (suc k) h in
                  (
                    inr r.0,
                    SaidIn-wider (suc k) (find_named fetch st.leader_id all (suc k)).1 k
                        (find_named fetch st.leader_id all (suc k)).1 b (omega arith) (omega arith)
                        r.1,
                  ))
          | inr silent ↦ rw (l, silent) (λ h. absurd (cc))
        ]
      ]

  poll_loop_sound :
      (all addrs : List String) (k : ℕ) {b : String}
      → (poll_loop fetch all addrs k).0 ≡ some b
      → (In b addrs ⊎ In b all) × SaidIn k (poll_loop fetch all addrs k).1 b
  unfolding poll_loop
  poll_loop_sound all [] k = λ h. absurd (cc)
  poll_loop_sound all (a ∷ addrs) k {b} = elim (Option-cases (ask fetch all a k).0) [
    | inl e ↦
        rw (e, poll_loop)
          (λ h.
            let next = (ask fetch all a k).1 in
            let r = poll_loop_sound all addrs next h in
            let last = (poll_loop fetch all addrs next).1 in
            (
              elim r.0 [ inl here ↦ inl (inr here) | inr there ↦ inr there ],
              SaidIn-wider next last k last b (ask_calls all a k) (omega arith) r.1,
            ))
    | inr (c, e) ↦
        rw (e, poll_loop)
          (λ h.
            let r = ask_sound all a k (e ∙ h) in
            (elim r.0 [ inl here ↦ inl (inl here) | inr there ↦ inr there ], r.1))
  ]

  ask_finds :
      (all : List String) (a : String) (k : ℕ) (st : StatusResponse)
      → fetch k a ≡ some st
      → st.state ≡ leader
      → (ask fetch all a k).0 ≡ some a
  unfolding ask
  ask_finds all a k st e l =
      let t : state_eq st.state leader ≡ true = ground arith in rw (e, ask) (rw t)

  -- The replica answers every call as leader.
  abbrev pub AlwaysLeads : String → Type 0
  AlwaysLeads a = (k : ℕ) → (st : StatusResponse) × (fetch k a ≡ some st) × (st.state ≡ leader)

  poll_loop_finds :
      (all addrs : List String) (k : ℕ) (a : String)
      → In a addrs
      → AlwaysLeads a
      → (b : String) × ((poll_loop fetch all addrs k).0 ≡ some b)
  unfolding poll_loop
  poll_loop_finds all [] k a h l = elim h [ ]
  poll_loop_finds all (c ∷ addrs) k a h l = elim (Option-cases (ask fetch all c k).0) [
    | inr (b, e) ↦ (b, rw (e, poll_loop))
    | inl e ↦ elim h [
      | inl same ↦
          let (st, f, lead) = l k in
          absurd (cc (ask_finds all c k st (subst (λ x. fetch k x ≡ some st) same f) lead, e))
      | inr there ↦
          let (b, g) = poll_loop_finds all addrs (ask fetch all c k).1 a there l in
          (b, rw (e, poll_loop) g)
    ]
  ]

  -- A poll whose calls start at number k leaves the leader unknown, or caches a known replica that
  -- answered one of this poll's calls as leader.
  pub poll_sound :
      (t : Tracker) (k : ℕ)
      → ((poll fetch t k).0.leader_addr ≡ "")
        ⊎ (In (poll fetch t k).0.leader_addr t.replica_addrs
            × SaidIn k (poll fetch t k).1 (poll fetch t k).0.leader_addr)
  unfolding poll set_leader
  poll_sound t k = elim (Option-cases (poll_loop fetch t.replica_addrs t.replica_addrs k).0) [
    | inl e ↦ inl (ap addr_or_empty e)
    | inr (b, e) ↦
        let r = poll_loop_sound t.replica_addrs t.replica_addrs k e in
        let same : b ≡ addr_or_empty (poll_loop fetch t.replica_addrs t.replica_addrs k).0 =
          ap addr_or_empty (sym e) in
        inr (
          subst (λ x. In x t.replica_addrs × SaidIn k (poll fetch t k).1 x) same
            (elim r.0 [ inl here ↦ here | inr there ↦ there ], r.1))
  ]

  poll_finds :
      (t : Tracker) (k : ℕ) (a : String)
      → In a t.replica_addrs
      → AlwaysLeads a
      → In (poll fetch t k).0.leader_addr t.replica_addrs
        × SaidLeader (poll fetch t k).0.leader_addr
  unfolding poll set_leader
  poll_finds t k a known leads =
      let (b, e) = poll_loop_finds t.replica_addrs t.replica_addrs k a known leads in
      let r = poll_loop_sound t.replica_addrs t.replica_addrs k e in
      let same : b ≡ addr_or_empty (poll_loop fetch t.replica_addrs t.replica_addrs k).0 =
        ap addr_or_empty (sym e) in
      subst (λ x. In x t.replica_addrs × SaidLeader x) same
        (
          elim r.0 [ inl here ↦ here | inr there ↦ there ],
          SaidIn-SaidLeader k (poll fetch t k).1 b r.1,
        )

  -- If a known replica answers every call as leader, and no other replica ever answers so, then a
  -- poll caches this replica, whatever the others answer.
  pub poll_caches :
      (t : Tracker) (k : ℕ) (a : String)
      → In a t.replica_addrs
      → AlwaysLeads a
      → ((b : String) → SaidLeader b → b ≡ a)
      → (poll fetch t k).0.leader_addr ≡ a
  poll_caches t k a known leads only =
      only (poll fetch t k).0.leader_addr (poll_finds t k a known leads).1
