-- ===== src/Hub/Stays.antt =====
-- A client stays registered until it is unregistered.
use smol_raft.Prelude.{
  ℕ, ◌≡◌, ◌⊎◌, refl, ap, ◌∙◌, subst, ℕ_discrete, true, Bool-cases, inl, inr, List, [], ◌∷◌, arith,
  In,
}
use smol_raft.Log.{done}
use smol_raft.Hub.{
  Hub, has, remove, connect, on_unregister, broadcast, on_broadcast, take_message, handle, run,
  Event, connects, unregisters, broadcasts, round, takes,
}
use smol_raft.Hub.Round.{on_broadcast-Delivered}
use smol_raft.Hub.Sound.{IsSound, connected, handle-IsSound, run_from}

has_of_other : (c d : ℕ) (cs : List ℕ) → has c cs ≡ true → ¬ (c ≡ d) → has c (remove d cs) ≡ true
has_of_other c d [] h n = h
has_of_other c d (x ∷ cs) h n = elim (Bool-cases (has c cs)) [
  | inl t ↦ ground (arith, has_of_other c d cs t n)
  | inr f ↦ ground arith
]

module _ (c : ℕ) where
  unregister_stays :
      (d : ℕ) (h h' : Hub)
      → has c h.clients ≡ true
      → ¬ (c ≡ d)
      → on_unregister d h ≡ done h'
      → has c h'.clients ≡ true
  unfolding on_unregister
  unregister_stays d h h' t n e = ground (arith, has_of_other c d h.clients t n)

  round_stays :
      (h h' : Hub)
      → IsSound h
      → has c h.clients ≡ true
      → on_broadcast h ≡ done h'
      → has c h'.clients ≡ true
  unfolding on_broadcast
  round_stays h h' s t e = go h.broadcast_ch refl
    where
      go : (q : List (List ℕ)) → h.broadcast_ch ≡ q → has c h'.clients ≡ true
      go [] f =
          let same : on_broadcast h ≡ done h = simp (f, on_broadcast) in
          let at : h ≡ h' = cc (same, e) in subst (λ (x : Hub). has c x.clients ≡ true) at t
      go (m ∷ ms) f =
          let (k, ok, del) = on_broadcast-Delivered h m ms s.once s.unclosed f in
          let at : k ≡ h' = cc (ok, e) in
          subst (λ (x : Hub). has c x.clients ≡ true) at (ap (has c) del.same_clients ∙ t)

  connect_stays : (h : Hub) → IsSound h → has c h.clients ≡ true → has c (connect h).clients ≡ true
  connect_stays h s t = rw (connected h s) (ground arith)

  handle_stays :
      (e : Event) (h h' : Hub)
      → IsSound h
      → has c h.clients ≡ true
      → handle e h ≡ done h'
      → (unregisters c ≡ e) ⊎ (has c h'.clients ≡ true)
  unfolding handle broadcast take_message
  handle_stays connects h h' s t q =
      let at : connect h ≡ h' = cc q in
      inr (subst (λ (x : Hub). has c x.clients ≡ true) at (connect_stays h s t))
  handle_stays (unregisters d) h h' s t q = elim (ℕ_discrete c d) [
    | yes same ↦ inl (ap unregisters same)
    | no n ↦ inr (unregister_stays d h h' t n q)
  ]
  handle_stays (broadcasts m) h h' s t q = inr (ground arith)
  handle_stays round h h' s t q = inr (round_stays h h' s t q)
  handle_stays (takes d) h h' s t q = inr (ground arith)

  -- After the events, one of which may have unregistered the client.
  pub run_stays :
      (es : List Event) (h : Hub)
      → IsSound h
      → has c h.clients ≡ true
      → (h' : Hub) × (run es h ≡ done h')
        × IsSound h'
        × (In (unregisters c) es ⊎ (has c h'.clients ≡ true))
  unfolding run
  run_stays [] h s t = (h, refl, s, inr t)
  run_stays (e ∷ es) h s t =
      let (g, ok, s1) = handle-IsSound e h s in
      elim (handle_stays e h g s t ok) [
        | inl hit ↦ let (h', rest, s2) = run_from es g s1 in (h', rw ok rest, s2, inl (inl hit))
        | inr still ↦
            let (h', rest, s2, out) = run_stays es g s1 still in
            (h', rw ok rest, s2, elim out [ inl k ↦ inl (inr k) | inr k ↦ inr k ])
      ]
