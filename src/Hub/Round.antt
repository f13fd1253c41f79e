-- ===== src/Hub/Round.antt =====
-- A round of the hub's loop for one message: what each client gets.
use smol_raft.Prelude.{
  ℕ, ◌≡◌, ◌≢◌, ℕ_discrete, subst, sym, ap, refl, ◌∙◌, true, false, Bool, Bool-cases, inl, inr, List,
  [], ◌∷◌, ◌++◌, length, arith, ltb, ◌==◌, if◌then◌else◌,
}
use smol_raft.Log.{done}
use smol_raft.Hub.{
  Bytes, Channel, channel_cap, Hub, has, set_channel, try_send, deliver, deliver_all, on_broadcast,
}
use smol_raft.Hub.Sets.{Distinct, differs_of_has}

abbrev pub has_room : Channel → Bool
has_room ch = ltb (length ch.queue) channel_cap

-- The channel after the message was offered to it.
abbrev pub offered : Bytes → Channel → Channel
offered m ch = if has_room ch then record ch { queue = ch.queue ++ m ∷ [] } else ch

-- The clients whose channels have no room, in front of those before, the last first.
abbrev pub too_slow : (ℕ → Channel) → List ℕ → List ℕ → List ℕ
too_slow f [] slow = slow
too_slow f (c ∷ cs) slow = if has_room (f c) then too_slow f cs slow else too_slow f cs (c ∷ slow)

abbrev pub offered_to : Bytes → List ℕ → (ℕ → Channel) → ℕ → Channel
offered_to m cs f d = if has d cs then offered m (f d) else f d

deliver-open :
    (m : Bytes) (c : ℕ) (h : Hub)
    → (h.channel c).closed ≡ false
    → deliver m c h
      ≡ done (
          if has_room (h.channel c)
          then set_channel c (offered m (h.channel c)) h
          else record h { slow = c ∷ h.slow })
unfolding deliver try_send
deliver-open m c h o =
    rw (o, deliver, try_send)
      (elim (Bool-cases (has_room (h.channel c))) [ inl t ↦ rw t | inr f ↦ rw f ])

-- The hub after a message was offered to the clients cs.
pub record Delivered (m : Bytes) (cs : List ℕ) (h h' : Hub) : Type 0 where
  pub same_clients : h'.clients ≡ h.clients
  pub same_next : h'.next_client ≡ h.next_client
  pub same_broadcasts : h'.broadcast_ch ≡ h.broadcast_ch
  pub offers : (d : ℕ) → h'.channel d ≡ offered_to m cs h.channel d
  pub slow_ones : h'.slow ≡ too_slow h.channel cs h.slow

-- The hub after the offer to one client.
abbrev after : Bytes → ℕ → Hub → Hub
after m c h =
    if has_room (h.channel c)
    then set_channel c (offered m (h.channel c)) h
    else record h { slow = c ∷ h.slow }

after-other :
    (m : Bytes) (c d : ℕ) (h : Hub) → (d == c) ≡ false → (after m c h).channel d ≡ h.channel d
after-other m c d h f = elim (Bool-cases (has_room (h.channel c))) [
  | inl t ↦ rw t (rw f)
  | inr r ↦ rw r
]

after_self : (m : Bytes) (c : ℕ) (h : Hub) → (after m c h).channel c ≡ offered m (h.channel c)
after_self m c h = elim (Bool-cases (has_room (h.channel c))) [
  | inl t ↦ ground arith
  | inr r ↦ ground arith
]

has_tail : (c d : ℕ) (cs : List ℕ) → has d cs ≡ true → has d (c ∷ cs) ≡ true
has_tail c d cs h = ground arith

has_head : (c : ℕ) (cs : List ℕ) → has c (c ∷ cs) ≡ true
has_head c cs = ground arith

too_slow-same :
    (f g : ℕ → Channel) (cs slow : List ℕ)
    → ((d : ℕ) → has d cs ≡ true → f d ≡ g d)
    → too_slow f cs slow ≡ too_slow g cs slow
too_slow-same f g [] slow same = refl
too_slow-same f g (c ∷ cs) slow same =
    ap (λ ch. if has_room ch then too_slow f cs slow else too_slow f cs (c ∷ slow))
      (same c (has_head c cs))
    ∙ elim (Bool-cases (has_room (g c))) [
      | inl t ↦ rw t (too_slow-same f g cs slow (λ d h. same d (has_tail c d cs h)))
      | inr r ↦ rw r (too_slow-same f g cs (c ∷ slow) (λ d h. same d (has_tail c d cs h)))
    ]

equal : (a : ℕ) → (a == a) ≡ true
equal a = ground arith

unequal : (a b : ℕ) → a ≢ b → (a == b) ≡ false
unequal a b h = ground arith

module _ (m : Bytes) (c : ℕ) (cs : List ℕ) (h : Hub) (new : has c cs ≡ false) where
  offers_self : offered_to m cs (after m c h).channel c ≡ offered_to m (c ∷ cs) h.channel c
  offers_self = rw new (after_self m c h ∙ rw (equal c))

  offers-after :
      (d : ℕ) → offered_to m cs (after m c h).channel d ≡ offered_to m (c ∷ cs) h.channel d
  offers-after d = elim (ℕ_discrete d c) [
    | yes e ↦
        subst (λ k. offered_to m cs (after m c h).channel k ≡ offered_to m (c ∷ cs) h.channel k)
          (sym e) offers_self
    | no n ↦
        ap (λ ch. if has d cs then offered m ch else ch) (after-other m c d h (unequal d c n))
        ∙ rw (unequal c d (λ e. n (sym e)))
  ]

  slow-after :
      too_slow (after m c h).channel cs (after m c h).slow ≡ too_slow h.channel (c ∷ cs) h.slow
  slow-after =
      too_slow-same (after m c h).channel h.channel cs (after m c h).slow
        (λ d g. after-other m c d h (differs_of_has c d cs new g))
      ∙ elim (Bool-cases (has_room (h.channel c))) [ inl t ↦ rw t | inr r ↦ rw r ]

module _ (m : Bytes) where
  pub deliver_all-Delivered :
      (cs : List ℕ) (h : Hub)
      → Distinct cs
      → ((c : ℕ) → has c cs ≡ true → (h.channel c).closed ≡ false)
      → (h' : Hub) × (deliver_all m cs h ≡ done h') × Delivered m cs h h'
  unfolding deliver_all
  deliver_all-Delivered [] h distinct unclosed = (
    h,
    refl,
    record {
      same_clients = refl;
      same_next = refl;
      same_broadcasts = refl;
      offers = λ d. refl;
      slow_ones = refl;
    },
  )
  deliver_all-Delivered (c ∷ cs) h distinct unclosed =
      let (h', e, del) = deliver_all-Delivered cs (after m c h) distinct.1 (λ d g.
        rw (after-other m c d h (differs_of_has c d cs distinct.0 g))
          (unclosed d (has_tail c d cs g))) in
      (
        h',
        rw (deliver-open m c h (unclosed c (has_head c cs))) e,
        record {
          same_clients = del.same_clients ∙ ground arith;
          same_next = del.same_next ∙ ground arith;
          same_broadcasts = del.same_broadcasts ∙ ground arith;
          offers = λ d. del.offers d ∙ offers-after m c cs h distinct.0 d;
          slow_ones = del.slow_ones ∙ slow-after m c cs h distinct.0;
        },
      )

-- In a round for a message m of the hub's loop, with the registered clients' channels open, every
-- registered client whose channel has room gets m behind what it has, the others of them are set
-- to be unregistered and get nothing, no other channel changes, and no send panics.
pub on_broadcast-Delivered :
    (h : Hub) (m : Bytes) (ms : List Bytes)
    → Distinct h.clients
    → ((c : ℕ) → has c h.clients ≡ true → (h.channel c).closed ≡ false)
    → h.broadcast_ch ≡ m ∷ ms
    → (h' : Hub) × (on_broadcast h ≡ done h')
      × Delivered m h.clients (record h { broadcast_ch = ms }) h'
unfolding on_broadcast
on_broadcast-Delivered h m ms distinct unclosed e =
    rw (e, on_broadcast)
      (deliver_all-Delivered m h.clients (record h { broadcast_ch = ms }) distinct unclosed)
