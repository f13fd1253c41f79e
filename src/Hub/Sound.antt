-- ===== src/Hub/Sound.antt =====
-- The hub's loop never panics: the invariant, kept by every event.
use smol_raft.Prelude.{
  ℕ, ◌+◌, ◌<◌, ◌≤◌, ◌≡◌, ◌≢◌, subst, ℕ_discrete, ltb→lt, refl, sym, ap, ◌∙◌, true, false,
  Bool-cases, inl, inr, List, [], ◌∷◌, length, arith, ltb, ◌==◌, if◌then◌else◌, drop, length-append,
  length-drop,
}
use smol_raft.Log.{done}
use smol_raft.Hub.{
  Bytes, Channel, channel_cap, open_channel, Hub, has, remove, set_channel, connect, on_register,
  on_unregister, broadcast, on_broadcast, take_message, handle, run, Event, connects, unregisters,
  broadcasts, round, takes, new_hub,
}
use smol_raft.Hub.Sets.{Distinct, has-remove_same, has_of_remove, remove-Distinct}
use smol_raft.Hub.Round.{Delivered, offered_to, has_room, on_broadcast-Delivered}

-- A registered client is registered once and has an open channel, its number was given out, and no
-- channel holds more than its capacity.
pub record IsSound (h : Hub) : Type 0 where
  pub once : Distinct h.clients
  pub unclosed : (c : ℕ) → has c h.clients ≡ true → (h.channel c).closed ≡ false
  pub known : (c : ℕ) → has c h.clients ≡ true → c < h.next_client
  pub short : (c : ℕ) → length (h.channel c).queue ≤ 256
  pub broadcasts_short : length h.broadcast_ch ≤ 256

pub fresh-IsSound : IsSound new_hub
unfolding new_hub
fresh-IsSound = record {
  once = tt;
  unclosed = λ c e. absurd (cc);
  known = λ c e. absurd (cc);
  short = λ c. omega arith;
  broadcasts_short = omega arith;
}

-- A statement of the channel at d after a write at c.
pub written {ℓ} :
    (P : Channel → Type ℓ) (c d : ℕ) (a b : Channel)
    → (d ≡ c → P a)
    → (d ≢ c → P b)
    → P (if d == c then a else b)
written P c d a b same other = elim (Bool-cases (d == c)) [
  | inl t ↦ subst (λ q. P (if q then a else b)) (sym t) (same (ground arith))
  | inr f ↦ subst (λ q. P (if q then a else b)) (sym f) (other (ground arith))
]

abbrev IsOpen : Channel → Type 0
IsOpen ch = ch.closed ≡ false

abbrev IsShort : Channel → Type 0
IsShort ch = length ch.queue ≤ 256

has_other : (c d : ℕ) (cs : List ℕ) → has d (c ∷ cs) ≡ true → d ≢ c → has d cs ≡ true
has_other c d cs h n = ground arith

remove_differs : (c d : ℕ) (cs : List ℕ) → has d (remove c cs) ≡ true → d ≢ c
remove_differs c d cs h e = cc (has-remove_same c cs)

next_is_new : (h : Hub) → IsSound h → has h.next_client h.clients ≡ false
next_is_new h s = elim (Bool-cases (has h.next_client h.clients)) [
  | inl t ↦ absurd (omega (arith, s.known h.next_client t))
  | inr f ↦ f
]

-- The hub with one more client, if its number is new.
pub connected :
    (h : Hub)
    → IsSound h
    → connect h ≡ record h {
      clients = h.next_client ∷ h.clients;
      channel =
          λ d. if d == h.next_client then record { queue = []; closed = false } else h.channel d;
      next_client = h.next_client + 1;
    }
unfolding connect on_register
connected h s = rw (next_is_new h s, on_register)

connect-IsSound : (h : Hub) → IsSound h → IsSound (connect h)
connect-IsSound h s = rw (connected h s) (record {
  once = (next_is_new h s, s.once);
  unclosed = λ c e.
      written IsOpen h.next_client c open_channel (h.channel c) (λ q. refl)
        (λ n. s.unclosed c (has_other h.next_client c h.clients e n));
  known = λ c e. elim (ℕ_discrete c h.next_client) [
    | yes q ↦ omega arith
    | no n ↦ omega (arith, s.known c (has_other h.next_client c h.clients e n))
  ];
  short = λ c.
      written IsShort h.next_client c open_channel (h.channel c) (λ q. omega arith)
        (λ n. s.short c);
  broadcasts_short = s.broadcasts_short;
})

broadcast-IsSound : (m : Bytes) (h : Hub) → IsSound h → IsSound (broadcast m h)
unfolding broadcast
broadcast-IsSound m h s = elim (Bool-cases (ltb (length h.broadcast_ch) channel_cap)) [
  | inl t ↦ rw t (record {
    once = s.once;
    unclosed = s.unclosed;
    known = s.known;
    short = s.short;
    broadcasts_short =
        omega (arith, length-append h.broadcast_ch (m ∷ []), ltb→lt (length h.broadcast_ch) 256 t);
  })
  | inr f ↦ rw f s
]

take_message-IsSound : (c : ℕ) (h : Hub) → IsSound h → IsSound (take_message c h)
unfolding take_message
take_message-IsSound c h s = record {
  once = s.once;
  unclosed = λ d e.
      written IsOpen c d (record (h.channel c) { queue = drop 1 (h.channel c).queue }) (h.channel d)
        (λ q. s.unclosed c (subst (λ k. has k h.clients ≡ true) q e)) (λ n. s.unclosed d e);
  known = s.known;
  short = λ d.
      written IsShort c d (record (h.channel c) { queue = drop 1 (h.channel c).queue })
        (h.channel d) (λ q. omega (arith, length-drop 1 (h.channel c).queue, s.short c))
        (λ n. s.short d);
  broadcasts_short = s.broadcasts_short;
}

-- Unregistering a client closes its channel once and never panics.
pub on_unregister-IsSound :
    (c : ℕ) (h : Hub) → IsSound h → (h' : Hub) × (on_unregister c h ≡ done h') × IsSound h'
unfolding on_unregister
on_unregister-IsSound c h s = elim (Bool-cases (has c h.clients)) [
  | inr f ↦ (h, rw f, s)
  | inl t ↦ (
    set_channel c (record (h.channel c) { closed = true })
        (record h { clients = remove c h.clients }),
    rw (t, s.unclosed c t),
    record {
      once = remove-Distinct c h.clients s.once;
      unclosed = λ d e.
          written IsOpen c d (record (h.channel c) { closed = true }) (h.channel d)
            (λ q. absurd (remove_differs c d h.clients e q))
            (λ n. s.unclosed d (has_of_remove c d h.clients e));
      known = λ d e. s.known d (has_of_remove c d h.clients e);
      short = λ d.
          written IsShort c d (record (h.channel c) { closed = true }) (h.channel d)
            (λ q. s.short c) (λ n. s.short d);
      broadcasts_short = s.broadcasts_short;
    },
  )
]

offered-closed :
    (m : Bytes) (cs : List ℕ) (f : ℕ → Channel) (d : ℕ)
    → (offered_to m cs f d).closed ≡ (f d).closed
offered-closed m cs f d = elim (Bool-cases (has d cs)) [
  | inr out ↦ rw out
  | inl t ↦ rw t (elim (Bool-cases (has_room (f d))) [ inl r ↦ rw r | inr r ↦ rw r ])
]

offered-IsShort :
    (m : Bytes) (cs : List ℕ) (f : ℕ → Channel) (d : ℕ)
    → IsShort (f d)
    → IsShort (offered_to m cs f d)
offered-IsShort m cs f d h = elim (Bool-cases (has d cs)) [
  | inr out ↦ rw out h
  | inl t ↦ rw t (elim (Bool-cases (has_room (f d))) [
    | inl r ↦
        rw r (omega (arith, length-append (f d).queue (m ∷ []), ltb→lt (length (f d).queue) 256 r))
    | inr r ↦ rw r h
  ])
]

Delivered-IsSound :
    (m : Bytes) (ms : List Bytes) (h h' : Hub)
    → IsSound h
    → h.broadcast_ch ≡ m ∷ ms
    → Delivered m h.clients (record h { broadcast_ch = ms }) h'
    → IsSound h'
Delivered-IsSound m ms h h' s e del = record {
  once = rw del.same_clients s.once;
  unclosed = λ c g.
      ap (λ ch. ch.closed) (del.offers c)
      ∙ offered-closed m h.clients h.channel c
      ∙ s.unclosed c (subst (λ cs. has c cs ≡ true) del.same_clients g);
  known = λ c g. rw del.same_next (s.known c (subst (λ cs. has c cs ≡ true) del.same_clients g));
  short = λ c. rw (del.offers c) (offered-IsShort m h.clients h.channel c (s.short c));
  broadcasts_short = rw del.same_broadcasts (omega (arith, ap length e, s.broadcasts_short));
}

round-IsSound : (h : Hub) → IsSound h → (h' : Hub) × (on_broadcast h ≡ done h') × IsSound h'
unfolding on_broadcast
round-IsSound h s = go h.broadcast_ch refl
  where
    go :
        (q : List Bytes) → h.broadcast_ch ≡ q → (h' : Hub) × (on_broadcast h ≡ done h') × IsSound h'
    go [] e = (h, simp (e, on_broadcast), s)
    go (m ∷ ms) e =
        let (h', ok, del) = on_broadcast-Delivered h m ms s.once s.unclosed e in
        (h', ok, Delivered-IsSound m ms h h' s e del)

pub handle-IsSound :
    (e : Event) (h : Hub) → IsSound h → (h' : Hub) × (handle e h ≡ done h') × IsSound h'
unfolding handle
handle-IsSound connects h s = (connect h, refl, connect-IsSound h s)
handle-IsSound (unregisters c) h s = on_unregister-IsSound c h s
handle-IsSound (broadcasts m) h s = (broadcast m h, refl, broadcast-IsSound m h s)
handle-IsSound round h s = round-IsSound h s
handle-IsSound (takes c) h s = (take_message c h, refl, take_message-IsSound c h s)

pub run_from :
    (es : List Event) (h : Hub) → IsSound h → (h' : Hub) × (run es h ≡ done h') × IsSound h'
unfolding run
run_from [] h s = (h, refl, s)
run_from (e ∷ es) h s =
    let (h1, ok, s1) = handle-IsSound e h s in
    let (h2, rest, s2) = run_from es h1 s1 in (h2, rw ok rest, s2)

-- Whatever connects, disconnects, is broadcast and is read, in any order from the new hub on, the
-- hub never panics: it closes no channel twice and sends to no closed one. Its registered clients are
-- distinct and their channels open, and no channel is ever over its capacity.
pub run-IsSound : (es : List Event) → (h : Hub) × (run es new_hub ≡ done h) × IsSound h
run-IsSound es = run_from es new_hub fresh-IsSound
