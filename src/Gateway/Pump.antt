-- ===== src/Gateway/Pump.antt =====
-- The loop that reads a client's messages, while the hub runs.
use smol_raft.Prelude.{
  ℕ, ◌+◌, ◌*◌, ◌≤◌, ◌≡◌, ◌⊎◌, refl, ap, String, true, false, Bool-cases, Option, Option-cases, inl,
  inr, List, [], ◌∷◌, ◌++◌, length, arith, In, ltb→lt, length-append,
}
use smol_raft.Types.{StrokeEvent, WsMessage, error_payload}
use smol_raft.Log.{Outcome, done, panicked}
use smol_raft.Hub.{
  Bytes, Channel, Hub, Event, unregisters, has, set_channel, on_unregister, run, send_error,
}
use smol_raft.Hub.Round.{has_room}
use smol_raft.Hub.Sends.{try_send-closed, try_send-room, try_send-full}
use smol_raft.Hub.Sets.{has-remove_same}
use smol_raft.Hub.Sound.{IsSound, on_unregister-IsSound, run_from, written}
use smol_raft.Hub.Stays.{run_stays}
use smol_raft.Tracker.{Fetch}
use smol_raft.Forward.{Post, forward_to_leader}
use smol_raft.Forward.Failover.{forward_posts}
use smol_raft.Gateway.{Session, submit, pump_one, read_pump, with_hub}

-- All that happens to the hub while the messages are read, in order.
abbrev pub meanwhile : List (List Event × Bytes) → List Event → List Event
meanwhile [] last = last
meanwhile ((es, m) ∷ ms) last = es ++ meanwhile ms last

In_left : (e : Event) (as' bs : List Event) → In e as' → In e (as' ++ bs)
In_left e [] bs h = elim h [ ]
In_left e (a ∷ as') bs h = elim h [ inl q ↦ inl q | inr k ↦ inr (In_left e as' bs k) ]

In_right : (e : Event) (as' bs : List Event) → In e bs → In e (as' ++ bs)
In_right e [] bs h = h
In_right e (a ∷ as') bs h = inr (In_right e as' bs h)

-- The hub with a changed channel that is as open and short.
set-IsSound :
    (c : ℕ) (ch : Channel) (h : Hub)
    → IsSound h
    → ch.closed ≡ false
    → length ch.queue ≤ 256
    → IsSound (set_channel c ch h)
set-IsSound c ch h s o short = record {
  once = s.once;
  unclosed = λ d e.
      written (λ (x : Channel). x.closed ≡ false) c d ch (h.channel d) (λ q. o)
        (λ n. s.unclosed d e);
  known = s.known;
  short = λ d.
      written (λ (x : Channel). length x.queue ≤ 256) c d ch (h.channel d) (λ q. short)
        (λ n. s.short d);
  broadcasts_short = s.broadcasts_short;
}

-- `gone` states that client c was unregistered meanwhile.
module _ (c : ℕ) (gone : Type 0) where
  -- The hub is sound, and the client is registered or was unregistered.
  abbrev Live : Hub → Type 0
  Live h = IsSound h × ((has c h.clients ≡ true) ⊎ gone)

  abbrev Sends : Hub → Outcome Hub → Type 0
  Sends h o = ((h' : Hub) × (o ≡ done h') × Live h') ⊎ ((h' : Hub) × (o ≡ panicked h') × gone)

  send_error-Sends :
      (encode : WsMessage → Option Bytes) (msg : String) (h : Hub)
      → Live h
      → Sends h (send_error encode c msg h)
  unfolding send_error
  send_error-Sends encode msg h (s, live) =
      elim (Option-cases (encode (record { kind = "error"; payload = error_payload msg }))) [
        | inl e ↦ inl (h, rw (e, send_error), (s, live))
        | inr (m, e) ↦ elim (Bool-cases (h.channel c).closed) [
          | inl shut ↦ elim live [
            | inl t ↦ absurd (cc (s.unclosed c t, shut))
            | inr g ↦ inr (h, rw (e, try_send-closed m (h.channel c) shut, send_error), g)
          ]
          | inr o ↦ elim (Bool-cases (has_room (h.channel c))) [
            | inl t ↦ inl (
              set_channel c (record (h.channel c) { queue = (h.channel c).queue ++ m ∷ [] }) h,
              rw (e, try_send-room m (h.channel c) o t, send_error),
              (
                set-IsSound c _ h s o (
                    omega (
                      arith,
                      length-append (h.channel c).queue (m ∷ []),
                      ltb→lt (length (h.channel c).queue) 256 t,
                    )),
                live,
              ),
            )
            | inr f ↦ inl (h, rw (e, try_send-full m (h.channel c) o f, send_error), (s, live))
          ]
        ]
      ]

  run-Live :
      (es : List Event) (h : Hub)
      → (In (unregisters c) es → gone)
      → Live h
      → (h' : Hub) × (run es h ≡ done h') × Live h'
  run-Live es h hits (s, live) = elim live [
    | inl t ↦
        let (h', e, s', out) = run_stays c es h s t in
        (h', e, (s', elim out [ inl k ↦ inr (hits k) | inr k ↦ inl k ]))
    | inr g ↦ let (h', e, s') = run_from es h s in (h', e, (s', inr g))
  ]

  on_unregister_gone : (h h' : Hub) → on_unregister c h ≡ done h' → has c h'.clients ≡ false
  unfolding on_unregister
  on_unregister_gone h h' e = ground (arith, has-remove_same c h.clients)

  -- A round, which makes at most two POSTs.
  abbrev Goes : Session → Outcome Session → Type 0
  Goes s o =
      ((s' : Session) × (o ≡ done s') × Live s'.hub × (s'.posts ≤ s.posts + 2))
      ⊎ ((s' : Session) × (o ≡ panicked s') × gone)

  error-Goes :
      (encode : WsMessage → Option Bytes) (msg : String) (s : Session) (posts : ℕ)
      → s.posts ≤ posts + 2
      → Live s.hub
      → (t : Session) → t.posts ≡ posts
      → Goes t (with_hub s (send_error encode c msg s.hub))
  error-Goes encode msg s posts few live t same = elim (send_error-Sends encode msg s.hub live) [
    | inl (h', e, l) ↦ inl (record s { hub = h' }, ap (with_hub s) e, l, omega arith)
    | inr (h', e, g) ↦ inr (record s { hub = h' }, ap (with_hub s) e, g)
  ]

module _ (fetch : Fetch) (post : Post) (encode_stroke : StrokeEvent → Option Bytes)
    (decode_stroke : Bytes → Option StrokeEvent) (encode_ws : WsMessage → Option Bytes)
    (c : ℕ) where
  -- The loop ends with client c unregistered and at most so many POSTs, or it panics and the client was
  -- unregistered meanwhile.
  abbrev pub PumpEnd : Type 0 → ℕ → Outcome Session → Type 0
  PumpEnd gone posts o =
      ((s' : Session) × (o ≡ done s')
        × IsSound s'.hub
        × (has c s'.hub.clients ≡ false)
        × (s'.posts ≤ posts))
      ⊎ ((s' : Session) × (o ≡ panicked s') × gone)

  module _ (gone : Type 0) where
    submit-Goes :
        (stroke : StrokeEvent) (s : Session)
        → Live c gone s.hub
        → Goes c gone s (submit fetch post encode_stroke decode_stroke encode_ws c stroke s)
    unfolding submit
    submit-Goes stroke s live =
        let f = forward_to_leader fetch post encode_stroke stroke s.tracker s.polls s.posts in
        let after = record s { tracker = f.tracker; polls = f.polls; posts = f.posts } in
        let few = forward_posts fetch post encode_stroke stroke s.tracker s.polls s.posts in
        elim (Option-cases f.error) [
          | inl e ↦ inl (after, rw (e, submit), live, few)
          | inr (x, e) ↦
              rw (e, submit)
                (error-Goes c gone encode_ws "failed to submit stroke" after s.posts few live s
                  refl)
        ]

    pump_one-Goes :
        (m : Bytes) (s : Session)
        → Live c gone s.hub
        → Goes c gone s (pump_one fetch post encode_stroke decode_stroke encode_ws c m s)
    unfolding pump_one
    pump_one-Goes m s live = elim (Option-cases (decode_stroke m)) [
      | inl e ↦
          rw (e, pump_one)
            (error-Goes c gone encode_ws "invalid stroke data" s s.posts (omega arith) live s refl)
      | inr (stroke, e) ↦ rw (e, pump_one) (submit-Goes stroke s live)
    ]

    read_pump-PumpEnd :
        (ms : List (List Event × Bytes)) (last : List Event) (s : Session)
        → (In (unregisters c) (meanwhile ms last) → gone)
        → Live c gone s.hub
        → PumpEnd gone
            (s.posts + 2 * length ms)
            (read_pump fetch post encode_stroke decode_stroke encode_ws c ms last s)
    unfolding read_pump
    read_pump-PumpEnd [] last s hits live =
        let (h, e, (sound, l)) = run-Live c gone last s.hub hits live in
        let (h', e', sound') = on_unregister-IsSound c h sound in
        inl (
          record s { hub = h' },
          rw (e, e'),
          sound',
          on_unregister_gone c gone h h' e',
          omega arith,
        )
    read_pump-PumpEnd ((es, m) ∷ ms) last s hits live =
        let (h, e, l) =
          run-Live c gone es s.hub (λ k. hits (In_left _ es (meanwhile ms last) k)) live in
        elim (pump_one-Goes m (record s { hub = h }) l) [
          | inr (s', e', g) ↦ inr (s', rw (e, e'), g)
          | inl (s1, e1, l1, few1) ↦
              elim (read_pump-PumpEnd ms last s1 (λ k. hits (In_right _ es (meanwhile ms last) k))
                l1) [
                  | inl (s', e', sound, out, few) ↦
                      inl (s', rw (e, e1) e', sound, out, omega (arith, few1, few))
                  | inr (s', e', g) ↦ inr (s', rw (e, e1) e', g)
                ]
        ]

  -- The loop for a registered client of a sound hub. Whatever messages are read before the connection
  -- ends, whatever the replicas answer, and whatever happens to the hub meanwhile, with no
  -- other poll of the tracker, it ends with the hub sound and the client unregistered, and makes at
  -- most two POSTs for each message; or it panics, which it does only where the client was unregistered meanwhile.
  pub read_pump-ends :
      (ms : List (List Event × Bytes)) (last : List Event) (s : Session)
      → IsSound s.hub
      → has c s.hub.clients ≡ true
      → PumpEnd
          (In (unregisters c) (meanwhile ms last))
          (s.posts + 2 * length ms)
          (read_pump fetch post encode_stroke decode_stroke encode_ws c ms last s)
  read_pump-ends ms last s sound t =
      read_pump-PumpEnd (In (unregisters c) (meanwhile ms last)) ms last s (λ k. k) (sound, inl t)
