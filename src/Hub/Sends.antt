-- ===== src/Hub/Sends.antt =====
-- The sends to one client that handler.go makes outside the hub's loop.
use smol_raft.Prelude.{
  ℕ, zero, suc, ◌≤◌, ◌≡◌, refl, sym, ap, ◌∙◌, String, true, false, Bool-cases, Option, Option-cases,
  none, some, inl, inr, List, [], ◌∷◌, ◌++◌, append_assoc, append-nil, length, take, arith, ltb→lt,
  length-append,
}
use smol_raft.Types.{LogEntry, WsMessage, error_payload}
use smol_raft.Log.{done, panicked}
use smol_raft.Hub.{
  Bytes, Channel, Hub, sent, full, panics, has, remove, set_channel, try_send, on_unregister,
  send_error, encode_stroke, replay,
}
use smol_raft.Hub.Round.{has_room}
use smol_raft.Hub.Sound.{IsSound}

-- The encoded messages of the entries that can be encoded.
abbrev pub encoded : (WsMessage → Option Bytes) → List LogEntry → List Bytes
encoded encode [] = []
encoded encode (e ∷ es) = elim (encode_stroke encode e) [
  | none ↦ encoded encode es
  | some m ↦ m ∷ encoded encode es
]

module _ (m : Bytes) (ch : Channel) where
  pub try_send-closed : ch.closed ≡ true → try_send m ch ≡ panics
  unfolding try_send
  try_send-closed c = rw (c, try_send)

  pub try_send-room :
      ch.closed ≡ false
      → has_room ch ≡ true
      → try_send m ch ≡ sent (record ch { queue = ch.queue ++ m ∷ [] })
  unfolding try_send
  try_send-room o t = simp (o, t, try_send)

  pub try_send-full : ch.closed ≡ false → has_room ch ≡ false → try_send m ch ≡ full
  unfolding try_send
  try_send-full o f = rw (o, f, try_send)

module _ (encode : WsMessage → Option Bytes) where
  -- Once the hub has unregistered a registered client, which it also does by itself to a slow one
  -- whose `readPump` goes on, an error message to that client that can be encoded panics.
  pub send_error-unregistered :
      (h : Hub) (c : ℕ) (msg : String) (m : Bytes)
      → IsSound h
      → has c h.clients ≡ true
      → encode (record { kind = "error"; payload = error_payload msg }) ≡ some m
      → (h' : Hub) × (on_unregister c h ≡ done h') × (send_error encode c msg h' ≡ panicked h')
  unfolding on_unregister send_error
  send_error-unregistered h c msg m s t e =
      let h' =
        set_channel c (record (h.channel c) { closed = true })
          (record h { clients = remove c h.clients }) in
      let closed : (h'.channel c).closed ≡ true = ground arith in
      (h', rw (t, s.unclosed c t), rw (e, try_send-closed m (h'.channel c) closed, send_error))

  replay-stopped :
      (es : List LogEntry) (ch : Channel)
      → ch.closed ≡ false
      → has_room ch ≡ false
      → replay encode es ch ≡ done ch
  unfolding replay
  replay-stopped [] ch o f = refl
  replay-stopped (e ∷ es) ch o f = elim (Option-cases (encode_stroke encode e)) [
    | inl n ↦ rw (n, replay) (replay-stopped es ch o f)
    | inr (m, n) ↦ rw (n, replay) (rw (try_send-full m ch o f))
  ]

  exactly : (ch : Channel) → length ch.queue ≤ 256 → has_room ch ≡ false → 256 ≡ length ch.queue
  exactly ch short f = ground arith

  take_short : (xs : List Bytes) (n : ℕ) → length xs ≤ n → take n xs ≡ xs
  take_short xs zero h = ground arith
  take_short [] (suc n) h = refl
  take_short (x ∷ xs) (suc n) h = ap (◌∷◌ x) (take_short xs n (omega arith))

  take_all_full : (xs ys : List Bytes) (n : ℕ) → n ≡ length xs → take n (xs ++ ys) ≡ xs
  take_all_full [] ys n h = rw h
  take_all_full (x ∷ xs) ys n h = rw h (ap (◌∷◌ x) (take_all_full xs ys (length xs) refl))

  -- The loop of `replayHistory`, on an open channel that nobody reads meanwhile, fills the channel: it
  -- then holds what it had, followed by the messages of the entries in order, up to the capacity.
  pub replay-fills :
      (es : List LogEntry) (ch : Channel)
      → ch.closed ≡ false
      → length ch.queue ≤ 256
      → replay encode es ch ≡ done (record ch { queue = take 256 (ch.queue ++ encoded encode es) })
  unfolding replay
  replay-fills [] ch o short =
      rw (append-nil ch.queue)
        (ap (λ q. done (record ch { queue = q })) (sym (take_short ch.queue 256 short)))
  replay-fills (e ∷ es) ch o short = elim (Option-cases (encode_stroke encode e)) [
    | inl n ↦ rw (n, replay, encoded) (replay-fills es ch o short)
    | inr (m, n) ↦ elim (Bool-cases (has_room ch)) [
      | inl t ↦
          rw (n, replay, encoded)
            (rw (try_send-room m ch o t) (
              replay-fills es (record ch { queue = ch.queue ++ m ∷ [] }) o
                (omega (arith, length-append ch.queue (m ∷ []), ltb→lt (length ch.queue) 256 t))
              ∙ ap (λ q. done (record ch { queue = take 256 q }))
                  (append_assoc ch.queue (m ∷ []) (encoded encode es))))
      | inr f ↦
          rw (n, replay, encoded)
            (rw (try_send-full m ch o f) (
              ap (λ q. done (record ch { queue = q }))
                (sym (take_all_full ch.queue (m ∷ encoded encode es) 256 (exactly ch short f)))))
    ]
  ]
