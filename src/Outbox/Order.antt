-- ===== src/Outbox/Order.antt =====
-- What the browser reads of the frames is what came into the channel, in its order.
use smol_raft.Prelude.{
  ◌≡◌, ◌⊎◌, refl, sym, ap, ◌∙◌, subst, Bool, true, false, Bool-cases, inl, inr, List, [], ◌∷◌, ◌++◌,
  append_assoc, append-nil, All, ltb, length, if◌then◌else◌,
}
use smol_raft.Hub.{Bytes, channel_cap, try_send}
use smol_raft.Outbox.{
  text, ping, close_frame, Outbox, new_outbox, drain, write_message, write_ping, Happening, arrives,
  hangs_up, wakes, ticks, react, react_all,
}
use smol_raft.Outbox.Lines.{IsLine, read_frames, written_read, silent_read}

-- What was received is what the browser read, and then what is still to come: while the loop runs, the
-- channel's queue.
record IsOrdered (o : Outbox) : Type 0 where
  to_come : List Bytes
  read : o.received ≡ read_frames o.frames ++ to_come
  queued : o.running ≡ true → o.channel.queue ≡ to_come
  plain : All IsLine o.channel.queue

All-append : (xs ys : List Bytes) → All IsLine xs → All IsLine ys → All IsLine (xs ++ ys)
All-append [] ys h g = g
All-append (x ∷ xs) ys h g = (h.0, All-append xs ys h.1 g)

abbrev IsPlain : Happening → Type 0
IsPlain (arrives m) = IsLine m
IsPlain hangs_up = Unit {0}
IsPlain (wakes opens closes) = Unit {0}
IsPlain (ticks succeeds) = Unit {0}

arrives_cases :
    (m : Bytes) (o : Outbox)
    → (react (arrives m) o ≡ o)
      ⊎ (react (arrives m) o ≡ record o {
        channel = record o.channel { queue = o.channel.queue ++ m ∷ [] };
        received = o.received ++ m ∷ [];
      })
unfolding react try_send
arrives_cases m o = elim (Bool-cases o.channel.closed) [
  | inl c ↦ inl (simp (c, react, try_send))
  | inr c ↦ elim (Bool-cases (ltb (length o.channel.queue) channel_cap)) [
    | inr f ↦ inl (simp (c, f, react, try_send))
    | inl t ↦ inr (simp (c, t, react, try_send))
  ]
]

arrives-IsOrdered :
    (m : Bytes) (o : Outbox) → IsLine m → IsOrdered o → IsOrdered (react (arrives m) o)
arrives-IsOrdered m o h v = elim (arrives_cases m o) [
  | inl same ↦ subst IsOrdered (sym same) v
  | inr new ↦ subst IsOrdered (sym new) (record {
    to_come = v.to_come ++ m ∷ [];
    read = ap (λ xs. xs ++ m ∷ []) v.read ∙ append_assoc (read_frames o.frames) v.to_come (m ∷ []);
    queued = λ up. ap (λ xs. xs ++ m ∷ []) (v.queued up);
    plain = All-append o.channel.queue (m ∷ []) v.plain (h, tt);
  })
]

write_empty :
    (opens closes : Bool) (o : Outbox)
    → o.channel.queue ≡ []
    → (write_message opens closes o ≡ o)
      ⊎ (write_message opens closes o
          ≡ record o { frames = o.frames ++ close_frame ∷ []; running = false })
unfolding write_message
write_empty opens closes o e = elim (Bool-cases o.channel.closed) [
  | inl c ↦ inr (simp (e, c, write_message))
  | inr c ↦ inl (simp (e, c, write_message))
]

write_some :
    (opens closes : Bool) (o : Outbox) (m : Bytes) (ms : List Bytes)
    → o.channel.queue ≡ m ∷ ms
    → (write_message opens closes o ≡ record o {
      channel = record o.channel { queue = [] };
      frames = o.frames ++ text (m ++ drain ms) ∷ [];
    })
      ⊎ ((q : List Bytes) × (write_message opens closes o
            ≡ record o { channel = record o.channel { queue = q }; running = false })
          × ((q ≡ ms) ⊎ (q ≡ [])))
unfolding write_message
write_some false closes o m ms e = inr (ms, simp (e, write_message), inl refl)
write_some true false o m ms e = inr ([], simp (e, write_message), inr refl)
write_some true true o m ms e = inl (simp (e, write_message))

-- The loop stops without a frame.
stopped-IsOrdered :
    (o : Outbox) (q : List Bytes)
    → All IsLine q
    → IsOrdered o
    → IsOrdered (record o { channel = record o.channel { queue = q }; running = false })
stopped-IsOrdered o q h v = record {
  to_come = v.to_come;
  read = v.read;
  queued = λ up. absurd (cc up);
  plain = h;
}

wakes-IsOrdered :
    (opens closes : Bool) (o : Outbox)
    → o.running ≡ true
    → IsOrdered o
    → IsOrdered (write_message opens closes o)
wakes-IsOrdered opens closes o up v = go o.channel.queue refl
  where
    go : (q : List Bytes) → o.channel.queue ≡ q → IsOrdered (write_message opens closes o)
    go [] e = elim (write_empty opens closes o e) [
      | inl same ↦ subst IsOrdered (sym same) v
      | inr end ↦ subst IsOrdered (sym end) (record {
        to_come = v.to_come;
        read = v.read ∙ ap (λ xs. xs ++ v.to_come) (sym (silent_read o.frames close_frame refl));
        queued = λ on. absurd (cc on);
        plain = v.plain;
      })
    ]
    go (m ∷ ms) e =
        let plain = subst (All IsLine) e v.plain in
        elim (write_some opens closes o m ms e) [
          | inl sent ↦ subst IsOrdered (sym sent) (record {
            to_come = [];
            read =
                v.read
                ∙ ap (λ xs. read_frames o.frames ++ xs) (sym (v.queued up) ∙ e)
                ∙ sym (written_read o.frames m ms plain.0 plain.1)
                ∙ sym (append-nil (read_frames (o.frames ++ text (m ++ drain ms) ∷ [])));
            queued = λ _. refl;
            plain = tt;
          })
          | inr (q, failed, which) ↦ subst IsOrdered (sym failed) (
              stopped-IsOrdered o q
                (elim which [
                  | inl same ↦ subst (All IsLine) (sym same) plain.1
                  | inr none_left ↦ subst (All IsLine) (sym none_left) tt
                ])
                v)
        ]

ticks-IsOrdered : (ok : Bool) (o : Outbox) → IsOrdered o → IsOrdered (write_ping ok o)
unfolding write_ping
ticks-IsOrdered false o v = stopped-IsOrdered o o.channel.queue v.plain v
ticks-IsOrdered true o v = record {
  to_come = v.to_come;
  read = v.read ∙ ap (λ xs. xs ++ v.to_come) (sym (silent_read o.frames ping refl));
  queued = v.queued;
  plain = v.plain;
}

if_running :
    (b : Bool) (after o : Outbox)
    → (b ≡ true → IsOrdered after)
    → IsOrdered o
    → IsOrdered (if b then after else o)
if_running true after o f v = f refl
if_running false after o f v = v

react-IsOrdered : (e : Happening) (o : Outbox) → IsPlain e → IsOrdered o → IsOrdered (react e o)
unfolding react
react-IsOrdered (arrives m) o h v = arrives-IsOrdered m o h v
react-IsOrdered hangs_up o h v = record {
  to_come = v.to_come;
  read = v.read;
  queued = v.queued;
  plain = v.plain;
}
react-IsOrdered (wakes opens closes) o h v =
    if_running o.running (write_message opens closes o) o
      (λ up. wakes-IsOrdered opens closes o up v) v
react-IsOrdered (ticks ok) o h v =
    if_running o.running (write_ping ok o) o (λ up. ticks-IsOrdered ok o v) v

react_all-IsOrdered :
    (es : List Happening) (o : Outbox) → All IsPlain es → IsOrdered o → IsOrdered (react_all es o)
unfolding react_all
react_all-IsOrdered [] o h v = v
react_all-IsOrdered (e ∷ es) o h v =
    react_all-IsOrdered es (react e o) h.1 (react-IsOrdered e o h.0 v)

-- Let a new client's channel and its socket go through anything, messages having no newline in them, as
-- JSON has none. What the browser reads, splitting each frame at its newlines, is the beginning of what
-- came into the channel, in its order and nothing twice; and while `writePump` runs, only what
-- is still in the channel is missing.
pub read_frames-react_all :
    (es : List Happening)
    → All IsPlain es
    → let o = react_all es new_outbox in
      (to_come : List Bytes) × (o.received ≡ read_frames o.frames ++ to_come)
      × (o.running ≡ true → o.channel.queue ≡ to_come)
unfolding new_outbox
read_frames-react_all es h =
    let v =
      react_all-IsOrdered es new_outbox h
        (record { to_come = []; read = refl; queued = λ _. refl; plain = tt }) in
    (v.to_come, v.read, v.queued)
