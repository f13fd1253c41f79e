-- ===== src/Tests/OutboxTests.antt =====
-- gateway/internal/gateway/handler.go: two messages in one frame, and one in the next.
use smol_raft.Prelude.{◌≡◌, refl, true, List, [], ◌∷◌, ◌++◌}
use smol_raft.Hub.{Bytes, try_send}
use smol_raft.Outbox.{
  text, new_outbox, Happening, arrives, wakes, ticks, react, react_all, write_message, drain,
}
use smol_raft.Outbox.Lines.{read_frames}
use smol_raft.Outbox.Order.{read_frames-react_all}

abbrev events : List Happening
events =
    arrives (7 ∷ []) ∷ arrives (8 ∷ 9 ∷ []) ∷ wakes true true ∷ ticks true ∷ arrives (5 ∷ []) ∷ []

first_frame :
    (react_all (arrives (7 ∷ []) ∷ arrives (8 ∷ []) ∷ wakes true true ∷ []) new_outbox).frames
    ≡ text (7 ∷ 10 ∷ 8 ∷ []) ∷ []
unfolding react_all react try_send new_outbox write_message drain
first_frame = refl

read_frames-react_all_example :
    let o = react_all events new_outbox in
    (to_come : List Bytes) × (o.received ≡ read_frames o.frames ++ to_come)
    × (o.running ≡ true → o.channel.queue ≡ to_come)
read_frames-react_all_example =
    read_frames-react_all events ((refl, tt), ((refl, (refl, tt)), (tt, (tt, ((refl, tt), tt)))))
