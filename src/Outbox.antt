-- ===== src/Outbox.antt =====
-- gateway/internal/gateway/handler.go: `writePump`, which writes a client's channel to its socket.
--
-- The socket is not the program's: whether `NextWriter`, `Close` and the pings succeed is an
-- argument of each round; a frame whose `Close` fails is taken as lost. What `Write` returns is not
-- read. `received` is not in the program: it lists all messages that ever came into the channel.
pub mod Lines
pub mod Order
use smol_raft.Prelude.{
  ℕ, Bool, true, false, not, Option, none, some, List, [], ◌∷◌, ◌++◌, if◌then◌else◌,
}
use smol_raft.Hub.{Bytes, Channel, open_channel, Sent, sent, full, panics, try_send}

-- A frame on the socket.
pub data Frame : Type 0 where
  text : Bytes → Frame
  ping close_frame : Frame

pub record Outbox : Type 0 where
  pub channel : Channel
  pub frames : List Frame
  pub running : Bool
  pub received : List Bytes

unfoldable pub new_outbox : Outbox
new_outbox = record { channel = open_channel; frames = []; running = true; received = [] }

-- The queued messages, each behind a newline: `n` of them, as many as the channel then held.
unfoldable pub drain : List Bytes → Bytes
drain [] = []
drain (m ∷ ms) = b'\n' ∷ m ++ drain ms

-- The case of `client.send`, with the results of `NextWriter` and `Close`.
unfoldable pub write_message : Bool → Bool → Outbox → Outbox
write_message opens closes o = elim o.channel.queue [
  | [] ↦
      if o.channel.closed
      then record o { frames = o.frames ++ close_frame ∷ []; running = false }
      else o
  | m ∷ ms ↦
      if not opens
      then record o { channel = record o.channel { queue = ms }; running = false }
      else (let written = record o { channel = record o.channel { queue = [] } } in
          if not closes
          then record written { running = false }
          else record written { frames = o.frames ++ text (m ++ drain ms) ∷ [] })
]

-- The case of the ticker, with the result of the write.
unfoldable pub write_ping : Bool → Outbox → Outbox
write_ping succeeds o =
    if not succeeds
    then record o { running = false }
    else record o { frames = o.frames ++ ping ∷ [] }

-- What happens: the hub sends or closes, and the loop wakes for its channel or its ticker.
pub data Happening : Type 0 where
  arrives : Bytes → Happening
  hangs_up : Happening
  wakes : Bool → Bool → Happening
  ticks : Bool → Happening

unfoldable pub react : Happening → Outbox → Outbox
react (arrives m) o = elim (try_send m o.channel) [
  | sent ch ↦ record o { channel = ch; received = o.received ++ m ∷ [] }
  | full ↦ o
  | panics ↦ o
]
react hangs_up o = record o { channel = record o.channel { closed = true } }
react (wakes opens closes) o = if o.running then write_message opens closes o else o
react (ticks succeeds) o = if o.running then write_ping succeeds o else o

unfoldable pub react_all : List Happening → Outbox → Outbox
react_all [] o = o
react_all (e ∷ es) o = react_all es (react e o)
