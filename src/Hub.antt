-- ===== src/Hub.antt =====
-- gateway/internal/gateway/hub.go, and the sends of handler.go to one client: the hub's loop.
--
-- A `*Client` is a number, the address that `HandleWS` gave it; its `send` channel is what `channel`
-- has there. `slow` lists the goroutines that wait to unregister a client that was too slow. The loop
-- takes one event at a time. It visits its clients in the order of the list, where Go's order is
-- random.
pub mod Sets
pub mod Round
pub mod Sound
pub mod Sends
pub mod Stays
use smol_raft.Prelude.{
  ℕ, zero, suc, ◌+◌, String, Bool, true, false, Option, none, some, List, [], ◌∷◌, ◌++◌, length,
  drop, ltb, ◌==◌, if◌then◌else◌,
}
use smol_raft.Types.{StrokeEvent, LogEntry, WsPayload, stroke_payload, error_payload, WsMessage}
use smol_raft.Log.{Outcome, done, panicked, ◌>>=◌}

abbrev pub Bytes : Type 0
Bytes = List ℕ

pub record Channel : Type 0 where
  pub queue : List Bytes
  pub closed : Bool

-- The capacity of `Client.send`, and of `Hub.broadcast`.
abbrev pub channel_cap : ℕ
channel_cap = 256

pub record Hub : Type 0 where
  pub clients : List ℕ
  pub channel : ℕ → Channel
  pub broadcast_ch : List Bytes
  pub slow : List ℕ
  pub next_client : ℕ

abbrev pub open_channel : Channel
open_channel = record { queue = []; closed = false }

unfoldable pub new_hub : Hub
new_hub = record {
  clients = [];
  channel = λ c. open_channel;
  broadcast_ch = [];
  slow = [];
  next_client = 0;
}

-- How a send in a `select` with a default ends. A send to a closed channel panics.
pub data Sent : Type 0 where
  sent : Channel → Sent
  full : Sent
  panics : Sent

unfoldable pub try_send : Bytes → Channel → Sent
try_send m ch =
    if ch.closed
    then panics
    else if ltb (length ch.queue) channel_cap
    then sent (record ch { queue = ch.queue ++ m ∷ [] })
    else full

-- The key is in the map.
abbrev pub has : ℕ → List ℕ → Bool
has c [] = false
has c (d ∷ ds) = if d == c then true else has c ds

-- `delete(h.clients, client)`
abbrev pub remove : ℕ → List ℕ → List ℕ
remove c [] = []
remove c (d ∷ ds) = if d == c then remove c ds else d ∷ remove c ds

abbrev pub set_channel : ℕ → Channel → Hub → Hub
set_channel c ch h = record h { channel = λ d. if d == c then ch else h.channel d }

-- `h.clients[client] = true`
unfoldable pub on_register : ℕ → Hub → Hub
on_register c h = if has c h.clients then h else record h { clients = c ∷ h.clients }

-- `HandleWS`: a new client with an open channel, which the loop then registers.
unfoldable pub connect : Hub → Hub
connect h =
    on_register h.next_client
      (set_channel h.next_client open_channel (record h { next_client = h.next_client + 1 }))

-- `close` of a channel that is closed panics.
unfoldable pub on_unregister : ℕ → Hub → Outcome Hub
on_unregister c h =
    if has c h.clients
    then (let removed = record h { clients = remove c h.clients } in
        if (h.channel c).closed
        then panicked removed
        else done (set_channel c (record (h.channel c) { closed = true }) removed))
    else done h

-- The loop's send to one client.
unfoldable pub deliver : Bytes → ℕ → Hub → Outcome Hub
deliver m c h = elim (try_send m (h.channel c)) [
  | sent ch ↦ done (set_channel c ch h)
  | full ↦ done (record h { slow = c ∷ h.slow })
  | panics ↦ panicked h
]

unfoldable pub deliver_all : Bytes → List ℕ → Hub → Outcome Hub
deliver_all m [] h = done h
deliver_all m (c ∷ cs) h = deliver m c h >>= λ h'. deliver_all m cs h'

-- With nothing in the channel the loop waits.
unfoldable pub on_broadcast : Hub → Outcome Hub
on_broadcast h = elim h.broadcast_ch [
  | [] ↦ done h
  | m ∷ ms ↦ deliver_all m h.clients (record h { broadcast_ch = ms })
]

-- A full channel drops the message.
unfoldable pub broadcast : Bytes → Hub → Hub
broadcast m h =
    if ltb (length h.broadcast_ch) channel_cap
    then record h { broadcast_ch = h.broadcast_ch ++ m ∷ [] }
    else h

unfoldable pub client_count : Hub → ℕ
client_count h = length h.clients

-- What `writePump` does to the channel when it takes a message.
unfoldable pub take_message : ℕ → Hub → Hub
take_message c h = set_channel c (record (h.channel c) { queue = drop 1 (h.channel c).queue }) h

-- What happens to the hub: a connection, a client to unregister, a call of `Broadcast`, a round of
-- the loop for a message, a message that a client's `writePump` takes.
pub data Event : Type 0 where
  connects round : Event
  unregisters takes : ℕ → Event
  broadcasts : Bytes → Event

unfoldable pub handle : Event → Hub → Outcome Hub
handle connects h = done (connect h)
handle (unregisters c) h = on_unregister c h
handle (broadcasts m) h = done (broadcast m h)
handle round h = on_broadcast h
handle (takes c) h = done (take_message c h)

unfoldable pub run : List Event → Hub → Outcome Hub
run [] h = done h
run (e ∷ es) h = handle e h >>= λ h'. run es h'

-- `json.Marshal`, which is not the program's, is `encode`; `none` is an error.
module _ (encode : WsMessage → Option Bytes) where
  unfoldable pub send_error : ℕ → String → Hub → Outcome Hub
  send_error c msg h = elim (encode (record { kind = "error"; payload = error_payload msg })) [
    | none ↦ done h
    | some m ↦ elim (try_send m (h.channel c)) [
      | sent ch ↦ done (set_channel c ch h)
      | full ↦ done h
      | panics ↦ panicked h
    ]
  ]

  abbrev pub encode_stroke : LogEntry → Option Bytes
  encode_stroke e = encode (record { kind = "stroke"; payload = stroke_payload e.stroke })

  -- The loop of `replayHistory` over the fetched entries. It stops where the channel is full.
  unfoldable pub replay : List LogEntry → Channel → Outcome Channel
  replay [] ch = done ch
  replay (e ∷ es) ch = elim (encode_stroke e) [
    | none ↦ replay es ch
    | some m ↦ elim (try_send m ch) [
      | sent ch' ↦ replay es ch'
      | full ↦ done ch
      | panics ↦ panicked ch
    ]
  ]
