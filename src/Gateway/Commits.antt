-- ===== src/Gateway/Commits.antt =====
-- The notifications of a replica at the gateway.
use smol_raft.Prelude.{
  ◌≤◌, ◌<◌, ◌≡◌, ◌⊎◌, inl, inr, true, Bool, Bool-cases, String, some, [], ◌∷◌, ◌++◌, length, ltb,
  ltb→lt, arith,
}
use smol_raft.Types.{CommitNotification, stroke_payload}
use smol_raft.Server.{Body}
use smol_raft.Rpc.{Url, Codec, got, unread, notify_commit, do_post, do_request, read_response}
use smol_raft.Hub.{Bytes, Hub, broadcast}
use smol_raft.Gateway.{Writers, serve_gateway, handle_commit, broadcast_stroke}

-- The message waits behind the others, or 256 wait already and nothing changed.
abbrev pub Queued : Bytes → Hub → Hub → Type 0
Queued m h h' =
    ((length h.broadcast_ch < 256) × (h' ≡ record h { broadcast_ch = h.broadcast_ch ++ m ∷ [] }))
    ⊎ ((256 ≤ length h.broadcast_ch) × (h' ≡ h))

broadcast-Queued : (m : Bytes) (h : Hub) → Queued m h (broadcast m h)
unfolding broadcast
broadcast-Queued m h = elim (Bool-cases (ltb (length h.broadcast_ch) 256)) [
  | inl t ↦ inl (ltb→lt (length h.broadcast_ch) 256 t, rw t)
  | inr f ↦ inr (ground arith, rw f)
]

module _ (c : Codec) (w : Writers) (is_url : Url → Bool) (addr leader_addr : String) where
  -- A commit notification that can be encoded and read back is answered without an error. Fewer than
  -- 256 messages waiting, the stroke's message comes behind them; otherwise it is dropped, and the
  -- hub is as it was.
  pub notify_commit-broadcasts :
      (notification : CommitNotification) (b : Body) (m : Bytes) (h : Hub)
      → is_url (record { addr = addr; path = "/commit"; query = "" }) ≡ true
      → c.encode_commit notification ≡ some b
      → c.decode_commit b ≡ some notification
      → w.encode_ws (record { kind = "stroke"; payload = stroke_payload notification.stroke })
        ≡ some m
      → (h' : Hub) × (notify_commit is_url (serve_gateway c w leader_addr) c addr notification h
          ≡ (h', got unread))
        × Queued m h h'
  unfolding notify_commit do_post do_request read_response serve_gateway handle_commit
      broadcast_stroke
  notify_commit-broadcasts notification b m h u e d v =
      (broadcast m h, rw (e, u, d, v, broadcast_stroke), broadcast-Queued m h)
