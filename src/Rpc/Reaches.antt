-- ===== src/Rpc/Reaches.antt =====
-- The calls of rpc.go against the handlers that they reach.
use smol_raft.Prelude.{◌≡◌, refl, Bool, true, String, some}
use smol_raft.Types.{VoteRequest, AppendEntriesRequest, AppendEntriesResponse}
use smol_raft.Log.{ℤ}
use smol_raft.Node.{Node}
use smol_raft.Election.{handle_vote_request}
use smol_raft.Replication.{Handled, replied, crashed, handle_append_entries, get_sync_log}
use smol_raft.Server.{
  post, serve_vote, serve_append, answer, http_request_vote, http_append_entries, http_sync_log,
  Body,
}
use smol_raft.Server.Mux.{serve_http, serve_read, answered}
use smol_raft.Rpc.{
  Url, Codec, Got, got, failed, send_request, do_request, do_post, read_response, request_vote,
  append_entries, fetch_sync_log,
}

-- What the caller gets of the handler's result; where it panicked, an error of the sending.
abbrev pub seen : Handled → Node × Got AppendEntriesResponse
seen (replied m r) = (m, got r)
seen (crashed m) = (m, failed send_request)

-- A reply can be read back.
abbrev pub Readable : Codec → Handled → Type 0
Readable c h =
    (m : Node) (r : AppendEntriesResponse)
    → h ≡ replied m r
    → c.decode_appended (c.encode_appended r) ≡ some r

module _ (c : Codec) (is_url : Url → Bool) (addr : String) (n : Node) where
  -- A vote that is asked from a replica over HTTP is the replica's own answer, and leaves it as its
  -- handler does, where the encodings of the request and of the response can be decoded.
  pub request_vote-reaches :
      (req : VoteRequest) (b : Body)
      → is_url (record { addr = addr; path = "/request-vote"; query = "" }) ≡ true
      → c.encode_vote req ≡ some b
      → c.decode_vote b ≡ some req
      → c.decode_voted (c.encode_voted (handle_vote_request req n).1)
        ≡ some (handle_vote_request req n).1
      → request_vote is_url (serve_http c) c addr req n
        ≡ ((handle_vote_request req n).0, got (handle_vote_request req n).1)
  unfolding request_vote do_post do_request read_response serve_http http_request_vote post
      serve_vote
  request_vote-reaches req b u e d v = rw (e, u, d, v)

  read_seen :
      (h : Handled)
      → Readable c h
      → (
        (answered c c.encode_appended (answer h)).0,
        read_response c.decode_appended (answered c c.encode_appended (answer h)).1,
      )
        ≡ seen h
  unfolding read_response
  read_seen (replied m r) v = rw (v m r refl)
  read_seen (crashed m) v = refl

  -- AppendEntries over HTTP gives the replica's own reply, and where its handler panics an error of the
  -- sending, with the node as the handler left it.
  pub append_entries-reaches :
      (req : AppendEntriesRequest) (b : Body)
      → is_url (record { addr = addr; path = "/append-entries"; query = "" }) ≡ true
      → c.encode_append req ≡ some b
      → c.decode_append b ≡ some req
      → Readable c (handle_append_entries req n)
      → append_entries is_url (serve_http c) c addr req n ≡ seen (handle_append_entries req n)
  unfolding append_entries do_post do_request serve_http http_append_entries post serve_append
  append_entries-reaches req b u e d v = rw (e, u, d) (read_seen (handle_append_entries req n) v)

  -- The entries that are fetched over HTTP from an index are the committed ones from there on.
  pub fetch_sync_log-reaches :
      (from : ℤ)
      → is_url (record { addr = addr; path = "/sync-log"; query = c.format_int from }) ≡ true
      → c.atoi (c.format_int from) ≡ some from
      → c.decode_entries (c.encode_entries (get_sync_log from n)) ≡ some (get_sync_log from n)
      → fetch_sync_log is_url (serve_http c) c addr from n ≡ (n, got (get_sync_log from n))
  unfolding fetch_sync_log do_request read_response serve_http serve_read http_sync_log
  fetch_sync_log-reaches from u a d = rw (u, a, d)
