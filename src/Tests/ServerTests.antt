-- ===== src/Tests/ServerTests.antt =====
-- replica/internal/server/handler.go with decoders that read a fixed request.
use smol_raft.Prelude.{◌≡◌, ◌≢◌, String, Option, none, some, [], ◌∷◌}
use smol_raft.Types.{StrokeEvent, zero_stroke, VoteRequest, AppendEntriesRequest}
use smol_raft.Log.{ℤ, pos}
use smol_raft.Server.{Body, HttpRequest, aborted, http_stroke, http_heartbeat}
use smol_raft.Server.Served.{StrokeServed, http_stroke_appends, http_heartbeat_keeps_log}
use smol_raft.Tests.Samples.{node_a, leading, asks, sends}

-- An empty body is no JSON.
abbrev read_vote : Body → Option VoteRequest
read_vote [] = none
read_vote (b ∷ bs) = some (asks 4 "n3")

abbrev read_append : Body → Option AppendEntriesRequest
read_append [] = none
read_append (b ∷ bs) = some sends

abbrev read_stroke : Body → Option StrokeEvent
read_stroke [] = none
read_stroke (b ∷ bs) = some zero_stroke

abbrev read_number : String → Option ℤ
read_number s = some (pos 1)

abbrev posted : HttpRequest
posted = record { verb = "POST"; body = 7 ∷ [] }

abbrev empty : HttpRequest
empty = record { verb = "POST"; body = [] }

http_stroke_appends_example :
    StrokeServed read_stroke posted leading
      (http_stroke read_vote read_append read_stroke read_number posted leading)
http_stroke_appends_example =
    http_stroke_appends read_vote read_append read_stroke read_number posted leading

http_heartbeat_keeps_log_example :
    ((http_heartbeat read_vote read_append read_stroke read_number posted node_a).0.log
      ≡ node_a.log)
    × ((http_heartbeat read_vote read_append read_stroke read_number posted node_a).1 ≢ aborted)
http_heartbeat_keeps_log_example =
    http_heartbeat_keeps_log read_vote read_append read_stroke read_number posted node_a
