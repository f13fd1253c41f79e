-- ===== src/Tests/RpcTests.antt =====
-- replica/internal/raft/rpc.go with a codec that writes responses as numbers.
use smol_raft.Prelude.{
  ℕ, zero, suc, ◌≡◌, refl, ap, Bool, true, false, Option, none, some, List, [], ◌∷◌,
}
use smol_raft.Types.{zero_stroke, LogEntry, VoteResponse, AppendEntriesResponse, CommitNotification}
use smol_raft.Log.{pos, get_from}
use smol_raft.Replication.{handle_append_entries, get_sync_log}
use smol_raft.Server.{Body}
use smol_raft.Server.Mux.{serve_http}
use smol_raft.Rpc.{Url, Codec, append_entries}
use smol_raft.Rpc.Reaches.{seen, append_entries-reaches}
use smol_raft.Tests.Samples.{node_a, asks, sends, entry}

abbrev bit : Bool → ℕ
bit true = 1
bit false = 0

abbrev unbit : ℕ → Bool
unbit zero = false
unbit (suc n) = true

unbit-bit : (b : Bool) → unbit (bit b) ≡ b
unbit-bit true = refl
unbit-bit false = refl

abbrev write_voted : VoteResponse → Body
write_voted r = r.term ∷ bit r.vote_granted ∷ []

abbrev read_voted : Body → Option VoteResponse
read_voted (t ∷ b ∷ rest) = some (record { term = t; vote_granted = unbit b })
read_voted other = none

abbrev write_appended : AppendEntriesResponse → Body
write_appended r = r.term ∷ bit r.success ∷ r.conflict_index ∷ []

abbrev read_appended : Body → Option AppendEntriesResponse
read_appended (t ∷ b ∷ i ∷ rest) = some (record { term = t; success = unbit b; conflict_index = i })
read_appended other = none

abbrev write_entries : List LogEntry → Body
write_entries [] = []
write_entries (e ∷ es) = e.index ∷ e.term ∷ write_entries es

abbrev cons : LogEntry → Option (List LogEntry) → Option (List LogEntry)
cons e none = none
cons e (some es) = some (e ∷ es)

abbrev read_entries : Body → Option (List LogEntry)
read_entries [] = some []
read_entries (i ∷ []) = none
read_entries (i ∷ t ∷ rest) = cons (entry i t) (read_entries rest)

abbrev pub told : CommitNotification
told = record { stroke = zero_stroke; index = 1; term = 1 }

-- One request of each kind is known, and 1 is the only number.
abbrev pub codec : Codec
codec = record {
  encode_vote = λ r. some (7 ∷ []);
  decode_vote = λ b. some (asks 4 "n3");
  encode_voted = write_voted;
  decode_voted = read_voted;
  encode_append = λ r. some (8 ∷ []);
  decode_append = λ b. some sends;
  encode_appended = write_appended;
  decode_appended = read_appended;
  encode_commit = λ n. some (9 ∷ []);
  decode_commit = λ b. some told;
  encode_entries = write_entries;
  decode_entries = read_entries;
  decode_stroke = λ b. some zero_stroke;
  encode_answer = λ a. [];
  encode_status = λ s. [];
  metrics_text = λ s. [];
  error_text = λ code. [];
  health_text = [];
  format_int = λ i. "1";
  atoi = λ s. some (pos 1);
}

abbrev pub any_url : Url → Bool
any_url u = true

append_entries-reaches_example :
    append_entries any_url (serve_http codec) codec "n1:8080" sends node_a
    ≡ seen (handle_append_entries sends node_a)
append_entries-reaches_example =
    append_entries-reaches codec any_url "n1:8080" node_a sends (8 ∷ []) refl refl refl (λ m r e.
      ap (λ b. some (record { term = r.term; success = b; conflict_index = r.conflict_index }))
        (unbit-bit r.success))

pub history_read :
    read_entries (write_entries (get_sync_log (pos 1) node_a)) ≡ some (get_sync_log (pos 1) node_a)
unfolding get_sync_log get_from
history_read = refl
