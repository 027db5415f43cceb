-- ===== src/Replication/Tests/Transfer.antt =====
-- The transfer of a table with two pairs.
use regatta.Prelude.{
  ℕ, ◌+◌, ◌/◌, ◌<◌, ◌≡◌, refl, none, some, List, [], ◌∷◌, ◌++◌, map, length, if◌then◌else◌, false,
  arith,
}
use regatta.Bytes.{Bytes, equal, compare_bytes}
use regatta.Result.{Result, ok}
use regatta.Pebble.OrderedMap
use regatta.Pebble.OrderedMap.{Entries, IsSorted}
use regatta.Pebble.Model.{Store, store_reader, memory_laws}
use regatta.Fsm.Keys.{sys_local_index}
use regatta.Fsm.Keys.Order.{user_key}
use regatta.Fsm.Messages.{KeyValue}
use regatta.Fsm.Update.{read_local_index}
use regatta.Fsm.Query.Page.{IsDecodable}
use regatta.Key.{decode_bytes}
use regatta.Fsm.Lookup.Snapshot.{user_pairs}
use regatta.Manager.Restore.{Stream, PutMessage, batch_command, empty_batch, read_into_table}
use regatta.Manager.Restore.Pairs.{recording, total_length, ReadsBack}
use regatta.Replication.SnapshotFile.{read_messages}
use regatta.Replication.SnapshotFile.Framing.{written, Fit, read_messages-written}
use regatta.Replication.Snapshot.{
  SnapshotChunk, SnapshotHost, message_capacity, stream_snapshot, recover,
}
use regatta.Replication.Snapshot.Transfer.{SnapshotLaws, recover-stream_snapshot}
use regatta.Replication.Tests.{table_t}
use mathlib.Core.List.{append-nil}

read_messages-written_example :
    read_messages
      (length (written [] ((5 ∷ []) ∷ (6 ∷ 7 ∷ []) ∷ [])) + 1)
      4
      none
      (written [] ((5 ∷ []) ∷ (6 ∷ 7 ∷ []) ∷ []))
    ≡ ok (record { messages = (5 ∷ []) ∷ (6 ∷ 7 ∷ []) ∷ []; failure = none })
read_messages-written_example =
    read_messages-written 4 ((5 ∷ []) ∷ (6 ∷ 7 ∷ []) ∷ [])
      (omega arith, omega arith, (omega arith, omega arith, tt)) (omega arith)

abbrev two_entries : Entries
two_entries = (user_key (97 ∷ []), 1 ∷ []) ∷ (user_key (98 ∷ []), 2 ∷ []) ∷ []

two_entries-IsSorted : IsSorted two_entries
unfolding compare_bytes
two_entries-IsSorted = ((refl, tt), (tt, tt))

two_entries-IsDecodable : IsDecodable two_entries
unfolding decode_bytes
two_entries-IsDecodable = ((_, refl), ((_, refl), tt))

abbrev two : Store
two = record { entries = two_entries; sorted = two_entries-IsSorted }

abbrev encode : KeyValue → Bytes
encode kv = kv.value

abbrev unmarshal : Bytes → Result PutMessage
unmarshal b =
    if equal b (9 ∷ [])
    then ok (record { kv = none; leader_index = some 0 })
    else ok (record {
      kv = some (record { key = if equal b (1 ∷ []) then 97 ∷ [] else 98 ∷ []; value = b });
      leader_index = none;
    })

abbrev leader : SnapshotHost (List SnapshotChunk)
leader = record {
  compress = λ b. b;
  uncompress = λ b. (b, none);
  pieces = λ b. b ∷ [];
  marshal_put = λ kv. ok (encode kv);
  marshal = λ c. ok (9 ∷ []);
  stopped = λ i. false;
  get_table = λ name s. (s, ok table_t);
  read_table = λ t s. (s, ok (store_reader two));
  send = λ c s. (s ++ (c ∷ []), ok tt);
  open_stream = λ name s. (s, ok ([], none));
  restore = λ name r s. (s, ok tt);
}

abbrev leader-SnapshotLaws : SnapshotLaws leader encode (9 ∷ []) 0
leader-SnapshotLaws = record {
  sent = λ s. s;
  sends = λ c s. (s ++ (c ∷ []), refl, refl);
  whole = λ b. append-nil b;
  puts = λ kv. refl;
  ends = refl;
  runs_on = λ i. refl;
}

-- A follower that keeps the streams that it restores.
abbrev follower : SnapshotHost (List Stream)
follower = record {
  compress = λ b. b;
  uncompress = λ b. (b, none);
  pieces = λ b. b ∷ [];
  marshal_put = λ kv. ok (encode kv);
  marshal = λ c. ok (9 ∷ []);
  stopped = λ i. false;
  get_table = λ name s. (s, ok table_t);
  read_table = λ t s. (s, ok (store_reader two));
  send = λ c s. (s, ok tt);
  open_stream = λ name s. (s, ok ((stream_snapshot leader name []).0, none));
  restore = λ name r s. (r ∷ s, ok tt);
}

index-zero : read_local_index (store_reader two) sys_local_index ≡ ok 0
unfolding read_local_index OrderedMap.lookup compare_bytes sys_local_index
index-zero = refl

records-Fit : Fit message_capacity (map encode (user_pairs two_entries) ++ ((9 ∷ []) ∷ []))
unfolding user_pairs decode_bytes
records-Fit = (omega arith, omega arith, (omega arith, omega arith, (omega arith, omega arith, tt)))

records-ReadsBack : ReadsBack unmarshal encode (user_pairs two_entries)
unfolding user_pairs decode_bytes compare_bytes
records-ReadsBack = (refl, (refl, tt))

final-decoded : unmarshal (9 ∷ []) ≡ ok (record { kv = none; leader_index = some 0 })
unfolding compare_bytes
final-decoded = refl

records-short :
    total_length (map encode (user_pairs two_entries)) + length {A = ℕ} (9 ∷ []) < 100 / 2
unfolding user_pairs decode_bytes
records-short = omega arith

recover-stream_snapshot_example :
    (reader : Stream) × (recover follower (116 ∷ []) [] ≡ follower.restore (116 ∷ []) reader [])
    × (read_into_table (recording unmarshal) 10001 100 reader [] ≡ (
      batch_command (record empty_batch {
        pairs = user_pairs two_entries ++ (record { key = []; value = [] } ∷ []);
        leader_index = some 0;
      })
          ∷ [],
      ok tt,
    ))
recover-stream_snapshot_example =
    recover-stream_snapshot leader follower encode (9 ∷ []) 0 leader-SnapshotLaws unmarshal 10001
      100 (116 ∷ []) table_t (store_reader two) two_entries [] [] refl refl
      (memory_laws.db_shows two) two_entries-IsDecodable index-zero refl refl (λ b. refl)
      records-Fit records-ReadsBack final-decoded records-short
