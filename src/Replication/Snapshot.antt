-- ===== src/Replication/Snapshot.antt =====
-- The transfer of a table to a follower: the chunks of replication/snapshot/snapshot.go, SnapshotServer of
-- regattaserver/replication.go, and recover of replication/worker.go. The compression of the snapshot
-- file, the pieces in which it is read, protobuf and the streams are arguments; writes to files do not
-- fail, and a follower reads all messages of its file before Restore starts.
pub mod Transfer
use regatta.Prelude.{
  ℕ, ◌+◌, ◌*◌, Bool, Option, none, some, List, [], ◌∷◌, ◌++◌, length, ◌==◌, if◌then◌else◌,
}
use regatta.Bytes.{Bytes}
use regatta.Result.{Result, Error, ok, err, panic}
use regatta.Action.{Action, ◌>>=◌, ◌>>◌, lift, try}
use regatta.Pebble.{Reader}
use regatta.Fsm.Messages.{KeyValue, CommandType, Command, Commands, command}
use regatta.Fsm.Lookup.{SnapshotRequest, command_snapshot}
use regatta.Table.{ActiveTable, zero_fields}
use regatta.Manager.Restore.{Stream}
use regatta.Replication.LogServer.{or_unavailable}
use regatta.Replication.SnapshotFile.{snapshot_file, read_messages}

-- SnapshotChunk
pub record SnapshotChunk : Type 0 where
  pub data_bytes : Bytes
  pub len : ℕ

-- Writer.ReadFrom, of what the reads of the file return, and the error at their end, none for io.EOF
unfoldable pub read_from :
    {S : Type 0} → (SnapshotChunk → Action S (Unit {0})) → Option Error → List Bytes → Action S ℕ
read_from send none [] = lift (ok 0)
read_from send (some e) [] = lift (err e)
read_from send failure (d ∷ ds) = do
  sent ← if length d == 0 then lift (ok tt) else send (record { data_bytes = d; len = length d })
  n ← read_from send failure ds
  lift (ok (length d + n))

-- The count of the bytes, with those of one chunk more.
abbrev pub add_count : ℕ → Result ℕ → Result ℕ
add_count k (ok n) = ok (k + n)
add_count k (err e) = err e
add_count k panic = panic

-- Reader.WriteTo, to a file with the bytes that were written before
unfoldable pub write_to : Option Error → List SnapshotChunk → Action Bytes ℕ
write_to none [] f = (f, ok 0)
write_to (some e) [] f = (f, err e)
write_to failure (c ∷ cs) f =
    let (f', r) = write_to failure cs (f ++ c.data_bytes) in (f', add_count (length c.data_bytes) r)

-- What the transfer calls: snappy (what it reads of bytes, and the error at their end), the pieces in which a
-- file is read, the encodings of a put and of the last command, the tables and the streams.
pub record SnapshotHost (S : Type 0) : Type 0 where
  pub compress : Bytes → Bytes
  pub uncompress : Bytes → Bytes × Option Error
  pub pieces : Bytes → List Bytes
  pub marshal_put : KeyValue → Result Bytes
  pub marshal : Command → Result Bytes
  pub stopped : ℕ → Bool
  pub get_table : Bytes → Action S ActiveTable
  pub read_table : ActiveTable → Action S Reader
  pub send : SnapshotChunk → Action S (Unit {0})
  pub open_stream : Bytes → Action S (List SnapshotChunk × Option Error)
  pub restore : Bytes → Stream → Action S (Unit {0})

-- The slice into which readIntoTable reads: 4 MiB
abbrev pub message_capacity : ℕ
message_capacity = 1024 * 1024 * 4

-- The command that ends a snapshot.
abbrev pub final_command : ℕ → Command
final_command index =
    command (record (zero_fields CommandType.dummy) { leader_index = some index }) Commands.end

module _ {S : Type 0} (host : SnapshotHost S) where
  -- ActiveTable.Snapshot into a file, which is empty before
  abbrev pub snapshot : Reader → Bytes × Result ℕ
  snapshot reader =
      command_snapshot
        (record { marshal_put = host.marshal_put; writer = snapshot_file; stopped = host.stopped })
        reader []

  -- SnapshotServer.Stream
  unfoldable pub stream_snapshot : Bytes → Action S (Unit {0})
  unfolding read_from
  stream_snapshot name = do
    found ← try (host.get_table name)
    t ← lift (or_unavailable found)
    reader ← host.read_table t
    index ← lift ((snapshot reader).1)
    final ← lift (host.marshal (final_command index))
    n ←
        read_from host.send none
          (host.pieces (host.compress (snapshot_file.write ((snapshot reader).0) final).0))
    lift (ok tt)

  -- The messages of a file.
  unfoldable pub read_file : Bytes → Result Stream
  unfolding read_messages
  read_file f =
      let (b, failure) = host.uncompress f in
      read_messages (length b + 1) message_capacity failure b

  -- worker.recover
  unfoldable pub recover : Bytes → Action S (Unit {0})
  unfolding write_to read_file
  recover table = do
    (chunks, failure) ← host.open_stream table
    n ← lift ((write_to failure chunks []).1)
    reader ← lift (read_file ((write_to failure chunks []).0))
    host.restore table reader
