-- ===== src/Replication/Snapshot/Transfer.antt =====
-- A table on its way from the leader to a follower: what the leader sends, and what the follower puts.
use regatta.Prelude.{
  ℕ, ◌+◌, ◌/◌, ◌<◌, ◌≡◌, refl, sym, ap, ◌∙◌, false, none, some, List, [], ◌∷◌, ◌++◌, map, length,
  ◌==◌, Bool-cases, inl, inr, arith,
}
use regatta.Bytes.{Bytes}
use regatta.Result.{Result, ok}
use regatta.Key.{type_user}
use regatta.Pebble.{Reader, Shows}
use regatta.Pebble.OrderedMap.{Entries}
use regatta.Fsm.Keys.{sys_local_index}
use regatta.Fsm.Messages.{KeyValue}
use regatta.Fsm.Query.Page.{IsDecodable}
use regatta.Fsm.Update.{read_local_index}
use regatta.Fsm.Lookup.{snapshot_loop, command_snapshot}
use regatta.Fsm.Lookup.Snapshot.{user_pairs}
use regatta.Table.{ActiveTable}
use regatta.Manager.Restore.{Stream, PutMessage, empty_batch, batch_command, read_into_table}
use regatta.Manager.Restore.Pairs.{recording, total_length, ReadsBack}
use regatta.Manager.Restore.Final.{read_loop-final}
use regatta.Replication.SnapshotFile.{snapshot_file}
use regatta.Replication.SnapshotFile.Framing.{written, Fit, read_messages-written}
use regatta.Replication.Snapshot.{
  SnapshotChunk, SnapshotHost, read_from, write_to, message_capacity, final_command, snapshot,
  stream_snapshot, read_file, recover,
}
use mathlib.Core.List.{append_assoc, append-nil}

write-ok : (w p : Bytes) → snapshot_file.write w p ≡ ((snapshot_file.write w p).0, ok (length p))
write-ok w [] = refl
write-ok w (x ∷ p) = let full : (length (x ∷ p) == 0) ≡ false = ground arith in rw full refl

written-append : (w : Bytes) (ps qs : List Bytes) → written w (ps ++ qs) ≡ written (written w ps) qs
written-append w [] qs = refl
written-append w (p ∷ ps) qs = written-append ((snapshot_file.write w p).0) ps qs

-- The bytes of pieces together.
abbrev pub joined : List Bytes → Bytes
joined [] = []
joined (d ∷ ds) = d ++ joined ds

-- The chunks of pieces; an empty piece has none.
abbrev chunks_of : List Bytes → List SnapshotChunk
chunks_of [] = []
chunks_of ([] ∷ ds) = chunks_of ds
chunks_of ((x ∷ d) ∷ ds) = record { data_bytes = x ∷ d; len = length (x ∷ d) } ∷ chunks_of ds

write_to-chunks_of :
    (ds : List Bytes) (f : Bytes)
    → write_to none (chunks_of ds) f ≡ (f ++ joined ds, ok (total_length ds))
unfolding write_to
write_to-chunks_of [] f = rw (append-nil f) refl
write_to-chunks_of ([] ∷ ds) f =
    write_to-chunks_of ds f
    ∙ ap (λ n. (f ++ joined ds, ok n)) {y = total_length ([] ∷ ds)} (omega arith)
write_to-chunks_of ((x ∷ d) ∷ ds) f =
    rw (write_to-chunks_of ds (f ++ (x ∷ d)), append_assoc f (x ∷ d) (joined ds)) refl

-- The leader of a table with a reader, and what its snapshot is: pieces that are the whole file, encodings that do not fail, no stop, and a stream that keeps what was sent.
pub record SnapshotLaws {S : Type 0} (host : SnapshotHost S) (encode : KeyValue → Bytes)
    (final : Bytes) (index : ℕ) : Type 0 where
  pub sent : S → List SnapshotChunk
  pub sends :
      (c : SnapshotChunk) (s : S)
      → (s' : S) × (host.send c s ≡ (s', ok tt)) × (sent s' ≡ sent s ++ (c ∷ []))
  pub whole : (b : Bytes) → joined (host.pieces b) ≡ b
  pub puts : (kv : KeyValue) → host.marshal_put kv ≡ ok (encode kv)
  pub ends : host.marshal (final_command index) ≡ ok final
  pub runs_on : (i : ℕ) → host.stopped i ≡ false

module _ {S : Type 0} (host : SnapshotHost S) (encode : KeyValue → Bytes) (final : Bytes)
    (index : ℕ) (laws : SnapshotLaws host encode final index) where
  open laws use {sent, sends, whole, puts, ends, runs_on}

  read_from-chunks_of :
      (ds : List Bytes) (s : S)
      → (s' : S) × (read_from host.send none ds s ≡ (s', ok (total_length ds)))
        × (sent s' ≡ sent s ++ chunks_of ds)
  unfolding read_from
  read_from-chunks_of [] s = (s, refl, sym (append-nil (sent s)))
  read_from-chunks_of ([] ∷ ds) s =
      let (s', run, now) = read_from-chunks_of ds s in (s', rw run refl, now)
  read_from-chunks_of ((x ∷ d) ∷ ds) s =
      let full : (length (x ∷ d) == 0) ≡ false = ground arith in
      let c : SnapshotChunk = record { data_bytes = x ∷ d; len = length (x ∷ d) } in
      let (s1, done, first) = sends c s in
      let (s', run, now) = read_from-chunks_of ds s1 in
      (
        s',
        rw (full, done, run) refl,
        now ∙ ap (λ y. y ++ chunks_of ds) first ∙ append_assoc (sent s) (c ∷ []) (chunks_of ds),
      )

  loop-written :
      (m : Entries) (i : ℕ) (w : Bytes)
      → IsDecodable m
      → snapshot_loop
          (record {
            marshal_put = host.marshal_put;
            writer = snapshot_file;
            stopped = host.stopped;
          })
          m
          i
          w
        ≡ (written w (map encode (user_pairs m)), ok tt)
  unfolding snapshot_loop user_pairs
  loop-written [] i w d = refl
  loop-written ((k, v) ∷ m) i w d =
      let (key, e) = d.0 in
      elim (Bool-cases (key.key_type == type_user)) [
        | inl user ↦
            rw
              (
                runs_on i,
                e,
                snapshot_loop,
                user,
                puts (record { key = key.key; value = v }),
                write-ok w (encode (record { key = key.key; value = v })),
              )
              (loop-written m (i + 1)
                ((snapshot_file.write w (encode (record { key = key.key; value = v }))).0) d.1)
        | inr other ↦ rw (runs_on i, e, snapshot_loop, other) (loop-written m (i + 1) w d.1)
      ]

  snapshot-written :
      (r : Reader) (m : Entries)
      → Shows r m
      → IsDecodable m
      → read_local_index r sys_local_index ≡ ok index
      → snapshot host r ≡ (written [] (map encode (user_pairs m)), ok index)
  unfolding command_snapshot
  snapshot-written r m s d i = rw (i, command_snapshot, s.iter_all, loop-written m 0 [] d) refl

  stream_snapshot-sent :
      (name : Bytes) (t : ActiveTable) (r : Reader) (m : Entries) (s : S)
      → host.get_table name s ≡ (s, ok t)
      → host.read_table t s ≡ (s, ok r)
      → Shows r m
      → IsDecodable m
      → read_local_index r sys_local_index ≡ ok index
      → (s' : S) × (stream_snapshot host name s ≡ (s', ok tt))
        × (sent s'
            ≡ sent s
              ++ chunks_of (
                  host.pieces
                    (host.compress (written [] (map encode (user_pairs m) ++ (final ∷ []))))))
  unfolding stream_snapshot
  stream_snapshot-sent name t r m s found reads shows d i =
      let file : Bytes = written [] (map encode (user_pairs m) ++ (final ∷ [])) in
      let same : file ≡ (snapshot_file.write (written [] (map encode (user_pairs m))) final).0 =
        written-append [] (map encode (user_pairs m)) (final ∷ []) in
      let (s', run, now) = read_from-chunks_of (host.pieces (host.compress file)) s in
      (s', rw (found, reads, snapshot-written r m shows d i, ends, ← same, run) refl, now)

-- For a leader with SnapshotLaws that has the table and has sent nothing yet, whose reader shows
-- entries that decode and a local index, and a follower that undoes the compression and receives
-- what SnapshotServer.Stream sends: if each record fits the slice of 4 MiB, is not empty, and is
-- decoded to the pair that it was written for, the last one to the dummy command with the index,
-- and all are shorter together than half of MaxInMemLogSize, then the worker's recovery calls
-- Restore with a stream for which readIntoTable, on a shard that accepts every proposal, proposes
-- one batch: the user pairs of the leader in key order, then a pair with an empty key and an empty
-- value, with the local index of the leader as the leader index.
pub recover-stream_snapshot :
    {S F : Type 0} (host : SnapshotHost S) (follower : SnapshotHost F) (encode : KeyValue → Bytes)
    (final : Bytes) (index : ℕ) (laws : SnapshotLaws host encode final index)
    (unmarshal : Bytes → Result PutMessage) (id max_in_mem_log_size : ℕ) (name : Bytes)
    (t : ActiveTable) (r : Reader) (m : Entries) (s : S) (f : F)
    → host.get_table name s ≡ (s, ok t)
    → host.read_table t s ≡ (s, ok r)
    → Shows r m
    → IsDecodable m
    → read_local_index r sys_local_index ≡ ok index
    → laws.sent s ≡ []
    → follower.open_stream name f ≡ (f, ok (laws.sent (stream_snapshot host name s).0, none))
    → ((b : Bytes) → follower.uncompress (host.compress b) ≡ (b, none))
    → Fit message_capacity (map encode (user_pairs m) ++ (final ∷ []))
    → ReadsBack unmarshal encode (user_pairs m)
    → unmarshal final ≡ ok (record { kv = none; leader_index = some index })
    → total_length (map encode (user_pairs m)) + length final < max_in_mem_log_size / 2
    → (reader : Stream) × (recover follower name f ≡ follower.restore name reader f)
      × (read_into_table (recording unmarshal) id max_in_mem_log_size reader [] ≡ (
        batch_command (record empty_batch {
          pairs = user_pairs m ++ (record { key = []; value = [] } ∷ []);
          leader_index = some index;
        })
            ∷ [],
        ok tt,
      ))
unfolding recover read_file read_into_table
recover-stream_snapshot host follower encode final index laws unmarshal id max_in_mem_log_size name
      t r m s f found reads shows d i fresh opened undone fit back last short =
    let messages : List Bytes = map encode (user_pairs m) ++ (final ∷ []) in
    let file : Bytes = host.compress (written [] messages) in
    let (s', run, now) =
      stream_snapshot-sent host encode final index laws name t r m s found reads shows d i in
    let received : laws.sent (stream_snapshot host name s).0 ≡ chunks_of (host.pieces file) =
      ap (λ x. laws.sent x.0) run ∙ now ∙ ap (λ x. x ++ chunks_of (host.pieces file)) fresh in
    (
      record { messages = messages; failure = none },
      rw
          (
            opened,
            received,
            write_to-chunks_of (host.pieces file) [],
            laws.whole file,
            undone (written [] messages),
            read_messages-written message_capacity messages fit (omega arith),
          )
          refl,
      read_loop-final unmarshal id max_in_mem_log_size encode final index (user_pairs m) empty_batch
          back last (ground (arith, short)),
    )
