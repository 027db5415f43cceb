-- ===== src/Replication/SnapshotFile.antt =====
-- snapshotFile of replication/snapshot/snapshot.go, as what it writes to its compression and reads from
-- it; writes do not fail.
pub mod Framing
use regatta.Prelude.{
  ℕ, zero, suc, ◌+◌, Option, none, some, List, [], ◌∷◌, ◌++◌, length, take, drop, ltb, ◌==◌,
  if◌then◌else◌,
}
use regatta.Bytes.{Bytes}
use regatta.Result.{Result, Error, ok, err, panic, ◌>>=◌, eof, unexpected_eof, out_of_fuel}
use regatta.Key.{Writer}
use regatta.Fsm.Update.{put_uint, uint64}
use regatta.Manager.Restore.{Stream}

-- snapshotFile.Write: the bytes that were written through the compression
abbrev pub snapshot_file : Writer Bytes
snapshot_file = record {
  write = λ w p.
      if length p == 0 then (w, ok 0) else (w ++ (put_uint 8 (length p) ++ p), ok (length p));
}

-- What a read past the end returns: the error of the reader, or `e`.
abbrev pub past_end : Option Error → Error → Error
past_end none e = e
past_end (some x) e = x

-- io.ReadFull: the bytes read, and the bytes that are left
unfoldable pub read_full : Option Error → ℕ → Bytes → Result (Bytes × Bytes)
read_full failure n b =
    if n == 0
    then ok ([], b)
    else if length b == 0
    then err (past_end failure eof)
    else if ltb (length b) n
    then err (past_end failure unexpected_eof)
    else ok (take n b, drop n b)

-- snapshotFile.Read into a slice of a capacity, which p[:size] must not exceed
unfoldable pub read_message : ℕ → Option Error → Bytes → Result (Bytes × Bytes)
unfolding read_full
read_message capacity failure b = do
  (buf, rest) ← read_full failure 8 b
  size ← uint64 buf
  if ltb capacity size then panic else read_full failure size rest

-- A stream with one message more in front.
abbrev pub with_message : Bytes → Result Stream → Result Stream
with_message msg r = r >>= λ s. ok (record s { messages = msg ∷ s.messages })

-- The end of a stream.
abbrev pub end_of : Error → Stream
end_of eof = record { messages = []; failure = none }
end_of e = record { messages = []; failure = some e }

-- What follows one read.
abbrev pub after_read : Result (Bytes × Bytes) → (Bytes → Result Stream) → Result Stream
after_read (ok (msg, b)) rest = with_message msg (rest b)
after_read (err e) rest = ok (end_of e)
after_read panic rest = panic

-- What the reads of a file return until its end, with fuel for their number.
unfoldable pub read_messages : ℕ → ℕ → Option Error → Bytes → Result Stream
unfolding read_message
read_messages zero capacity failure b = err out_of_fuel
read_messages (suc fuel) capacity failure b =
    after_read (read_message capacity failure b) (λ rest. read_messages fuel capacity failure rest)
