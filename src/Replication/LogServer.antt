-- ===== src/Replication/LogServer.antt =====
-- LogServer of regattaserver/replication.go: the leader's log as messages to a follower. The tables, the
-- log reader and the stream are arguments.
pub mod Leader
pub mod Stream
use regatta.Prelude.{ℕ, zero, suc, ◌+◌, ◌-◌, Bool, List, [], ◌∷◌, ltb, ◌==◌, if◌then◌else◌}
use regatta.Bytes.{Bytes}
use regatta.Result.{
  Result, Error, ok, err, panic, log_behind, log_ahead, status_invalid_argument, status_unavailable,
  out_of_fuel,
}
use regatta.Action.{Action, ◌>>=◌, ◌>>◌, lift, try}
use regatta.Fsm.Messages.{Command}
use regatta.LogReader.Cache.{Entry, LogRange}
use regatta.Table.{ActiveTable}
use regatta.Replication.Messages.{
  ReplicateError, use_snapshot, leader_behind, commands_response, error_response, heartbeat,
  ReplicateResponse, ReplicateRequest,
}
use regatta.Replication.Entries.{last_index, to_commands}
use Prim.Native.Nat.{min}

-- What the log server calls: TableService, ActiveTable.LocalIndex, LogReaderService, and Send and the
-- deadline of its stream.
pub record LogHost (S : Type 0) : Type 0 where
  pub get_table : Bytes → Action S ActiveTable
  pub local_index : ActiveTable → Bool → Action S ℕ
  pub query_raft_log : ℕ → LogRange → ℕ → Action S (List Entry)
  pub send : ReplicateResponse → Action S (Unit {0})
  pub expired : S → Bool

-- errorResponseFactory
abbrev pub error_message : ReplicateError → ReplicateResponse
error_message e = record { leader_index = 0; response = error_response e }

-- A table that cannot be had.
abbrev pub or_unavailable : {A : Type 0} → Result A → Result A
or_unavailable (ok a) = ok a
or_unavailable (err e) = err status_unavailable
or_unavailable panic = panic

module _ {S : Type 0} (unmarshal : Bytes → Result Command) (host : LogHost S)
    (max_message_size : ℕ) where
  -- The message that ends a stream: the index that is applied by now.
  abbrev pub send_heartbeat : ActiveTable → Action S (Unit {0})
  send_heartbeat t = do
    i ← host.local_index t Bool.false
    host.send (record { leader_index = i; response = heartbeat })

  -- The message with the commands of entries.
  abbrev pub send_commands : ℕ → List Entry → Action S (Unit {0})
  send_commands applied entries = do
    cs ← lift (to_commands unmarshal entries)
    host.send (record { leader_index = applied; response = commands_response cs })

  -- One round of the loop with what the log reader returned; `rest` is the rounds from an index on.
  abbrev pub replicate_read :
      ActiveTable → ℕ → ℕ → Result (List Entry) → (ℕ → Action S (Unit {0})) → Action S (Unit {0})
  replicate_read t applied last (ok []) rest = send_heartbeat t
  replicate_read t applied last (ok (e ∷ es)) rest =
      send_commands applied (e ∷ es) >> rest (min (last_index e es + 1) last)
  replicate_read t applied last (err log_behind) rest = host.send (error_message leader_behind)
  replicate_read t applied last (err log_ahead) rest = host.send (error_message use_snapshot)
  replicate_read t applied last (err e) rest = lift (ok tt)
  replicate_read t applied last panic rest = lift panic

  abbrev pub query : ActiveTable → ℕ → ℕ → Action S (List Entry)
  query t first last =
      host.query_raft_log t.table.cluster_id (record { first_index = first; last_index = last })
        max_message_size

  -- The loop of Replicate over [first, last), with fuel.
  unfoldable pub replicate_loop : ℕ → ActiveTable → ℕ → ℕ → ℕ → Action S (Unit {0})
  replicate_loop zero t applied first last s = (s, err out_of_fuel)
  replicate_loop (suc fuel) t applied first last s =
      let rest = λ (first' : ℕ). replicate_loop fuel t applied first' last in
      if host.expired s
      then (s, ok tt)
      else (try (query t first last) >>= λ got. replicate_read t applied last got rest) s

  -- Replicate, after the table was found and its applied index was read.
  abbrev pub replicate_table : ActiveTable → ℕ → ℕ → Action S (Unit {0})
  replicate_table t first applied =
      if ltb (applied + 1) first
      then host.send (error_message leader_behind)
      else replicate_loop (applied + 1 - first + 1) t applied first (applied + 1)

  -- LogServer.Replicate
  unfoldable pub replicate : ReplicateRequest → Action S (Unit {0})
  unfolding replicate_loop to_commands
  replicate req = if req.leader_index == 0 then lift (err status_invalid_argument) else (do
    found ← try (host.get_table req.table)
    t ← lift (or_unavailable found)
    applied ← host.local_index t Bool.true
    replicate_table t req.leader_index applied)
