-- ===== src/Manager/Restore.antt =====
-- Restore and readIntoTable of storage/table/manager.go: a table is filled from a stream of put commands.
-- What the reader returns, the decoding of its messages and the proposals, which are repeated until they
-- are accepted, are parameters, and so is the wait for a leader.
pub mod Pairs
pub mod Final
pub mod Prepared
pub mod Runs
pub mod Swaps
use regatta.Prelude.{
  ℕ, ◌+◌, ◌/◌, Bool, Option, none, some, List, [], ◌∷◌, ◌++◌, length, ltb, if◌then◌else◌,
}
use regatta.Bytes.{Bytes}
use regatta.Result.{Result, Error, ok, err, panic, table_not_found}
use regatta.Action.{Action, ◌>>=◌, ◌>>◌, lift, try}
use regatta.Fsm.Messages.{KeyValue, CommandType, CommandFields, Command, Commands, command}
use regatta.Table.{Table, zero_fields}
use regatta.Manager.{Store, Text, inc_and_get_id_seq, get_table_version, set_table_version}
use regatta.Manager.Reconcile.{
  NodeHost, Config, Manager, on_store, on_host, start_table, cache_table,
}

-- What a reader returns: messages, and the error at their end, none for io.EOF.
pub record Stream : Type 0 where
  pub messages : List Bytes
  pub failure : Option Error

-- The fields of a put command that readIntoTable uses.
pub record PutMessage : Type 0 where
  pub kv : Option KeyValue
  pub leader_index : Option ℕ

-- Command.UnmarshalVT, MarshalVT with the repeated SyncPropose, and waitForLeader
pub record Restorer (S : Type 0) : Type 0 where
  pub unmarshal : Bytes → Result PutMessage
  pub propose : ℕ → Command → Action S (Unit {0})
  pub wait_for_leader : ℕ → Action S (Unit {0})

-- batchCmd and estimatedSize
pub record Batch : Type 0 where
  pub pairs : List KeyValue
  pub leader_index : Option ℕ
  pub size : ℕ

abbrev pub empty_batch : Batch
empty_batch = record { pairs = []; leader_index = none; size = 0 }

-- A pair as it is written in a batch, an empty one for nil.
abbrev pub pair_or_zero : Option KeyValue → KeyValue
pair_or_zero none = record { key = []; value = [] }
pair_or_zero (some kv) = kv

abbrev pub batch_command : Batch → Command
batch_command b =
    command
      (record (zero_fields CommandType.put_batch) {
        batch = b.pairs;
        leader_index = b.leader_index;
      })
      Commands.end

module _ {S : Type 0} (r : Restorer S) (id max_in_mem_log_size : ℕ) where
  -- What becomes of the batch with one message: it goes on, or it is to be proposed, without the message.
  abbrev pub add_message : Batch → Bytes → PutMessage → Batch × Bool
  add_message b msg cmd =
      let size = b.size + length msg in
      if ltb size (max_in_mem_log_size / 2)
      then (
        record {
          pairs = b.pairs ++ (pair_or_zero cmd.kv ∷ []);
          leader_index = cmd.leader_index;
          size = size;
        },
        Bool.false,
      )
      else (record b { leader_index = cmd.leader_index }, Bool.true)

  -- The loop of readIntoTable.
  unfoldable pub read_loop : Option Error → List Bytes → Batch → Action S (Unit {0})
  read_loop none [] b = r.propose id (batch_command b)
  read_loop (some e) [] b = lift (err e)
  read_loop failure (msg ∷ msgs) b = do
    cmd ← lift (r.unmarshal msg)
    let (b', full) = add_message b msg cmd in
        if full
        then r.propose id (batch_command b') >> read_loop failure msgs empty_batch
        else read_loop failure msgs b'

  -- Manager.readIntoTable
  unfoldable pub read_into_table : Stream → Action S (Unit {0})
  unfolding read_loop
  read_into_table reader = read_loop reader.failure reader.messages empty_batch

-- A missing table as the zero Table with version 0.
abbrev pub or_zero_table : Result (Table × ℕ) → Result (Table × ℕ)
or_zero_table (ok x) = ok x
or_zero_table (err table_not_found) = ok (record { name = []; cluster_id = 0; recover_id = 0 }, 0)
or_zero_table (err e) = err e
or_zero_table panic = panic

module _ (store : Store) (host : NodeHost) (text : Text) (config : Config store)
    (r : Restorer host.State) (max_in_mem_log_size : ℕ) where
  -- The steps of Restore before the table is filled, and after it.
  abbrev pub prepare_restore : Bytes → Action (Manager store host) ℕ
  prepare_restore name = do
    found ← on_store store host text config (try (get_table_version store text name))
    current ← lift (or_zero_table found)
    recovery_id ← on_store store host text config (inc_and_get_id_seq store text)
    started ← start_table store host text config name recovery_id
    written ← on_store store host text config (
        set_table_version store text (record (current.0) { name = name; recover_id = recovery_id })
          current.1)
    lift (ok recovery_id)

  abbrev pub finish_restore : Bytes → ℕ → Action (Manager store host) (Unit {0})
  finish_restore name recovery_id = do
    current ← on_store store host text config (get_table_version store text name)
    written ← on_store store host text config (
        set_table_version store text
          (record (current.0) { cluster_id = recovery_id; recover_id = 0 }) current.1)
    cache_table store host text config
        (record (current.0) { cluster_id = recovery_id; recover_id = 0 })

  -- Manager.Restore
  unfoldable pub restore : Bytes → Stream → Action (Manager store host) (Unit {0})
  unfolding read_into_table
  restore name reader = do
    recovery_id ← prepare_restore name
    elected ← on_host store host text config (r.wait_for_leader recovery_id)
    filled ←
        on_host store host text config (read_into_table r recovery_id max_in_mem_log_size reader)
    finish_restore name recovery_id
