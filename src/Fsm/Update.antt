-- ===== src/Fsm/Update.antt =====
-- FSM of storage/table/fsm/fsm.go: Update, the commit of its context, and the indexes that it keeps.
-- The protobuf codecs, which are generated, are parameters.
pub mod Index
pub mod Correct
mod Tests
use regatta.Prelude.{
  ℕ, zero, suc, ◌+◌, ◌*◌, ◌/◌, ◌%◌, Bool, true, false, not, Option, none, some, List, [], ◌∷◌,
  length, ltb, if◌then◌else◌,
}
use regatta.Bytes.{Bytes}
use regatta.Result.{Result, Error, ok, err, panic, ◌>>=◌, ◌>>◌}
use regatta.Pebble.{Pebble, Reader}
use regatta.Fsm.Keys.{sys_local_index, sys_leader_index}
use regatta.Fsm.Messages.{Command, command, CommandFields, CommandResult, ResponseOp}
use regatta.Fsm.Context.{UpdateContext}
use regatta.Fsm.Command.{UpdateResult, result_failure, result_success, handle}

-- binary.LittleEndian.PutUint64 and Uint64, by the number of bytes
unfoldable pub put_uint : ℕ → ℕ → Bytes
put_uint zero n = []
put_uint (suc k) n = (n % 256) ∷ put_uint k (n / 256)

unfoldable pub uint : Bytes → ℕ
uint [] = 0
uint (x ∷ xs) = x + 256 * uint xs

-- LittleEndian.Uint64, which panics on a short slice; the indexes are stored in eight bytes
unfoldable pub uint64 : Bytes → Result ℕ
unfolding uint
uint64 b = if ltb (length b) 8 then panic else ok (uint b)

abbrev index_of : Result Bytes → Result ℕ
index_of (ok b) = uint64 b
index_of (err Error.not_found) = ok 0
index_of (err e) = err e
index_of panic = panic

-- readLocalIndex, for either index key
unfoldable pub read_local_index : Reader → Bytes → Result ℕ
read_local_index db index_key = index_of (db.get index_key)

-- statemachine.Entry with its Result
pub record LogEntry : Type 0 where
  pub index : ℕ
  pub cmd : Bytes
  pub value : ℕ
  pub result_data : Bytes

-- The number of an UpdateResult.
abbrev pub code_of : UpdateResult → ℕ
code_of result_failure = 0
code_of result_success = 1

abbrev pub leader_index_of : Command → Option ℕ
leader_index_of (command f seq) = f.leader_index

-- Command.UnmarshalVT and CommandResult.MarshalVT
pub record Codec : Type 0 where
  pub unmarshal : Bytes → Result Command
  pub marshal : CommandResult → Bytes

abbrev pub is_empty : List ResponseOp → Bool
is_empty [] = true
is_empty (x ∷ xs) = false

-- The result of an entry: the data stays as it is if there is no response.
unfoldable pub with_result : Codec → LogEntry → UpdateResult → CommandResult → LogEntry
with_result codec u r res = record u {
  value = code_of r;
  result_data = if is_empty res.responses then u.result_data else codec.marshal res;
}

-- The index of the last entry, if there is one.
abbrev pub last_index : List LogEntry → ℕ → ℕ
last_index [] idx = idx
last_index (u ∷ updates) idx = last_index updates u.index

module _ (p : Pebble) (codec : Codec) where
  -- parseCommand
  unfoldable pub parse_command : UpdateContext p → LogEntry → Result (UpdateContext p × Command)
  parse_command c entry = do
    cmd ← codec.unmarshal entry.cmd
    ok (record c { index = entry.index; leader_index = leader_index_of cmd }, cmd)

  -- The loop of Update.
  unfoldable pub update_loop :
      UpdateContext p → List LogEntry → Result (UpdateContext p × List LogEntry)
  unfolding parse_command with_result
  update_loop c [] = ok (c, [])
  update_loop c (u ∷ updates) = do
    (c', cmd) ← parse_command c u
    (c'', (r, res)) ← handle p cmd c'
    (last, results) ← update_loop c'' updates
    ok (last, with_result codec u r res ∷ results)

  -- The write of the leader index, if the last entry has one.
  abbrev pub set_leader_index : p.Batch → Option ℕ → Result p.Batch
  set_leader_index batch none = ok batch
  set_leader_index batch (some i) = p.set batch sys_leader_index (put_uint 8 i)

  -- updateContext.Commit
  unfoldable pub commit : UpdateContext p → Result p.Db
  commit c = do
    batch ← set_leader_index c.batch c.leader_index
    batch' ← p.set batch sys_local_index (put_uint 8 c.index)
    p.commit batch'

  -- FSM: the database, which is nil before Open, and the metric of the applied index.
  pub record Fsm : Type 0 where
    pub db : Option p.Db
    pub applied : ℕ

  -- FSM.Update on a database
  unfoldable pub update_db : p.Db → List LogEntry → Result (p.Db × List LogEntry)
  unfolding update_loop commit
  update_db db updates = do
    (c, results) ←
        update_loop (record { batch = p.new_batch db; db = db; index = 0; leader_index = none })
          updates
    db' ← commit c
    ok (db', results)

  -- FSM.Update
  unfoldable pub update : Fsm → List LogEntry → Result (Fsm × List LogEntry)
  unfolding update_db
  update fsm updates = elim fsm.db [
    | none ↦ panic
    | some db ↦ do
      (db', results) ← update_db db updates
      ok (record { db = some db'; applied = last_index updates 0 }, results)
  ]
