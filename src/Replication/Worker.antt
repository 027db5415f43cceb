-- ===== src/Replication/Worker.antt =====
-- worker of replication/worker.go: proposals of the leader's commands to the follower's table, and the
-- two routines that drive them. The tables, the node host, protobuf and the streams are arguments; the
-- tickers call `lease_tick` and `poll`, in any order. Metrics and logging are left out.
use regatta.Prelude.{
  ℕ, ◌+◌, ◌*◌, Bool, true, false, not, ◌&&◌, ◌||◌, Option, none, some, List, [], ◌∷◌, ◌++◌, ltb,
  leb, ◌==◌, if◌then◌else◌,
}
use regatta.Bytes.{Bytes}
use regatta.Result.{Result, Error, ok, err, panic, external}
use regatta.Action.{Action, ◌>>=◌, ◌>>◌, lift, try}
use regatta.Fsm.Messages.{CommandType, Command, Commands, command}
use regatta.Table.{ActiveTable, SmResult, zero_fields}
use regatta.Replication.Messages.{
  ReplicateCommand, ReplicateError, commands_response, error_response, heartbeat, ReplicateResponse,
  ReplicateRequest,
}

-- desiredProposalSize: 256 KiB
abbrev pub desired_proposal_size : ℕ
desired_proposal_size = 256 * 1024

-- replicateResult
pub data ReplicateResult : Type 0 where
  result_unknown result_leader_behind result_leader_ahead : ReplicateResult
  result_follower_lagging result_follower_tailing : ReplicateResult

-- What a stream of responses returns: its messages, and the error at their end, none for io.EOF.
pub record ResponseStream : Type 0 where
  pub messages : List ReplicateResponse
  pub failure : Option Error

-- What the worker calls: Command.MarshalVT and SizeVT, the table manager, the node host and the log
-- client. `recover` is the worker's own, with the semaphore of recoveries as a test.
pub record WorkerHost (S : Type 0) : Type 0 where
  pub marshal : Command → Result Bytes
  pub size : Command → ℕ
  pub sync_propose : ℕ → Bytes → Action S SmResult
  pub get_table : Bytes → Action S ActiveTable
  pub leader_index : ActiveTable → Bool → Action S ℕ
  pub lease_table : Bytes → Action S (Unit {0})
  pub return_table : Bytes → Action S Bool
  pub open_stream : ReplicateRequest → Action S ResponseStream
  pub may_recover : S → Bool
  pub recover : Bytes → Action S (Unit {0})

abbrev pub command_list : List Command → Commands
command_list [] = Commands.end
command_list (c ∷ cs) = Commands.next c (command_list cs)

-- seq: the commands so far, with the leader index of the last one
abbrev pub sequence_of : List Command → ℕ → Command
sequence_of seq i =
    command (record (zero_fields CommandType.sequence) { leader_index = some i }) (command_list seq)

abbrev pub is_last : List ReplicateCommand → Bool
is_last [] = true
is_last (c ∷ cs) = false

-- Whether the sequence with one command more is proposed.
abbrev pub is_full : (Command → ℕ) → List Command → ReplicateCommand → List ReplicateCommand → Bool
is_full size seq c rest =
    leb desired_proposal_size (size (sequence_of (seq ++ (c.cmd ∷ [])) c.leader_index))
    || is_last rest

-- Worker: its flag of the lease
pub record Worker (S : Type 0) : Type 0 where
  pub host : S
  pub leased : Bool

module _ {S : Type 0} (host : WorkerHost S) (table : Bytes) where
  -- propose of proposeBatch
  unfoldable pub propose : ℕ → Command → Action S (Unit {0})
  propose session seq = do
    buff ← lift (host.marshal seq)
    res ← host.sync_propose session buff
    lift (ok tt)

  -- The loop of proposeBatch, with the commands of `seq` and the index that was applied last.
  unfoldable pub propose_loop : ℕ → List Command → ℕ → List ReplicateCommand → Action S ℕ
  propose_loop session seq last_applied [] = lift (ok last_applied)
  propose_loop session seq last_applied (c ∷ cs) =
      let flushed = propose_loop session [] c.leader_index cs in
      let waiting = propose_loop session (seq ++ (c.cmd ∷ [])) last_applied cs in
      if is_full host.size seq c cs
      then propose session (sequence_of (seq ++ (c.cmd ∷ [])) c.leader_index) >> flushed
      else waiting

  -- worker.proposeBatch
  unfoldable pub propose_batch : ℕ → List ReplicateCommand → Action S ℕ
  unfolding propose_loop
  propose_batch session commands = propose_loop session [] 0 commands

  -- The result of an error response.
  abbrev pub error_result : ReplicateError → Result ReplicateResult
  error_result ReplicateError.leader_behind = ok result_leader_behind
  error_result ReplicateError.use_snapshot = ok result_leader_ahead
  error_result ReplicateError.unknown_error = err external

  -- The end of a stream.
  abbrev pub stream_end : Option Error → Result ReplicateResult
  stream_end none = ok result_unknown
  stream_end (some e) = err e

  -- What a response without commands says, with the index that was applied last.
  abbrev pub tail_result : ℕ → ℕ → ReplicateResult
  tail_result applied leader_index =
      if not (applied == 0) && ltb applied leader_index
      then result_follower_lagging
      else result_follower_tailing

  -- One response; `rest` is the responses after it, with the index that was applied last.
  abbrev pub receive :
      ℕ → ℕ → ReplicateResponse → (ℕ → Action S ReplicateResult) → Action S ReplicateResult
  receive session applied r rest = elim r.response [
    | commands_response cs ↦ propose_batch session cs >>= rest
    | error_response e ↦ lift (error_result e)
    | heartbeat ↦ lift (ok (tail_result applied r.leader_index))
  ]

  -- The loop of do.
  unfoldable pub do_loop : ℕ → Option Error → ℕ → List ReplicateResponse → Action S ReplicateResult
  unfolding propose_batch
  do_loop session failure applied [] = lift (stream_end failure)
  do_loop session failure applied (r ∷ rs) =
      receive session applied r (λ applied'. do_loop session failure applied' rs)

  -- worker.do
  unfoldable pub do_replicate : ℕ → ℕ → Action S ReplicateResult
  unfolding do_loop
  do_replicate leader_index session = do
    stream ← host.open_stream (record { table = table; leader_index = leader_index + 1 })
    do_loop session stream.failure 0 stream.messages

  -- worker.tableState: the leader index that the table has, and the session of its shard
  unfoldable pub table_state : Action S (ℕ × ℕ)
  table_state = do
    t ← host.get_table table
    idx ← host.leader_index t false
    lift (ok (idx, t.table.cluster_id))

  -- What the routine of replication does with a result.
  abbrev pub after_result : Result ReplicateResult → Action S (Unit {0})
  after_result (ok result_leader_ahead) s =
      if host.may_recover s
      then (try (host.recover table) >>= λ r. lift (ok tt)) s
      else (try (host.return_table table) >>= λ r. lift (ok tt)) s
  after_result panic s = (s, panic)
  after_result _ s = (s, ok tt)

  -- What follows the state of the table.
  abbrev pub poll_state : Bool → Result (ℕ × ℕ) → Action S (Unit {0})
  poll_state leased (ok (idx, session)) =
      if leased then (try (do_replicate idx session) >>= λ r. after_result r) else lift (ok tt)
  poll_state leased (err e) = lift (ok tt)
  poll_state leased panic = lift panic

  -- One tick of the routine of replication.
  unfoldable pub poll : Action (Worker S) (Unit {0})
  unfolding do_replicate table_state
  poll w =
      let (s, r) = (try table_state >>= λ state. poll_state w.leased state) w.host in
      (record w { host = s }, r)

  -- Whether LeaseTable succeeded.
  abbrev pub is_leased : Result (Unit {0}) → Bool
  is_leased (ok u) = true
  is_leased _ = false

  -- An error of LeaseTable is logged, and ends nothing.
  abbrev pub logged : Result (Unit {0}) → Result (Unit {0})
  logged panic = panic
  logged _ = ok tt

  -- One tick of the routine of leases.
  unfoldable pub lease_tick : Action (Worker S) (Unit {0})
  lease_tick w =
      let (s, r) = host.lease_table table w.host in
      (record { host = s; leased = is_leased r }, logged r)
