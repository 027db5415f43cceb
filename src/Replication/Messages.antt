-- ===== src/Replication/Messages.antt =====
-- The messages of replication, regattapb/replication.pb.go.
use regatta.Prelude.{ℕ, some, List}
use regatta.Bytes.{Bytes}
use regatta.Fsm.Messages.{Command, command}

-- ReplicateCommand
pub record ReplicateCommand : Type 0 where
  pub leader_index : ℕ
  pub cmd : Command

-- ReplicateError; a number that the enum does not know is kept by protobuf
pub data ReplicateError : Type 0 where
  use_snapshot leader_behind unknown_error : ReplicateError

-- The oneof of ReplicateResponse: unset for a heartbeat
pub data Response : Type 0 where
  commands_response : List ReplicateCommand → Response
  error_response : ReplicateError → Response
  heartbeat : Response

-- ReplicateResponse
pub record ReplicateResponse : Type 0 where
  pub leader_index : ℕ
  pub response : Response

-- ReplicateRequest
pub record ReplicateRequest : Type 0 where
  pub table : Bytes
  pub leader_index : ℕ

-- cmd.LeaderIndex = &i
abbrev pub with_leader_index : ℕ → Command → Command
with_leader_index i (command f seq) = command (record f { leader_index = some i }) seq
