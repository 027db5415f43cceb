-- ===== src/Replication/Entries.antt =====
-- entryToCommand of regattaserver/replication.go: the entries of the leader's log as commands.
use regatta.LogReader.Cache.{Entry}
use regatta.Prelude.{ℕ, not, List, [], ◌∷◌, if◌then◌else◌}
use regatta.Bytes.{Bytes}
use regatta.Result.{Result, ok, panic, ◌>>=◌}
use regatta.Fsm.Messages.{CommandType, Command, Commands, command}
use regatta.Table.{zero_fields}
use regatta.Replication.Messages.{ReplicateCommand, with_leader_index}

-- e.Cmd[1:], which panics on an empty slice
abbrev pub after_first : Bytes → Result Bytes
after_first [] = panic
after_first (b ∷ bs) = ok bs

-- The index of the last of the entries.
abbrev pub last_index : Entry → List Entry → ℕ
last_index e [] = e.index
last_index e (d ∷ es) = last_index d es

module _ (unmarshal : Bytes → Result Command) where
  -- entryToCommand
  unfoldable pub entry_to_command : Entry → Result Command
  entry_to_command e =
      if not e.encoded
      then ok (with_leader_index e.index (command (zero_fields CommandType.dummy) Commands.end))
      else (after_first e.cmd >>= λ b. unmarshal b >>= λ cmd. ok (with_leader_index e.index cmd))

  -- The commands of the entries.
  unfoldable pub to_commands : List Entry → Result (List ReplicateCommand)
  unfolding entry_to_command
  to_commands [] = ok []
  to_commands (e ∷ es) = entry_to_command e >>= λ cmd.
      to_commands es >>= λ rest. ok (record { leader_index = e.index; cmd = cmd } ∷ rest)
