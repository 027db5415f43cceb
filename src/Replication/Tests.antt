-- ===== src/Replication/Tests.antt =====
-- A leader's log of a put and a dummy entry, and a follower that starts empty.
mod Round
mod Transfer
mod Registry
use regatta.LogReader.Cache.{Entry}
use regatta.Prelude.{
  ℕ, ◌+◌, ◌-◌, ◌≤◌, ◌<◌, ◌≡◌, refl, sym, ap, ◌∙◌, Bool, true, false, none, some, List, [], ◌∷◌,
  ◌++◌, if◌then◌else◌, arith,
}
use regatta.Bytes.{Bytes, equal, compare_bytes}
use regatta.Result.{Result, ok, err, external}
use regatta.Action.{Action}
use regatta.Pebble.OrderedMap.{Entries, insert}
use regatta.Pebble.Model.{Store, store_reader, empty_store, memory, memory_laws}
use regatta.Fsm.Keys.{sys_local_index, sys_leader_index}
use regatta.Fsm.Keys.Order.{user_key}
use regatta.Fsm.Messages.{CommandType, CommandFields, Command, Commands, command}
use regatta.Fsm.Spec.{run, outcome, put_change}
use regatta.Fsm.Spec.Users.{SameUsers}
use regatta.Fsm.Update.{Codec, LogEntry, with_result, update_db, read_local_index}
use regatta.Fsm.Update.Correct.{Indexes, run_log, read_local_index-update}
use regatta.Table.{ActiveTable, SmResult, zero_fields}
use regatta.Table.Active.{log_entry}
use regatta.Replication.Messages.{
  ReplicateCommand, commands_response, heartbeat, ReplicateResponse, ReplicateRequest,
  with_leader_index,
}
use regatta.Replication.Entries.{to_commands}
use regatta.Replication.LogServer.{LogHost, replicate}
use regatta.LogReader.Reader.{RaftLog, query_simple}
use regatta.Replication.LogServer.Leader.{entries_from, LeaderLaws}
use regatta.Replication.LogServer.Stream.{Carries, replicate-Streams}
use regatta.Replication.Worker.{
  result_follower_tailing, WorkerHost, sequence_of, propose_batch, do_replicate,
}
use regatta.Replication.Runs.{applied}
use regatta.Replication.Mirror.{RaftShard, propose_batch-mirrors}
use regatta.Replication.CatchUp.{ReadsAll, do_replicate-catches_up}
use regatta.Replication.Round.{answer, do_replicate-replicate}

abbrev pub put : Command
put =
    command
      (record (zero_fields CommandType.put) {
        kv = some (record { key = 97 ∷ []; value = 3 ∷ [] });
      })
      Commands.end

abbrev dummy : Command
dummy = command (zero_fields CommandType.dummy) Commands.end

abbrev proposal : Command
proposal = sequence_of (with_leader_index 1 put ∷ with_leader_index 2 dummy ∷ []) 2

-- The proposal of the first entry alone.
abbrev first_proposal : Command
first_proposal = sequence_of (with_leader_index 1 put ∷ []) 1

abbrev pub codec : Codec
codec = record {
  unmarshal = λ b.
      ok (if equal b (7 ∷ []) then put else if equal b (9 ∷ []) then proposal else first_proposal);
  marshal = λ r. 0 ∷ [];
}

abbrev entries : List Entry
entries =
    record { index = 1; size_upper_limit = 16; encoded = true; cmd = 0 ∷ 7 ∷ [] }
    ∷ record { index = 2; size_upper_limit = 16; encoded = false; cmd = [] }
    ∷ []

abbrev sent_commands : List ReplicateCommand
sent_commands =
    record { leader_index = 1; cmd = with_leader_index 1 put }
    ∷ record { leader_index = 2; cmd = with_leader_index 2 dummy }
    ∷ []

to_commands-entries : to_commands codec.unmarshal entries ≡ ok sent_commands
unfolding to_commands compare_bytes
to_commands-entries = refl

abbrev pub done : List LogEntry
done = record { index = 1; cmd = 7 ∷ []; value = 1; result_data = 0 ∷ [] } ∷ []

run_log-entries :
    run_log codec (applied entries) (record { index = 0; leader_index = none }) []
    ≡ ok ((user_key (97 ∷ []), 3 ∷ []) ∷ [], (record { index = 1; leader_index = none }, done))
unfolding run_log run outcome put_change with_result insert compare_bytes
run_log-entries = refl

leader_update :
    (leader : Store) × (update_db memory codec empty_store (applied entries) ≡ ok (leader, done))
    × (read_local_index (store_reader leader) sys_local_index ≡ ok 1)
leader_update =
    read_local_index-update memory memory_laws codec empty_store (applied entries)
      ((user_key (97 ∷ []), 3 ∷ []) ∷ []) (record { index = 1; leader_index = none }) done
      run_log-entries (omega arith)

-- The database of the follower's shard, and its next index.
abbrev pub Follower : Type 0
Follower = Store × ℕ

abbrev pub after_update : Follower → Result (Store × List LogEntry) → Follower × Result SmResult
after_update s (ok (d, us)) = ((d, s.1 + 1), ok (record { value = 1; result_data = [] }))
after_update s _ = (s, err external)

abbrev messages : List ReplicateResponse
messages = record { leader_index = 2; response = commands_response sent_commands } ∷ []

abbrev pub host : WorkerHost Follower
host = record {
  marshal = λ c. ok (9 ∷ []);
  size = λ c. 0;
  sync_propose = λ session b s. after_update s (update_db memory codec s.0 (log_entry s.1 b ∷ []));
  get_table = λ name s. (s, err external);
  leader_index = λ t linearizable s. (s, err external);
  lease_table = λ name s. (s, ok tt);
  return_table = λ name s. (s, ok true);
  open_stream = λ r s. (
    s,
    ok (record {
      messages = messages ++ (record { leader_index = 2; response = heartbeat } ∷ []);
      failure = none;
    }),
  );
  may_recover = λ s. true;
  recover = λ name s. (s, ok tt);
}

abbrev shard : RaftShard memory memory_laws codec host 10001
shard = record {
  db = λ s. s.0;
  next_index = λ s. s.1;
  proposed = λ s b d us q.
      ((d, s.1 + 1), record { value = 1; result_data = [] }, ap (after_update s) q, refl);
}

abbrev pub follower : Follower
follower = (empty_store, 5)

propose_batch-mirrors_example :
    (s' : Follower) × (propose_batch host (116 ∷ []) 10001 sent_commands follower ≡ (s', ok 2))
    × SameUsers leader_update.0.entries s'.0.entries
    × (read_local_index (store_reader s'.0) sys_leader_index ≡ ok 2)
unfolding compare_bytes
propose_batch-mirrors_example =
    propose_batch-mirrors memory memory_laws codec host 10001 shard (116 ∷ []) empty_store
      leader_update.0 entries done (record { leader_index = 1; cmd = with_leader_index 1 put })
      (record { leader_index = 2; cmd = with_leader_index 2 dummy } ∷ []) follower
      to_commands-entries leader_update.1 ((9 ∷ [], refl, refl), tt)
      (record { left_sorted = tt; right_sorted = tt; same = refl }) (omega arith)

messages-Carries : Carries 2 messages sent_commands
messages-Carries = (
  record { leader_index = 1; cmd = with_leader_index 1 put },
  record { leader_index = 2; cmd = with_leader_index 2 dummy } ∷ [],
  [],
  refl,
  refl,
  refl,
)

do_replicate-catches_up_example :
    (s' : Follower) × (do_replicate host (116 ∷ []) 0 10001 follower
      ≡ (s', ok result_follower_tailing))
    × SameUsers leader_update.0.entries s'.0.entries
    × (read_local_index (store_reader s'.0) sys_leader_index ≡ ok 2)
unfolding compare_bytes
do_replicate-catches_up_example =
    do_replicate-catches_up memory memory_laws codec host 10001 shard (116 ∷ []) 2 empty_store
      leader_update.0 entries done sent_commands messages follower 0 refl messages-Carries
      to_commands-entries refl (omega arith) (omega arith) leader_update.1
      (((9 ∷ [], refl, refl), tt), tt) (record { left_sorted = tt; right_sorted = tt; same = refl })

abbrev pub table_t : ActiveTable
table_t = record {
  table = record { name = 116 ∷ []; cluster_id = 10001; recover_id = 0 };
  session = 10001;
}

abbrev dummy_at : ℕ → Entry
dummy_at i = record { index = i; size_upper_limit = 16; encoded = false; cmd = [] }

-- The log of dragonboat with the entries from 1 on, one for each read.
abbrev pub one_by_one : (ℕ → Entry) → ℕ → RaftLog
one_by_one entry_at last = record {
  first = 1;
  last = last;
  entries = λ lo hi size. ok (entries_from entry_at lo 1);
}

-- A leader that applied some entries and reads its log by Simple; its state is what it sent.
abbrev pub leader_host : (ℕ → Entry) → ℕ → LogHost (List ReplicateResponse)
leader_host entry_at applied = record {
  get_table = λ name s. (s, ok table_t);
  local_index = λ t linearizable s. (s, ok applied);
  query_raft_log =
      λ id r size s. (s, query_simple (λ shard. ok (one_by_one entry_at applied)) id r size);
  send = λ r s. (s ++ (r ∷ []), ok tt);
  expired = λ s. false;
}

abbrev pub leader_laws :
    (entry_at : ℕ → Entry)
    → ((i : ℕ) → (entry_at i).index ≡ i)
    → (applied : ℕ)
    → LeaderLaws
        (leader_host entry_at applied)
        (λ shard. ok (one_by_one entry_at applied))
        (one_by_one entry_at applied)
        table_t
        entry_at
        applied
        100
leader_laws entry_at numbered applied = record {
  sent = λ s. s;
  sends = λ r s. (s ++ (r ∷ []), refl, refl);
  simple = λ r s. refl;
  found = refl;
  applied_le = omega arith;
  held = λ first n l positive le. (1, refl, omega arith, positive);
  index = λ linearizable s. refl;
  open_ended = λ s. refl;
  numbered = numbered;
}

abbrev request : ReplicateRequest
request = record { table = 116 ∷ []; leader_index = 1 }

abbrev dummies : List ReplicateCommand
dummies =
    record { leader_index = 1; cmd = with_leader_index 1 dummy }
    ∷ record { leader_index = 2; cmd = with_leader_index 2 dummy }
    ∷ []

to_commands-dummies : to_commands codec.unmarshal (entries_from dummy_at 1 2) ≡ ok dummies
unfolding to_commands
to_commands-dummies = refl

replicate-Streams_example :
    (msgs : List ReplicateResponse) × (s' : List ReplicateResponse) × (replicate codec.unmarshal
        (leader_host dummy_at 2)
        100
        request
        []
      ≡ (s', ok tt))
    × (s' ≡ [] ++ (msgs ++ (record { leader_index = 2; response = heartbeat } ∷ [])))
    × Carries 2 msgs dummies
replicate-Streams_example =
    replicate-Streams codec.unmarshal (leader_host dummy_at 2) table_t dummy_at 2 100
      (λ shard. ok (one_by_one dummy_at 2)) (one_by_one dummy_at 2)
      (leader_laws dummy_at (λ i. refl) 2) request [] dummies (omega arith) (omega arith)
      (omega arith) refl to_commands-dummies
