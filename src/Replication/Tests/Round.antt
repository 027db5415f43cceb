-- ===== src/Replication/Tests/Round.antt =====
-- A round of the worker against the log server, with a log of one put.
use regatta.LogReader.Cache.{Entry}
use regatta.Prelude.{ℕ, ◌+◌, ◌≡◌, refl, ap, true, none, List, [], ◌∷◌, arith}
use regatta.Bytes.{compare_bytes}
use regatta.Result.{ok}
use regatta.Pebble.OrderedMap.{insert}
use regatta.Pebble.Model.{Store, store_reader, empty_store, memory, memory_laws}
use regatta.Fsm.Keys.{sys_local_index, sys_leader_index}
use regatta.Fsm.Keys.Order.{user_key}
use regatta.Fsm.Spec.{run, outcome, put_change}
use regatta.Fsm.Spec.Users.{SameUsers}
use regatta.Fsm.Update.{with_result, update_db, read_local_index}
use regatta.Fsm.Update.Correct.{run_log, read_local_index-update}
use regatta.Replication.Messages.{ReplicateCommand, ReplicateResponse, with_leader_index}
use regatta.Replication.Entries.{to_commands}
use regatta.Replication.LogServer.{replicate}
use regatta.Replication.LogServer.Leader.{entries_from}
use regatta.Replication.LogServer.Stream.{Carries}
use regatta.Replication.Worker.{result_follower_tailing, WorkerHost, do_replicate}
use regatta.Replication.Runs.{applied}
use regatta.Replication.Mirror.{RaftShard}
use regatta.Replication.CatchUp.{ReadsAll}
use regatta.Replication.Round.{do_replicate-replicate}
use regatta.Replication.Tests.{
  put, codec, done, Follower, after_update, host, follower, table_t, one_by_one, leader_host,
  leader_laws,
}

-- The log of the leader, when it applied the first entry.
abbrev logged_at : ℕ → Entry
logged_at i = record { index = i; size_upper_limit = 16; encoded = true; cmd = 0 ∷ 7 ∷ [] }

abbrev first_worker : WorkerHost Follower
first_worker = record host {
  marshal = λ c. ok (8 ∷ []);
  open_stream = λ r s. (
    s,
    ok (record {
      messages = (replicate codec.unmarshal (leader_host logged_at 1) 100 r []).0;
      failure = none;
    }),
  );
}

abbrev first_shard : RaftShard memory memory_laws codec first_worker 10001
first_shard = record {
  db = λ s. s.0;
  next_index = λ s. s.1;
  proposed = λ s b d us q.
      ((d, s.1 + 1), record { value = 1; result_data = [] }, ap (after_update s) q, refl);
}

abbrev first_command : ReplicateCommand
first_command = record { leader_index = 1; cmd = with_leader_index 1 put }

to_commands-first :
    to_commands codec.unmarshal (entries_from logged_at 1 1) ≡ ok (first_command ∷ [])
unfolding to_commands compare_bytes
to_commands-first = refl

abbrev first_or : List ReplicateCommand → ReplicateCommand
first_or [] = first_command
first_or (c ∷ cs) = c

-- One command is read back, in whatever messages.
first_reads :
    (msgs : List ReplicateResponse)
    → Carries 1 msgs (first_command ∷ [])
    → ReadsAll first_worker codec msgs
unfolding compare_bytes
first_reads [] h = tt
first_reads (r ∷ []) (c, [], [], joined, sent, carried) =
    rw (sent, ← ap first_or joined) (((8 ∷ [], refl, refl), tt), tt)
first_reads (r ∷ q ∷ rs) (c, [], [], joined, sent, (c', cs', rest', joined', sent', h)) =
    absurd (ground (arith, joined'))
first_reads (r ∷ rs) (c, [], d ∷ rest, joined, sent, h) = absurd (ground (arith, joined))
first_reads (r ∷ rs) (c, d ∷ cs, rest, joined, sent, h) = absurd (ground (arith, joined))

run_log-first :
    run_log codec
      (applied (entries_from logged_at 1 1))
      (record { index = 0; leader_index = none })
      []
    ≡ ok ((user_key (97 ∷ []), 3 ∷ []) ∷ [], (record { index = 1; leader_index = none }, done))
unfolding run_log run outcome put_change with_result insert compare_bytes
run_log-first = refl

first_update :
    (leader : Store) × (update_db memory codec empty_store (applied (entries_from logged_at 1 1))
      ≡ ok (leader, done))
    × (read_local_index (store_reader leader) sys_local_index ≡ ok 1)
first_update =
    read_local_index-update memory memory_laws codec empty_store
      (applied (entries_from logged_at 1 1)) ((user_key (97 ∷ []), 3 ∷ []) ∷ [])
      (record { index = 1; leader_index = none }) done run_log-first (omega arith)

do_replicate-replicate_example :
    (s' : Follower) × (do_replicate first_worker (116 ∷ []) 0 10001 follower
      ≡ (s', ok result_follower_tailing))
    × SameUsers first_update.0.entries s'.0.entries
    × (read_local_index (store_reader s'.0) sys_leader_index ≡ ok 1)
do_replicate-replicate_example =
    do_replicate-replicate memory memory_laws codec (leader_host logged_at 1) table_t logged_at 1
      100 (λ shard. ok (one_by_one logged_at 1)) (one_by_one logged_at 1)
      (leader_laws logged_at (λ i. refl) 1) first_worker 10001 first_shard (116 ∷ []) empty_store
      first_update.0 done (first_command ∷ []) [] follower 0 (omega arith) (omega arith)
      (omega arith) refl refl refl to_commands-first first_update.1 first_reads
      (record { left_sorted = tt; right_sorted = tt; same = refl })
