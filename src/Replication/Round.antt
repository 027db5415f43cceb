-- ===== src/Replication/Round.antt =====
-- One round of the worker against the log server of the leader.
use regatta.LogReader.Cache.{Entry}
use regatta.Prelude.{
  ℕ, suc, ◌+◌, ◌-◌, ◌≤◌, ◌<◌, ◌^◌, ◌≡◌, refl, sym, ap, ◌∙◌, none, List, [], ◌∷◌, ◌++◌, arith,
}
use regatta.Bytes.{Bytes}
use regatta.Result.{Result, ok, >>=-eq-ok, ok_inj}
use regatta.Pebble.{Pebble, PebbleLaws}
use regatta.Fsm.Keys.{sys_leader_index}
use regatta.Fsm.Messages.{Command}
use regatta.Fsm.Spec.Users.{SameUsers}
use regatta.Fsm.Update.{LogEntry, Codec, update_db, read_local_index}
use regatta.Table.{ActiveTable}
use regatta.Replication.Messages.{heartbeat, ReplicateCommand, ReplicateResponse, ReplicateRequest}
use regatta.Replication.Entries.{last_index, entry_to_command, to_commands}
use regatta.Replication.LogServer.{LogHost, replicate}
use regatta.LogReader.Reader.{LogQuerier, RaftLog}
use regatta.Replication.LogServer.Leader.{entries_from, last_index-entries_from, LeaderLaws}
use regatta.Replication.LogServer.Stream.{Carries, replicate-Streams}
use regatta.Replication.Worker.{result_follower_tailing, WorkerHost, do_replicate}
use regatta.Replication.Runs.{applied}
use regatta.Replication.Mirror.{RaftShard}
use regatta.Replication.CatchUp.{final_index, ReadsAll, do_replicate-catches_up}

-- The last command has the index of the last entry.
final_index-to_commands :
    (unmarshal : Bytes → Result Command) (e : Entry) (es : List Entry) (i : ℕ)
    (rcs : List ReplicateCommand)
    → to_commands unmarshal (e ∷ es) ≡ ok rcs
    → final_index i rcs ≡ last_index e es
unfolding to_commands
final_index-to_commands unmarshal e [] i rcs h =
    let (cmd, f, g) = >>=-eq-ok (entry_to_command unmarshal e) _ rcs h in rw (← ok_inj g) refl
final_index-to_commands unmarshal e (d ∷ es) i rcs h =
    let (cmd, f, g) = >>=-eq-ok (entry_to_command unmarshal e) _ rcs h in
    let (rest, k, l) = >>=-eq-ok (to_commands unmarshal (d ∷ es)) _ rcs g in
    rw (← ok_inj l) (final_index-to_commands unmarshal d es e.index rest k)

module _ (p : Pebble) (laws : PebbleLaws p) (codec : Codec) {L : Type 0} (log_host : LogHost L)
    (t : ActiveTable) (entry_at : ℕ → Entry) (leader_applied max_message_size : ℕ)
    (querier : LogQuerier) (log : RaftLog)
    (leader_laws : LeaderLaws log_host querier log t entry_at leader_applied max_message_size)
    {S : Type 0} (host : WorkerHost S) (session : ℕ) (shard : RaftShard p laws codec host session)
    (table : Bytes) where
  -- What the follower lacks of the log.
  abbrev pub missing : ℕ → List Entry
  missing leader_index = entries_from entry_at (leader_index + 1) (leader_applied - leader_index)

  abbrev pub request : ℕ → ReplicateRequest
  request leader_index = record { table = table; leader_index = leader_index + 1 }

  -- What the log server sent when it returned.
  abbrev pub answer : ℕ → L → List ReplicateResponse
  answer leader_index ls =
      leader_laws.sent
        (replicate codec.unmarshal log_host max_message_size (request leader_index) ls).0

  -- A leader with LeaderLaws, so with the log reader Simple, that has the table and has sent nothing yet,
  -- and a follower's shard as in Mirror whose database agrees with the leader's on the user keys: if the
  -- leader's Update applied the entries of its log after the leader index of the follower, at least one,
  -- all of which its log still holds, up to its applied index, which is below 2 ^ 64, and these entries are
  -- decoded, and the worker receives what the log server sends, in whatever messages, and its proposals
  -- are read as it wrote them, then one round of the worker succeeds and finds the follower tailing;
  -- afterwards the databases agree on the user keys, and the leader index that the follower reads is the
  -- leader's applied index.
  pub do_replicate-replicate :
      (leader leader' : p.Db) (us : List LogEntry) (rcs : List ReplicateCommand) (ls : L) (s : S)
      (leader_index : ℕ)
      → log.first ≤ leader_index + 1
      → leader_index < leader_applied
      → leader_applied < 2 ^ 64
      → log_host.get_table table ls ≡ (ls, ok t)
      → leader_laws.sent ls ≡ []
      → host.open_stream (request leader_index) s
        ≡ (s, ok (record { messages = answer leader_index ls; failure = none }))
      → to_commands codec.unmarshal (missing leader_index) ≡ ok rcs
      → update_db p codec leader (applied (missing leader_index)) ≡ ok (leader', us)
      → ((msgs : List ReplicateResponse)
          → Carries leader_applied msgs rcs
          → ReadsAll host codec msgs)
      → SameUsers (laws.contents leader) (laws.contents (shard.db s))
      → (s' : S) × (do_replicate host table leader_index session s
          ≡ (s', ok result_follower_tailing))
        × SameUsers (laws.contents leader') (laws.contents (shard.db s'))
        × (read_local_index (p.db_reader (shard.db s')) sys_leader_index ≡ ok leader_applied)
  do_replicate-replicate leader leader' us rcs ls s leader_index above l bounded found fresh opened
        sent applies reads same =
      let (msgs, ls', run, after, carried) =
        replicate-Streams codec.unmarshal log_host t entry_at leader_applied max_message_size
          querier log leader_laws (request leader_index) ls rcs (omega arith) above
          (omega (arith, l)) found (whole sent) in
      do_replicate-catches_up p laws codec host session shard table leader_applied leader leader'
        (missing leader_index) us rcs msgs s leader_index
        (opened
          ∙ ap (λ m. (s, ok (record { messages = m; failure = none })))
              (ap (λ x. leader_laws.sent x.0) run
                ∙ after
                ∙ ap
                    (λ x.
                      x
                      ++ (msgs
                          ++ (record { leader_index = leader_applied; response = heartbeat } ∷ [])))
                    fresh))
        carried sent (ends leader_index l sent) (omega (arith, l)) bounded applies
        (reads msgs carried) same
    where
      whole :
          to_commands codec.unmarshal (missing leader_index) ≡ ok rcs
          → to_commands codec.unmarshal
              (entries_from entry_at (leader_index + 1) (leader_applied + 1 - (leader_index + 1)))
            ≡ ok rcs
      whole h =
          ap (λ n. to_commands codec.unmarshal (entries_from entry_at (leader_index + 1) n))
            (omega arith)
          ∙ h

      ends :
          (i : ℕ)
          → i < leader_applied
          → to_commands codec.unmarshal (missing i) ≡ ok rcs
          → final_index 0 rcs ≡ leader_applied
      ends i l h =
          let n : ℕ = leader_applied - i - 1 in
          let split : leader_applied - i ≡ suc n = omega (arith, l) in
          final_index-to_commands codec.unmarshal (entry_at (i + 1))
            (entries_from entry_at (i + 1 + 1) n) 0 rcs
            (sym (ap (λ k. to_commands codec.unmarshal (entries_from entry_at (i + 1) k)) split)
              ∙ h)
          ∙ (last_index-entries_from entry_at leader_laws.numbered (i + 1) n ∙ omega (arith, l))
