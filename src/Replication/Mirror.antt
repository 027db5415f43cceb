-- ===== src/Replication/Mirror.antt =====
-- What a follower's table holds after proposeBatch: what the leader's table holds.
use regatta.LogReader.Cache.{Entry}
use regatta.Prelude.{
  ℕ, ◌<◌, ◌^◌, ◌≡◌, refl, sym, ap, ◌∙◌, Bool, true, false, Option, none, some, List, [], ◌∷◌, ◌++◌,
  ◌||◌, if◌then◌else◌, Bool-cases, inl, inr, arith,
}
use regatta.Bytes.{Bytes, compare_bytes, equal}
use mathlib.Core.Path.{subst}
use regatta.Bytes.Order.{equal_refl}
use regatta.Result.{Result, ok, err, panic}
use regatta.Pebble.{Pebble, PebbleLaws}
use regatta.Pebble.OrderedMap
use regatta.Pebble.OrderedMap.{Entries, insert}
use regatta.Pebble.OrderedMap.Laws.{lookup-insert}
use regatta.Fsm.Keys.{sys_local_index, sys_leader_index}
use regatta.Fsm.Messages.{Command, ResponseOp}
use regatta.Fsm.Command.{result_success}
use regatta.Fsm.Spec.{run, outcome, run_all}
use regatta.Fsm.Spec.Users.{SameUsers, SameUsers-sym, insert_system-SameUsers, is_user-system}
use regatta.Fsm.Update.{LogEntry, Codec, put_uint, update_db, with_result, read_local_index}
use regatta.Fsm.Update.Correct.{Indexes, run_log, stamp, stamp_leader, DbRefines, update_db-Refines}
use regatta.Fsm.Update.Index.{uint64-put_uint}
use regatta.Table.{SmResult}
use regatta.Table.Active.{log_entry}
use regatta.Replication.Messages.{ReplicateCommand}
use regatta.Replication.Worker.{
  WorkerHost, sequence_of, command_list, is_full, propose, propose_loop, propose_batch,
}
use regatta.Replication.Runs.{Runs, Runs-append, run_all-Runs, run_log-Runs, applied, commands}
use regatta.Replication.Entries.{to_commands}

-- The sequences that proposeBatch makes of commands, by the size that the encoding reports.
abbrev pub proposals : (Command → ℕ) → List Command → List ReplicateCommand → List Command
proposals size seq [] = []
proposals size seq (c ∷ cs) =
    let flushed = proposals size [] cs in
    let waiting = proposals size (seq ++ (c.cmd ∷ [])) cs in
    if is_full size seq c cs
    then sequence_of (seq ++ (c.cmd ∷ [])) c.leader_index ∷ flushed
    else waiting

-- The leader index of the last command.
abbrev pub last_of : ReplicateCommand → List ReplicateCommand → ℕ
last_of c [] = c.leader_index
last_of c (d ∷ cs) = last_of d cs

-- The state machine reads the commands as the worker wrote them.
abbrev pub ReadsBack : {S : Type 0} → WorkerHost S → Codec → List Command → Type 0
ReadsBack host codec [] = Unit
ReadsBack host codec (c ∷ cs) =
    ((b : Bytes) × (host.marshal c ≡ ok b) × (codec.unmarshal b ≡ ok c)) × ReadsBack host codec cs

or_true : (b : Bool) → (b || true) ≡ true
or_true b = ground arith

-- The log of one sequence.
run_log-sequence :
    (codec : Codec) (idx i : ℕ) (b : Bytes) (seq : List Command) (n n' : Entries)
    (rs : List ResponseOp)
    → codec.unmarshal b ≡ ok (sequence_of seq i)
    → run_all idx (command_list seq) n ≡ ok (n', rs)
    → run_log codec (log_entry idx b ∷ []) (record { index = 0; leader_index = none }) n
      ≡ ok (
        n',
        (
          record { index = idx; leader_index = some i },
          with_result codec
                (log_entry idx b)
                result_success
                (record { responses = rs; revision = idx })
              ∷ [],
        ),
      )
unfolding run_log run outcome
run_log-sequence codec idx i b seq n n' rs h e = rw (h, run_log, e) refl

-- Stamps of any indexes.
pub stamps-SameUsers : (i : Indexes) (l n : Entries) → SameUsers l n → SameUsers l (stamp i n)
stamps-SameUsers i l n s =
    insert_system-SameUsers (by_leader i.leader_index) sys_local_index (put_uint 8 i.index)
      is_user-system.0
  where
    by_leader : (o : Option ℕ) → SameUsers l (stamp_leader o n)
    by_leader none = s
    by_leader (some j) = insert_system-SameUsers s sys_leader_index (put_uint 8 j) is_user-system.1

system_keys_differ : equal sys_local_index sys_leader_index ≡ false
unfolding compare_bytes sys_local_index sys_leader_index
system_keys_differ = refl

leader_index-stamp :
    (i j : ℕ) (n : Entries)
    → OrderedMap.lookup sys_leader_index (stamp (record { index = j; leader_index = some i }) n)
      ≡ some (put_uint 8 i)
leader_index-stamp i j n = simp (lookup-insert, system_keys_differ, equal_refl)

module _ (p : Pebble) (laws : PebbleLaws p) (codec : Codec) {S : Type 0} (host : WorkerHost S)
    (session : ℕ) where
  -- A shard that applies each proposal of the worker, and nothing else, to its database, as the entry
  -- with its next index.
  pub record RaftShard : Type 0 where
    pub db : S → p.Db
    pub next_index : S → ℕ
    pub proposed :
        (s : S) (b : Bytes) (d : p.Db) (us : List LogEntry)
        → update_db p codec (db s) (log_entry (next_index s) b ∷ []) ≡ ok (d, us)
        → (s' : S) × (r : SmResult) × (host.sync_propose session b s ≡ (s', ok r)) × (db s' ≡ d)

  module _ (shard : RaftShard) (table : Bytes) where
    open shard use {db, next_index, proposed}

    abbrev ResponseOps : Type 0
    ResponseOps = List ResponseOp

    abbrev pub held : S → Entries
    held s = laws.contents (db s)

    abbrev pub Follows : Entries → ℕ → S → Type 0
    Follows l i s =
        SameUsers l (held s) × (OrderedMap.lookup sys_leader_index (held s) ≡ some (put_uint 8 i))

    -- One proposal.
    propose-Follows :
        (s : S) (seq : List Command) (i : ℕ) (l l' : Entries) (b : Bytes)
        → host.marshal (sequence_of seq i) ≡ ok b
        → codec.unmarshal b ≡ ok (sequence_of seq i)
        → Runs seq l l'
        → SameUsers l (held s)
        → (s' : S) × (propose host table session (sequence_of seq i) s ≡ (s', ok tt))
          × Follows l' i s'
    unfolding propose
    propose-Follows s seq i l l' b w r h same =
        let (n', rs, e, t) = run_all-Runs (next_index s) seq l l' (held s) h same in
        let n : ResponseOps = rs in
        by_update (update_db p codec (db s) (log_entry (next_index s) b ∷ [])) refl n' n t (
          rw (run_log-sequence codec (next_index s) i b seq (held s) n' rs r e) at
            (update_db-Refines p laws codec (db s) (log_entry (next_index s) b ∷ [])))
      where
        by_update :
            (u : Result (p.Db × List LogEntry))
            → update_db p codec (db s) (log_entry (next_index s) b ∷ []) ≡ u
            → (n' : Entries) (rs : ResponseOps) → SameUsers l' n'
            → DbRefines p laws codec u (
                ok (
                  n',
                  (
                    record { index = next_index s; leader_index = some i },
                    with_result codec
                          (log_entry (next_index s) b)
                          result_success
                          (record { responses = rs; revision = next_index s })
                        ∷ [],
                  ),
                ))
            → (s' : S) × (propose host table session (sequence_of seq i) s ≡ (s', ok tt))
              × Follows l' i s'
        by_update (ok (d, us)) q n' rs t k =
            let (s', res, f, g) = proposed s b d us q in
            (
              s',
              rw (w, f) refl,
              (
                subst (SameUsers l') (sym (ap laws.contents g ∙ k.0)) (
                    stamps-SameUsers (record { index = next_index s; leader_index = some i }) l' n'
                      t),
                ap (OrderedMap.lookup sys_leader_index) (ap laws.contents g ∙ k.0)
                    ∙ leader_index-stamp i (next_index s) n',
              ),
            )
        by_update (err x) q n' rs t k = absurd k
        by_update panic q n' rs t k = absurd k

    -- The loop, with the commands of `seq` still to be proposed.
    pub propose_loop-Follows :
        (cs : List ReplicateCommand) (c : ReplicateCommand) (s : S) (seq : List Command) (last : ℕ)
        (l m l' : Entries)
        → ReadsBack host codec (proposals host.size seq (c ∷ cs))
        → SameUsers l (held s)
        → Runs seq l m
        → Runs (commands (c ∷ cs)) m l'
        → (s' : S) × (propose_loop host table session seq last (c ∷ cs) s ≡ (s', ok (last_of c cs)))
          × Follows l' (last_of c cs) s'
    unfolding propose_loop
    propose_loop-Follows [] c s seq last l m l' reads same h (j, m', x, e, k) =
        let full : is_full host.size seq c [] ≡ true = or_true _ in
        let ((b, w, r), _) = rw full at reads in
        let (s', f, follows) =
          propose-Follows s (seq ++ (c.cmd ∷ [])) c.leader_index l l' b w r
            (Runs-append seq (c.cmd ∷ []) l m l' h (j, m', x, e, k)) same in
        (s', rw (full, f) refl, follows)
    propose_loop-Follows (d ∷ cs) c s seq last l m l' reads same h (j, m', x, e, k) =
        elim (Bool-cases (is_full host.size seq c (d ∷ cs))) [
          | inl full ↦
              let ((b, w, r), reads') = rw full at reads in
              let (s', f, follows) =
                propose-Follows s (seq ++ (c.cmd ∷ [])) c.leader_index l m' b w r joined same in
              let (s'', g, follows') =
                propose_loop-Follows cs d s' [] c.leader_index m' m' l' reads' follows.0 refl k in
              (s'', rw (full, f) g, follows')
          | inr small ↦
              let (s', g, follows) =
                propose_loop-Follows cs d s (seq ++ (c.cmd ∷ [])) last l m' l' (rw small at reads)
                  same joined k in
              (s', rw small g, follows)
        ]
      where
        joined : Runs (seq ++ (c.cmd ∷ [])) l m'
        joined = Runs-append seq (c.cmd ∷ []) l m m' h (j, m', x, e, refl)

    -- For any database with PebbleLaws, on a shard that applies what the worker proposes and nothing else,
    -- and whose state machine reads the proposals as the worker wrote them: if the follower's database
    -- agrees with the leader's on the user keys, and the leader's Update applied entries of its log, at
    -- least one, then proposeBatch of the commands that the log server makes of the same entries succeeds
    -- with the index of the last one, wherever it cuts the proposals; the databases agree on the user keys
    -- again; and the leader index that the follower reads is the index of that entry, below 2 ^ 64.
    pub propose_batch-mirrors :
        (leader leader' : p.Db) (es : List Entry) (us : List LogEntry) (c : ReplicateCommand)
        (cs : List ReplicateCommand) (s : S)
        → to_commands codec.unmarshal es ≡ ok (c ∷ cs)
        → update_db p codec leader (applied es) ≡ ok (leader', us)
        → ReadsBack host codec (proposals host.size [] (c ∷ cs))
        → SameUsers (laws.contents leader) (laws.contents (shard.db s))
        → last_of c cs < 2 ^ 64
        → (s' : S) × (propose_batch host table session (c ∷ cs) s ≡ (s', ok (last_of c cs)))
          × SameUsers (laws.contents leader') (laws.contents (shard.db s'))
          × (read_local_index (p.db_reader (shard.db s')) sys_leader_index ≡ ok (last_of c cs))
    unfolding propose_batch read_local_index
    propose_batch-mirrors leader leader' es us c cs s sent applies reads same bounded =
        by_log
          (run_log codec (applied es) (record { index = 0; leader_index = none })
            (laws.contents leader))
          refl (rw applies at (update_db-Refines p laws codec leader (applied es)))
      where
        by_log :
            (x : Result (Entries × (Indexes × List LogEntry)))
            → run_log codec
                (applied es)
                (record { index = 0; leader_index = none })
                (laws.contents leader)
              ≡ x
            → DbRefines p laws codec (ok (leader', us)) x
            → (s' : S) × (propose_batch host table session (c ∷ cs) s ≡ (s', ok (last_of c cs)))
              × SameUsers (laws.contents leader') (laws.contents (shard.db s'))
              × (read_local_index (p.db_reader (shard.db s')) sys_leader_index ≡ ok (last_of c cs))
        by_log (ok (m, (i, rs))) q k =
            let ran = run_log-Runs codec es (c ∷ cs) _ (laws.contents leader) m i rs sent q in
            let (s', f, follows) =
              propose_loop-Follows cs c s [] 0 (laws.contents leader) (laws.contents leader) m reads
                same refl ran in
            (
              s',
              f,
              subst (λ x. SameUsers x (laws.contents (shard.db s'))) (sym k.0)
                  (SameUsers-sym (stamps-SameUsers i _ m (SameUsers-sym follows.0))),
              rw ((laws.db_shows (db s')).get_lem, follows.1) (uint64-put_uint _ bounded),
            )
        by_log (err e) q k = absurd k
        by_log panic q k = absurd k
