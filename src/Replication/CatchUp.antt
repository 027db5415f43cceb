-- ===== src/Replication/CatchUp.antt =====
-- One round of the worker on the messages of the log server.
use regatta.LogReader.Cache.{Entry}
use regatta.Prelude.{
  ℕ, ◌+◌, ◌<◌, ◌^◌, ◌≡◌, ◌≢◌, refl, sym, ap, ◌∙◌, none, some, List, [], ◌∷◌, ◌++◌, arith,
}
use regatta.Bytes.{Bytes}
use regatta.Result.{Result, ok, err, panic}
use regatta.Pebble.{Pebble, PebbleLaws}
use regatta.Pebble.OrderedMap
use regatta.Pebble.OrderedMap.{Entries}
use regatta.Fsm.Keys.{sys_leader_index}
use regatta.Fsm.Spec.Users.{SameUsers, SameUsers-sym}
use regatta.Fsm.Update.{LogEntry, Codec, put_uint, update_db, read_local_index}
use regatta.Fsm.Update.Correct.{Indexes, run_log, DbRefines, update_db-Refines}
use regatta.Fsm.Update.Index.{uint64-put_uint}
use regatta.Replication.Messages.{ReplicateCommand, commands_response, heartbeat, ReplicateResponse}
use regatta.Replication.Entries.{to_commands}
use regatta.Replication.LogServer.Stream.{Carries}
use regatta.Replication.Worker.{
  result_follower_tailing, WorkerHost, propose_batch, tail_result, do_loop, do_replicate,
}
use regatta.Replication.Runs.{Runs, run_log-Runs, applied, commands}
use regatta.Replication.Mirror.{
  ReadsBack, proposals, last_of, RaftShard, propose_loop-Follows, stamps-SameUsers,
}
use mathlib.Core.Path.{subst}

-- The leader index of the last command, or another index without one.
abbrev pub final_index : ℕ → List ReplicateCommand → ℕ
final_index i [] = i
final_index i (c ∷ cs) = final_index c.leader_index cs

final_index-append :
    (i : ℕ) (c : ReplicateCommand) (cs rest : List ReplicateCommand)
    → final_index i ((c ∷ cs) ++ rest) ≡ final_index (last_of c cs) rest
final_index-append i c [] rest = refl
final_index-append i c (d ∷ cs) rest = final_index-append c.leader_index d cs rest

Runs-split :
    (xs ys : List ReplicateCommand) (l l' : Entries)
    → Runs (commands (xs ++ ys)) l l'
    → (m : Entries) × Runs (commands xs) l m × Runs (commands ys) m l'
Runs-split [] ys l l' h = (l, refl, h)
Runs-split (c ∷ xs) ys l l' (j, m, x, e, h) =
    let (n, f, g) = Runs-split xs ys m l' h in (n, (j, m, x, e, f), g)

-- The state machine reads the proposals of all messages as the worker wrote them.
abbrev pub ReadsAll : {S : Type 0} → WorkerHost S → Codec → List ReplicateResponse → Type 0
ReadsAll host codec [] = Unit
ReadsAll host codec (r ∷ rs) = elim r.response [
  | commands_response cs ↦ ReadsBack host codec (proposals host.size [] cs) × ReadsAll host codec rs
  | _ ↦ ReadsAll host codec rs
]

module _ (p : Pebble) (laws : PebbleLaws p) (codec : Codec) {S : Type 0} (host : WorkerHost S)
    (session : ℕ) (shard : RaftShard p laws codec host session) (table : Bytes)
    (leader_applied : ℕ) where
  abbrev held : S → Entries
  held s = laws.contents (shard.db s)

  -- The table holds the leader index, if it is not 0.
  abbrev Holds : ℕ → S → Type 0
  Holds i s = i ≢ 0 → OrderedMap.lookup sys_leader_index (held s) ≡ some (put_uint 8 i)

  abbrev beat : ReplicateResponse
  beat = record { leader_index = leader_applied; response = heartbeat }

  do_loop-Follows :
      (msgs : List ReplicateResponse) (rcs : List ReplicateCommand) (prev : ℕ) (s : S)
      (l l' : Entries)
      → Carries leader_applied msgs rcs
      → ReadsAll host codec msgs
      → SameUsers l (held s)
      → Runs (commands rcs) l l'
      → Holds prev s
      → (s' : S) × (do_loop host table session none prev (msgs ++ (beat ∷ [])) s
          ≡ (s', ok (tail_result host table (final_index prev rcs) leader_applied)))
        × SameUsers l' (held s')
        × Holds (final_index prev rcs) s'
  unfolding do_loop propose_batch
  do_loop-Follows [] rcs prev s l l' carried reads same runs holds = (
    s,
    rw carried refl,
    subst (λ x. SameUsers x (held s)) (rw carried at runs) same,
    rw carried holds,
  )
  do_loop-Follows (r ∷ msgs) rcs prev s l l' (c, cs, rest, joined, sent, carried) reads same runs
        holds =
      let (m, first, last) = Runs-split (c ∷ cs) rest l l' (rw joined at runs) in
      let (reads', reads'') = rw sent at reads in
      let (s1, done, follows) =
        propose_loop-Follows p laws codec host session shard table cs c s [] 0 l l m reads' same
          refl first in
      let (s', run, same', holds') =
        do_loop-Follows msgs rest (last_of c cs) s1 m l' carried reads'' follows.0 last
          (λ h. follows.1) in
      (
        s',
        rw (sent, done, joined, final_index-append prev c cs rest) run,
        same',
        rw (joined, final_index-append prev c cs rest) holds',
      )

  -- On a follower's shard as in Mirror, which agrees with the leader's database on the user keys
  -- and reads the worker's proposals as it wrote them: if the leader's Update applied entries of
  -- its log that are decoded, the last of them being what it applied last, above 0 and below 2 ^
  -- 64, and the stream that the worker opens carries their commands and ends with the heartbeat,
  -- then one round of the worker succeeds and finds the follower tailing; afterwards the databases
  -- agree on the user keys, and the leader index that the follower reads, from which its next round
  -- asks for the entries, is the leader's applied index.
  pub do_replicate-catches_up :
      (leader leader' : p.Db) (es : List Entry) (us : List LogEntry) (rcs : List ReplicateCommand)
      (msgs : List ReplicateResponse) (s : S) (leader_index : ℕ)
      → host.open_stream (record { table = table; leader_index = leader_index + 1 }) s
        ≡ (s, ok (record { messages = msgs ++ (beat ∷ []); failure = none }))
      → Carries leader_applied msgs rcs
      → to_commands codec.unmarshal es ≡ ok rcs
      → final_index 0 rcs ≡ leader_applied
      → 0 < leader_applied
      → leader_applied < 2 ^ 64
      → update_db p codec leader (applied es) ≡ ok (leader', us)
      → ReadsAll host codec msgs
      → SameUsers (laws.contents leader) (laws.contents (shard.db s))
      → (s' : S) × (do_replicate host table leader_index session s
          ≡ (s', ok result_follower_tailing))
        × SameUsers (laws.contents leader') (laws.contents (shard.db s'))
        × (read_local_index (p.db_reader (shard.db s')) sys_leader_index ≡ ok leader_applied)
  unfolding do_replicate read_local_index
  do_replicate-catches_up leader leader' es us rcs msgs s leader_index opened carried sent ends
        positive bounded applies reads same =
      by_log
        (run_log codec (applied es) (record { index = 0; leader_index = none })
          (laws.contents leader))
        refl (rw applies at (update_db-Refines p laws codec leader (applied es)))
    where
      by_log :
          (x : Result (Entries × (Indexes × List LogEntry)))
          → run_log codec
              (applied es)
              (record { index = 0; leader_index = none })
              (laws.contents leader)
            ≡ x
          → DbRefines p laws codec (ok (leader', us)) x
          → (s' : S) × (do_replicate host table leader_index session s
              ≡ (s', ok result_follower_tailing))
            × SameUsers (laws.contents leader') (laws.contents (shard.db s'))
            × (read_local_index (p.db_reader (shard.db s')) sys_leader_index ≡ ok leader_applied)
      by_log (ok (m, (i, rs))) q k =
          let ran =
            run_log-Runs codec es rcs (record { index = 0; leader_index = none })
              (laws.contents leader) m i rs sent q in
          let (s', run, same', holds) =
            do_loop-Follows msgs rcs 0 s (laws.contents leader) m carried reads same ran
              (λ h. absurd (h refl)) in
          (
            s',
            rw opened (run ∙ ap (λ r. (s', ok r)) tailing),
            subst (λ x. SameUsers x (laws.contents (shard.db s'))) (sym k.0)
                (SameUsers-sym (stamps-SameUsers i _ m (SameUsers-sym same'))),
            rw
                (
                  (laws.db_shows (shard.db s')).get_lem,
                  ← ends,
                  holds (omega (arith, ends, positive)),
                )
                (uint64-put_uint _ (omega (arith, ends, bounded))),
          )
        where
          tailing :
              tail_result host table (final_index 0 rcs) leader_applied ≡ result_follower_tailing
          tailing = rw ends (ground arith)
      by_log (err e) q k = absurd k
      by_log panic q k = absurd k
