-- ===== src/Replication/Registry.antt =====
-- Manager of replication/replication.go: the workers that it keeps, under their lock. The tables of the
-- node and of the leader are arguments. What a worker does when it is started and closed is left out.
pub mod Reconcile
use regatta.Prelude.{ℕ, ◌+◌, ◌-◌, Bool, true, false, not, ◌||◌, List, [], ◌∷◌, ◌==◌, if◌then◌else◌}
use regatta.Bytes.{Bytes, equal}
use regatta.Result.{Result, Error, ok, err, panic, table_exists, blocked}
use regatta.Action.{Action, ◌>>=◌, ◌>>◌, lift, try}
use regatta.Table.{Table}

-- workers: the tables of the registry, each once, and the RWMutex, as the routine that reconciles holds it
pub record Workers : Type 0 where
  pub registry : List Bytes
  pub readers : ℕ
  pub writing : Bool

abbrev pub has_name : Bytes → List Bytes → Bool
has_name name [] = false
has_name name (n ∷ ns) = equal name n || has_name name ns

-- registry[name] = worker
abbrev pub add_name : Bytes → List Bytes → List Bytes
add_name name ns = if has_name name ns then ns else name ∷ ns

-- delete(registry, name)
abbrev pub drop_name : Bytes → List Bytes → List Bytes
drop_name name [] = []
drop_name name (n ∷ ns) = let rest = drop_name name ns in if equal name n then rest else n ∷ rest

-- RWMutex.Lock waits for the writer and for every reader, its own routine's reads as well.
abbrev pub lock : Action Workers (Unit {0})
lock w =
    if w.writing || not (w.readers == 0)
    then (w, err blocked)
    else (record w { writing = true }, ok tt)

abbrev pub unlock : Action Workers (Unit {0})
unlock w = (record w { writing = false }, ok tt)

abbrev pub rlock : Action Workers (Unit {0})
rlock w = if w.writing then (w, err blocked) else (record w { readers = w.readers + 1 }, ok tt)

abbrev pub runlock : Action Workers (Unit {0})
runlock w = (record w { readers = w.readers - 1 }, ok tt)

-- A change of the registry.
abbrev pub modify : (List Bytes → List Bytes) → Action Workers (Unit {0})
modify f w = (record w { registry = f w.registry }, ok tt)

abbrev pub look : Bytes → Action Workers Bool
look name w = (w, ok (has_name name w.registry))

-- Manager.hasWorker
unfoldable pub has_worker : Bytes → Action Workers Bool
has_worker name = do a ← rlock; found ← look name; b ← runlock; lift (ok found)

-- Manager.startWorker
unfoldable pub start_worker : Bytes → Action Workers (Unit {0})
start_worker name = do a ← lock; b ← modify (add_name name); unlock

-- Manager.stopWorker
unfoldable pub stop_worker : Bytes → Action Workers (Unit {0})
stop_worker name = do a ← lock; b ← modify (drop_name name); unlock

-- The start of a worker, unless there is one.
abbrev pub start_unless : Bool → Bytes → Action Workers (Unit {0})
start_unless true name = lift (ok tt)
start_unless false name = start_worker name

-- The stop of a worker, unless its table is listed.
abbrev pub stop_unless : Bool → Bytes → Action Workers (Unit {0})
stop_unless true name = lift (ok tt)
stop_unless false name = stop_worker name

-- The start of the workers that are missing.
unfoldable pub start_missing : List Table → Action Workers (Unit {0})
unfolding has_worker start_worker
start_missing [] = lift (ok tt)
start_missing (t ∷ ts) = do
  found ← has_worker t.name
  a ← start_unless found t.name
  start_missing ts

abbrev pub is_listed : Bytes → List Table → Bool
is_listed name [] = false
is_listed name (t ∷ ts) = equal t.name name || is_listed name ts

-- The loop over the registry.
unfoldable pub stop_unlisted : List Table → List Bytes → Action Workers (Unit {0})
unfolding stop_worker
stop_unlisted tbs [] = lift (ok tt)
stop_unlisted tbs (n ∷ ns) = do a ← stop_unless (is_listed n tbs) n; stop_unlisted tbs ns

abbrev pub stop_loop : List Table → Action Workers (Unit {0})
stop_loop tbs w = stop_unlisted tbs w.registry w

-- Manager.reconcileWorkers, with what GetTables returns
unfoldable pub reconcile_workers : Result (List Table) → Action Workers (Unit {0})
unfolding start_missing stop_unlisted
reconcile_workers got = do
  tbs ← lift got
  a ← start_missing tbs
  b ← rlock
  c ← stop_loop tbs
  runlock

module _ {S : Type 0} (create_table : Bytes → Action S (Unit {0})) where
  -- errors.Is(err, ErrTableExists)
  abbrev pub ignore_existing : Result (Unit {0}) → Result (Unit {0})
  ignore_existing (err table_exists) = ok tt
  ignore_existing r = r

  -- Manager.reconcileTables, with the names of the leader's tables
  unfoldable pub reconcile_tables : List Bytes → Action S (Unit {0})
  reconcile_tables [] = lift (ok tt)
  reconcile_tables (name ∷ names) = do
    done ← try (create_table name)
    a ← lift (ignore_existing done)
    reconcile_tables names
