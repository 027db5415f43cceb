-- ===== src/Fsm/Context.antt =====
-- updateContext of storage/table/fsm/command.go: the batch that the commands of one Update write to.
-- A handler that fails makes Update fail, which drops its context: an error carries none.
use regatta.Prelude.{ℕ, Option, none, some, if◌then◌else◌}
use regatta.Result.{Result, Error, ok, err, panic, ◌>>=◌, ◌>>◌}
use regatta.Pebble.{Pebble}
use regatta.Fsm.Messages.{ResponseRange}

-- A lookup whose error pebble.ErrNotFound is tolerated.
abbrev pub tolerate : Result ResponseRange → Result (Option ResponseRange)
tolerate (ok r) = ok (some r)
tolerate (err Error.not_found) = ok none
tolerate (err e) = err e
tolerate panic = panic

module _ (p : Pebble) where
  -- updateContext
  pub record UpdateContext : Type 0 where
    pub batch : p.Batch
    pub db : p.Db
    pub index : ℕ
    pub leader_index : Option ℕ

  -- EnsureIndexed
  unfoldable pub ensure_indexed : UpdateContext → Result UpdateContext
  ensure_indexed c = if p.indexed c.batch then ok c else do
    indexed ← p.apply (p.new_indexed_batch c.db) c.batch
    p.close c.batch
    ok (record c { batch = indexed })
