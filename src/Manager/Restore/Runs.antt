-- ===== src/Manager/Restore/Runs.antt =====
-- The shards that run while a table is filled from a stream.
use regatta.Prelude.{
  ℕ, ◌≡◌, refl, ◌∙◌, Bool, true, false, Option, none, some, List, [], ◌∷◌, if◌then◌else◌,
}
use regatta.Bytes.{Bytes}
use regatta.Result.{Result, Error, ok, err, panic}
use regatta.Action.{Action, next, ◌>>◌}
use regatta.Fsm.Messages.{Command}
use regatta.Manager.Restore.{
  Stream, Restorer, Batch, empty_batch, batch_command, add_message, read_loop, read_into_table,
}

-- Neither a proposal to a shard nor the wait for its leader starts or stops a shard.
pub record RestorerLaws {S : Type 0} (r : Restorer S) (running : S → List ℕ) : Type 0 where
  pub waits : (id : ℕ) (s : S) → running (r.wait_for_leader id s).0 ≡ running s
  pub proposes : (id : ℕ) (c : Command) (s : S) → running (r.propose id c s).0 ≡ running s

module _ {S : Type 0} (r : Restorer S) (running : S → List ℕ) (laws : RestorerLaws r running)
    (id max_in_mem_log_size : ℕ) where
  next-running :
      {A B : Type 0} (k : A → Action S B) (x : S × Result A) (ids : List ℕ)
      → running x.0 ≡ ids
      → ((a : A) (s : S) → running (k a s).0 ≡ running s)
      → running (next k x).0 ≡ ids
  next-running k (s, ok a) ids e f = f a s ∙ e
  next-running k (s, err x) ids e f = e
  next-running k (s, panic) ids e f = e

  read_loop-running :
      (failure : Option Error) (msgs : List Bytes) (b : Batch) (s : S)
      → running (read_loop r id max_in_mem_log_size failure msgs b s).0 ≡ running s
  unfolding read_loop
  read_loop-running none [] b s = laws.proposes id _ s
  read_loop-running (some e) [] b s = refl
  read_loop-running failure (msg ∷ msgs) b s =
      next-running (λ cmd. after (add_message r id max_in_mem_log_size b msg cmd))
        (s, r.unmarshal msg) (running s) refl
        λ cmd u.
          by_batch (read_loop-running failure msgs) (add_message r id max_in_mem_log_size b msg cmd)
            u
    where
      after : Batch × Bool → Action S (Unit {0})
      after x =
          if x.1
          then r.propose id (batch_command x.0)
            >> read_loop r id max_in_mem_log_size failure msgs empty_batch
          else read_loop r id max_in_mem_log_size failure msgs x.0

      by_batch :
          ((b : Batch) (s : S)
            → running (read_loop r id max_in_mem_log_size failure msgs b s).0 ≡ running s)
          → (x : Batch × Bool) (u : S) → running (after x u).0 ≡ running u
      by_batch rest (b', true) u =
          next-running (λ v. read_loop r id max_in_mem_log_size failure msgs empty_batch)
            (r.propose id (batch_command b') u) (running u) (laws.proposes id (batch_command b') u)
            λ v t. rest empty_batch t
      by_batch rest (b', false) u = rest b' u

  pub read_into_table-running :
      (reader : Stream) (s : S)
      → running (read_into_table r id max_in_mem_log_size reader s).0 ≡ running s
  unfolding read_into_table
  read_into_table-running reader s = read_loop-running reader.failure reader.messages empty_batch s
