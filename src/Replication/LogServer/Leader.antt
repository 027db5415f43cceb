-- ===== src/Replication/LogServer/Leader.antt =====
-- The leader of a log server: its log, and the log reader Simple over it.
use regatta.Prelude.{
  ℕ, zero, suc, ◌+◌, ◌≤◌, ◌<◌, ◌≡◌, refl, ap, ◌∙◌, Bool, true, false, List, [], ◌∷◌, ◌++◌, ltb,
  ◌==◌, arith,
}
use regatta.Result.{ok}
use regatta.LogReader.Cache.{Entry, LogRange}
use regatta.LogReader.Reader.{RaftLog, LogQuerier, read_log, query_simple}
use regatta.Table.{ActiveTable}
use regatta.Replication.Messages.{ReplicateResponse}
use regatta.Replication.Entries.{last_index}
use regatta.Replication.LogServer.{LogHost}

module _ (entry_at : ℕ → Entry) where
  -- The entries of the log from an index on.
  abbrev pub entries_from : ℕ → ℕ → List Entry
  entries_from first zero = []
  entries_from first (suc n) = entry_at first ∷ entries_from (first + 1) n

  pub entries_from-append :
      (first n k : ℕ)
      → entries_from first (n + k) ≡ entries_from first n ++ entries_from (first + n) k
  entries_from-append first zero k =
      let p : first ≡ first + 0 = omega arith in
      let q : 0 + k ≡ k = omega arith in λ i. entries_from (p i) (q i)
  entries_from-append first (suc n) k =
      let p : first + 1 + n ≡ first + suc n = omega arith in
      let q : suc n + k ≡ suc (n + k) = omega arith in
      ap (entries_from first) q
      ∙ ap (◌∷◌ (entry_at first)) (
          entries_from-append (first + 1) n k
          ∙ ap (λ x. entries_from (first + 1) n ++ entries_from x k) p)

  pub last_index-entries_from :
      ((i : ℕ) → (entry_at i).index ≡ i)
      → (first n : ℕ) → last_index (entry_at first) (entries_from (first + 1) n) ≡ first + n
  last_index-entries_from h first zero = h first ∙ omega arith
  last_index-entries_from h first (suc n) = last_index-entries_from h (first + 1) n ∙ omega arith

-- A leader with the log `entry_at` whose table applied it up to `applied` and goes no further. Its log
-- reader is Simple of storage/logreader, over the log of dragonboat, which holds the entries from
-- `log.first` to `log.last` and returns, of a range that it holds, entries from the front, at least one,
-- as many as it likes within the size asked for. Send keeps what it sent.
pub record LeaderLaws {S : Type 0} (host : LogHost S) (querier : LogQuerier) (log : RaftLog)
    (t : ActiveTable) (entry_at : ℕ → Entry) (applied max_message_size : ℕ) : Type 0 where
  pub sent : S → List ReplicateResponse
  pub sends :
      (r : ReplicateResponse) (s : S)
      → (s' : S) × (host.send r s ≡ (s', ok tt)) × (sent s' ≡ sent s ++ (r ∷ []))
  pub simple :
      (r : LogRange) (s : S)
      → host.query_raft_log t.table.cluster_id r max_message_size s
        ≡ (s, query_simple querier t.table.cluster_id r max_message_size)
  pub found : querier t.table.cluster_id ≡ ok log
  pub applied_le : applied ≤ log.last
  pub held :
      (first n : ℕ)
      → log.first ≤ first
      → 0 < n
      → first + n ≤ log.last + 1
      → (k : ℕ) × (log.entries first (first + n) max_message_size
          ≡ ok (entries_from entry_at first k))
        × (0 < k)
        × (k ≤ n)
  pub index : (linearizable : Bool) (s : S) → host.local_index t linearizable s ≡ (s, ok applied)
  pub open_ended : (s : S) → host.expired s ≡ false
  pub numbered : (i : ℕ) → (entry_at i).index ≡ i

module _ {S : Type 0} (host : LogHost S) (t : ActiveTable) (entry_at : ℕ → Entry)
    (applied max_message_size : ℕ) (querier : LogQuerier) (log : RaftLog)
    (laws : LeaderLaws host querier log t entry_at applied max_message_size) where
  -- A read of what is left of the log.
  pub reads :
      (first n : ℕ) (s : S)
      → log.first ≤ first
      → first + n ≡ applied + 1
      → (k : ℕ) × (host.query_raft_log t.table.cluster_id
            (record { first_index = first; last_index = first + n })
            max_message_size
            s
          ≡ (s, ok (entries_from entry_at first k)))
        × (k ≤ n)
        × (0 < n → 0 < k)
  unfolding query_simple read_log
  reads first zero s l e =
      let empty : (first == first + 0) ≡ true = ground arith in
      (
        0,
        laws.simple (record { first_index = first; last_index = first + 0 }) s
            ∙ ap (λ x. (s, x)) (rw empty refl),
        omega arith,
        λ h. omega (arith, h),
      )
  reads first (suc n) s l e =
      let some_left : (first == first + suc n) ≡ false = ground arith in
      let not_next : (log.last + 1 == first) ≡ false = ground (arith, laws.applied_le, e) in
      let not_behind : ltb log.last first ≡ false = ground (arith, laws.applied_le, e) in
      let not_ahead : ltb first log.first ≡ false = ground (arith, l) in
      let (k, got, positive, le) =
        laws.held first (suc n) l (omega arith) (omega (arith, e, laws.applied_le)) in
      (
        k,
        laws.simple (record { first_index = first; last_index = first + suc n }) s
            ∙ ap (λ x. (s, x)) (rw (some_left, laws.found, not_next, not_behind, not_ahead) got),
        le,
        λ h. positive,
      )
