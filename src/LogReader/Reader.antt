-- ===== src/LogReader/Reader.antt =====
-- storage/logreader/logreader.go: reads of the raft log, plain and through the caches of the shards.
-- The log of dragonboat is a parameter. Slices are values: where the code appends to a slice of the
-- cache's buffer, the elements behind it are the ones that put has written.
pub mod Size
pub mod Lost
use regatta.Prelude.{
  ℕ, zero, suc, ◌+◌, ◌-◌, ◌%◌, ◌^◌, Bool, not, ◌&&◌, Option, none, some, List, [], ◌∷◌, ◌++◌,
  length, ltb, leb, ◌==◌, if◌then◌else◌,
}
use regatta.Result.{Result, ok, err, panic, log_behind, log_ahead, shard_not_ready, ◌>>=◌}
use regatta.LogReader.Cache.{
  Entry, LogRange, Cache, Got, new_cache, index_at, largest_index, put, get,
}

-- dragonboat.ReadonlyLogReader: GetRange and Entries
pub record RaftLog : Type 0 where
  pub first : ℕ
  pub last : ℕ
  pub entries : ℕ → ℕ → ℕ → Result (List Entry)

-- logQuerier: GetLogReader
abbrev pub LogQuerier : Type 0
LogQuerier = ℕ → Result RaftLog

-- shardCache, a map from shards
abbrev pub ShardCache : Type 0
ShardCache = ℕ → Option Cache

-- fixSize, with the size of the entries so far
unfoldable pub fix_size_loop : List Entry → ℕ → ℕ → List Entry
fix_size_loop [] size max_size = []
fix_size_loop (e ∷ es) size max_size =
    let rest = fix_size_loop es (size + e.size_upper_limit) max_size in
    if leb max_size (size + e.size_upper_limit) then [] else e ∷ rest

unfoldable pub fix_size : List Entry → ℕ → List Entry
unfolding fix_size_loop
fix_size entries max_size = fix_size_loop entries 0 max_size

-- i - 1 on uint64
abbrev pub before : ℕ → ℕ
before i = (i + (2 ^ 64 - 1)) % 2 ^ 64

abbrev pub set_cache : ShardCache → ℕ → Option Cache → ShardCache
set_cache caches id c j = if j == id then c else caches j

module _ (q : LogQuerier) where
  -- readLog
  unfoldable pub read_log : ℕ → LogRange → ℕ → Result (List Entry)
  read_log shard r max_size = q shard >>= λ log.
      if log.last + 1 == r.first_index
      then ok []
      else if ltb log.last r.first_index
      then err log_behind
      else if ltb r.first_index log.first
      then err log_ahead
      else log.entries r.first_index r.last_index max_size

  -- Simple.QueryRaftLog
  unfoldable pub query_simple : ℕ → LogRange → ℕ → Result (List Entry)
  unfolding read_log
  query_simple shard r max_size =
      if r.first_index == r.last_index then ok [] else read_log shard r max_size

  -- What follows the read of the entries `le` in front of the cached ones.
  abbrev pub with_prepended : Cache → List Entry → List Entry → ℕ → Cache × List Entry
  with_prepended c cached [] max_size = (c, fix_size cached max_size)
  with_prepended c cached (l ∷ ls) max_size =
      if not (length cached == 0)
        && (index_at (l ∷ ls) (length (l ∷ ls) - 1) == before (index_at cached 0))
      then (c, fix_size ((l ∷ ls) ++ cached) max_size)
      else if length c.buffer == 0
      then (put c (l ∷ ls), l ∷ ls)
      else (c, l ∷ ls)

  -- What follows the read of the entries `le` behind the cached ones.
  abbrev pub with_appended : Cache → List Entry → List Entry → ℕ → Cache × List Entry
  with_appended c cached [] max_size = (c, fix_size cached max_size)
  with_appended c cached (l ∷ ls) max_size =
      if not (length cached == 0)
      then (put c (l ∷ ls), fix_size (cached ++ (l ∷ ls)) max_size)
      else if before l.index == largest_index c
      then (put c (l ∷ ls), l ∷ ls)
      else (c, l ∷ ls)

  abbrev pub is_set : LogRange → Bool
  is_set r = not (r.first_index == 0) && not (r.last_index == 0)

  -- QueryRaftLog on the cache of a shard, with the new cache
  abbrev pub query_got : ℕ → Cache → Option Got → ℕ → Result (Cache × List Entry)
  query_got shard c none max_size = panic
  query_got shard c (some got) max_size =
      if is_set got.prepend
      then (read_log shard got.prepend max_size >>= λ le.
          ok (with_prepended c got.entries le max_size))
      else if is_set got.append
      then (read_log shard got.append max_size >>= λ le.
          ok (with_appended c got.entries le max_size))
      else ok (c, fix_size got.entries max_size)

  -- Cached.QueryRaftLog, with the new caches; an error leaves them as they are
  unfoldable pub query_cached : ShardCache → ℕ → LogRange → ℕ → Result (ShardCache × List Entry)
  unfolding read_log fix_size put get largest_index
  query_cached caches shard r max_size =
      if r.first_index == r.last_index then ok (caches, []) else elim (caches shard) [
        | none ↦ err shard_not_ready
        | some c ↦ do
          (c', entries) ← query_got shard c (get c r) max_size
          ok (set_cache caches shard (some c'), entries)
      ]

-- NodeDeleted, NodeReady and LogCompacted of Cached
unfoldable pub node_deleted : ShardCache → ℕ → ShardCache
node_deleted caches shard = set_cache caches shard none

unfoldable pub node_ready : ShardCache → ℕ → ℕ → ShardCache
node_ready caches size shard = elim (caches shard) [
  | none ↦ set_cache caches shard (some (new_cache size))
  | some c ↦ caches
]

unfoldable pub log_compacted : ShardCache → ℕ → ℕ → ShardCache
log_compacted caches size shard = set_cache caches shard (some (new_cache size))
