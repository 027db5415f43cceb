-- ===== src/LogReader/Reader/Lost.antt =====
-- A query that ends at the first entry of the cache.
use regatta.Prelude.{ℕ, ◌≡◌, ◌≢◌, ◌<◌, refl, some, [], ◌==◌, false, arith}
use regatta.Result.{ok}
use regatta.LogReader.Cache.{LogRange, Cache, smallest_index}
use regatta.LogReader.Cache.Find.{IsAscending}
use regatta.LogReader.Cache.Get.{get-first_entry}
use regatta.LogReader.Reader.{LogQuerier, ShardCache, set_cache, query_cached, fix_size}

-- For a shard with a cache that is not empty and whose entries ascend: Cached.QueryRaftLog of a range
-- that starts earlier and ends at the index of the first entry of the cache returns no entries and no error, whatever the log holds: it does not read the log.
pub query_cached-first_entry :
    (q : LogQuerier) (caches : ShardCache) (shard : ℕ) (c : Cache) (r : LogRange) (max_size : ℕ)
    → caches shard ≡ some c
    → c.buffer ≢ []
    → IsAscending c.buffer
    → r.first_index < r.last_index
    → r.last_index ≡ smallest_index c
    → query_cached q caches shard r max_size ≡ ok (set_cache caches shard (some c), [])
unfolding query_cached fix_size
query_cached-first_entry q caches shard c r max_size e ne a l s =
    rw (differs, e, get-first_entry c r ne a l s) refl
  where
    differs : (r.first_index == r.last_index) ≡ false
    differs = ground (arith, l)
