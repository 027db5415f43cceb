-- ===== src/LogReader/Tests.antt =====
-- The cache of raft entries at concrete indexes.
use regatta.Prelude.{false, length, ◌≤◌, ◌≡◌, ℕ, refl, some, [], ◌∷◌, leb, arith}
use regatta.LogReader.Cache.{
  Entry, LogRange, Cache, find_index, put, get, smallest_index, largest_index, make_room_and_append,
}
use regatta.LogReader.Cache.Find.{IsAscending, IsUpward}
use regatta.LogReader.Cache.Bounds.{length-put}
use regatta.LogReader.Cache.Get.{window, entries_of, get-window}
use regatta.Result.{err, ok, log_behind}
use regatta.LogReader.Reader.{LogQuerier, ShardCache, set_cache, fix_size, query_cached}
use regatta.LogReader.Reader.Size.{IsCut, fix_size-IsCut}
use regatta.LogReader.Reader.Lost.{query_cached-first_entry}

abbrev entry : ℕ → Entry
entry i = record { index = i; size_upper_limit = 16; encoded = false; cmd = [] }

-- The entries 5 to 7 in a cache of three.
abbrev warm : Cache
warm = record { buffer = entry 5 ∷ entry 6 ∷ entry 7 ∷ []; size = 3 }

abbrev span : ℕ → ℕ → LogRange
span lo hi = record { first_index = lo; last_index = hi }

ascending : IsAscending warm.buffer
ascending = ((ground arith, (ground arith, tt)), ((ground arith, tt), (tt, tt)))

from_six : IsUpward (λ i. leb 6 i)
from_six a b p q = ground arith

-- New entries push the oldest out.
put-full :
    put warm (entry 7 ∷ entry 8 ∷ []) ≡ record warm { buffer = entry 6 ∷ entry 7 ∷ entry 8 ∷ [] }
unfolding put find_index largest_index make_room_and_append
put-full = refl

length-put_example : length (put warm (entry 7 ∷ entry 8 ∷ [])).buffer ≤ 3
length-put_example = length-put warm (entry 7 ∷ entry 8 ∷ []) (omega arith)

get-window_example : entries_of (get warm (span 4 7)) ≡ some (window 4 7 warm.buffer)
get-window_example = get-window warm (span 4 7) ascending (omega arith)

fix_size-IsCut_example : IsCut warm.buffer (fix_size warm.buffer 40) 0 40
fix_size-IsCut_example = fix_size-IsCut warm.buffer 40

-- A log that fails, which the query does not see.
abbrev broken : LogQuerier
broken shard = err log_behind

abbrev warm_caches : ShardCache
warm_caches shard = some warm

query_cached-first_entry_example :
    query_cached broken warm_caches 1 (span 2 5) 100 ≡ ok (set_cache warm_caches 1 (some warm), [])
unfolding smallest_index
query_cached-first_entry_example =
    query_cached-first_entry broken warm_caches 1 warm (span 2 5) 100 refl (λ e. ground (arith, e))
      ascending (omega arith) refl
