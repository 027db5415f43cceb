-- ===== src/LogReader/Cache.antt =====
-- storage/logreader/cache.go: the cache of the newest raft entries of a shard.
-- Indexes are uint64 and stay below 2 ^ 64 - 1, so that `+ 1` does not wrap. The cache looks at the
-- index of an entry and at the size that raftpb reports.
pub mod Find
pub mod Get
pub mod Bounds
use regatta.Prelude.{
  ℕ, zero, suc, ◌+◌, ◌-◌, ◌/◌, Bool, true, false, not, ◌&&◌, Option, none, some, List, [], ◌∷◌,
  ◌++◌, length, take, drop, get_elem?, get_or, ltb, leb, ◌==◌, if◌then◌else◌,
}
use regatta.Bytes.{Bytes}

-- raftpb.Entry: its index, SizeUpperLimit, whether its type is EncodedEntry, and its Cmd
pub record Entry : Type 0 where
  pub index : ℕ
  pub size_upper_limit : ℕ
  pub encoded : Bool
  pub cmd : Bytes

-- dragonboat.LogRange, right half-open
pub record LogRange : Type 0 where
  pub first_index : ℕ
  pub last_index : ℕ

pub record Cache : Type 0 where
  pub buffer : List Entry
  pub size : ℕ

-- newCache
unfoldable pub new_cache : ℕ → Cache
new_cache size = record { buffer = []; size = size }

-- entries[i].Index
abbrev pub index_at : List Entry → ℕ → ℕ
index_at [] i = 0
index_at (e ∷ es) zero = e.index
index_at (e ∷ es) (suc i) = index_at es i

-- The loop of sort.Search, with fuel: f holds from `j` on and not below `i`.
unfoldable pub search_loop : ℕ → (ℕ → Bool) → ℕ → ℕ → ℕ
search_loop zero f i j = i
search_loop (suc fuel) f i j =
    let h = (i + j) / 2 in
    let right = search_loop fuel f (h + 1) j in
    let left = search_loop fuel f i h in if ltb i j then (if f h then left else right) else i

-- sort.Search
unfoldable pub search : ℕ → (ℕ → Bool) → ℕ
unfolding search_loop
search n f = search_loop (n + 1) f 0 n

-- findIndex; it is called on entries that are not empty
unfoldable pub find_index : List Entry → (ℕ → Bool) → ℕ
unfolding search
find_index entries f =
    if f (index_at entries 0)
    then 0
    else if not (f (index_at entries (length entries - 1)))
    then length entries
    else search (length entries) (λ i. f (index_at entries i))

-- smallestIndex, largestIndex
unfoldable pub smallest_index : Cache → ℕ
smallest_index c = if length c.buffer == 0 then 0 else index_at c.buffer 0

unfoldable pub largest_index : Cache → ℕ
largest_index c = if length c.buffer == 0 then 0 else index_at c.buffer (length c.buffer - 1)

-- makeRoomAndAppend
unfoldable pub make_room_and_append : Cache → List Entry → Cache
make_room_and_append c entries =
    let kept =
      if ltb c.size (length entries + length c.buffer)
      then drop (length entries + length c.buffer - c.size) c.buffer
      else c.buffer in
    record c { buffer = kept ++ entries }

-- put, after the entries that cannot fit are cut off
abbrev pub put_fitting : Cache → List Entry → Cache
put_fitting c entries =
    let max_index = largest_index c in
    let i = find_index entries (λ index. ltb max_index index) in
    if max_index == 0
    then make_room_and_append c entries
    else if i == length entries
    then c
    else make_room_and_append c (drop i entries)

-- put
unfoldable pub put : Cache → List Entry → Cache
unfolding find_index largest_index make_room_and_append
put c entries =
    if length entries == 0
    then c
    else if ltb c.size (length entries)
    then put_fitting c (drop (length entries - c.size) entries)
    else put_fitting c entries

abbrev pub no_range : LogRange
no_range = record { first_index = 0; last_index = 0 }

-- The entries in the cache, the range to read in front of them and the range to read behind them.
pub record Got : Type 0 where
  pub entries : List Entry
  pub prepend : LogRange
  pub append : LogRange

-- get, where the cache and the range may overlap; none is the panic of a slice whose end lies in
-- front of its start.
abbrev pub get_overlap : Cache → LogRange → Option Got
get_overlap c r =
    let start = find_index c.buffer (λ index. leb r.first_index index) in
    let end = find_index c.buffer (λ index. leb r.last_index index) in
    let entries = drop start (take end c.buffer) in
    if ltb end start
    then none
    else some (record {
      entries = entries;
      prepend =
          if not (length entries == 0) && ltb r.first_index (smallest_index c)
          then record { first_index = r.first_index; last_index = smallest_index c }
          else no_range;
      append =
          if not (length entries == 0) && ltb (largest_index c + 1) r.last_index
          then record { first_index = largest_index c + 1; last_index = r.last_index }
          else no_range;
    })

-- get
unfoldable pub get : Cache → LogRange → Option Got
get c r =
    if length c.buffer == 0
    then some (record { entries = []; prepend = r; append = no_range })
    else if ltb r.last_index (smallest_index c)
    then some (record { entries = []; prepend = r; append = no_range })
    else if ltb (largest_index c) r.first_index
    then some (record { entries = []; prepend = no_range; append = r })
    else get_overlap c r
