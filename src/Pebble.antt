-- ===== src/Pebble.antt =====
-- github.com/cockroachdb/pebble, which is no part of the repository: its operations are the fields of
-- a record that the model takes as a parameter, and what its documentation says of them is a record
-- of laws. pebble/pebble.go configures it with the bytewise order and a `split` that takes the whole
-- key as the prefix.
pub mod OrderedMap
pub mod Seek
pub mod Model
use regatta.Prelude.{
  ℕ, ◌≡◌, Bool, true, false, Option, none, some, List, [], ◌∷◌, length, take, if◌then◌else◌,
}
use regatta.Bytes.{Bytes, equal, less}
use regatta.Result.{Result, ok, err, not_found}
use OrderedMap.{Entry, Entries, IsSorted}
use OrderedMap

-- pebble.Reader: Get, and the entries that NewIter with these bounds yields from First on.
pub record Reader : Type 0 where
  pub get : Bytes → Result Bytes
  pub iter : Option Bytes → Option Bytes → Entries

pub record Pebble : Type 1 where
  pub Db : Type 0
  pub Batch : Type 0
  pub db_reader : Db → Reader
  pub batch_reader : Batch → Reader
  pub new_batch : Db → Batch
  pub new_indexed_batch : Db → Batch
  pub indexed : Batch → Bool
  -- the batch that is added to comes first
  pub apply : Batch → Batch → Result Batch
  pub close : Batch → Result (Unit {0})
  pub set : Batch → Bytes → Bytes → Result Batch
  pub delete : Batch → Bytes → Result Batch
  pub delete_range : Batch → Bytes → Bytes → Result Batch
  pub commit : Batch → Result Db

-- What Get returns for an entry that is there, or is not.
abbrev pub get_result : Option Bytes → Result Bytes
get_result none = err not_found
get_result (some v) = ok v

-- A reader shows these entries: Get finds a key, and an iterator runs through the entries between
-- its bounds, the upper one left out, in the order of the keys.
pub record Shows (r : Reader) (m : Entries) : Type 0 where
  pub sorted : IsSorted m
  pub get_lem : (k : Bytes) → r.get k ≡ get_result (OrderedMap.lookup k m)
  pub iter_all : r.iter none none ≡ m
  pub iter_range : (lo hi : Bytes) → r.iter (some lo) (some hi) ≡ OrderedMap.range lo hi m

-- The documented behaviour. `contents` is what a database holds, `view` what it would hold after the
-- batch is committed, `base` the database that a batch was made for. A batch that is not indexed
-- cannot be read. Batches are in memory, and the changes to them do not fail.
pub record PebbleLaws (p : Pebble) : Type 0 where
  pub contents : p.Db → Entries
  pub view : p.Batch → Entries
  pub base : p.Batch → p.Db
  pub db_shows : (d : p.Db) → Shows (p.db_reader d) (contents d)
  pub batch_shows : (b : p.Batch) → p.indexed b ≡ true → Shows (p.batch_reader b) (view b)
  pub view_sorted : (b : p.Batch) → IsSorted (view b)
  pub new_batch_lem : (d : p.Db) → (view (p.new_batch d) ≡ contents d) × (base (p.new_batch d) ≡ d)
  pub new_indexed_batch_lem :
      (d : p.Db)
      → (view (p.new_indexed_batch d) ≡ contents d)
        × (base (p.new_indexed_batch d) ≡ d)
        × (p.indexed (p.new_indexed_batch d) ≡ true)
  pub apply_lem :
      (b : p.Batch)
      → (b' : p.Batch) × (p.apply (p.new_indexed_batch (base b)) b ≡ ok b')
        × (view b' ≡ view b)
        × (base b' ≡ base b)
        × (p.indexed b' ≡ true)
  pub close_lem : (b : p.Batch) → p.close b ≡ ok tt
  pub set_lem :
      (b : p.Batch) (k v : Bytes)
      → (b' : p.Batch) × (p.set b k v ≡ ok b')
        × (view b' ≡ OrderedMap.insert k v (view b))
        × (base b' ≡ base b)
        × (p.indexed b' ≡ p.indexed b)
  pub delete_lem :
      (b : p.Batch) (k : Bytes)
      → (b' : p.Batch) × (p.delete b k ≡ ok b')
        × (view b' ≡ OrderedMap.remove k (view b))
        × (base b' ≡ base b)
        × (p.indexed b' ≡ p.indexed b)
  pub delete_range_lem :
      (b : p.Batch) (lo hi : Bytes)
      → (b' : p.Batch) × (p.delete_range b lo hi ≡ ok b')
        × (view b' ≡ OrderedMap.remove_range lo hi (view b))
        × (base b' ≡ base b)
        × (p.indexed b' ≡ p.indexed b)
  pub commit_lem : (b : p.Batch) → (d : p.Db) × (p.commit b ≡ ok d) × (contents d ≡ view b)

-- pebble/pebble.go: split
unfoldable pub split : Bytes → ℕ
split b = length b

-- Iterator.SeekPrefixGE on the entries of an iterator: the first entry whose key is not below `k`,
-- if its prefix is the prefix of `k`. The result is the value at the iterator.
unfoldable pub seek_prefix_ge : Bytes → Entries → Option Bytes
unfolding split
seek_prefix_ge k [] = none
seek_prefix_ge k ((j, v) ∷ m) =
    let rest = seek_prefix_ge k m in
    if less j k then rest else if equal (take (split j) j) (take (split k) k) then some v else none
