-- ===== src/Pebble/Model.antt =====
-- A database and a batch that are nothing but their entries, which have every law of PebbleLaws.
use regatta.Prelude.{refl, Bool, true, false, Option, some, []}
use regatta.Bytes.{Bytes}
use regatta.Result.{ok}
use regatta.Pebble.OrderedMap.{Entries, IsSorted, lookup, range, insert, remove, remove_range}
use regatta.Pebble.OrderedMap.Laws.{IsSorted-keep, IsSorted-insert}
use regatta.Pebble.{Reader, Pebble, PebbleLaws, Shows, get_result}

-- Entries in order.
pub record Store : Type 0 where
  pub entries : Entries
  pub sorted : IsSorted entries

pub record StoreBatch : Type 0 where
  pub store : Store
  pub base : Store
  pub is_indexed : Bool

abbrev pub empty_store : Store
empty_store = record { entries = []; sorted = tt }

abbrev store_insert : Bytes → Bytes → Store → Store
store_insert k v s = record {
  entries = insert k v s.entries;
  sorted = IsSorted-insert k v s.entries s.sorted;
}

pub remove-IsSorted : (k : Bytes) (s : Store) → IsSorted (remove k s.entries)
unfolding remove
remove-IsSorted k s = IsSorted-keep _ s.entries s.sorted

pub remove_range-IsSorted : (lo hi : Bytes) (s : Store) → IsSorted (remove_range lo hi s.entries)
unfolding remove_range
remove_range-IsSorted lo hi s = IsSorted-keep _ s.entries s.sorted

abbrev store_remove : Bytes → Store → Store
store_remove k s = record { entries = remove k s.entries; sorted = remove-IsSorted k s }

abbrev store_remove_range : Bytes → Bytes → Store → Store
store_remove_range lo hi s = record {
  entries = remove_range lo hi s.entries;
  sorted = remove_range-IsSorted lo hi s;
}

abbrev store_iter : Entries → Option Bytes → Option Bytes → Entries
store_iter m (some lo) (some hi) = range lo hi m
store_iter m _ _ = m

abbrev pub store_reader : Store → Reader
store_reader s = record { get = λ k. get_result (lookup k s.entries); iter = store_iter s.entries }

abbrev pub memory : Pebble
memory = record {
  Db = Store;
  Batch = StoreBatch;
  db_reader = store_reader;
  batch_reader = λ b. store_reader b.store;
  new_batch = λ d. record { store = d; base = d; is_indexed = false };
  new_indexed_batch = λ d. record { store = d; base = d; is_indexed = true };
  indexed = λ b. b.is_indexed;
  apply = λ b c. ok (record b { store = c.store });
  close = λ b. ok tt;
  set = λ b k v. ok (record b { store = store_insert k v b.store });
  delete = λ b k. ok (record b { store = store_remove k b.store });
  delete_range = λ b lo hi. ok (record b { store = store_remove_range lo hi b.store });
  commit = λ b. ok b.store;
}

abbrev store_shows : (s : Store) → Shows (store_reader s) s.entries
store_shows s = record {
  sorted = s.sorted;
  get_lem = λ k. refl;
  iter_all = refl;
  iter_range = λ lo hi. refl;
}

abbrev pub memory_laws : PebbleLaws memory
memory_laws = record {
  contents = λ d. d.entries;
  view = λ b. b.store.entries;
  base = λ b. b.base;
  db_shows = store_shows;
  batch_shows = λ b h. store_shows b.store;
  view_sorted = λ b. b.store.sorted;
  new_batch_lem = λ d. (refl, refl);
  new_indexed_batch_lem = λ d. (refl, refl, refl);
  apply_lem = λ b. (_, refl, refl, refl, refl);
  close_lem = λ b. refl;
  set_lem = λ b k v. (_, refl, refl, refl, refl);
  delete_lem = λ b k. (_, refl, refl, refl, refl);
  delete_range_lem = λ b lo hi. (_, refl, refl, refl, refl);
  commit_lem = λ b. (_, refl, refl);
}
