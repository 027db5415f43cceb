-- ===== src/Manager/Cleanup/Safety.antt =====
-- Whose data a clean-up removes.
use regatta.Prelude.{
  ℕ, ◌+◌, ◌≡◌, refl, ap, ◌∙◌, Bool, true, false, ◌||◌, List, [], ◌∷◌, ◌++◌, ltb, ◌==◌, Bool-cases,
  inl, inr, arith,
}
use regatta.Bytes.{Bytes}
use regatta.Result.{Result, ok, err, panic}
use regatta.Action.{Action, next, ◌>>◌}
use regatta.Kv.{Pair}
use regatta.Table.{Table}
use regatta.Manager.{Store, Text}
use regatta.Manager.Diff.{has_id}
use regatta.Manager.Reconcile.{
  NodeHost, Config, Manager, Cleanup, on_host, get_tables, cleanup_prefix,
}
use regatta.Manager.Cleanup.{
  Cleaner, find_by_id, find_in, is_missing, get_table_by_id, delete_record, remove_shard, clean_due,
  clean_record, clean_records, cleanup, cleanup_pattern,
}

-- A node host with a record of the shards whose data was removed: SyncRemoveData removes none but the
-- shard that it is asked for, and the file system none.
pub record CleanerLaws {S : Type 0} (c : Cleaner S) : Type 0 where
  pub removed : S → List ℕ
  pub removes :
      (i id : ℕ) (s : S)
      → has_id i (removed (c.sync_remove_data id s).0) ≡ true
      → (i == id || has_id i (removed s)) ≡ true
  pub keeps : (path : Bytes) (s : S) → removed (c.remove_all path s).0 ≡ removed s

-- Whether a table has the cluster.
abbrev pub has_cluster : ℕ → List Table → Bool
has_cluster i [] = false
has_cluster i (t ∷ ts) = t.cluster_id == i || has_cluster i ts

find_by_id-has_cluster :
    (i : ℕ) (ts : List Table) → has_cluster i ts ≡ true → is_missing (find_by_id i ts) ≡ ok false
unfolding find_by_id
find_by_id-has_cluster i [] h = absurd (ground (arith, h))
find_by_id-has_cluster i (t ∷ ts) h = elim (Bool-cases (t.cluster_id == i)) [
  | inl it ↦ rw it refl
  | inr other ↦ rw other (find_by_id-has_cluster i ts (ground (arith, h, other)))
]

-- A pair with a key of the clean-up records.
abbrev pub IsRecord : Pair → Type 0
IsRecord l = (rest : Bytes) × (l.key ≡ cleanup_prefix ++ rest)

abbrev pub AreRecords : List Pair → Type 0
AreRecords [] = Unit {0}
AreRecords (l ∷ ls) = IsRecord l × AreRecords ls

module _ (store : Store) (host : NodeHost) (text : Text) (config : Config store)
    (c : Cleaner host.State) (laws : CleanerLaws c) (now grace_period : ℕ) (i : ℕ)
    (Listed : store.State → Type 0)
    (listed : (s : store.State)
      → Listed s
      → (ts : List Table) × (get_tables store host text config s ≡ ok ts)
        × (has_cluster i ts ≡ true))
    (stays : (l : Pair) (s : store.State)
      → IsRecord l
      → Listed s
      → Listed (store.delete l.key l.ver s).0) where
  abbrev M : Type 0
  M = Manager store host

  -- The table stays listed, and the data of the shard was not removed in between.
  abbrev Kept : M → M → Type 0
  Kept m m' =
      Listed m'.pairs
      × (has_id i (laws.removed m'.shards) ≡ true → has_id i (laws.removed m.shards) ≡ true)

  -- Another step that keeps.
  abbrev Keeps : Action M (Unit {0}) → Type 0
  Keeps k = (m : M) → Listed m.pairs → Kept m (k m).0

  then_Kept :
      (k : Action M (Unit {0})) (m : M) (x : M × Result (Unit {0}))
      → Kept m x.0
      → Keeps k
      → Kept m (next (λ u. k) x).0
  then_Kept k m (m', ok u) (there, g) h = let (still, f) = h m' there in (still, λ e. g (f e))
  then_Kept k m (m', err x) g h = g
  then_Kept k m (m', panic) g h = g

  delete_record-Kept :
      (l : Pair) → IsRecord l → Keeps (delete_record store host text config c now grace_period l)
  delete_record-Kept l r m there = (stays l m.pairs r there, λ e. e)

  remove_shard-Kept :
      (l : Pair) (r : Cleanup)
      → IsRecord l
      → (i == r.cluster_id) ≡ false
      → Keeps (remove_shard store host text config c now grace_period l r)
  remove_shard-Kept l r is other m there =
      then_Kept
        (on_host store host text config (c.remove_all r.sm_data_path)
          >> delete_record store host text config c now grace_period l)
        m (on_host store host text config (c.sync_remove_data r.cluster_id) m)
        (there, λ e. ground (arith, other, laws.removes i r.cluster_id m.shards e))
        (λ m' there'.
          then_Kept (delete_record store host text config c now grace_period l) m'
            (on_host store host text config (c.remove_all r.sm_data_path) m')
            (there', λ e. rw (laws.keeps r.sm_data_path m'.shards) at e) (delete_record-Kept l is))

  clean_due-Kept :
      (l : Pair) (r : Cleanup) (missing : Result Bool) (rest : Action M (Unit {0})) (m : M)
      → IsRecord l
      → Listed m.pairs
      → is_missing (get_table_by_id store host text config m.pairs r.cluster_id) ≡ missing
      → Keeps rest
      → Kept m (clean_due store host text config c now grace_period l r missing rest m).0
  unfolding get_table_by_id
  clean_due-Kept l r (ok true) rest m is there q h = elim (Bool-cases (i == r.cluster_id)) [
    | inl it ↦ absurd (ground (arith, by_owner it, q))
    | inr other ↦
        then_Kept rest m (remove_shard store host text config c now grace_period l r m)
          (remove_shard-Kept l r is other m there) h
  ]
    where
      by_owner :
          (i == r.cluster_id) ≡ true
          → is_missing (get_table_by_id store host text config m.pairs r.cluster_id) ≡ ok false
      by_owner it =
          let same : i ≡ r.cluster_id = ground (arith, it) in
          let (ts, read, owned) = listed m.pairs there in
          ap (λ x. is_missing (find_in r.cluster_id x)) read
          ∙ (find_by_id-has_cluster r.cluster_id ts (rw same at owned))
  clean_due-Kept l r (ok false) rest m is there q h = delete_record-Kept l is m there
  clean_due-Kept l r (err x) rest m is there q h = (there, λ e. e)
  clean_due-Kept l r panic rest m is there q h = (there, λ e. e)

  clean_record-Kept :
      (l : Pair) (r : Cleanup) (due : Bool) (rest : Action M (Unit {0}))
      → IsRecord l
      → Keeps rest
      → Keeps (clean_record store host text config c now grace_period l r due rest)
  clean_record-Kept l r true rest is h m there = clean_due-Kept l r _ rest m is there refl h
  clean_record-Kept l r false rest is h m there = h m there

  clean_records-Kept :
      (ls : List Pair)
      → AreRecords ls
      → Keeps (clean_records store host text config c now grace_period ls)
  unfolding clean_records
  clean_records-Kept [] all m there = (there, λ e. e)
  clean_records-Kept (l ∷ ls) (is, all) m there =
      by_record (c.unmarshal_cleanup l.value) (clean_records-Kept ls all)
    where
      by_record :
          (x : Result Cleanup)
          → Keeps (clean_records store host text config c now grace_period ls)
          → Kept m
              (next
                (λ r.
                  clean_record store host text config c now grace_period l r
                    (ltb (r.created + grace_period) now)
                    (clean_records store host text config c now grace_period ls))
                (m, x)).0
      by_record (ok r) h = clean_record-Kept l r (ltb (r.created + grace_period) now) _ is h m there
      by_record (err x) h = (there, λ e. e)
      by_record panic h = (there, λ e. e)

  -- On a node host with CleanerLaws: let `Listed` be a condition on the store under which getTables
  -- lists a table with the cluster `i`, and which a deletion of a clean-up record, with what other
  -- nodes wrote before it, keeps. If it holds when a clean-up begins, and what is read for the pattern
  -- of the clean-up records has their keys, then a clean-up, whether it succeeds or not, does not remove
  -- the data of the shard `i`: if it was removed afterwards, it was removed before.
  pub cleanup-Kept :
      (m : Manager store host)
      → Listed m.pairs
      → ((ls : List Pair)
          → config.get_all m.pairs (cleanup_pattern store host text config c now grace_period)
            ≡ ok ls
          → AreRecords ls)
      → has_id i (laws.removed (cleanup store host text config c now grace_period m).0.shards)
        ≡ true
      → has_id i (laws.removed m.shards) ≡ true
  unfolding cleanup
  cleanup-Kept m there records =
      (by_listing
        (config.get_all m.pairs (cleanup_pattern store host text config c now grace_period))
        records).1
    where
      by_listing :
          (x : Result (List Pair))
          → ((ls : List Pair) → x ≡ ok ls → AreRecords ls)
          → Kept m (next (clean_records store host text config c now grace_period) (m, x)).0
      by_listing (ok ls) all = clean_records-Kept ls (all ls refl) m there
      by_listing (err x) all = (there, λ e. e)
      by_listing panic all = (there, λ e. e)
