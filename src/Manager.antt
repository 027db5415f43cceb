-- ===== src/Manager.antt =====
-- Leases, identifiers and metadata of the tables: storage/table/manager.go. The key-value store is an
-- interface; its pairs are text that encoding/json and strconv write and read, which are parameters.
pub mod Shared
pub mod Leases
pub mod Sequence
pub mod Creation
pub mod Diff
pub mod Reconcile
pub mod Cleanup
pub mod Restore
mod Tests
use regatta.Prelude.{
  ℕ, ◌+◌, ◌%◌, ◌^◌, Bool, ◌||◌, Option, none, some, List, [], ◌∷◌, ◌++◌, ltb, ◌==◌, if◌then◌else◌,
}
use regatta.Bytes.{Bytes}
use regatta.Result.{
  Result, Error, ok, err, panic, not_exist, version_mismatch, table_exists, table_not_found,
  lease_not_acquired,
}
use regatta.Action.{Action, ◌>>=◌, ◌>>◌, lift, try}
use regatta.Kv.{Pair}
use regatta.Table.{Table}

-- store: what the manager needs of kv.RaftStore; the listing of tables is in Manager/Reconcile
pub record Store : Type 1 where
  pub State : Type 0
  pub exists : Bytes → Action State Bool
  pub set : Bytes → Bytes → ℕ → Action State Pair
  pub delete : Bytes → ℕ → Action State (Unit {0})
  pub get : Bytes → Action State Pair

-- keyPrefix: "/tables/"
abbrev pub key_prefix : Bytes
key_prefix = 47 ∷ 116 ∷ 97 ∷ 98 ∷ 108 ∷ 101 ∷ 115 ∷ 47 ∷ []

-- sequenceKey: "/tables/sys/idseq"
abbrev pub sequence_key : Bytes
sequence_key = key_prefix ++ (115 ∷ 121 ∷ 115 ∷ 47 ∷ 105 ∷ 100 ∷ 115 ∷ 101 ∷ 113 ∷ [])

abbrev pub table_ids_range_start : ℕ
table_ids_range_start = 10000

-- Lease, with its time in nanoseconds
pub record Lease : Type 0 where
  pub id : ℕ
  pub until : ℕ

-- encoding/json of leases and tables, strconv.FormatUint and strconv.ParseUint
pub record Text : Type 0 where
  pub marshal_lease : Lease → Result Bytes
  pub unmarshal_lease : Bytes → Result Lease
  pub marshal_table : Table → Result Bytes
  pub unmarshal_table : Bytes → Result Table
  pub format_uint : ℕ → Bytes
  pub parse_uint : Bytes → Result ℕ

-- storedTableName
abbrev pub stored_table_name : Bytes → Bytes
stored_table_name name = key_prefix ++ name

-- The key of a lease: storedTableName(name) + "/lease"
abbrev pub lease_key : Bytes → Bytes
lease_key name = stored_table_name name ++ (47 ∷ 108 ∷ 101 ∷ 97 ∷ 115 ∷ 101 ∷ [])

-- A pair that may be missing; other errors stay.
abbrev pub or_missing : Result Pair → Result (Option Pair)
or_missing (ok p) = ok (some p)
or_missing (err not_exist) = ok none
or_missing (err e) = err e
or_missing panic = panic

-- The version of a pair, 0 for the zero Pair.
abbrev pub version_of : Option Pair → ℕ
version_of none = 0
version_of (some p) = p.ver

-- errors.Is(err, kv.ErrVersionMismatch)
abbrev pub is_version_mismatch : Error → Bool
is_version_mismatch version_mismatch = Bool.true
is_version_mismatch _ = Bool.false

module _ (store : Store) (text : Text) where
  open store use {State}

  abbrev pub get_or_missing : Bytes → Action State (Option Pair)
  get_or_missing key = try (store.get key) >>= λ r. lift (or_missing r)

  -- Whether a node may take a lease: it is free, its own, or in the past.
  abbrev pub may_lease : ℕ → ℕ → Option Pair → Result Bool
  may_lease node_id now none = ok Bool.true
  may_lease node_id now (some p) = elim (text.unmarshal_lease p.value) [
    | ok l ↦ ok (l.id == node_id || ltb l.until now)
    | err e ↦ err e
    | panic ↦ panic
  ]

  -- The write of a lease.
  abbrev pub write_lease : Bytes → Lease → ℕ → Action State (Unit {0})
  write_lease key l ver = do
    bts ← lift (text.marshal_lease l)
    p ← store.set key bts ver
    lift (ok tt)

  -- The rest of LeaseTable, after the read of the lease.
  abbrev pub take_lease : ℕ → ℕ → Bytes → ℕ → Option Pair → Action State (Unit {0})
  take_lease node_id now key lease got = do
    free ← lift (may_lease node_id now got)
    if free
        then write_lease key (record { id = node_id; until = now + lease }) (version_of got)
        else lift (err lease_not_acquired)

  -- Manager.LeaseTable at a time, for a duration
  unfoldable pub lease_table : ℕ → ℕ → Bytes → ℕ → Action State (Unit {0})
  lease_table node_id now name lease = do
    got ← get_or_missing (lease_key name)
    take_lease node_id now (lease_key name) lease got

  -- The deletion of a lease, if the node holds it.
  abbrev pub return_lease : ℕ → Bytes → Option Pair → Action State Bool
  return_lease node_id key none = lift (ok Bool.false)
  return_lease node_id key (some p) = do
    l ← lift (text.unmarshal_lease p.value)
    if l.id == node_id
        then store.delete key p.ver >>= (λ u. lift (ok Bool.true))
        else lift (ok Bool.false)

  -- Manager.ReturnTable
  unfoldable pub return_table : ℕ → Bytes → Action State Bool
  return_table node_id name = do
    got ← get_or_missing (lease_key name)
    return_lease node_id (lease_key name) got

  -- The sequence number that is stored, or the start of the range.
  abbrev pub current_sequence : Option Pair → Result ℕ
  current_sequence none = text.parse_uint (text.format_uint table_ids_range_start)
  current_sequence (some p) = text.parse_uint p.value

  -- The write of the next number.
  abbrev pub write_next : ℕ → ℕ → Action State ℕ
  write_next ver curr = do
    p ← store.set sequence_key (text.format_uint ((curr + 1) % 2 ^ 64)) ver
    lift (ok ((curr + 1) % 2 ^ 64))

  -- Manager.incAndGetIDSeq
  unfoldable pub inc_and_get_id_seq : Action State ℕ
  inc_and_get_id_seq = do
    seq ← get_or_missing sequence_key
    curr ← lift (current_sequence seq)
    write_next (version_of seq) curr

  -- Manager.getTableVersion
  unfoldable pub get_table_version : Bytes → Action State (Table × ℕ)
  get_table_version name = do
    got ← get_or_missing (stored_table_name name)
    elim got [
      | none ↦ lift (err table_not_found)
      | some v ↦ lift (text.unmarshal_table v.value) >>= (λ t. lift (ok (t, v.ver)))
    ]

  -- Manager.setTableVersion
  unfoldable pub set_table_version : Table → ℕ → Action State (Unit {0})
  set_table_version tbl version = do
    bts ← lift (text.marshal_table tbl)
    p ← store.set (stored_table_name tbl.name) bts version
    lift (ok tt)

  -- ErrVersionMismatch as ErrTableExists.
  abbrev pub mismatch_exists : Result (Unit {0}) → Result (Unit {0})
  mismatch_exists (err e) = if is_version_mismatch e then err table_exists else err e
  mismatch_exists r = r

  -- The write of a new table with its identifier.
  abbrev pub register_table : Bytes → ℕ → Action State Table
  register_table name seq = do
    done ← try (set_table_version (record { name = name; cluster_id = seq; recover_id = 0 }) 0)
    u ← lift (mismatch_exists done)
    lift (ok (record { name = name; cluster_id = seq; recover_id = 0 }))

  -- Manager.createTable
  unfoldable pub create_table : Bytes → Action State Table
  unfolding inc_and_get_id_seq set_table_version
  create_table name = do
    there ← store.exists (stored_table_name name)
    if there then lift (err table_exists) else (inc_and_get_id_seq >>= register_table name)

  -- Manager.DeleteTable
  unfoldable pub delete_table : Bytes → Action State (Unit {0})
  delete_table name = do
    tab ← store.get (stored_table_name name)
    store.delete (stored_table_name name) tab.ver
