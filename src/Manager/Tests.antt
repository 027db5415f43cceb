-- ===== src/Manager/Tests.antt =====
-- The manager on small stores and hosts.
mod Cleanup
mod Restore
use regatta.Prelude.{
  ℕ, ◌+◌, ◌%◌, ◌^◌, ◌<◌, ◌≡◌, refl, sym, ap, ◌∙◌, ◌/◌, false, not, ◌&&◌, none, some, List, [], ◌∷◌,
  map, length, ◌==◌, if◌then◌else◌, Bool-cases, inl, inr, arith,
}
use regatta.Bytes.{Bytes, equal, compare_bytes}
use regatta.Result.{Result, ok, err, external}
use regatta.Pebble.OrderedMap
use regatta.Pebble.OrderedMap.{Entries, IsSorted}
use regatta.Pebble.Model.{Store, store_reader, memory_laws}
use regatta.Fsm.Keys.{sys_local_index}
use regatta.Fsm.Keys.Order.{user_key}
use regatta.Fsm.Messages.{KeyValue, Command}
use regatta.Fsm.Update.{read_local_index}
use regatta.Fsm.Query.Page.{IsDecodable}
use regatta.Key.{decode_bytes}
use regatta.Fsm.Lookup.{command_snapshot}
use regatta.Kv
use regatta.Kv.{Json, Update, op_set, new_map_store}
use regatta.Table.{Table}
use regatta.Manager.{
  Text, lease_key, sequence_key, lease_table, inc_and_get_id_seq, set_table_version, create_table,
  current_sequence,
}
use regatta.Manager.Shared.{Shared, run_others, catch_up, shared_store}
use regatta.Manager.Shared.Swap.{IsStamped}
use regatta.Manager.Leases.{IsDue, lease_table-IsDue}
use regatta.Manager.Sequence.{inc_and_get_id_seq-next}
use regatta.Manager.Creation.{new_table, Created, create_table-Created}
use regatta.Manager.Diff.{diff_tables, has_id, owns}
use regatta.Manager.Reconcile.{
  NodeHost, Config, Manager, get_tables, start_tables, stop_tables, reconcile, observe,
}
use regatta.Manager.Reconcile.Converges.{HostLaws, reconcile-runs}
use regatta.Manager.Restore.{PutMessage, batch_command, empty_batch, read_into_table}
use regatta.Manager.Restore.Pairs.{
  recording, pairs_in, total_length, ReadsBack, read_into_table-lost,
}

abbrev pub json : Json
json = record { unmarshal = λ b. err external; marshal = λ p. [] }

-- A number is written as the one byte that it is.
abbrev pub parse_one : Bytes → Result ℕ
parse_one (n ∷ []) = ok n
parse_one b = err external

abbrev pub text : Text
text = record {
  marshal_lease = λ l. ok (l.id ∷ l.until ∷ []);
  unmarshal_lease = λ b. ok (record { id = 1; until = 50 });
  marshal_table = λ t. ok (t.cluster_id ∷ []);
  unmarshal_table = λ b. ok (record { name = 116 ∷ []; cluster_id = 10001; recover_id = 0 });
  format_uint = λ n. n ∷ [];
  parse_uint = parse_one;
}

abbrev other_update : Update
other_update = record { op = op_set; kv_pair = record { key = 120 ∷ []; value = 1 ∷ []; ver = 0 } }

-- An empty store, on which another node writes a key between the first two requests.
abbrev pub fresh : Shared
fresh = record { pairs = new_map_store; index = 0; others = [] ∷ (other_update ∷ []) ∷ [] }

fresh-IsStamped : IsStamped fresh
fresh-IsStamped k p e = ground (arith, e)

abbrev leased : Shared
leased = (lease_table (shared_store json) text 1 100 (116 ∷ []) 30 fresh).0

lease_table-leased :
    lease_table (shared_store json) text 1 100 (116 ∷ []) 30 fresh ≡ (leased, ok tt)
unfolding lease_table Kv.get run_others Kv.set compare_bytes
lease_table-leased = refl

lease_table-IsDue_example :
    IsDue text 1 100 ((catch_up json (catch_up json fresh)).pairs (lease_key (116 ∷ [])))
    × ((b : Bytes) × (text.marshal_lease (record { id = 1; until = 130 }) ≡ ok b)
        × (leased.pairs (lease_key (116 ∷ []))
            ≡ some (record { key = lease_key (116 ∷ []); value = b; ver = leased.index })))
lease_table-IsDue_example =
    lease_table-IsDue json text fresh leased 1 100 (116 ∷ []) 30 fresh-IsStamped lease_table-leased

abbrev counted : Shared
counted = (inc_and_get_id_seq (shared_store json) text fresh).0

inc_and_get_id_seq-counted : inc_and_get_id_seq (shared_store json) text fresh ≡ (counted, ok 10001)
unfolding inc_and_get_id_seq Kv.get run_others Kv.set compare_bytes
inc_and_get_id_seq-counted = refl

sequence-free : (catch_up json fresh).pairs sequence_key ≡ none
unfolding run_others
sequence-free = refl

inc_and_get_id_seq-next_example :
    (10001 ≡ (10000 + 1) % 2 ^ 64)
    × (counted.pairs sequence_key
        ≡ some (record { key = sequence_key; value = text.format_uint 10001; ver = counted.index }))
unfolding run_others Kv.get Kv.set compare_bytes
inc_and_get_id_seq-next_example =
    inc_and_get_id_seq-next json text fresh counted 10001 10000 (λ k l. refl) fresh-IsStamped
      (λ none_held. sequence-free) (omega arith) refl inc_and_get_id_seq-counted

abbrev created : Shared
created = (create_table (shared_store json) text (116 ∷ []) fresh).0

create_table-created :
    create_table (shared_store json) text (116 ∷ []) fresh
    ≡ (created, ok (new_table (116 ∷ []) 10001))
unfolding create_table inc_and_get_id_seq set_table_version Kv.exists Kv.get run_others Kv.set
    compare_bytes
create_table-created = refl

create_table-Created_example :
    (w : Shared) × (id : ℕ) × (inc_and_get_id_seq (shared_store json) text (catch_up json fresh)
      ≡ (w, ok id))
    × (new_table (116 ∷ []) 10001 ≡ new_table (116 ∷ []) id)
    × Created json text w created (new_table (116 ∷ []) id)
create_table-Created_example =
    create_table-Created json text fresh created (116 ∷ []) (new_table (116 ∷ []) 10001)
      fresh-IsStamped create_table-created

abbrev pub table_t : Table
table_t = record { name = 116 ∷ []; cluster_id = 10001; recover_id = 0 }

abbrev pub remove : ℕ → List ℕ → List ℕ
remove id [] = []
remove id (i ∷ is) = let rest = remove id is in if i == id then rest else i ∷ rest

pub has_id-remove :
    (i id : ℕ) (is : List ℕ) → has_id i (remove id is) ≡ (not (i == id) && has_id i is)
has_id-remove i id [] = ground arith
has_id-remove i id (j ∷ is) = elim (Bool-cases (j == id)) [
  | inl same ↦ rw same (ground (arith, same, has_id-remove i id is))
  | inr other ↦ rw other (ground (arith, other, has_id-remove i id is))
]

-- A host that does what it is asked to.
abbrev pub host : NodeHost
host = record {
  State = List ℕ;
  has_node_info = λ s id node. false;
  start_on_disk_replica = λ members name id s. (id ∷ s, ok tt);
  stop_shard = λ id s. (remove id s, ok tt);
  stale_read_path = λ s id. ok [];
  shard_info_list = λ s. some s;
}

abbrev pub host_laws : HostLaws host
host_laws = record {
  running = λ s. s;
  listed = λ s. refl;
  started = λ members name id s t i e. ap (λ x. has_id i x.0) (sym e);
  stopped = λ id s t i e. ap (λ x. has_id i x.0) (sym e) ∙ has_id-remove i id s;
}

abbrev pub config : Config (shared_store json)
config = record {
  node_id = 1;
  members = [];
  marshal_cleanup = λ c. ok [];
  get_all = λ s pattern. ok (record { key = []; value = []; ver = 1 } ∷ []);
}

abbrev before : Manager (shared_store json) host
before = record { pairs = fresh; shards = 10002 ∷ []; tables = λ name. none }

abbrev reconciled : Manager (shared_store json) host
reconciled = (reconcile (shared_store json) host text config 100 before).0

reconcile-reconciled :
    reconcile (shared_store json) host text config 100 before ≡ (reconciled, ok tt)
unfolding reconcile observe get_tables start_tables stop_tables diff_tables run_others Kv.get Kv.set
    compare_bytes
reconcile-reconciled = refl

tables-listed : get_tables (shared_store json) host text config fresh ≡ ok (table_t ∷ [])
unfolding get_tables
tables-listed = refl

reconcile-runs_example : has_id 10001 reconciled.shards ≡ owns 10001 (table_t ∷ [])
reconcile-runs_example =
    reconcile-runs (shared_store json) host text config host_laws 100 before reconciled
      (table_t ∷ []) 10001 tables-listed (omega arith) reconcile-reconciled

abbrev unmarshal : Bytes → Result PutMessage
unmarshal b = ok (record {
  kv = some (record { key = if equal b (1 ∷ []) then 97 ∷ [] else 98 ∷ []; value = b });
  leader_index = none;
})

read_into_table-lost_example :
    (t : List Command) × (read_into_table
        (recording unmarshal)
        10001
        4
        (record { messages = (1 ∷ []) ∷ (2 ∷ []) ∷ []; failure = none })
        []
      ≡ (t, ok tt))
    × (pairs_in t + length t ≡ 3)
read_into_table-lost_example =
    read_into_table-lost unmarshal 10001 4 ((1 ∷ []) ∷ (2 ∷ []) ∷ []) ((_, refl), ((_, refl), tt))
