-- ===== src/Table/Active.antt =====
-- A put and a read after it, through a shard of one node.
use regatta.Prelude.{
  ℕ, ◌≤◌, ◌≡◌, refl, ◌∙◌, Bool, true, false, Option, none, some, List, [], ◌∷◌, length, ltb, ◌==◌,
  pos, arith,
}
use regatta.Bytes.{Bytes, compare_bytes}
use regatta.Bytes.Order.{equal_refl}
use regatta.Result.{Result, ok, err, panic}
use regatta.Pebble.{Pebble, PebbleLaws}
use regatta.Pebble.OrderedMap
use regatta.Pebble.OrderedMap.{Entries, insert}
use regatta.Pebble.OrderedMap.Laws.{lookup-insert}
use regatta.Fsm.Keys.{sys_local_index, sys_leader_index}
use regatta.Fsm.Keys.Order.{user_key}
use regatta.Fsm.Messages.{RequestRange, CommandResult, response_put}
use regatta.Fsm.Query
use regatta.Fsm.Query.{single_response}
use regatta.Fsm.Query.Reads.{single_lookup_lem}
use regatta.Fsm.Update.{Codec, LogEntry, put_uint, with_result, update_db}
use regatta.Fsm.Update.Correct.{Indexes, run_log, stamp, stamp_leader, DbRefines, update_db-Refines}
use regatta.Fsm.Spec.{run, outcome, put_change}
use regatta.Fsm.Lookup
use regatta.Fsm.Lookup.{LookupRequest, LookupResponse}
use regatta.Key.{latest_version_len}
use regatta.Api.{PutRequest, RangeRequest, zero_header}
use regatta.Table.{
  RaftHandler, SmResult, ClientCodec, ActiveTable, max_value_len, range, put, propose,
}
use regatta.Table.Limits.{IsWithinBounds, put_command}

-- The result of the one entry of a log.
abbrev pub one_result : {D : Type 0} → D → Result (D × List LogEntry) → D × Result SmResult
one_result s (ok (db, u ∷ us)) = (db, ok (record { value = u.value; result_data = u.result_data }))
one_result s (ok (db, [])) = (s, panic)
one_result s (err e) = (s, err e)
one_result s panic = (s, panic)

abbrev pub log_entry : ℕ → Bytes → LogEntry
log_entry i b = record { index = i; cmd = b; value = 0; result_data = [] }

-- What a stale read returns of a database.
abbrev pub StaleRead : Pebble → Type 0
StaleRead p = p.Db → LookupRequest → Result LookupResponse

-- A node host with one shard, whose linearizable reads see the database that all proposals before were
-- applied to; the next proposal is applied as the entry `i`. Stale reads return anything.
abbrev pub one_node : (p : Pebble) → Codec → ℕ → StaleRead p → RaftHandler
one_node p codec i stale = record {
  State = p.Db;
  sync_read = λ db id req. Lookup.lookup (p.db_reader db) [] req;
  stale_read = λ db id req. stale db req;
  sync_propose = λ db id b. one_result db (update_db p codec db (log_entry i b ∷ []));
}

-- The stamps of an update are not under user keys.
lookup-stamp_leader :
    (i : Option ℕ) (k : Bytes) (m : Entries)
    → OrderedMap.lookup (user_key k) (stamp_leader i m) ≡ OrderedMap.lookup (user_key k) m
unfolding compare_bytes sys_leader_index
lookup-stamp_leader none k m = refl
lookup-stamp_leader (some i) k m = lookup-insert sys_leader_index (user_key k) (put_uint 8 i) m

lookup-stamp :
    (i : Indexes) (k : Bytes) (m : Entries)
    → OrderedMap.lookup (user_key k) (stamp i m) ≡ OrderedMap.lookup (user_key k) m
unfolding compare_bytes sys_local_index
lookup-stamp i k m =
    lookup-insert sys_local_index (user_key k) (put_uint 8 i.index) (stamp_leader i.leader_index m)
    ∙ lookup-stamp_leader i.leader_index k m

abbrev pub put_result : ℕ → CommandResult
put_result i = record { responses = response_put (record { prev_kv = none }) ∷ []; revision = i }

-- The log of one put, and what it leaves.
run_log-put :
    (codec : Codec) (i : ℕ) (b : Bytes) (req : PutRequest) (m : Entries)
    → codec.unmarshal b ≡ ok (put_command req)
    → req.prev_kv ≡ false
    → run_log codec (log_entry i b ∷ []) (record { index = 0; leader_index = none }) m
      ≡ ok (
        insert (user_key req.key) req.value m,
        (
          record { index = i; leader_index = none },
          record (log_entry i b) { value = 1; result_data = codec.marshal (put_result i) } ∷ [],
        ),
      )
unfolding run_log run outcome put_change with_result
run_log-put codec i b req m h n = rw (h, run_log, n) refl

-- A read of one key.
abbrev pub key_request : Bytes → Bytes → Bool → RangeRequest
key_request table key linearizable = record {
  table = table;
  key = key;
  range_end = none;
  limit = pos 0;
  linearizable = linearizable;
  keys_only = false;
  count_only = false;
  min_mod_revision = pos 0;
  max_mod_revision = pos 0;
  min_create_revision = pos 0;
  max_create_revision = pos 0;
}

module _ (p : Pebble) (laws : PebbleLaws p) (codec : Codec) (client : ClientCodec)
    (stale : StaleRead p) where
  propose-put :
      (i : ℕ) (req : PutRequest) (db : p.Db) (b : Bytes)
      → codec.unmarshal b ≡ ok (put_command req)
      → req.prev_kv ≡ false
      → (db' : p.Db) × ((one_node p codec i stale).sync_propose db 0 b
          ≡ (db', ok (record { value = 1; result_data = codec.marshal (put_result i) })))
        × (OrderedMap.lookup (user_key req.key) (laws.contents db') ≡ some req.value)
  propose-put i req db b h n = by_result (update_db p codec db (log_entry i b ∷ [])) refl (
      rw (run_log-put codec i b req (laws.contents db) h n) at
        (update_db-Refines p laws codec db (log_entry i b ∷ [])))
    where
      stored :
          OrderedMap.lookup
            (user_key req.key)
            (insert (user_key req.key) req.value (laws.contents db))
          ≡ some req.value
      stored =
          lookup-insert (user_key req.key) (user_key req.key) req.value (laws.contents db)
          ∙ rw (equal_refl (user_key req.key)) refl

      left : Result (p.Db × List LogEntry) → Type 0
      left r = DbRefines p laws codec r (
          ok (
            insert (user_key req.key) req.value (laws.contents db),
            (
              record { index = i; leader_index = none },
              record (log_entry i b) { value = 1; result_data = codec.marshal (put_result i) } ∷ [],
            ),
          ))

      by_result :
          (r : Result (p.Db × List LogEntry))
          → update_db p codec db (log_entry i b ∷ []) ≡ r
          → left r
          → (db' : p.Db) × (one_result db r
              ≡ (db', ok (record { value = 1; result_data = codec.marshal (put_result i) })))
            × (OrderedMap.lookup (user_key req.key) (laws.contents db') ≡ some req.value)
      by_result (ok (db', rs)) e k = (
        db',
        rw k.1 refl,
        rw k.0 (lookup-stamp (record { index = i; leader_index = none }) req.key _ ∙ stored),
      )
      by_result (err x) e k = absurd k
      by_result panic e k = absurd k

  get_after :
      (i : ℕ) (t : ActiveTable) (db : p.Db) (table key value : Bytes)
      → length key ≤ latest_version_len
      → OrderedMap.lookup (user_key key) (laws.contents db) ≡ some value
      → range (one_node p codec i stale) client t db (key_request table key true)
        ≡ ok (record {
          header = none;
          kvs = record { key = key; value = value } ∷ [];
          more = false;
          count = 1;
        })
  unfolding range Lookup.lookup Query.lookup
  get_after i t db table key value l h =
      rw
        (short, single_lookup_lem (p.db_reader db) (laws.contents db) (laws.db_shows db) request, h)
        refl
    where
      short : ltb latest_version_len (length key) ≡ false
      short = ground (arith, l)

      request : RequestRange
      request = record {
        key = key;
        range_end = none;
        limit = 0;
        keys_only = false;
        count_only = false;
      }

  -- On a node host one_node, over any database with PebbleLaws, if the state machine reads the put command
  -- that the client wrote and the client reads the result of the state machine: a put of a request within
  -- the bounds, which asks for no previous pair, succeeds with the index of its entry as the revision,
  -- and a linearizable read of its key, which sees the database that the put was applied to, returns the
  -- pair that was put, whatever stale reads would return.
  pub range-put :
      (i : ℕ) (t : ActiveTable) (db : p.Db) (req : PutRequest) (written : Bytes)
      → client.marshal (put_command req) ≡ ok written
      → codec.unmarshal written ≡ ok (put_command req)
      → client.unmarshal (codec.marshal (put_result i)) ≡ ok (put_result i)
      → IsWithinBounds req
      → req.prev_kv ≡ false
      → (db' : p.Db) × (put (one_node p codec i stale) client t db req ≡ (
        db',
        ok (record { header = some (record zero_header { revision = i }); prev_kv = none }),
      ))
        × (range (one_node p codec i stale) client t db' (key_request req.table req.key true)
            ≡ ok (record {
              header = none;
              kvs = record { key = req.key; value = req.value } ∷ [];
              more = false;
              count = 1;
            }))
  unfolding put
  range-put i t db req b written read result w n =
      let (db', done, stored) = propose-put i req db b read n in
      (
        db',
        rw (keyed, short, small, proposed t db b _ written done, result) refl,
        get_after i t db' req.table req.key req.value w.key_le stored,
      )
    where
      proposed :
          (t : ActiveTable) (db : p.Db) (b : Bytes) (x : p.Db × Result SmResult)
          → client.marshal (put_command req) ≡ ok b
          → (one_node p codec i stale).sync_propose db 0 b ≡ x
          → propose (one_node p codec i stale) client t db (put_command req) ≡ x
      proposed t db b x e h = rw (e, propose) h

      keyed : (length req.key == 0) ≡ false
      keyed = ground (arith, w.has_key)

      short : ltb latest_version_len (length req.key) ≡ false
      short = ground (arith, w.key_le)

      small : ltb max_value_len (length req.value) ≡ false
      small = ground (arith, w.value_le)
