-- ===== src/Kv.antt =====
-- storage/kv/map.go and raft.go: the versioned key-value store of the metadata of the tables, and the
-- state machine that replicates it. The map is a function from keys; JSON is a parameter.
pub mod Versions
pub mod Raft
mod Tests
use regatta.Prelude.{ℕ, Bool, not, Option, none, some, List, [], ◌∷◌, ◌==◌, if◌then◌else◌}
use regatta.Bytes.{Bytes, equal}
use regatta.Result.{Result, Error, ok, err, panic, ◌>>=◌}
use regatta.Fsm.Update.{LogEntry}

pub record Pair : Type 0 where
  pub key : Bytes
  pub value : Bytes
  pub ver : ℕ

abbrev pub MapStore : Type 0
MapStore = Bytes → Option Pair

-- NewMapStore
abbrev pub new_map_store : MapStore
new_map_store k = none

-- MapStore.Get
unfoldable pub get : MapStore → Bytes → Result Pair
get s k = elim (s k) [ none ↦ err Error.not_exist | some p ↦ ok p ]

-- MapStore.Exists
unfoldable pub exists : MapStore → Bytes → Bool
exists s k = elim (s k) [ none ↦ Bool.false | some p ↦ Bool.true ]

-- MapStore.Set and MapStore.Delete, which never fail
unfoldable pub set : MapStore → Bytes → Bytes → ℕ → MapStore
set s k v ver j = if equal j k then some (record { key = k; value = v; ver = ver }) else s j

unfoldable pub delete : MapStore → Bytes → ℕ → MapStore
delete s k ver j = if equal j k then none else s j

-- UpdateOpSet, UpdateOpDelete and any other string
pub data UpdateOp : Type 0 where
  op_set op_delete op_other : UpdateOp

pub record Update : Type 0 where
  pub op : UpdateOp
  pub kv_pair : Pair

abbrev pub result_code_success : ℕ
result_code_success = 1

abbrev pub result_code_version_mismatch : ℕ
result_code_version_mismatch = 2

-- json.Unmarshal of an Update and json.Marshal of a Pair
pub record Json : Type 0 where
  pub unmarshal : Bytes → Result Update
  pub marshal : Pair → Bytes

abbrev pub write : UpdateOp → Pair → MapStore → MapStore
write op_set p s = set s p.key p.value p.ver
write op_delete p s = delete s p.key p.ver
write op_other p s = s

module _ (json : Json) where
  abbrev pub accepted : LogEntry → Update → MapStore → MapStore × LogEntry
  accepted ent update s =
      let p : Pair = record {
        key = update.kv_pair.key;
        value = update.kv_pair.value;
        ver = ent.index;
      } in
      (
        write update.op p s,
        record ent { value = result_code_success; result_data = json.marshal p },
      )

  abbrev pub rejected : LogEntry → Pair → MapStore → MapStore × LogEntry
  rejected ent v s =
      (s, record ent { value = result_code_version_mismatch; result_data = json.marshal v })

  abbrev pub check_version : LogEntry → Update → MapStore → Result Pair → MapStore × LogEntry
  check_version ent update s (ok v) =
      if not (v.ver == update.kv_pair.ver) then rejected ent v s else accepted ent update s
  check_version ent update s _ = accepted ent update s

  -- One round of the loop of Update.
  abbrev pub update_entry : LogEntry → Update → MapStore → MapStore × LogEntry
  update_entry ent update s = check_version ent update s (get s update.kv_pair.key)

  -- LFSM.Update: an entry that is no JSON ends it with an error, after the writes of those before.
  unfoldable pub update_store : MapStore → List LogEntry → MapStore × Result (List LogEntry)
  unfolding get
  update_store s [] = (s, ok [])
  update_store s (ent ∷ entries) = elim (json.unmarshal ent.cmd) [
    | ok update ↦
        let (s', done) = update_entry ent update s in
        let (last, results) = update_store s' entries in (last, results >>= λ rs. ok (done ∷ rs))
    | err e ↦ (s, err e)
    | panic ↦ (s, panic)
  ]
