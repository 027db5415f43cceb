-- ===== src/Manager/Shared.antt =====
-- The replicated store as one node sees it: before each of its requests the log may have got updates of
-- other nodes, which the state lists in advance. Set returns what Kv/Raft shows that raft_set returns.
pub mod Swap
use regatta.Prelude.{
  ℕ, ◌+◌, ◌≡◌, ◌≤◌, ◌<◌, ◌⊎◌, refl, true, false, Option, none, some, List, [], ◌∷◌, ◌==◌,
  if◌then◌else◌, Bool-cases, inl, inr, arith,
}
use regatta.Bytes.{Bytes, equal}
use regatta.Bytes.Order.{equal_iff, equal_refl}
use regatta.Result.{Result, Error, ok, err, panic, version_mismatch}
use regatta.Action.{Action}
use regatta.Fsm.Update.{LogEntry}
use regatta.Kv.{
  Pair, MapStore, get, exists, set, delete, UpdateOp, op_set, op_delete, op_other, Update, Json,
  write, accepted, rejected, check_version, update_entry, result_code_version_mismatch,
}
use regatta.Kv.Raft.{set_outcome}
use regatta.Manager.{Store}

pub record Shared : Type 0 where
  pub pairs : MapStore
  pub index : ℕ
  pub others : List (List Update)

abbrev pub entry_at : ℕ → LogEntry
entry_at i = record { index = i; cmd = []; value = 0; result_data = [] }

abbrev pub set_result : Pair × Option Error → Result Pair
set_result (p, none) = ok p
set_result (p, some e) = err e

module _ (json : Json) where
  -- The next entry of the log.
  abbrev pub apply_update : Update → Shared → Shared
  apply_update u s = record s {
    pairs = (update_entry json (entry_at (s.index + 1)) u s.pairs).0;
    index = s.index + 1;
  }

  unfoldable pub run_others : List Update → Shared → Shared
  run_others [] s = s
  run_others (u ∷ us) s = run_others us (apply_update u s)

  -- The updates of other nodes that come first.
  abbrev pub catch_up : Shared → Shared
  catch_up s = elim s.others [ [] ↦ s | us ∷ rest ↦ run_others us (record s { others = rest }) ]

  abbrev pub set_update : Bytes → Bytes → ℕ → Update
  set_update key value ver = record {
    op = op_set;
    kv_pair = record { key = key; value = value; ver = ver };
  }

  abbrev pub delete_update : Bytes → ℕ → Update
  delete_update key ver = record {
    op = op_delete;
    kv_pair = record { key = key; value = []; ver = ver };
  }

  abbrev pub deletion_result : ℕ → Result (Unit {0})
  deletion_result code =
      if code == result_code_version_mismatch then err version_mismatch else ok tt

  -- The store of a node.
  abbrev pub shared_store : Store
  shared_store = record {
    State = Shared;
    exists = λ key s. (catch_up s, ok (exists (catch_up s).pairs key));
    set = λ key value ver s.
        let t = catch_up s in
        (
          apply_update (set_update key value ver) t,
          set_result (set_outcome (t.pairs key) (set_update key value ver).kv_pair (t.index + 1)),
        );
    delete = λ key ver s.
        let t = catch_up s in
        (
          apply_update (delete_update key ver) t,
          deletion_result
              (update_entry json (entry_at (t.index + 1)) (delete_update key ver) t.pairs).1.value,
        );
    get = λ key s. (catch_up s, get (catch_up s).pairs key);
  }
