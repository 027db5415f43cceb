-- ===== src/Kv/Raft.antt =====
-- RaftStore of storage/kv/raft.go: the client of the replicated store. A proposal to dragonboat and
-- the JSON of proposals and their results are parameters.
use regatta.Prelude.{
  ℕ, ◌≡◌, refl, Option, none, some, List, [], ◌∷◌, ◌==◌, if◌then◌else◌, Bool-cases, inl, inr,
}
use regatta.Bytes.{Bytes}
use regatta.Result.{Result, Error, ok, err, panic, version_mismatch, ◌>>=◌}
use regatta.Fsm.Update.{LogEntry}
use regatta.Kv.{
  Pair, MapStore, get, Update, op_set, op_delete, Json, update_entry, update_store,
  result_code_version_mismatch,
}
use regatta.Kv.Versions.{update_store-cons}

-- json.Marshal of an Update, json.Unmarshal of a Pair, and NodeHost.SyncPropose, with the value and the
-- data of the result
pub record Host : Type 0 where
  pub marshal : Update → Result Bytes
  pub unmarshal : Bytes → Result Pair
  pub propose : Bytes → Result (ℕ × Bytes)

module _ (host : Host) where
  -- RaftStore.Delete
  unfoldable pub raft_delete : Bytes → ℕ → Result (Unit {0})
  raft_delete key ver =
      host.marshal
        (record { op = op_delete; kv_pair = record { key = key; value = []; ver = ver } })
      >>= λ b. host.propose b >>= λ (code, body).
          if code == result_code_version_mismatch then err version_mismatch else ok tt

  -- RaftStore.Set: the pair, and whether the error ErrVersionMismatch comes with it
  unfoldable pub raft_set : Bytes → Bytes → ℕ → Result (Pair × Option Error)
  raft_set key value ver =
      host.marshal
        (record { op = op_set; kv_pair = record { key = key; value = value; ver = ver } })
      >>= λ b. host.propose b >>= λ (code, body). host.unmarshal body >>= λ pair.
          ok (pair, if code == result_code_version_mismatch then some version_mismatch else none)

-- The result of the first entry.
abbrev pub first_result : Result (List LogEntry) → Result (ℕ × Bytes)
first_result (ok (e ∷ es)) = ok (e.value, e.result_data)
first_result (ok []) = panic
first_result (err e) = err e
first_result panic = panic

-- A proposal that the state machine applies to `s` as the entry `index`.
abbrev pub applied : Json → MapStore → ℕ → Bytes → Result (ℕ × Bytes)
applied json s index b =
    first_result
      (update_store json s (record { index = index; cmd = b; value = 0; result_data = [] } ∷ [])).1

-- What a set of a key returns, by what the key holds.
abbrev pub set_outcome : Option Pair → Pair → ℕ → Pair × Option Error
set_outcome none p index = (record p { ver = index }, none)
set_outcome (some v) p index =
    if v.ver == p.ver then (record p { ver = index }, none) else (v, some version_mismatch)

-- If the JSON of updates and of pairs is read back as it was written, and the state machine applies
-- the proposal to the store `s` as the entry with a certain index, RaftStore.Set returns the pair with
-- that index as its version, if the key was free or had the version given; otherwise it returns the
-- pair that the key holds and ErrVersionMismatch.
pub raft_set-applied :
    (host : Host) (json : Json) (s : MapStore) (p : Pair) (index : ℕ) (written : Bytes)
    → host.marshal (record { op = op_set; kv_pair = p }) ≡ ok written
    → json.unmarshal written ≡ ok (record { op = op_set; kv_pair = p })
    → ((v : Pair) → host.unmarshal (json.marshal v) ≡ ok v)
    → host.propose written ≡ applied json s index written
    → raft_set host p.key p.value p.ver ≡ ok (set_outcome (s p.key) p index)
unfolding raft_set update_store get
raft_set-applied host json s p index written m u r h = by_key (s p.key) refl
  where
    ent : LogEntry
    ent = record { index = index; cmd = written; value = 0; result_data = [] }

    upd : Update
    upd = record { op = op_set; kv_pair = p }

    run :
        update_store json s (ent ∷ [])
        ≡ ((update_entry json ent upd s).0, ok ((update_entry json ent upd s).1 ∷ []))
    run = update_store-cons json s ent [] upd u

    by_key :
        (o : Option Pair)
        → s p.key ≡ o
        → raft_set host p.key p.value p.ver ≡ ok (set_outcome o p index)
    by_key none e = rw (m, h, run, get, e, r) refl
    by_key (some v) e = elim (Bool-cases (v.ver == p.ver)) [
      | inl same ↦ rw (m, h, run, get, e, same, r) refl
      | inr other ↦ rw (m, h, run, get, e, other, r) refl
    ]
