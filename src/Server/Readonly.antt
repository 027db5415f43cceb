-- ===== src/Server/Readonly.antt =====
-- The server of a follower over its engine.
use regatta.Prelude.{◌≡◌, refl, true, length, ◌==◌, Bool-cases, inl, inr}
use regatta.Result.{Result, ok, err, panic}
use regatta.Api.{TxnRequest, PutRequest, DeleteRangeRequest}
use regatta.Table
use regatta.Table.{RaftHandler, ClientCodec, is_readonly_transaction}
use regatta.Engine
use regatta.Engine.{Engine}
use regatta.Server.{KvService, readonly_put, readonly_delete_range, readonly_txn}

-- The engine as the storage of a server.
abbrev pub engine_service : {N : Type 0} → RaftHandler → ClientCodec → Engine N → KvService
engine_service h codec e = record {
  State = h.State;
  range = Engine.range h codec e;
  put = Engine.put h codec e;
  delete = Engine.delete h codec e;
  txn = Engine.txn h codec e;
}

module _ {N : Type 0} (h : RaftHandler) (codec : ClientCodec) (e : Engine N) where
  engine_txn-readonly :
      (s : h.State) (req : TxnRequest)
      → is_readonly_transaction req ≡ true
      → (Engine.txn h codec e s req).0 ≡ s
  unfolding Engine.txn Table.txn
  engine_txn-readonly s req r = by_table (e.get_table req.table) refl
    where
      by_table :
          (t : Result Table.ActiveTable)
          → e.get_table req.table ≡ t
          → (Engine.txn h codec e s req).0 ≡ s
      by_table (ok t) q = rw (Engine.txn, Engine.with_table, q, Table.txn, r) refl
      by_table (err x) q = rw (Engine.txn, Engine.with_table, q) refl
      by_table panic q = rw (Engine.txn, Engine.with_table, q) refl

  -- No request to the server of a follower proposes anything: the shards stay as they are, for every
  -- put, every deletion and every transaction, read-only or not.
  pub readonly_server-State :
      (s : h.State) (p : PutRequest) (d : DeleteRangeRequest) (t : TxnRequest)
      → ((readonly_put (engine_service h codec e) s p).0 ≡ s)
        × ((readonly_delete_range (engine_service h codec e) s d).0 ≡ s)
        × ((readonly_txn (engine_service h codec e) s t).0 ≡ s)
  unfolding readonly_put readonly_delete_range readonly_txn
  readonly_server-State s p d t = (
    refl,
    refl,
    elim (Bool-cases (is_readonly_transaction t)) [
      | inl r ↦ elim (Bool-cases (length t.table == 0)) [
        | inl empty ↦ rw (r, empty) refl
        | inr named ↦ rw (r, named) (engine_txn-readonly s t r)
      ]
      | inr w ↦ rw w refl
    ],
  )
