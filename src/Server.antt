-- ===== src/Server.antt =====
-- KVServer and ReadonlyKVServer of regattaserver/kv.go: the checks of requests and the status codes.
pub mod Readonly
mod Tests
use regatta.Prelude.{
  Bool, ◌&&◌, Option, none, some, List, [], ◌∷◌, length, ◌==◌, if◌then◌else◌, ℤ, is_negative,
  is_positive,
}
use regatta.Bytes.{Bytes}
use regatta.Result.{Result, Error, ok, err, panic}
use regatta.Api.{
  RangeRequest, RangeResponse, PutRequest, PutResponse, DeleteRangeRequest, DeleteRangeResponse,
  TxnRequest, TxnResponse,
}
use regatta.Table.{is_readonly_transaction}

-- The codes of package codes that the servers use.
pub data Code : Type 0 where
  invalid_argument unimplemented not_found internal : Code

pub data Reply (A : Type 0) : Type 0 where
  reply : A → Reply A
  status : Code → Reply A
  crash : Reply A

-- KVService: the storage behind a server
pub record KvService : Type 1 where
  pub State : Type 0
  pub range : State → RangeRequest → Result RangeResponse
  pub put : State → PutRequest → State × Result PutResponse
  pub delete : State → DeleteRangeRequest → State × Result DeleteRangeResponse
  pub txn : State → TxnRequest → State × Result TxnResponse

-- The status of what the storage returns.
abbrev pub to_reply : {A : Type 0} → Result A → Reply A
to_reply (ok r) = reply r
to_reply (err Error.table_not_found) = status not_found
to_reply (err e) = status internal
to_reply panic = crash

-- The checks of KVServer.Range on its options.
unfoldable pub range_options : RangeRequest → Option Code
range_options req =
    if is_negative req.limit
    then some invalid_argument
    else if req.keys_only && req.count_only
    then some invalid_argument
    else if is_positive req.min_mod_revision
    then some unimplemented
    else if is_positive req.max_mod_revision
    then some unimplemented
    else if is_positive req.min_create_revision
    then some unimplemented
    else if is_positive req.max_create_revision
    then some unimplemented
    else none

module _ (storage : KvService) where
  open storage use {State}

  -- KVServer.Range
  unfoldable pub kv_range : State → RangeRequest → Reply RangeResponse
  unfolding range_options
  kv_range s req = elim (range_options req) [
    | some c ↦ status c
    | none ↦
        if length req.table == 0
        then status invalid_argument
        else if length req.key == 0
        then status invalid_argument
        else to_reply (storage.range s req)
  ]

  -- KVServer.Put
  unfoldable pub kv_put : State → PutRequest → State × Reply PutResponse
  kv_put s req =
      if length req.table == 0
      then (s, status invalid_argument)
      else if length req.key == 0
      then (s, status invalid_argument)
      else (let (s', r) = storage.put s req in (s', to_reply r))

  -- KVServer.DeleteRange
  unfoldable pub kv_delete_range : State → DeleteRangeRequest → State × Reply DeleteRangeResponse
  kv_delete_range s req =
      if length req.table == 0
      then (s, status invalid_argument)
      else if length req.key == 0
      then (s, status invalid_argument)
      else (let (s', r) = storage.delete s req in (s', to_reply r))

  -- KVServer.Txn
  unfoldable pub kv_txn : State → TxnRequest → State × Reply TxnResponse
  kv_txn s req =
      if length req.table == 0
      then (s, status invalid_argument)
      else (let (s', r) = storage.txn s req in (s', to_reply r))

  -- ReadonlyKVServer.Put, DeleteRange and Txn; its Range is KVServer's
  unfoldable pub readonly_put : State → PutRequest → State × Reply PutResponse
  readonly_put s req = (s, status unimplemented)

  unfoldable pub readonly_delete_range :
      State → DeleteRangeRequest → State × Reply DeleteRangeResponse
  readonly_delete_range s req = (s, status unimplemented)

  unfoldable pub readonly_txn : State → TxnRequest → State × Reply TxnResponse
  unfolding kv_txn
  readonly_txn s req =
      if is_readonly_transaction req then kv_txn s req else (s, status unimplemented)
