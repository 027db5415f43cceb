-- ===== src/Api.antt =====
-- The messages of the client API, regattapb/regatta.pb.go. A pointer that may be nil is an Option. The
-- revisions that a range may be limited to are refused by the servers, if set.
use regatta.Prelude.{ℕ, Bool, Option, List, ℤ, pos, negsuc}
use regatta.Bytes.{Bytes}
use regatta.Fsm.Messages.{KeyValue, Compare, RequestOp, ResponseOp}

pub record ResponseHeader : Type 0 where
  pub shard_id : ℕ
  pub replica_id : ℕ
  pub revision : ℕ
  pub raft_term : ℕ
  pub raft_leader_id : ℕ

abbrev pub zero_header : ResponseHeader
zero_header = record {
  shard_id = 0;
  replica_id = 0;
  revision = 0;
  raft_term = 0;
  raft_leader_id = 0;
}

pub record RangeRequest : Type 0 where
  pub table : Bytes
  pub key : Bytes
  pub range_end : Option Bytes
  pub limit : ℤ
  pub linearizable : Bool
  pub keys_only : Bool
  pub count_only : Bool
  pub min_mod_revision : ℤ
  pub max_mod_revision : ℤ
  pub min_create_revision : ℤ
  pub max_create_revision : ℤ

pub record RangeResponse : Type 0 where
  pub header : Option ResponseHeader
  pub kvs : List KeyValue
  pub more : Bool
  pub count : ℕ

pub record PutRequest : Type 0 where
  pub table : Bytes
  pub key : Bytes
  pub value : Bytes
  pub prev_kv : Bool

pub record PutResponse : Type 0 where
  pub header : Option ResponseHeader
  pub prev_kv : Option KeyValue

pub record DeleteRangeRequest : Type 0 where
  pub table : Bytes
  pub key : Bytes
  pub range_end : Option Bytes
  pub prev_kv : Bool
  pub count : Bool

pub record DeleteRangeResponse : Type 0 where
  pub header : Option ResponseHeader
  pub deleted : ℕ
  pub prev_kvs : List KeyValue

pub record TxnRequest : Type 0 where
  pub table : Bytes
  pub compare : List Compare
  pub success : List RequestOp
  pub failure : List RequestOp

pub record TxnResponse : Type 0 where
  pub header : Option ResponseHeader
  pub succeeded : Bool
  pub responses : List ResponseOp

-- A limit as iterate compares it: a negative one is never met, and neither is 0.
abbrev pub to_limit : ℤ → ℕ
to_limit (pos n) = n
to_limit (negsuc n) = 0
