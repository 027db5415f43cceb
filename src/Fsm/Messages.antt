-- ===== src/Fsm/Messages.antt =====
-- The protobuf messages of regattapb that the state machine reads and writes, and their encoded size.
-- A field that may be nil is an Option; fields that the code never sets are left out. A `limit` is a
-- natural number: a negative one, which the servers refuse, has the effect of 0.
use regatta.Prelude.{
  ℕ, zero, suc, ◌+◌, ◌/◌, Bool, Option, List, [], ◌∷◌, length, ◌==◌, if◌then◌else◌,
}
use regatta.Bytes.{Bytes}
use Prim.Native.Nat.{bit_or}

pub record KeyValue : Type 0 where
  pub key : Bytes
  pub value : Bytes

pub record RequestRange : Type 0 where
  pub key : Bytes
  pub range_end : Option Bytes
  pub limit : ℕ
  pub keys_only : Bool
  pub count_only : Bool

pub record RequestPut : Type 0 where
  pub key : Bytes
  pub value : Bytes
  pub prev_kv : Bool

pub record RequestDeleteRange : Type 0 where
  pub key : Bytes
  pub range_end : Option Bytes
  pub prev_kv : Bool
  pub count : Bool

-- The oneof of RequestOp, which may be unset.
pub data RequestOp : Type 0 where
  request_range : RequestRange → RequestOp
  request_put : RequestPut → RequestOp
  request_delete_range : RequestDeleteRange → RequestOp
  unset : RequestOp

pub record ResponseRange : Type 0 where
  pub kvs : List KeyValue
  pub more : Bool
  pub count : ℕ

pub record ResponsePut : Type 0 where
  pub prev_kv : Option KeyValue

pub record ResponseDeleteRange : Type 0 where
  pub deleted : ℕ
  pub prev_kvs : List KeyValue

pub data ResponseOp : Type 0 where
  response_range : ResponseRange → ResponseOp
  response_put : ResponsePut → ResponseOp
  response_delete_range : ResponseDeleteRange → ResponseOp

-- Compare.CompareResult; a number that the enum does not know is kept by protobuf.
pub data CompareResult : Type 0 where
  equal greater less not_equal unknown_result : CompareResult

pub data CompareTarget : Type 0 where
  value unknown_target : CompareTarget

pub record Compare : Type 0 where
  pub result : CompareResult
  pub target : CompareTarget
  pub key : Bytes
  pub target_union : Option Bytes
  pub range_end : Option Bytes

pub record Txn : Type 0 where
  pub compare : List Compare
  pub success : List RequestOp
  pub failure : List RequestOp

pub data CommandType : Type 0 where
  put delete dummy put_batch delete_batch txn sequence unknown_type : CommandType

-- Command without its `sequence`, which makes it a tree.
pub record CommandFields : Type 0 where
  pub type : CommandType
  pub kv : Option KeyValue
  pub leader_index : Option ℕ
  pub batch : List KeyValue
  pub txn : Option Txn
  pub range_end : Option Bytes
  pub prev_kvs : Bool
  pub count : Bool

mutual
  pub data Command : Type 0 where
    command : CommandFields → Commands → Command

  pub data Commands : Type 0 where
    end : Commands
    next : Command → Commands → Commands

pub record CommandResult : Type 0 where
  pub responses : List ResponseOp
  pub revision : ℕ

-- bits.Len64
unfoldable pub len64_loop : ℕ → ℕ → ℕ
len64_loop zero x = 0
len64_loop (suc f) x = let rest = len64_loop f (x / 2) in if x == 0 then 0 else suc rest

-- sov: the bytes of a varint
unfoldable pub sov : ℕ → ℕ
unfolding len64_loop
sov x = (len64_loop 64 (bit_or x 1) + 6) / 7

-- A field of bytes: its tag, its length and itself, unless it is empty.
abbrev bytes_size : ℕ → ℕ
bytes_size l = if l == 0 then 0 else 1 + l + sov l

-- KeyValue.SizeVT
unfoldable pub key_value_size : KeyValue → ℕ
unfolding sov
key_value_size kv = bytes_size (length kv.key) + bytes_size (length kv.value)

unfoldable pub kvs_size : List KeyValue → ℕ
kvs_size [] = 0
kvs_size (kv ∷ kvs) = (1 + key_value_size kv + sov (key_value_size kv)) + kvs_size kvs

-- ResponseOp_Range.SizeVT
unfoldable pub response_range_size : ResponseRange → ℕ
unfolding kvs_size key_value_size sov
response_range_size m =
    kvs_size m.kvs + (if m.more then 2 else 0) + (if m.count == 0 then 0 else 1 + sov m.count)
