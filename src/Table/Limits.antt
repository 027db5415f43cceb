-- ===== src/Table/Limits.antt =====
-- What a table refuses before it asks its shard.
use regatta.Prelude.{◌≤◌, ◌≡◌, ◌⊎◌, refl, some, length, ltb, ◌==◌, Bool-cases, inl, inr, arith}
use regatta.Result.{Error, err, empty_key, key_length_exceeded, value_length_exceeded}
use regatta.Key.{latest_version_len}
use regatta.Fsm.Messages.{CommandType, Command, Commands, command}
use regatta.Api.{PutRequest}
use regatta.Table.{RaftHandler, ClientCodec, ActiveTable, max_value_len, put, zero_fields, propose}

-- A request within the bounds on keys and values.
pub record IsWithinBounds (req : PutRequest) : Type 0 where
  pub has_key : 1 ≤ length req.key
  pub key_le : length req.key ≤ latest_version_len
  pub value_le : length req.value ≤ max_value_len

abbrev pub put_command : PutRequest → Command
put_command req =
    command
      (record (zero_fields CommandType.put) {
        kv = some (record { key = req.key; value = req.value });
        prev_kvs = req.prev_kv;
      })
      Commands.end

module _ (h : RaftHandler) (codec : ClientCodec) where
  -- Put of a request within the bounds proposes one put command of its key and its value; Put of any
  -- other request fails and leaves the shards as they are.
  pub put-IsWithinBounds :
      (t : ActiveTable) (s : h.State) (req : PutRequest)
      → (IsWithinBounds req × ((put h codec t s req).0 ≡ (propose h codec t s (put_command req)).0))
        ⊎ ((IsWithinBounds req → ⊥) × ((e : Error) × (put h codec t s req ≡ (s, err e))))
  unfolding put
  put-IsWithinBounds t s req = elim (Bool-cases (length req.key == 0)) [
    | inl empty ↦ inr (λ w. ground (arith, empty, w.has_key), (empty_key, rw empty refl))
    | inr keyed ↦ elim (Bool-cases (ltb latest_version_len (length req.key))) [
      | inl long ↦
          inr (λ w. ground (arith, long, w.key_le), (key_length_exceeded, rw (keyed, long) refl))
      | inr short ↦ elim (Bool-cases (ltb max_value_len (length req.value))) [
        | inl large ↦ inr (
          λ w. ground (arith, large, w.value_le),
          (value_length_exceeded, rw (keyed, short, large) refl),
        )
        | inr small ↦ inl (
          record {
            has_key = ground (arith, keyed);
            key_le = ground (arith, short);
            value_le = ground (arith, small);
          },
          rw (keyed, short, small) refl,
        )
      ]
    ]
  ]
