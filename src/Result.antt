-- ===== src/Result.antt =====
-- What a Go function returns: its results, an error value of storage/table/key,
-- storage/kv, storage/errors or a library, or a run-time panic.
pub mod Ensures
use regatta.Prelude.{◌≡◌, refl, Bool, true, false, arith}

pub data Error : Type 0 where
  -- storage/table/key
  unknown_key_version missing_key_header malformed_key_header missing_key_type : Error
  -- pebble.ErrNotFound
  not_found : Error
  -- storage/kv
  not_exist version_mismatch : Error
  -- storage/errors
  log_behind log_ahead empty_key key_length_exceeded value_length_exceeded : Error
  unknown_query_type no_result_found unknown_result_type table_not_found table_exists : Error
  lease_not_acquired node_host_info_unavailable : Error
  -- dragonboat.ErrShardNotReady, ErrShardNotFound and statemachine.ErrSnapshotStopped
  shard_not_ready shard_not_found snapshot_stopped : Error
  -- io.EOF, io.ErrUnexpectedEOF and io.ErrShortBuffer
  eof unexpected_eof short_buffer : Error
  -- status.Error of gRPC, with codes.InvalidArgument and codes.Unavailable
  status_invalid_argument status_unavailable : Error
  -- the fuel of a loop of the model ran out, which Go's loops do not return
  out_of_fuel : Error
  -- a wait for a lock that never ends, after which Go's code does not return
  blocked : Error
  -- any other error of a library
  external : Error

pub data Result {ℓ} (A : Type ℓ) : Type ℓ where
  ok : A → Result A
  err : Error → Result A
  panic : Result A

infixl 5 ◌>>=◌ ◌>>◌
abbrev pub ◌>>=◌ {ℓ κ} : {A : Type ℓ} {B : Type κ} → Result A → (A → Result B) → Result B
ok a >>= f = f a
err e >>= f = err e
panic >>= f = panic

abbrev pub ◌>>◌ {ℓ} : {B : Type ℓ} → Result (Unit {0}) → Result B → Result B
m >> k = m >>= λ _. k

-- errors.Is(err, pebble.ErrNotFound)
abbrev pub is_not_found : Error → Bool
is_not_found not_found = true
is_not_found _ = false

-- To split on a result and keep the equation.
pub data Split {ℓ} {A : Type ℓ} (r : Result A) : Type ℓ where
  is_ok : (a : A) → r ≡ ok a → Split r
  is_err : (e : Error) → r ≡ err e → Split r
  is_panic : r ≡ panic → Split r

pub split {ℓ} : {A : Type ℓ} (r : Result A) → Split r
split (ok a) = is_ok a refl
split (err e) = is_err e refl
split panic = is_panic refl

-- A sequence that succeeds succeeds in its parts.
pub >>=-eq-ok {ℓ κ} :
    {A : Type ℓ} {B : Type κ} (m : Result A) (f : A → Result B) (b : B)
    → (m >>= f) ≡ ok b
    → (a : A) × (m ≡ ok a) × (f a ≡ ok b)
>>=-eq-ok (ok a) f b h = (a, refl, h)
>>=-eq-ok (err e) f b h = ground (arith, h)
>>=-eq-ok panic f b h = ground (arith, h)

pub ok_inj {ℓ} : {A : Type ℓ} {a b : A} → ok a ≡ ok b → a ≡ b
ok_inj h = cc
