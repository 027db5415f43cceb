-- ===== src/Fsm/Keys.antt =====
-- The keys of storage/table/fsm: user keys, the two system keys, and the bound past every user key
-- (the end of fsm.go).
pub mod Increment
pub mod Order
use regatta.Prelude.{
  ℕ, zero, suc, ◌+◌, ◌%◌, Bool, true, false, not, List, [], ◌∷◌, ◌++◌, length, take, set, get_or,
  map, ◌==◌, if◌then◌else◌,
}
use regatta.Bytes.{Bytes, codes}
use regatta.Result.{Result, ok, err, panic}
use regatta.Key.{Key, unknown_version, type_user, type_system, v1_max_key, buffer, encode}

abbrev of_write : Bytes × Result ℕ → Result Bytes
of_write (b, ok n) = ok b
of_write (b, err e) = err e
of_write (b, panic) = panic

-- encodeUserKey into a buffer, which it appends to
unfoldable pub encode_user_key : Bytes → Bytes → Result Bytes
unfolding encode
encode_user_key dst key_bytes = of_write (
    encode buffer (record { version = unknown_version; key_type = type_user; key = key_bytes }) dst)

abbrev of_must : Bytes × Result ℕ → Result Bytes
of_must (b, ok n) = ok (take n b)
of_must (b, err e) = panic
of_must (b, panic) = panic

-- mustEncodeKey
unfoldable pub must_encode_key : Key → Result Bytes
unfolding encode
must_encode_key k = of_must (encode buffer k [])

-- The package's variables, which hold what mustEncodeKey returns (Keys.Order shows that it does).
abbrev pub wildcard : Bytes
wildcard = 0 ∷ []

abbrev pub index_name : Bytes
index_name = codes "index"

abbrev pub leader_index_name : Bytes
leader_index_name = codes "leader_index"

abbrev of_result : Result Bytes → Bytes
of_result (ok b) = b
of_result _ = []

unfoldable pub sys_local_index : Bytes
unfolding must_encode_key
sys_local_index = of_result (
    must_encode_key
      (record { version = unknown_version; key_type = type_system; key = index_name }))

unfoldable pub sys_leader_index : Bytes
unfolding must_encode_key
sys_leader_index = of_result (
    must_encode_key
      (record { version = unknown_version; key_type = type_system; key = leader_index_name }))

unfoldable pub max_user_key : Bytes
unfolding must_encode_key v1_max_key
max_user_key =
    of_result (
      must_encode_key
        (record { version = unknown_version; key_type = type_user; key = v1_max_key }))

-- prependByte: append a zero, shift by one place, write the first byte.
unfoldable pub prepend_byte : Bytes → ℕ → Bytes
prepend_byte x y = y ∷ take (length x) (x ++ 0 ∷ [])

-- The loop of incrementRightmostByte, with i + 1 rounds left.
increment_loop : ℕ → Bytes → Bytes
unfolding prepend_byte
increment_loop zero x = x
increment_loop (suc i) x =
    let y = set x i ((get_or x i 0 + 1) % 256) in
    let rest = increment_loop i y in
    if not (get_or y i 0 == 0) then y else if i == 0 then prepend_byte y 1 else rest

-- incrementRightmostByte
unfoldable pub increment_rightmost_byte : Bytes → Bytes
unfolding increment_loop
increment_rightmost_byte x = increment_loop (length x) x

-- The upper bound of a range whose end is the wildcard.
unfoldable pub max_bound : Bytes
unfolding increment_rightmost_byte max_user_key
max_bound = increment_rightmost_byte max_user_key
