-- ===== src/Fsm/Keys/Order.antt =====
-- Where the encoded keys stand in pebble's order.
use regatta.Prelude.{◌≡◌, ◌≢◌, refl, [], ◌∷◌, replicate, arith}
use regatta.Bytes.{Bytes, compare_bytes}
use regatta.Bytes.Order.{compare_bytes-append}
use regatta.Result.{ok}
use regatta.Key.{v1, type_user, type_system}
use regatta.Fsm.Keys.{
  encode_user_key, sys_local_index, sys_leader_index, max_bound, index_name, leader_index_name,
}

-- The stored form of a user key.
abbrev pub user_key : Bytes → Bytes
user_key k = v1 ∷ 0 ∷ 0 ∷ 0 ∷ type_user ∷ k

abbrev pub system_key : Bytes → Bytes
system_key k = v1 ∷ 0 ∷ 0 ∷ 0 ∷ type_system ∷ k

pub encode_user_key_lem : (k : Bytes) → encode_user_key [] k ≡ ok (user_key k)
unfolding encode_user_key
encode_user_key_lem k = refl

-- mustEncodeKey does not panic at the keys of the package's variables.
pub system_keys :
    (sys_local_index ≡ system_key index_name)
    × (sys_leader_index ≡ system_key leader_index_name)
    × (sys_local_index ≢ sys_leader_index)
unfolding sys_local_index sys_leader_index
system_keys = (refl, refl, λ e. ground arith)

-- encodeUserKey keeps the order of the keys: the stored forms of two user keys compare as the keys.
pub compare_bytes-encode_user_key :
    (a b ea eb : Bytes)
    → encode_user_key [] a ≡ ok ea
    → encode_user_key [] b ≡ ok eb
    → compare_bytes ea eb ≡ compare_bytes a b
compare_bytes-encode_user_key a b ea eb ha hb =
    let p : Bytes = v1 ∷ 0 ∷ 0 ∷ 0 ∷ type_user ∷ [] in
    let x : ea ≡ user_key a = ground (arith, encode_user_key_lem a) in
    let y : eb ≡ user_key b = ground (arith, encode_user_key_lem b) in
    rw (x, y) (compare_bytes-append p a b)

pub max_bound_lem : max_bound ≡ v1 ∷ 0 ∷ 0 ∷ 0 ∷ type_system ∷ replicate 1019 0
unfolding max_bound
max_bound_lem = refl
