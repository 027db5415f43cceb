-- ===== src/Kv/Tests.antt =====
-- Two writers of one key, with a codec that reads every entry as the same write of version 3.
use regatta.Prelude.{◌≡◌, refl, ap, some, [], ◌∷◌, ◌++◌, length, take, drop, ℕ, arith}
use regatta.Bytes.{Bytes, compare_bytes}
use regatta.Result.{Result, ok, panic}
use regatta.Fsm.Update.{LogEntry}
use regatta.Kv.{Pair, MapStore, new_map_store, set, op_set, Update, Json, update_store}
use regatta.Kv.Raft.{Host, applied, raft_set, set_outcome, raft_set-applied}
use regatta.Kv.Versions.{IsVersioned, update_store-IsVersioned, update_store-first_wins}

abbrev key_a : Bytes
key_a = 97 ∷ []

abbrev write_a : Update
write_a = record { op = op_set; kv_pair = record { key = key_a; value = 7 ∷ []; ver = 3 } }

abbrev json : Json
json = record { unmarshal = λ b. ok write_a; marshal = λ p. p.ver ∷ [] }

abbrev entry : ℕ → LogEntry
entry i = record { index = i; cmd = []; value = 0; result_data = [] }

-- The key with version 3.
abbrev stored : Pair
stored = record { key = key_a; value = []; ver = 3 }

abbrev one_key : MapStore
one_key = set new_map_store key_a [] 3

one_key-key_a : one_key key_a ≡ some stored
unfolding set compare_bytes
one_key-key_a = refl

new_map_store-IsVersioned : IsVersioned 0 new_map_store
new_map_store-IsVersioned k p e = (ground (arith, e), ground (arith, e))

update_store-IsVersioned_example :
    IsVersioned 5 (update_store json new_map_store (entry 4 ∷ entry 5 ∷ [])).0
update_store-IsVersioned_example =
    update_store-IsVersioned json new_map_store (entry 4 ∷ entry 5 ∷ []) 0
      (omega arith, (omega arith, tt)) new_map_store-IsVersioned

update_store-first_wins_example : update_store json one_key (entry 4 ∷ entry 5 ∷ []) ≡ (
  set one_key key_a (7 ∷ []) 4,
  ok (
      record { index = 4; cmd = []; value = 1; result_data = 4 ∷ [] }
      ∷ record { index = 5; cmd = []; value = 2; result_data = 4 ∷ [] }
      ∷ []),
)
update_store-first_wins_example =
    update_store-first_wins json one_key (entry 4) (entry 5) write_a write_a stored refl refl refl
      refl one_key-key_a refl refl (omega arith)

-- A pair as its version, the length of its key, its key and its value.
abbrev pair_json : Pair → Bytes
pair_json p = p.ver ∷ length p.key ∷ (p.key ++ p.value)

abbrev read_pair : Bytes → Result Pair
read_pair (ver ∷ n ∷ rest) = ok (record { key = take n rest; value = drop n rest; ver = ver })
read_pair _ = panic

take-cut : (xs ys : Bytes) → take (length xs) (xs ++ ys) ≡ xs
take-cut [] ys = refl
take-cut (x ∷ xs) ys = ap (◌∷◌ x) (take-cut xs ys)

drop-cut : (xs ys : Bytes) → drop (length xs) (xs ++ ys) ≡ ys
drop-cut [] ys = refl
drop-cut (x ∷ xs) ys = drop-cut xs ys

read_pair-pair_json : (p : Pair) → read_pair (pair_json p) ≡ ok p
read_pair-pair_json p = rw (take-cut p.key p.value, drop-cut p.key p.value) refl

abbrev pairs : Json
pairs = record { unmarshal = λ b. ok write_a; marshal = pair_json }

-- A node that applies every proposal as the entry 4.
abbrev host : Host
host = record { marshal = λ u. ok []; unmarshal = read_pair; propose = applied pairs one_key 4 }

raft_set-applied_example :
    raft_set host key_a (7 ∷ []) 3 ≡ ok (set_outcome (one_key key_a) write_a.kv_pair 4)
raft_set-applied_example =
    raft_set-applied host pairs one_key write_a.kv_pair 4 [] refl refl read_pair-pair_json refl
