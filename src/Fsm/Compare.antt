-- ===== src/Fsm/Compare.antt =====
-- txnCompare and txnCompareSingle of storage/table/fsm/command_txn.go.
pub mod Meaning
pub mod Decides
use regatta.Prelude.{
  ℕ, ◌≡◌, Bool, true, false, not, ◌&&◌, Option, none, some, List, [], ◌∷◌, if◌then◌else◌,
}
use regatta.Bytes.{Bytes, equal, less, greater}
use regatta.Result.{Result, Error, ok, err, panic, ◌>>=◌, not_found}
use regatta.Pebble.{Reader}
use regatta.Pebble.OrderedMap.{Entries}
use regatta.Fsm.Keys.{encode_user_key}
use regatta.Fsm.Messages.{Compare, CompareResult, CompareTarget}
use regatta.Fsm.Query.{iter_options_for_bounds}

-- The switch on cmp.Result.
abbrev pub compare_value : CompareResult → Bytes → Bytes → Bool
compare_value CompareResult.equal value target = equal value target
compare_value CompareResult.not_equal value target = not (equal value target)
compare_value CompareResult.greater value target = greater value target
compare_value CompareResult.less value target = less value target
compare_value CompareResult.unknown_result value target = true

abbrev pub compare_target : CompareTarget → CompareResult → Option Bytes → Bytes → Bool
compare_target CompareTarget.value result (some target) value = compare_value result value target
compare_target CompareTarget.value result none value = true
compare_target CompareTarget.unknown_target result target value = true

-- txnCompareSingle
unfoldable pub txn_compare_single : Compare → Bytes → Bool
txn_compare_single cmp value = compare_target cmp.target cmp.result cmp.target_union value

-- The loop over the iterator.
unfoldable pub all_compare : Compare → Entries → Bool
all_compare cmp [] = true
all_compare cmp ((k, v) ∷ m) =
    let rest = all_compare cmp m in if txn_compare_single cmp v then rest else false

-- `First` fails on a range with no entry.
abbrev pub compare_entries : Compare → Entries → Bool
compare_entries cmp [] = false
compare_entries cmp (e ∷ m) = all_compare cmp (e ∷ m)

-- The comparison of a range. The buffer for the keys is left as it is.
compare_range : Reader → Compare → Bytes → Bytes → Result (Bytes × Bool)
unfolding all_compare
compare_range reader cmp range_end key_buf = do
  (lower, upper) ← iter_options_for_bounds cmp.key range_end
  ok (key_buf, compare_entries cmp (reader.iter (some lower) (some upper)))

-- What the comparison of one key does with the result of Get; a success resets the buffer.
abbrev compare_got : Compare → Bytes → Result Bytes → Result (Bytes × Bool)
compare_got cmp key_buf (ok value) =
    if txn_compare_single cmp value then ok ([], true) else ok (key_buf, false)
compare_got cmp key_buf (err Error.not_found) = ok (key_buf, false)
compare_got cmp key_buf (err e) = err e
compare_got cmp key_buf panic = panic

compare_key : Reader → Compare → Bytes → Result (Bytes × Bool)
compare_key reader cmp key_buf = do
  key ← encode_user_key key_buf cmp.key
  compare_got cmp key (reader.get key)

compare_one : Reader → Compare → Option Bytes → Bytes → Result (Bytes × Bool)
unfolding compare_range compare_key
compare_one reader cmp (some range_end) key_buf = compare_range reader cmp range_end key_buf
compare_one reader cmp none key_buf = compare_key reader cmp key_buf

-- The loop over the comparisons, which share one buffer.
compare_loop : Reader → List Compare → Bytes → Result Bool
unfolding compare_one
compare_loop reader [] key_buf = ok true
compare_loop reader (cmp ∷ rest) key_buf =
    compare_one reader cmp cmp.range_end key_buf >>= λ (key_buf', res).
    let later = compare_loop reader rest key_buf' in if res then later else ok false

-- txnCompare
unfoldable pub txn_compare : Reader → List Compare → Result Bool
unfolding compare_loop
txn_compare reader compare = compare_loop reader compare []
