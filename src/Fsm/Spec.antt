-- ===== src/Fsm/Spec.antt =====
-- What the commands promise, as functions on the entries of a table in key order: no batch, no
-- iterator, no buffer. A user key stands in the entries under its stored form.
pub mod Effects
pub mod Users
use regatta.Prelude.{
  ℕ, ◌≡◌, Bool, true, false, not, ◌&&◌, ◌||◌, Option, none, some, List, [], ◌∷◌, ◌++◌, map,
  if◌then◌else◌,
}
use regatta.Bytes.{Bytes, equal}
use regatta.Result.{Result, ok, err, panic, ◌>>=◌}
use regatta.Pebble.OrderedMap
use regatta.Pebble.OrderedMap.{Entries, insert, remove, remove_range, range}
use regatta.Fsm.Keys.{wildcard, max_bound}
use regatta.Fsm.Keys.Order.{user_key}
use regatta.Fsm.Messages.{
  KeyValue, RequestRange, RequestPut, RequestDeleteRange, RequestOp, request_range, request_put,
  request_delete_range, ResponseRange, ResponsePut, ResponseDeleteRange, ResponseOp, response_range,
  response_put, response_delete_range, Compare, Txn, CommandType, CommandFields, Command, Commands,
  command, CommandResult,
}
use regatta.Fsm.Query.{iterate, iter_funcs_from_req, single_response}
use regatta.Fsm.Query.Reads.{bound}
use regatta.Fsm.Compare.{txn_compare_single, compare_entries}
use regatta.Fsm.Put.{first_kv}
use regatta.Fsm.Delete.{deleted_one}
use regatta.Fsm.Command.{
  UpdateResult, result_failure, result_success, deref, put_request, delete_request,
}

-- The entries of [key, range_end).
abbrev pub between : Bytes → Bytes → Entries → Entries
between key range_end m = range (user_key key) (bound range_end) m

-- The value of a user key.
abbrev pub value_of : Bytes → Entries → Option Bytes
value_of key m = OrderedMap.lookup (user_key key) m

abbrev pub read_to : RequestRange → Option Bytes → Entries → Result ResponseRange
read_to req none m = ok (single_response req (value_of req.key m))
read_to req (some range_end) m =
    iterate (between req.key range_end m) req.limit (iter_funcs_from_req req)

abbrev pub read : RequestRange → Entries → Result ResponseRange
read req m = read_to req req.range_end m

-- A key exists and its value passes, or a range has an entry and all its values pass.
abbrev pub holds_to : Compare → Option Bytes → Entries → Bool
holds_to cmp none m = elim (value_of cmp.key m) [ none ↦ false | some v ↦ txn_compare_single cmp v ]
holds_to cmp (some range_end) m = compare_entries cmp (between cmp.key range_end m)

abbrev pub holds : Compare → Entries → Bool
holds cmp m = holds_to cmp cmp.range_end m

unfoldable pub all_hold : List Compare → Entries → Bool
all_hold [] m = true
all_hold (cmp ∷ cmps) m = let rest = all_hold cmps m in if holds cmp m then rest else false

-- Each change has the new entries and its response.
abbrev pub Change : Type 0 → Type 0
Change R = Result (Entries × R)

abbrev pub previous : RequestPut → Option Bytes → Result (Option KeyValue)
previous put none = panic
previous put (some v) = ok (some (record { key = put.key; value = v }))

-- A put that asks for a previous pair which is not there panics.
unfoldable pub put_change : RequestPut → Entries → Change ResponsePut
put_change put m = (if put.prev_kv then previous put (value_of put.key m) else ok none) >>= λ prev.
    ok (insert (user_key put.key) put.value m, record { prev_kv = prev })

abbrev pub delete_request_range : RequestDeleteRange → Option Bytes → RequestRange
delete_request_range del range_end = record {
  key = del.key;
  range_end = range_end;
  limit = 0;
  keys_only = false;
  count_only = del.count && not del.prev_kv;
}

abbrev pub nothing_deleted : ResponseDeleteRange
nothing_deleted = record { deleted = 0; prev_kvs = [] }

abbrev pub delete_response : RequestDeleteRange → Entries → ResponseDeleteRange
delete_response del m =
    if del.prev_kv || del.count
    then deleted_one (some (single_response (delete_request_range del none) (value_of del.key m)))
    else nothing_deleted

abbrev pub delete_range_response : RequestDeleteRange → Bytes → Entries → Result ResponseDeleteRange
delete_range_response del range_end m =
    if del.prev_kv || del.count
    then (read (delete_request_range del (some range_end)) m >>= λ rng.
        ok (record { deleted = rng.count; prev_kvs = rng.kvs }))
    else ok nothing_deleted

abbrev pub delete_to : RequestDeleteRange → Option Bytes → Entries → Change ResponseDeleteRange
delete_to del none m = ok (remove (user_key del.key) m, delete_response del m)
delete_to del (some range_end) m = delete_range_response del range_end m >>= λ resp.
    ok (remove_range (user_key del.key) (bound range_end) m, resp)

unfoldable pub delete_change : RequestDeleteRange → Entries → Change ResponseDeleteRange
delete_change del m = delete_to del del.range_end m

-- Changes one after the other, with their responses in order.
unfoldable pub each {ℓ} :
    {A : Type ℓ} {R : Type 0} → (A → Entries → Change R) → List A → Entries → Change (List R)
each f [] m = ok (m, [])
each f (a ∷ as') m = f a m >>= λ (m', r). each f as' m' >>= λ (m'', rs). ok (m'', r ∷ rs)

abbrev pub op_change : RequestOp → Entries → Change (List ResponseOp)
op_change (request_range o) m = read o m >>= λ r. ok (m, response_range r ∷ [])
op_change (request_put o) m = put_change o m >>= λ (m', r). ok (m', response_put r ∷ [])
op_change (request_delete_range o) m =
    delete_change o m >>= λ (m', r). ok (m', response_delete_range r ∷ [])
op_change RequestOp.unset m = ok (m, [])

unfoldable pub ops_change : List RequestOp → Entries → Change (List ResponseOp)
ops_change [] m = ok (m, [])
ops_change (op ∷ ops) m =
    op_change op m >>= λ (m', r). ops_change ops m' >>= λ (m'', rs). ok (m'', r ++ rs)

-- The branch that the comparisons choose, and which one it is.
unfoldable pub txn_change : Txn → Entries → Change (Bool × List ResponseOp)
txn_change txn m =
    ops_change (if all_hold txn.compare m then txn.success else txn.failure) m >>= λ (m', rs).
    ok (m', (all_hold txn.compare m, rs))

-- A command has new entries, its result and its responses, which carry the index of the log entry.
abbrev pub Outcome : Type 0
Outcome = Change (UpdateResult × CommandResult)

abbrev pub succeed : ℕ → Change (List ResponseOp) → Outcome
succeed index r =
    r >>= λ (m, rs). ok (m, (result_success, record { responses = rs; revision = index }))

unfoldable pub outcome :
    CommandType → ℕ → CommandFields → Entries → Change (List ResponseOp) → Outcome
outcome CommandType.put index f m sequence = deref f.kv >>= λ kv. succeed index (
    put_change (record { key = kv.key; value = kv.value; prev_kv = f.prev_kvs }) m >>= λ (m', r).
    ok (m', response_put r ∷ []))
outcome CommandType.delete index f m sequence = deref f.kv >>= λ kv. succeed index (
    delete_change
      (record { key = kv.key; range_end = f.range_end; prev_kv = f.prev_kvs; count = f.count }) m
    >>= λ (m', r). ok (m', response_delete_range r ∷ []))
outcome CommandType.put_batch index f m sequence =
    succeed index
      (each put_change (map put_request f.batch) m >>= λ (m', rs). ok (m', map response_put rs))
outcome CommandType.delete_batch index f m sequence = succeed index (
    each delete_change (map delete_request f.batch) m >>= λ (m', rs).
    ok (m', map response_delete_range rs))
outcome CommandType.txn index f m sequence = deref f.txn >>= λ txn.
    txn_change txn m >>= λ (m', (succeeded, rs)). ok (
      m',
      (
        if succeeded then result_success else result_failure,
        record { responses = rs; revision = index },
      ),
    )
outcome CommandType.sequence index f m sequence = succeed index sequence
outcome CommandType.dummy index f m sequence = succeed index (ok (m, []))
outcome CommandType.unknown_type index f m sequence = panic

unfoldable mutual
  unfolding outcome

  pub run : ℕ → Command → Entries → Outcome
  run index (command f seq) m = outcome f.type index f m (run_all index seq m)

  pub run_all : ℕ → Commands → Entries → Change (List ResponseOp)
  run_all index Commands.end m = ok (m, [])
  run_all index (Commands.next cmd cmds) m = run index cmd m >>= λ (m', (_, res)).
      run_all index cmds m' >>= λ (m'', rs). ok (m'', res.responses ++ rs)
