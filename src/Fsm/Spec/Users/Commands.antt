-- ===== src/Fsm/Spec/Users/Commands.antt =====
-- A command does the same to two databases that agree on the user keys, whatever its index is.
use regatta.Prelude.{
  ℕ, ◌≡◌, refl, ap, Bool, Option, none, some, List, [], ◌∷◌, ◌++◌, map, if◌then◌else◌,
}
use regatta.Bytes.{Bytes}
use regatta.Result.{Result, ok, err, panic, ◌>>=◌}
use regatta.Pebble.OrderedMap.{Entries, insert, remove_range}
use regatta.Fsm.Keys.Order.{user_key}
use regatta.Fsm.Query.Reads.{bound}
use regatta.Fsm.Messages.{
  KeyValue, RequestRange, RequestPut, RequestDeleteRange, RequestOp, request_range, request_put,
  request_delete_range, ResponseRange, ResponsePut, ResponseDeleteRange, ResponseOp, response_range,
  response_put, response_delete_range, Compare, Txn, CommandType, CommandFields, Command, Commands,
  command,
}
use regatta.Fsm.Command.{
  UpdateResult, result_success, result_failure, deref, put_request, delete_request,
}
use regatta.Fsm.Compare.{compare_entries}
use regatta.Fsm.Spec.{
  Change, Outcome, previous, value_of, delete_request_range, read, read_to, holds, holds_to,
  all_hold, put_change, delete_change, delete_to, delete_range_response, each, op_change,
  ops_change, txn_change, succeed, outcome, run, run_all,
}
use regatta.Fsm.Spec.Users.{
  SameUsers, same-value_of, same-between, insert-SameUsers, remove-SameUsers,
  remove_range-SameUsers,
}

-- Two changes end alike: both succeed with the same response on databases that agree, or both fail in
-- the same way.
abbrev pub Alike : {R : Type 0} → Change R → Change R → Type 0
Alike (ok (m, r)) (ok (n, s)) = SameUsers m n × (r ≡ s)
Alike (err e) (err e') = e ≡ e'
Alike panic panic = Unit
Alike _ _ = ⊥

Alike-bind :
    {R S : Type 0} (a b : Change R) (f g : Entries × R → Change S)
    → Alike a b
    → ((m n : Entries) (r : R) → SameUsers m n → Alike (f (m, r)) (g (n, r)))
    → Alike (a >>= f) (b >>= g)
Alike-bind (ok (m, r)) (ok (n, s)) f g h k = rw (← h.1) (k m n r h.0)
Alike-bind (ok _) (err _) f g h k = absurd h
Alike-bind (ok _) panic f g h k = absurd h
Alike-bind (err e) (err e') f g h k = h
Alike-bind (err e) (ok _) f g h k = absurd h
Alike-bind (err e) panic f g h k = absurd h
Alike-bind panic panic f g h k = tt
Alike-bind panic (ok _) f g h k = absurd h
Alike-bind panic (err _) f g h k = absurd h

-- The responses without the revision that they carry.
abbrev pub responses : Outcome → Change (UpdateResult × List ResponseOp)
responses o = o >>= λ (m, (u, res)). ok (m, (u, res.responses))

-- A value computed the same way on both sides, before a change.
Alike-after :
    {A R : Type 0} (x : Result A) (f g : A → Change R)
    → ((a : A) → Alike (f a) (g a))
    → Alike (x >>= f) (x >>= g)
Alike-after (ok a) f g h = h a
Alike-after (err e) f g h = refl
Alike-after panic f g h = tt

module _ {m n : Entries} (s : SameUsers m n) where
  same-read : (o : RequestRange) → read o m ≡ read o n
  same-read o = by_end o.range_end
    where
      by_end : (end : Option Bytes) → read_to o end m ≡ read_to o end n
      by_end none = rw (same-value_of s o.key) refl
      by_end (some end) = rw (same-between s o.key end) refl

  same-holds : (c : Compare) → holds c m ≡ holds c n
  same-holds c = by_end c.range_end
    where
      by_end : (end : Option Bytes) → holds_to c end m ≡ holds_to c end n
      by_end none = rw (same-value_of s c.key, holds_to) refl
      by_end (some end) = ap (compare_entries c) (same-between s c.key end)

  same-all_hold : (cs : List Compare) → all_hold cs m ≡ all_hold cs n
  unfolding all_hold
  same-all_hold [] = refl
  same-all_hold (c ∷ cs) = rw (same-holds c, same-all_hold cs) refl

  put_change-Alike : (put : RequestPut) → Alike (put_change put m) (put_change put n)
  unfolding put_change
  put_change-Alike put =
      rw (put_change, same-value_of s put.key)
        (Alike-after (if put.prev_kv then previous put (value_of put.key n) else ok none) (finish m)
          (finish n) (λ prev. (insert-SameUsers s put.key put.value, refl)))
    where
      finish : Entries → Option KeyValue → Change ResponsePut
      finish l prev = ok (insert (user_key put.key) put.value l, record { prev_kv = prev })

  delete_change-Alike :
      (del : RequestDeleteRange) → Alike (delete_change del m) (delete_change del n)
  unfolding delete_change
  delete_change-Alike del = by_end del.range_end
    where
      finish : Bytes → Entries → ResponseDeleteRange → Change ResponseDeleteRange
      finish end l resp = ok (remove_range (user_key del.key) (bound end) l, resp)

      counted : (end : Bytes) → delete_range_response del end m ≡ delete_range_response del end n
      counted end = rw (same-read (delete_request_range del (some end))) refl

      by_end : (end : Option Bytes) → Alike (delete_to del end m) (delete_to del end n)
      by_end none = (remove-SameUsers s (user_key del.key), rw (same-value_of s del.key) refl)
      by_end (some end) = rw (counted end) (
          Alike-after (delete_range_response del end n) (finish end m) (finish end n)
            (λ resp. (remove_range-SameUsers s (user_key del.key) (bound end), refl)))

each-Alike :
    {A R : Type 0} (f : A → Entries → Change R)
    → ((a : A) (m n : Entries) → SameUsers m n → Alike (f a m) (f a n))
    → (l : List A) (m n : Entries) → SameUsers m n
    → Alike (each f l m) (each f l n)
unfolding each
each-Alike f h [] m n s = (s, refl)
each-Alike f h (a ∷ l) m n s = Alike-bind (f a m) (f a n) _ _ (h a m n s) λ m' n' r t.
    Alike-bind (each f l m') (each f l n') _ _ (each-Alike f h l m' n' t) λ m'' n'' rs u. (u, refl)

op_change-Alike :
    (op : RequestOp) (m n : Entries) → SameUsers m n → Alike (op_change op m) (op_change op n)
op_change-Alike (request_range o) m n s =
    rw (same-read s o) (Alike-after (read o n) (reply m) (reply n) (λ r. (s, refl)))
  where
    reply : Entries → ResponseRange → Change (List ResponseOp)
    reply l r = ok (l, response_range r ∷ [])
op_change-Alike (request_put o) m n s =
    Alike-bind (put_change o m) (put_change o n) _ _ (put_change-Alike s o) λ m' n' r t. (t, refl)
op_change-Alike (request_delete_range o) m n s =
    Alike-bind (delete_change o m) (delete_change o n) _ _ (delete_change-Alike s o)
      λ m' n' r t. (t, refl)
op_change-Alike RequestOp.unset m n s = (s, refl)

ops_change-Alike :
    (ops : List RequestOp) (m n : Entries)
    → SameUsers m n
    → Alike (ops_change ops m) (ops_change ops n)
unfolding ops_change
ops_change-Alike [] m n s = (s, refl)
ops_change-Alike (op ∷ ops) m n s =
    Alike-bind (op_change op m) (op_change op n) _ _ (op_change-Alike op m n s) λ m' n' r t.
      Alike-bind (ops_change ops m') (ops_change ops n') _ _ (ops_change-Alike ops m' n' t)
        λ m'' n'' rs u. (u, refl)

txn_change-Alike :
    (txn : Txn) (m n : Entries) → SameUsers m n → Alike (txn_change txn m) (txn_change txn n)
unfolding txn_change
txn_change-Alike txn m n s =
    rw (txn_change, same-all_hold s txn.compare)
      (Alike-bind (ops_change chosen m) (ops_change chosen n) _ _ (ops_change-Alike chosen m n s)
        λ m' n' rs t. (t, refl))
  where
    chosen : List RequestOp
    chosen = if all_hold txn.compare n then txn.success else txn.failure

-- The responses of a command that succeeds are those of its change.
responses-succeed :
    (index : ℕ) (c : Change (List ResponseOp))
    → responses (succeed index c) ≡ (c >>= λ (m, rs). ok (m, (result_success, rs)))
responses-succeed index (ok c) = refl
responses-succeed index (err e) = refl
responses-succeed index panic = refl

succeed-Alike :
    (i j : ℕ) (a b : Change (List ResponseOp))
    → Alike a b
    → Alike (responses (succeed i a)) (responses (succeed j b))
succeed-Alike i j a b h =
    rw (responses-succeed i a, responses-succeed j b) (Alike-bind a b _ _ h λ m n rs t. (t, refl))

-- A change with its responses made of its result.
map-Alike :
    {R : Type 0} (f : R → List ResponseOp) (a b : Change R)
    → Alike a b
    → Alike (a >>= λ (m, r). ok (m, f r)) (b >>= λ (m, r). ok (m, f r))
map-Alike f a b h = Alike-bind a b _ _ h λ m n r t. (t, refl)

-- A value computed the same way on both sides, before a command's change.
responses-after :
    {A : Type 0} (x : Result A) (f g : A → Outcome)
    → ((a : A) → Alike (responses (f a)) (responses (g a)))
    → Alike (responses (x >>= f)) (responses (x >>= g))
responses-after (ok a) f g h = h a
responses-after (err e) f g h = refl
responses-after panic f g h = tt

>>=-assoc :
    {A B C : Type 0} (a : Result A) (f : A → Result B) (g : B → Result C)
    → (a >>= f >>= g) ≡ (a >>= λ x. f x >>= g)
>>=-assoc (ok a) f g = refl
>>=-assoc (err e) f g = refl
>>=-assoc panic f g = refl

-- What a transaction reports.
abbrev report : ℕ → Entries × (Bool × List ResponseOp) → Outcome
report index (m, (succeeded, rs)) = ok (
  m,
  (
    if succeeded then result_success else result_failure,
    record { responses = rs; revision = index },
  ),
)

report-Alike :
    (i j : ℕ) (a b : Change (Bool × List ResponseOp))
    → Alike a b
    → Alike (responses (a >>= report i)) (responses (b >>= report j))
report-Alike i j a b h =
    rw (>>=-assoc a (report i) _, >>=-assoc b (report j) _)
      (Alike-bind a b _ _ h λ m n r t. (t, refl))

outcome-Alike :
    (t : CommandType) (i j : ℕ) (f : CommandFields) (m n : Entries) (a b : Change (List ResponseOp))
    → SameUsers m n
    → Alike a b
    → Alike (responses (outcome t i f m a)) (responses (outcome t j f n b))
unfolding outcome
outcome-Alike CommandType.put i j f m n a b s h =
    responses-after (deref f.kv) _ _
      λ kv. succeed-Alike i j _ _ (map-Alike (λ r. response_put r ∷ []) _ _ (put_change-Alike s _))
outcome-Alike CommandType.delete i j f m n a b s h = responses-after (deref f.kv) _ _ λ kv.
    succeed-Alike i j _ _
      (map-Alike (λ r. response_delete_range r ∷ []) _ _ (delete_change-Alike s _))
outcome-Alike CommandType.put_batch i j f m n a b s h = succeed-Alike i j _ _ (
    map-Alike (map response_put) _ _
      (each-Alike put_change (λ a m n t. put_change-Alike t a) (map put_request f.batch) m n s))
outcome-Alike CommandType.delete_batch i j f m n a b s h = succeed-Alike i j _ _ (
    map-Alike (map response_delete_range) _ _ (
      each-Alike delete_change (λ a m n t. delete_change-Alike t a) (map delete_request f.batch) m n
        s))
outcome-Alike CommandType.txn i j f m n a b s h =
    responses-after (deref f.txn) _ _
      λ txn. report-Alike i j (txn_change txn m) (txn_change txn n) (txn_change-Alike txn m n s)
outcome-Alike CommandType.sequence i j f m n a b s h = succeed-Alike i j a b h
outcome-Alike CommandType.dummy i j f m n a b s h = (s, refl)
outcome-Alike CommandType.unknown_type i j f m n a b s h = tt

-- The rest of a sequence, after one command.
run_all-after :
    (i j : ℕ) (x y : Outcome) (k l : Entries → Change (List ResponseOp))
    → Alike (responses x) (responses y)
    → ((m n : Entries) → SameUsers m n → Alike (k m) (l n))
    → Alike
        (x >>= λ (m', (_, res)). k m' >>= λ (m'', rs). ok (m'', res.responses ++ rs))
        (y >>= λ (m', (_, res)). l m' >>= λ (m'', rs). ok (m'', res.responses ++ rs))
run_all-after i j (ok (m, (u, r))) (ok (n, (v, q))) k l h g =
    rw (ap (λ x. x.1) h.1) (Alike-bind (k m) (l n) _ _ (g m n h.0) λ m'' n'' rs t. (t, refl))
run_all-after i j (ok _) (err _) k l h g = absurd h
run_all-after i j (ok _) panic k l h g = absurd h
run_all-after i j (err e) (err e') k l h g = h
run_all-after i j (err e) (ok _) k l h g = absurd h
run_all-after i j (err e) panic k l h g = absurd h
run_all-after i j panic panic k l h g = tt
run_all-after i j panic (ok _) k l h g = absurd h
run_all-after i j panic (err _) k l h g = absurd h

mutual
  unfolding run run_all

  -- A command at any indexes ends alike on databases that agree on the user keys.
  pub run-Alike :
      (c : Command) (i j : ℕ) (m n : Entries)
      → SameUsers m n
      → Alike (responses (run i c m)) (responses (run j c n))
  run-Alike (command f seq) i j m n s =
      outcome-Alike f.type i j f m n (run_all i seq m) (run_all j seq n) s
        (run_all-Alike seq i j m n s)

  pub run_all-Alike :
      (cs : Commands) (i j : ℕ) (m n : Entries)
      → SameUsers m n
      → Alike (run_all i cs m) (run_all j cs n)
  run_all-Alike Commands.end i j m n s = (s, refl)
  run_all-Alike (Commands.next c cs) i j m n s =
      run_all-after i j (run i c m) (run j c n) (run_all i cs) (run_all j cs)
        (run-Alike c i j m n s) (λ m' n' t. run_all-Alike cs i j m' n' t)
