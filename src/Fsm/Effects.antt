-- ===== src/Fsm/Effects.antt =====
-- What handlePut and handleDelete do, for any database and any batch.
use regatta.Prelude.{
  ◌≡◌, ◌≢◌, refl, ◌⊎◌, true, false, ◌||◌, Option, none, some, arith, if◌then◌else◌, Bool-cases,
  Option-cases, inl, inr,
}
use regatta.Bytes.{Bytes, equal}
use regatta.Result.{Result, ok, err, panic, split, is_ok, is_err, is_panic}
use regatta.Result.Ensures.{Ensures, absurd_of}
use regatta.Pebble.{Pebble, PebbleLaws}
use regatta.Pebble.OrderedMap.{Entries, insert}
use regatta.Fsm.Keys.Order.{user_key}
use regatta.Fsm.Query.Page.{IsPage, iterate-IsPage}
use regatta.Fsm.Query.Total.{range-IsDecodable}
use regatta.Fsm.Messages.{
  KeyValue, RequestPut, RequestDeleteRange, ResponsePut, ResponseDeleteRange, ResponseRange,
}
use regatta.Fsm.Context.{UpdateContext}
use regatta.Fsm.Put.{handle_put}
use regatta.Fsm.Delete.{handle_delete}
use regatta.Fsm.Spec.{
  value_of, put_change, delete_change, delete_to, between, read, delete_request_range,
  delete_response, nothing_deleted,
}
use regatta.Fsm.Spec.Effects.{
  is_named, without, value_of-insert, value_of-without, SameSystem, insert-SameSystem,
  without-SameSystem,
}
use regatta.Fsm.Refinement.{IsReady, SameContext, Refines}
use regatta.Fsm.Refinement.Puts.{handle_put-Refines}
use regatta.Fsm.Refinement.Deletes.{handle_delete-Refines}

module _ (p : Pebble) (laws : PebbleLaws p) where
  open laws use {view}

  -- What the handler returns where its specification returns a value.
  returns :
      {R : Type 0} (c : UpdateContext p) (h : Result (UpdateContext p × R)) (m : Entries) (r : R)
      (Q : UpdateContext p × R → Type 0)
      → Refines p laws c h (ok (m, r))
      → ((c' : UpdateContext p) → SameContext p laws c c' → view c'.batch ≡ m → Q (c', r))
      → Ensures Q h
  returns c (ok (c', r')) m r Q k f = rw k.2 (f c' k.0 k.1)
  returns c (err e) m r Q k f = absurd k
  returns c panic m r Q k f = absurd k

  panics :
      {R : Type 0} (c : UpdateContext p) (h : Result (UpdateContext p × R))
      → Refines p laws c h panic
      → h ≡ panic
  panics c (ok x) k = absurd k
  panics c (err e) k = absurd k
  panics c panic k = refl

  -- The pair that a put reports, from the value that the key had.
  abbrev pub previous_kv : RequestPut → Option Bytes → Option KeyValue
  previous_kv put none = none
  previous_kv put (some v) =
      if put.prev_kv then some (record { key = put.key; value = v }) else none

  -- After a put that succeeded: the key has the new value, every other user key and the system keys
  -- keep theirs, and the response has the previous pair if it was asked for.
  pub record PutDone (put : RequestPut) (m m' : Entries) (r : ResponsePut) : Type 0 where
    pub values :
        (j : Bytes) → value_of j m' ≡ (if equal put.key j then some put.value else value_of j m)
    pub system : SameSystem m m'
    pub reported : r.prev_kv ≡ previous_kv put (value_of put.key m)

  put_change_lem :
      (put : RequestPut) (m : Entries)
      → (put.prev_kv ≡ false) ⊎ (value_of put.key m ≢ none)
      → (r : ResponsePut) × (put_change put m ≡ ok (insert (user_key put.key) put.value m, r))
        × (r.prev_kv ≡ previous_kv put (value_of put.key m))
  unfolding put_change
  put_change_lem put m h = elim (Option-cases (value_of put.key m)) [
    | inl e ↦ (record { prev_kv = none }, ground (arith, e), rw e)
    | inr (v, e) ↦ (record { prev_kv = previous_kv put (some v) }, rw e (ground arith), rw e)
  ]

  -- On a database with PebbleLaws, handlePut on any context whose batch was made for its database: if no previous pair is asked for,
  -- or the key exists, it returns with PutDone.
  pub handle_put-PutDone :
      (c : UpdateContext p) (put : RequestPut)
      → IsReady p laws c
      → (put.prev_kv ≡ false) ⊎ (value_of put.key (view c.batch) ≢ none)
      → Ensures
          (λ x. SameContext p laws c x.0 × PutDone put (view c.batch) (view x.0.batch) x.1)
          (handle_put p c put)
  handle_put-PutDone c put h a =
      let (r, e, reported) = put_change_lem put (view c.batch) a in
      returns c (handle_put p c put) _ r _ (rw e at (handle_put-Refines p laws c put h))
        λ c' same shown. (
          same,
          rw shown (record {
            values = λ j. value_of-insert put.key j put.value (view c.batch);
            system = insert-SameSystem put.key put.value (view c.batch);
            reported = reported;
          }),
        )

  put_change-panic :
      (put : RequestPut) (m : Entries)
      → put.prev_kv ≡ true
      → value_of put.key m ≡ none
      → put_change put m ≡ panic
  unfolding put_change
  put_change-panic put m b e = rw (b, e)

  -- On a database with PebbleLaws, and from a batch that was made for the database of its context:
  -- a put that asks for the previous pair of a key that does not exist panics: singleLookup reports
  -- a missing key by an empty response, and handlePut takes its first pair.
  pub handle_put-panic :
      (c : UpdateContext p) (put : RequestPut)
      → IsReady p laws c
      → put.prev_kv ≡ true
      → value_of put.key (view c.batch) ≡ none
      → handle_put p c put ≡ panic
  handle_put-panic c put h b e =
      panics c (handle_put p c put)
        (rw (put_change-panic put (view c.batch) b e) at (handle_put-Refines p laws c put h))

  -- What a deletion reports: nothing unless a count or the previous pairs were asked for. For a range
  -- it is the count and the pairs of one page of the entries that go; for a key the count is 1
  -- whether the key exists or not.
  abbrev pub IsReport : RequestDeleteRange → Option Bytes → Entries → ResponseDeleteRange → Type 0
  IsReport del none m r = r ≡ delete_response del m
  IsReport del (some end) m r =
      ((del.prev_kv || del.count ≡ false) × (r ≡ nothing_deleted))
      ⊎ ((page : ResponseRange) × IsPage (delete_request_range del (some end))
            (between del.key end m) page
          × (r.deleted ≡ page.count)
          × (r.prev_kvs ≡ page.kvs))

  -- After a deletion: the user keys that it names have no value, every other user key and the system
  -- keys keep theirs.
  pub record DeleteDone (del : RequestDeleteRange) (m m' : Entries) (r : ResponseDeleteRange)
      : Type 0 where
    pub values :
        (j : Bytes) → value_of j m' ≡ (if is_named del del.range_end j then none else value_of j m)
    pub system : SameSystem m m'
    pub reported : IsReport del del.range_end m r

  delete_to_lem :
      (del : RequestDeleteRange) (end : Option Bytes) (m : Entries)
      → (r : ResponseDeleteRange) × (delete_to del end m ≡ ok (without del end m, r))
        × IsReport del end m r
  delete_to_lem del none m = (delete_response del m, refl, refl)
  delete_to_lem del (some end) m = elim (Bool-cases (del.prev_kv || del.count)) [
    | inl e ↦
        let req = delete_request_range del (some end) in
        let paged = iterate-IsPage req (between del.key end m) (range-IsDecodable del.key end m) in
        elim (split (read req m)) [
          | is_ok page q ↦ (
            record { deleted = page.count; prev_kvs = page.kvs },
            rw (e, q),
            inr (page, (rw q at paged), refl, refl),
          )
          | is_err x q ↦ absurd_of (rw q at paged)
          | is_panic q ↦ absurd_of (rw q at paged)
        ]
    | inr e ↦ (nothing_deleted, rw e, inl (e, refl))
  ]

  -- On a database with PebbleLaws, handleDelete on any context whose batch was made for its database returns with DeleteDone: it
  -- never fails.
  pub handle_delete-DeleteDone :
      (c : UpdateContext p) (del : RequestDeleteRange)
      → IsReady p laws c
      → Ensures
          (λ x. SameContext p laws c x.0 × DeleteDone del (view c.batch) (view x.0.batch) x.1)
          (handle_delete p c del)
  unfolding delete_change
  handle_delete-DeleteDone c del h =
      let (r, e, reported) = delete_to_lem del del.range_end (view c.batch) in
      returns c (handle_delete p c del) _ r _ (rw e at (handle_delete-Refines p laws c del h))
        λ c' same shown. (
          same,
          rw shown (record {
            values = λ j. value_of-without del del.range_end j (view c.batch);
            system = without-SameSystem del del.range_end (view c.batch);
            reported = reported;
          }),
        )
