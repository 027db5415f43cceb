-- ===== src/Manager/Leases.antt =====
-- Leases under updates of other nodes.
use regatta.Prelude.{
  ℕ, ◌+◌, ◌≡◌, ◌<◌, ◌⊎◌, refl, ap, Bool, true, false, ◌||◌, Option, none, some, ltb, ◌==◌,
  if◌then◌else◌, inl, inr, arith,
}
use regatta.Bytes.{Bytes}
use regatta.Result.{Result, ok, err, panic, lease_not_acquired}
use regatta.Action.{Action, ◌>>=◌, lift}
use regatta.Action.Success.{next-lift, lift-next}
use regatta.Kv
use regatta.Kv.{Pair, Json}
use regatta.Manager.{
  Text, Lease, lease_key, get_or_missing, may_lease, write_lease, version_of, lease_table,
}
use regatta.Manager.Shared.{Shared, catch_up, shared_store}
use regatta.Manager.Shared.Swap.{IsStamped, set-Swapped}

-- A key that a node may take: it is free, or holds a lease of the node or one that ended.
abbrev pub IsDue : Text → ℕ → ℕ → Option Pair → Type 0
IsDue text node_id now none = Unit
IsDue text node_id now (some p) =
    (l : Lease) × (text.unmarshal_lease p.value ≡ ok l) × ((l.id ≡ node_id) ⊎ (l.until < now))

module _ (json : Json) (text : Text) where
  pub get_or_missing_lem :
      (key : Bytes) (s : Shared)
      → get_or_missing (shared_store json) text key s
        ≡ (catch_up json s, ok ((catch_up json s).pairs key))
  unfolding Kv.get
  get_or_missing_lem key s = by_held ((catch_up json s).pairs key) refl
    where
      by_held :
          (o : Option Pair)
          → (catch_up json s).pairs key ≡ o
          → get_or_missing (shared_store json) text key s ≡ (catch_up json s, ok o)
      by_held none e = rw (Kv.get, e) refl
      by_held (some p) e = rw (Kv.get, e) refl

  may_lease-IsDue :
      (node_id now : ℕ) (o : Option Pair)
      → may_lease (shared_store json) text node_id now o ≡ ok true
      → IsDue text node_id now o
  may_lease-IsDue node_id now none e = tt
  may_lease-IsDue node_id now (some p) e = by_lease (text.unmarshal_lease p.value) refl e
    where
      by_lease :
          (r : Result Lease)
          → text.unmarshal_lease p.value ≡ r
          → (elim r [
            | ok l ↦ ok (l.id == node_id || ltb l.until now)
            | err x ↦ err x
            | panic ↦ panic
          ])
            ≡ ok true
          → IsDue text node_id now (some p)
      by_lease (ok l) q h = (l, q, ground (arith, h))
      by_lease (err x) q h = ground (arith, h)
      by_lease panic q h = ground (arith, h)

  -- If LeaseTable succeeds on a store with the versions of its log, then whatever other nodes wrote
  -- before it and between its read and its write, the key of the lease was, just before the write, free,
  -- or it held a lease of the node itself, or one that had ended; and after the write it holds the lease
  -- of the node, until the time asked for.
  pub lease_table-IsDue :
      (s t : Shared) (node_id now : ℕ) (name : Bytes) (duration : ℕ)
      → IsStamped s
      → lease_table (shared_store json) text node_id now name duration s ≡ (t, ok tt)
      → IsDue text node_id now ((catch_up json (catch_up json s)).pairs (lease_key name))
        × ((b : Bytes) × (text.marshal_lease (record { id = node_id; until = now + duration })
              ≡ ok b)
            × (t.pairs (lease_key name)
                ≡ some (record { key = lease_key name; value = b; ver = t.index })))
  unfolding lease_table
  lease_table-IsDue s t node_id now name duration h e = by_free (
      lift-next (may_lease (shared_store json) text node_id now read) if_free u t tt
        (rw (get_or_missing_lem key s) at e))
    where
      key : Bytes
      key = lease_key name

      u : Shared
      u = catch_up json s

      read : Option Pair
      read = u.pairs key

      new : Lease
      new = record { id = node_id; until = now + duration }

      if_free : Bool → Action Shared (Unit {0})
      if_free free =
          if free
          then write_lease (shared_store json) text key new (version_of read)
          else lift (err lease_not_acquired)

      stays :
          IsDue text node_id now read
          → ((catch_up json u).pairs key ≡ none) ⊎ ((catch_up json u).pairs key ≡ read)
          → IsDue text node_id now ((catch_up json u).pairs key)
      stays due (inl free) = rw free tt
      stays due (inr same) = rw same due

      by_free :
          (free : Bool) × (may_lease (shared_store json) text node_id now read ≡ ok free)
            × (if_free free u ≡ (t, ok tt))
          → IsDue text node_id now ((catch_up json u).pairs key)
            × ((b : Bytes) × (text.marshal_lease new ≡ ok b)
                × (t.pairs key ≡ some (record { key = key; value = b; ver = t.index })))
      by_free (false, q, f) = ground (arith, ap (λ y. y.1) f)
      by_free (true, q, f) =
          let (b, m, g) =
            lift-next (text.marshal_lease new)
              (λ bts. ◌>>=◌ ((shared_store json).set key bts (version_of read)) λ p. lift (ok tt)) u
              t tt f in
          let (p, done, _) =
            next-lift tt tt ((shared_store json).set key b (version_of read) u) t g in
          let swapped = set-Swapped json s t key b p h done in
          (stays (may_lease-IsDue node_id now read q) swapped.unchanged, (b, m, swapped.written))
