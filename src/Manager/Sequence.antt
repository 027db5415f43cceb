-- ===== src/Manager/Sequence.antt =====
-- The identifiers of tables under updates of other nodes.
use regatta.Prelude.{
  ℕ, ◌+◌, ◌%◌, ◌^◌, ◌<◌, ◌≡◌, ◌⊎◌, sym, ap, ◌∙◌, Option, none, some, inl, inr, arith,
}
use regatta.Result.{ok, ok_inj}
use regatta.Action.Success.{next-lift, lift-next}
use regatta.Kv.{Pair, Json}
use regatta.Manager.{
  Text, sequence_key, version_of, current_sequence, write_next, inc_and_get_id_seq,
  table_ids_range_start,
}
use regatta.Manager.Shared.{Shared, catch_up, shared_store}
use regatta.Manager.Shared.Swap.{IsStamped, set-Swapped}
use regatta.Manager.Leases.{get_or_missing_lem}

module _ (json : Json) (text : Text) where
  -- A success keeps the versions.
  pub inc_and_get_id_seq-IsStamped :
      (s t : Shared) (id : ℕ)
      → IsStamped s
      → inc_and_get_id_seq (shared_store json) text s ≡ (t, ok id)
      → IsStamped t
  unfolding inc_and_get_id_seq
  inc_and_get_id_seq-IsStamped s t id h e =
      let (curr, _, f) =
        lift-next (current_sequence (shared_store json) text read)
          (write_next (shared_store json) text (version_of read)) (catch_up json s) t id
          (rw (get_or_missing_lem json text sequence_key s) at e) in
      let (p, done, i) =
        next-lift ((curr + 1) % 2 ^ 64) id
          ((shared_store json).set sequence_key (text.format_uint ((curr + 1) % 2 ^ 64))
            (version_of read) (catch_up json s))
          t f in
      (set-Swapped json s t sequence_key _ p h done).stamped
    where
      read : Option Pair
      read = (catch_up json s).pairs sequence_key

  -- The number that is returned, by what is parsed of the one that the store held just before the write.
  inc_and_get_id_seq-parsed :
      (s t : Shared) (id : ℕ)
      → IsStamped s
      → ((catch_up json (catch_up json s)).pairs sequence_key ≡ none
          → (catch_up json s).pairs sequence_key ≡ none)
      → inc_and_get_id_seq (shared_store json) text s ≡ (t, ok id)
      → ((curr : ℕ) × (current_sequence
              (shared_store json)
              text
              ((catch_up json (catch_up json s)).pairs sequence_key)
            ≡ ok curr)
          × ((curr + 1) % 2 ^ 64 ≡ id))
        × (t.pairs sequence_key
            ≡ some (record { key = sequence_key; value = text.format_uint id; ver = t.index }))
  unfolding inc_and_get_id_seq
  inc_and_get_id_seq-parsed s t id h kept e = by_number (
      lift-next (current_sequence (shared_store json) text read)
        (write_next (shared_store json) text (version_of read)) u t id
        (rw (get_or_missing_lem json text sequence_key s) at e))
    where
      u : Shared
      u = catch_up json s

      read : Option Pair
      read = u.pairs sequence_key

      held : Option Pair
      held = (catch_up json u).pairs sequence_key

      same : (held ≡ none) ⊎ (held ≡ read) → held ≡ read
      same (inl free) = free ∙ sym (kept free)
      same (inr x) = x

      by_number :
          (curr : ℕ) × (current_sequence (shared_store json) text read ≡ ok curr)
            × (write_next (shared_store json) text (version_of read) curr u ≡ (t, ok id))
          → ((curr : ℕ) × (current_sequence (shared_store json) text held ≡ ok curr)
              × ((curr + 1) % 2 ^ 64 ≡ id))
            × (t.pairs sequence_key
                ≡ some (record { key = sequence_key; value = text.format_uint id; ver = t.index }))
      by_number (curr, q, f) =
          let (p, done, i) =
            next-lift ((curr + 1) % 2 ^ 64) id
              ((shared_store json).set sequence_key (text.format_uint ((curr + 1) % 2 ^ 64))
                (version_of read) u)
              t f in
          let swapped = set-Swapped json s t sequence_key _ p h done in
          ((curr, rw (same swapped.unchanged) q, i), rw (sym i) swapped.written)

  -- What the store holds of the number: nothing for 10000, or its text.
  abbrev pub HoldsNumber : ℕ → Option Pair → Type 0
  HoldsNumber n none = n ≡ table_ids_range_start
  HoldsNumber n (some p) = p.value ≡ text.format_uint n

  -- If ParseUint reads what FormatUint wrote, for numbers below 2 ^ 64, and incAndGetIDSeq succeeds on a
  -- store with the versions of its log, in which no other node deletes the number, then whatever other
  -- nodes wrote before it and between its read and its write: if the store held `n` just before the
  -- write, as its text, or none for 10000, the result is n + 1, modulo 2 ^ 64, and afterwards the store
  -- holds the text of the result.
  pub inc_and_get_id_seq-next :
      (s t : Shared) (id n : ℕ)
      → ((k : ℕ) → k < 2 ^ 64 → text.parse_uint (text.format_uint k) ≡ ok k)
      → IsStamped s
      → ((catch_up json (catch_up json s)).pairs sequence_key ≡ none
          → (catch_up json s).pairs sequence_key ≡ none)
      → n < 2 ^ 64
      → HoldsNumber n ((catch_up json (catch_up json s)).pairs sequence_key)
      → inc_and_get_id_seq (shared_store json) text s ≡ (t, ok id)
      → (id ≡ (n + 1) % 2 ^ 64)
        × (t.pairs sequence_key
            ≡ some (record { key = sequence_key; value = text.format_uint id; ver = t.index }))
  inc_and_get_id_seq-next s t id n parses h kept small holds e =
      let ((curr, read, next), wrote) = inc_and_get_id_seq-parsed s t id h kept e in
      let parsed : curr ≡ n =
        ok_inj (sym read ∙ by_held ((catch_up json (catch_up json s)).pairs sequence_key) holds) in
      (sym next ∙ ap (λ k. (k + 1) % 2 ^ 64) parsed, wrote)
    where
      by_held :
          (o : Option Pair) → HoldsNumber n o → current_sequence (shared_store json) text o ≡ ok n
      by_held none q = rw q (parses table_ids_range_start (omega arith))
      by_held (some p) q = rw q (parses n small)
