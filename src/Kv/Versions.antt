-- ===== src/Kv/Versions.antt =====
-- The versions of the store: each is the index of the write that made it, which makes a write with a
-- stale version fail.
use regatta.Prelude.{
  ℕ, ◌≡◌, ◌≤◌, ◌<◌, refl, true, false, some, List, [], ◌∷◌, ◌==◌, Bool-cases, inl, inr, arith,
}
use regatta.Bytes.{Bytes}
use regatta.Bytes.Order.{equal_iff, equal_refl}
use regatta.Result.{Result, ok, err, panic, ◌>>=◌}
use regatta.Fsm.Update.{LogEntry}
use regatta.Kv.{
  Pair, MapStore, get, set, delete, UpdateOp, op_set, op_delete, op_other, Update, Json, write,
  accepted, rejected, check_version, update_entry, update_store,
}

-- Every pair stands under its key, with a version up to `n`.
abbrev pub IsVersioned : ℕ → MapStore → Type 0
IsVersioned n s = (k : Bytes) (p : Pair) → s k ≡ some p → (p.key ≡ k) × (p.ver ≤ n)

abbrev pub AscendsFrom : ℕ → List LogEntry → Type 0
AscendsFrom n [] = Unit
AscendsFrom n (e ∷ es) = (n < e.index) × AscendsFrom e.index es

-- The index of the last entry.
abbrev pub last_from : ℕ → List LogEntry → ℕ
last_from n [] = n
last_from n (e ∷ es) = last_from e.index es

last_from-le : (n : ℕ) (es : List LogEntry) → AscendsFrom n es → n ≤ last_from n es
last_from-le n [] h = omega arith
last_from-le n (e ∷ es) h = omega (arith, h.0, last_from-le e.index es h.1)

IsVersioned-mono : (n m : ℕ) (s : MapStore) → n ≤ m → IsVersioned n s → IsVersioned m s
IsVersioned-mono n m s l h k p e = ((h k p e).0, omega (arith, (h k p e).1))

write-IsVersioned :
    (op : UpdateOp) (p : Pair) (s : MapStore) (n : ℕ)
    → n ≤ p.ver
    → IsVersioned n s
    → IsVersioned p.ver (write op p s)
unfolding set delete
write-IsVersioned op_set p s n l h k q e =
    (ground (arith, e, equal_iff k p.key, h k q), ground (arith, e, equal_iff k p.key, h k q))
write-IsVersioned op_delete p s n l h k q e = (ground (arith, e, h k q), ground (arith, e, h k q))
write-IsVersioned op_other p s n l h k q e = IsVersioned-mono n p.ver s l h k q e

module _ (json : Json) where
  entry-IsVersioned :
      (ent : LogEntry) (u : Update) (s : MapStore) (n : ℕ)
      → n ≤ ent.index
      → IsVersioned n s
      → IsVersioned ent.index (update_entry json ent u s).0
  entry-IsVersioned ent u s n l h = by_version (get s u.kv_pair.key)
    where
      by_version : (r : Result Pair) → IsVersioned ent.index (check_version json ent u s r).0
      by_version (ok v) = elim (Bool-cases (v.ver == u.kv_pair.ver)) [
        | inl same ↦ rw same (write-IsVersioned u.op _ s n l h)
        | inr other ↦ rw other (IsVersioned-mono n ent.index s l h)
      ]
      by_version (err x) = write-IsVersioned u.op _ s n l h
      by_version panic = write-IsVersioned u.op _ s n l h

  -- Update keeps every pair under its key and every version at most the index of the last entry, for
  -- entries with ascending indexes above all versions; where it ends with an error too.
  pub update_store-IsVersioned :
      (s : MapStore) (es : List LogEntry) (n : ℕ)
      → AscendsFrom n es
      → IsVersioned n s
      → IsVersioned (last_from n es) (update_store json s es).0
  unfolding update_store
  update_store-IsVersioned s [] n a h = h
  update_store-IsVersioned s (e ∷ es) n a h = by_result (json.unmarshal e.cmd) refl (λ u.
      update_store-IsVersioned (update_entry json e u s).0 es e.index a.1
        (entry-IsVersioned e u s n (omega (arith, a.0)) h))
    where
      stays : IsVersioned (last_from n (e ∷ es)) s
      stays =
          IsVersioned-mono n (last_from n (e ∷ es)) s
            (omega (arith, a.0, last_from-le e.index es a.1)) h

      by_result :
          (r : Result Update)
          → json.unmarshal e.cmd ≡ r
          → ((u : Update)
              → IsVersioned
                  (last_from e.index es)
                  (update_store json (update_entry json e u s).0 es).0)
          → IsVersioned (last_from n (e ∷ es)) (update_store json s (e ∷ es)).0
      by_result (ok u) q rest = rw (q, update_store) (rest u)
      by_result (err x) q rest = rw (q, update_store) stays
      by_result panic q rest = rw (q, update_store) stays

  pub update_store-cons :
      (s : MapStore) (e : LogEntry) (es : List LogEntry) (u : Update)
      → json.unmarshal e.cmd ≡ ok u
      → update_store json s (e ∷ es) ≡ (
        (update_store json (update_entry json e u s).0 es).0,
        (update_store json (update_entry json e u s).0 es).1 >>= λ rs.
            ok ((update_entry json e u s).1 ∷ rs),
      )
  unfolding update_store
  update_store-cons s e es u h = rw (h, update_store) refl

  -- Of two sets of a key with the version that the key has, the first one succeeds and the second one
  -- is rejected with the pair that the first one wrote, if the index of the first entry is larger than
  -- that version; the value of the first stays.
  pub update_store-first_wins :
      (s : MapStore) (e d : LogEntry) (u w : Update) (v : Pair)
      → json.unmarshal e.cmd ≡ ok u
      → json.unmarshal d.cmd ≡ ok w
      → u.op ≡ op_set
      → w.kv_pair.key ≡ u.kv_pair.key
      → s u.kv_pair.key ≡ some v
      → u.kv_pair.ver ≡ v.ver
      → w.kv_pair.ver ≡ v.ver
      → v.ver < e.index
      → update_store json s (e ∷ d ∷ []) ≡ (
        set s u.kv_pair.key u.kv_pair.value e.index,
        ok (
            record e {
              value = 1;
              result_data =
                  json.marshal
                    (record { key = u.kv_pair.key; value = u.kv_pair.value; ver = e.index });
            }
            ∷ record d {
              value = 2;
              result_data =
                  json.marshal
                    (record { key = u.kv_pair.key; value = u.kv_pair.value; ver = e.index });
            }
            ∷ []),
      )
  unfolding update_store get set
  update_store-first_wins s e d u w v he hd o k c a b l =
      rw
        (
          update_store-cons s e (d ∷ []) u he,
          first,
          update_store-cons (accepted json e u s).0 d [] w hd,
          second,
        )
        (rw o refl)
    where
      same : (v.ver == u.kv_pair.ver) ≡ true
      same = ground (arith, a)

      stale : (e.index == w.kv_pair.ver) ≡ false
      stale = ground (arith, b, l)

      first : update_entry json e u s ≡ accepted json e u s
      first = rw (c, get, same) refl

      p : Pair
      p = record { key = u.kv_pair.key; value = u.kv_pair.value; ver = e.index }

      second :
          update_entry json d w (accepted json e u s).0 ≡ rejected json d p (accepted json e u s).0
      second = rw (o, k, get, set, equal_refl u.kv_pair.key, stale) refl
