-- ===== src/Replication/Registry/Reconcile.antt =====
-- What becomes of the workers when they are reconciled with the tables.
use regatta.Prelude.{
  ◌≡◌, refl, ◌∙◌, Bool, true, false, ◌&&◌, List, [], ◌∷◌, if◌then◌else◌, Bool-cases, inl, inr,
  arith,
}
use regatta.Bytes.{Bytes}
use regatta.Bytes.Order.{equal_refl}
use regatta.Result.{ok, err, blocked}
use regatta.Action.{◌>>◌}
use regatta.Table.{Table}
use regatta.Replication.Registry.{
  Workers, has_name, has_worker, start_worker, stop_worker, start_unless, start_missing, is_listed,
  stop_unlisted, reconcile_workers,
}

-- Workers under a free lock.
abbrev pub free : List Bytes → Workers
free ns = record { registry = ns; readers = 0; writing = false }

-- Whether a table is listed for each name.
abbrev pub all_listed : List Table → List Bytes → Bool
all_listed tbs [] = true
all_listed tbs (n ∷ ns) = is_listed n tbs && all_listed tbs ns

-- The registry with the tables that are missing.
abbrev pub with_tables : List Table → List Bytes → List Bytes
with_tables [] ns = ns
with_tables (t ∷ ts) ns = with_tables ts (if has_name t.name ns then ns else t.name ∷ ns)

-- Workers whose registry is being read.
abbrev pub reading : List Bytes → Workers
reading ns = record { registry = ns; readers = 1; writing = false }

start_unless-then :
    (b : Bool) (name : Bytes) (ts : List Table) (ns : List Bytes)
    → has_name name ns ≡ b
    → (start_unless b name >> start_missing ts) (free ns)
      ≡ start_missing ts (free (if b then ns else name ∷ ns))
unfolding start_worker
start_unless-then true name ts ns e = refl
start_unless-then false name ts ns e = rw e refl

start_missing_lem :
    (ts : List Table) (ns : List Bytes)
    → start_missing ts (free ns) ≡ (free (with_tables ts ns), ok tt)
unfolding start_missing has_worker
start_missing_lem [] ns = refl
start_missing_lem (t ∷ ts) ns =
    start_unless-then (has_name t.name ns) t.name ts ns refl
    ∙ start_missing_lem ts (if has_name t.name ns then ns else t.name ∷ ns)

stop_unlisted-listed :
    (tbs : List Table) (ns : List Bytes) (w : Workers)
    → all_listed tbs ns ≡ true
    → stop_unlisted tbs ns w ≡ (w, ok tt)
unfolding stop_unlisted
stop_unlisted-listed tbs [] w h = refl
stop_unlisted-listed tbs (n ∷ ns) w h =
    let listed : is_listed n tbs ≡ true = ground (arith, h) in
    rw listed (stop_unlisted-listed tbs ns w (ground (arith, h)))

stop_unlisted-blocked :
    (tbs : List Table) (ns ms : List Bytes)
    → all_listed tbs ns ≡ false
    → stop_unlisted tbs ns (reading ms) ≡ (reading ms, err blocked)
unfolding stop_unlisted stop_worker
stop_unlisted-blocked tbs [] ms h = absurd (ground (arith, h))
stop_unlisted-blocked tbs (n ∷ ns) ms h = elim (Bool-cases (is_listed n tbs)) [
  | inl listed ↦ rw listed (stop_unlisted-blocked tbs ns ms (ground (arith, h, listed)))
  | inr unlisted ↦ rw unlisted refl
]

-- A table of the listing is listed, and so are its name's equals.
all_listed-with_tables :
    (tbs ts : List Table) (ns : List Bytes)
    → ((name : Bytes) → is_listed name ts ≡ true → is_listed name tbs ≡ true)
    → all_listed tbs (with_tables ts ns) ≡ all_listed tbs ns
all_listed-with_tables tbs [] ns sub = refl
all_listed-with_tables tbs (t ∷ ts) ns sub =
    all_listed-with_tables tbs ts (if has_name t.name ns then ns else t.name ∷ ns)
      (λ name l. sub name (ground (arith, l)))
    ∙ by_name (has_name t.name ns)
  where
    itself : is_listed t.name tbs ≡ true
    itself = sub t.name (ground (arith, equal_refl t.name))

    by_name : (b : Bool) → all_listed tbs (if b then ns else t.name ∷ ns) ≡ all_listed tbs ns
    by_name true = refl
    by_name false = ground (arith, itself)

-- A routine that reconciles the workers with the tables that GetTables returns, under a lock that is
-- free: if a table is listed for each worker, it returns, the lock is free again, and the registry has
-- the workers that it had and one for every listed table that had none; if the table of a worker is not
-- listed any more, it never returns: it waits for the lock that it reads under itself.
pub reconcile_workers_lem :
    (tbs : List Table) (ns : List Bytes)
    → reconcile_workers (ok tbs) (free ns) ≡ (
        if all_listed tbs ns
        then (free (with_tables tbs ns), ok tt)
        else (reading (with_tables tbs ns), err blocked))
unfolding reconcile_workers
reconcile_workers_lem tbs ns = elim (Bool-cases (all_listed tbs ns)) [
  | inl all ↦
      rw
        (
          all,
          start_missing_lem tbs ns,
          stop_unlisted-listed tbs (with_tables tbs ns) (reading (with_tables tbs ns)) (same ∙ all),
        )
        refl
  | inr some_unlisted ↦
      rw
        (
          some_unlisted,
          start_missing_lem tbs ns,
          stop_unlisted-blocked tbs (with_tables tbs ns) (with_tables tbs ns)
              (same ∙ some_unlisted),
        )
        refl
]
  where
    same : all_listed tbs (with_tables tbs ns) ≡ all_listed tbs ns
    same = all_listed-with_tables tbs tbs ns (λ name l. l)
