-- ===== src/Manager/Reconcile/Converges.antt =====
-- What a reconciliation leaves running.
use regatta.Prelude.{
  ℕ, ◌<◌, ◌≡◌, refl, sym, ap, ◌∙◌, Bool, not, ◌&&◌, ◌||◌, some, List, [], ◌∷◌, ◌==◌, if◌then◌else◌,
  arith,
}
use regatta.Bytes.{Bytes}
use regatta.Result.{ok}
use regatta.Action.{Action, ◌>>◌, next}
use regatta.Action.Success.{next_ok, lift-next}
use regatta.Table.{Table}
use regatta.Manager.{Store, Text, table_ids_range_start}
use regatta.Manager.Diff.{TableIds, diff_tables, has_key, has_id, owns, diff_tables_lem}
use regatta.Manager.Reconcile.{
  NodeHost, Config, Manager, on_store, on_host, cache_table, cache_tables, clear_table, start_table,
  stop_table, write_cleanup, start_tables, stop_tables, get_tables, observe, apply_diff, reconcile,
}

-- A node host with the list of the shards that it runs: a start that succeeds adds the shard, a stop that
-- succeeds removes it.
pub record HostLaws (host : NodeHost) : Type 0 where
  pub running : host.State → List ℕ
  pub listed : (s : host.State) → host.shard_info_list s ≡ some (running s)
  pub started :
      (members : List (ℕ × Bytes)) (name : Bytes) (id : ℕ) (s t : host.State) (i : ℕ)
      → host.start_on_disk_replica members name id s ≡ (t, ok tt)
      → has_id i (running t) ≡ (i == id || has_id i (running s))
  pub stopped :
      (id : ℕ) (s t : host.State) (i : ℕ)
      → host.stop_shard id s ≡ (t, ok tt)
      → has_id i (running t) ≡ (not (i == id) && has_id i (running s))

module _ (store : Store) (host : NodeHost) (text : Text) (config : Config store)
    (laws : HostLaws host) where
  abbrev runs : ℕ → Manager store host → Bool
  runs i m = has_id i (laws.running m.shards)

  on_host_ok :
      (act : Action host.State (Unit {0})) (m t : Manager store host)
      → on_host store host text config act m ≡ (t, ok tt)
      → act m.shards ≡ (t.shards, ok tt)
  on_host_ok act m t e = ap (λ x. (x.0.shards, x.1)) e

  abbrev members_for : Manager store host → ℕ → List (ℕ × Bytes)
  members_for m id = if host.has_node_info m.shards id config.node_id then [] else config.members

  start_tables_lem :
      (l : TableIds) (m t : Manager store host) (i : ℕ)
      → start_tables store host text config l m ≡ (t, ok tt)
      → runs i t ≡ (has_key i l || runs i m)
  unfolding start_tables
  start_tables_lem [] m t i e = ap (λ x. runs i x.0) (sym e)
  start_tables_lem ((id, tbl) ∷ rest) m t i e =
      let (w, u, s, f) =
        next_ok
          (λ x. cache_table store host text config tbl >> start_tables store host text config rest)
          (start_table store host text config tbl.name id m) t tt e in
      ground (
        arith,
        laws.started (members_for m id) tbl.name id m.shards w.shards i
            (on_host_ok (host.start_on_disk_replica (members_for m id) tbl.name id) m w s),
        start_tables_lem rest (cache_table store host text config tbl w).0 t i f,
      )

  stop_table_ok :
      (now id : ℕ) (m t : Manager store host) (i : ℕ)
      → stop_table store host text config now id m ≡ (t, ok tt)
      → runs i t ≡ (not (i == id) && runs i m)
  stop_table_ok now id m t i e =
      let (path, p, f) = lift-next (host.stale_read_path m.shards id) stop_with m t tt e in
      let (w, u, s, g) =
        next_ok (λ x. on_host store host text config (host.stop_shard id))
          (on_store store host text config (write_cleanup store host text config now id path) m) t
          tt f in
      laws.stopped id w.shards t.shards i (on_host_ok (host.stop_shard id) w t g)
      ∙ ap (λ x. not (i == id) && has_id i (laws.running x.0.shards)) (sym s)
    where
      stop_with : Bytes → Action (Manager store host) (Unit {0})
      stop_with path =
          on_store store host text config (write_cleanup store host text config now id path)
          >> on_host store host text config (host.stop_shard id)

  stop_tables_lem :
      (now : ℕ) (l : List ℕ) (m t : Manager store host) (i : ℕ)
      → stop_tables store host text config now l m ≡ (t, ok tt)
      → runs i t ≡ (not (has_id i l) && runs i m)
  unfolding stop_tables
  stop_tables_lem now [] m t i e = ap (λ x. runs i x.0) (sym e)
  stop_tables_lem now (id ∷ rest) m t i e =
      let (w, u, s, f) =
        next_ok
          (λ x.
            clear_table store host text config id >> stop_tables store host text config now rest)
          (stop_table store host text config now id m) t tt e in
      ground (
        arith,
        stop_table_ok now id m w i s,
        stop_tables_lem now rest (clear_table store host text config id w).0 t i f,
      )

  -- What runs after the tables of a difference were started and stopped.
  apply_diff_lem :
      (now : ℕ) (d : TableIds × List ℕ) (m t : Manager store host) (i : ℕ)
      → apply_diff store host text config now d m ≡ (t, ok tt)
      → runs i t ≡ (not (has_id i d.1) && (has_key i d.0 || runs i m))
  apply_diff_lem now (start, stop) m t i e =
      let (w, u, s, f) =
        next_ok (λ x. stop_tables store host text config now stop)
          (start_tables store host text config start m) t tt e in
      stop_tables_lem now stop w t i f ∙ ground (arith, start_tables_lem start m w i s)

  cache_tables_lem :
      (ts : List Table) (k : Action (Manager store host) (Unit {0})) (m t : Manager store host)
      → next (λ u. k) (cache_tables store host text config ts m) ≡ (t, ok tt)
      → (w : Manager store host) × (w.shards ≡ m.shards) × (k w ≡ (t, ok tt))
  cache_tables_lem [] k m t e = (m, refl, e)
  cache_tables_lem (tbl ∷ ts) k m t e =
      cache_tables_lem ts k (cache_table store host text config tbl m).0 t e

  observe_lem :
      (m : Manager store host) (tabs : List Table)
      → get_tables store host text config m.pairs ≡ ok tabs
      → observe store host text config m ≡ ok (tabs, laws.running m.shards)
  unfolding observe
  observe_lem m tabs l = rw (observe, l, laws.listed m.shards) refl

  -- On a node host with HostLaws, a reconciliation that succeeds leaves exactly those shards above 10000
  -- running that a table of the listing has, as its cluster or for its recovery.
  pub reconcile-runs :
      (now : ℕ) (m t : Manager store host) (tabs : List Table) (i : ℕ)
      → get_tables store host text config m.pairs ≡ ok tabs
      → table_ids_range_start < i
      → reconcile store host text config now m ≡ (t, ok tt)
      → has_id i (laws.running t.shards) ≡ owns i tabs
  unfolding reconcile
  reconcile-runs now m t tabs i l above e =
      let (w, same, f) =
        cache_tables_lem tabs
          (apply_diff store host text config now (diff_tables tabs (laws.running m.shards))) m t
          (rw (observe_lem m tabs l) at e) in
      let (start, stop) = diff_tables_lem i tabs (laws.running m.shards) in
      apply_diff_lem now (diff_tables tabs (laws.running m.shards)) w t i f
      ∙ rw (same, start, stop) (ground (arith, above))
