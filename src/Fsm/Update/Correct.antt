-- ===== src/Fsm/Update/Correct.antt =====
-- Update applies the commands of its entries in order and stamps the indexes of the last one.
use regatta.Prelude.{ℕ, ◌^◌, ◌<◌, ◌≡◌, refl, ap, sym, ◌∙◌, Option, none, some, List, [], ◌∷◌, arith}
use regatta.Result.{Result, ok, err, panic, ◌>>=◌, split, is_ok, is_err, is_panic}
use regatta.Pebble.{Pebble, PebbleLaws}
use regatta.Pebble.OrderedMap
use regatta.Pebble.OrderedMap.{Entries, insert}
use regatta.Pebble.OrderedMap.Laws.{lookup-insert}
use regatta.Bytes.Order.{equal_refl}
use regatta.Fsm.Update.Index.{uint64-put_uint}
use regatta.Fsm.Keys.{sys_local_index, sys_leader_index}
use regatta.Fsm.Messages.{Command, CommandResult}
use regatta.Fsm.Context.{UpdateContext}
use regatta.Fsm.Command.{UpdateResult}
use regatta.Fsm.Spec.{run}
use regatta.Fsm.Refinement.{IsReady, Refines, SameContext}
use regatta.Fsm.Refinement.Commands.{handle-Refines}
use regatta.Fsm.Update.{
  put_uint, read_local_index, LogEntry, Codec, leader_index_of, with_result, update_loop,
  set_leader_index, commit, update_db, last_index,
}

-- The indexes that the context has after the entries.
pub record Indexes : Type 0 where
  pub index : ℕ
  pub leader_index : Option ℕ

abbrev pub indexes_of : LogEntry → Command → Indexes
indexes_of u cmd = record { index = u.index; leader_index = leader_index_of cmd }

-- The entries of the log applied one after the other, each command at its own index.
unfoldable pub run_log :
    Codec → List LogEntry → Indexes → Entries → Result (Entries × (Indexes × List LogEntry))
run_log codec [] i m = ok (m, (i, []))
run_log codec (u ∷ us) i m = codec.unmarshal u.cmd >>= λ cmd.
    run u.index cmd m >>= λ (m', (r, res)).
    run_log codec us (indexes_of u cmd) m' >>= λ (m'', (i', results)).
    ok (m'', (i', with_result codec u r res ∷ results))

-- The system keys that Commit writes.
abbrev pub stamp_leader : Option ℕ → Entries → Entries
stamp_leader none m = m
stamp_leader (some i) m = insert sys_leader_index (put_uint 8 i) m

abbrev pub stamp : Indexes → Entries → Entries
stamp i m = insert sys_local_index (put_uint 8 i.index) (stamp_leader i.leader_index m)

module _ (p : Pebble) (laws : PebbleLaws p) (codec : Codec) where
  open laws use {view, base, contents}

  -- The loop of Update against run_log.
  abbrev LoopRefines :
      Result (UpdateContext p × List LogEntry)
      → Result (Entries × (Indexes × List LogEntry))
      → Type 0
  LoopRefines (ok (c, rs)) (ok (m, (i, rs'))) =
      IsReady p laws c
      × (view c.batch ≡ m)
      × (c.index ≡ i.index)
      × (c.leader_index ≡ i.leader_index)
      × (rs ≡ rs')
  LoopRefines (err e) (err e') = e ≡ e'
  LoopRefines panic panic = Unit
  LoopRefines _ _ = ⊥

  loop_cons :
      (u : LogEntry) (r : LogEntry) (l : Result (UpdateContext p × List LogEntry))
      (s : Result (Entries × (Indexes × List LogEntry)))
      → LoopRefines l s
      → LoopRefines (l >>= λ (c, rs). ok (c, r ∷ rs)) (s >>= λ (m, (i, rs)). ok (m, (i, r ∷ rs)))
  loop_cons u r (ok (c, rs)) (ok (m, (i, rs'))) h = (h.0, h.1, h.2, h.3, ap (◌∷◌ r) h.4)
  loop_cons u r (ok _) (err _) h = absurd h
  loop_cons u r (ok _) panic h = absurd h
  loop_cons u r (err e) (err e') h = h
  loop_cons u r (err e) (ok _) h = absurd h
  loop_cons u r (err e) panic h = absurd h
  loop_cons u r panic panic h = tt
  loop_cons u r panic (ok _) h = absurd h
  loop_cons u r panic (err _) h = absurd h

  -- The rest of the loop, after the handler of one entry.
  loop_after :
      (c : UpdateContext p) (u : LogEntry) (us : List LogEntry)
      (h : Result (UpdateContext p × (UpdateResult × CommandResult)))
      (s : Result (Entries × (UpdateResult × CommandResult)))
      → Refines p laws c h s
      → ((c' : UpdateContext p)
          → SameContext p laws c c'
          → LoopRefines (update_loop p codec c' us) (
              run_log codec us
                (record { index = c.index; leader_index = c.leader_index })
                (view c'.batch)))
      → LoopRefines
          (h >>= λ (c', (r, res)).
            update_loop p codec c' us >>= λ (last, rs). ok (last, with_result codec u r res ∷ rs))
          (s >>= λ (m', (r, res)).
            run_log codec us (record { index = c.index; leader_index = c.leader_index }) m'
            >>= λ (m'', (i', rs)). ok (m'', (i', with_result codec u r res ∷ rs)))
  loop_after c u us (ok (c', x)) (ok (m, x')) k l =
      rw (← k.1, ← k.2) (loop_cons u (with_result codec u x.0 x.1) _ _ (l c' k.0))
  loop_after c u us (ok _) (err _) k l = absurd k
  loop_after c u us (ok _) panic k l = absurd k
  loop_after c u us (err e) (err e') k l = k
  loop_after c u us (err e) (ok _) k l = absurd k
  loop_after c u us (err e) panic k l = absurd k
  loop_after c u us panic panic k l = tt
  loop_after c u us panic (ok _) k l = absurd k
  loop_after c u us panic (err _) k l = absurd k

  update_loop-Refines :
      (us : List LogEntry) (c : UpdateContext p)
      → IsReady p laws c
      → LoopRefines (update_loop p codec c us) (
          run_log codec us
            (record { index = c.index; leader_index = c.leader_index })
            (view c.batch))
  unfolding update_loop run_log
  update_loop-Refines [] c h = (h, refl, refl, refl, refl)
  update_loop-Refines (u ∷ us) c h = elim (split (codec.unmarshal u.cmd)) [
    | is_ok cmd q ↦
        let c' = record c { index = u.index; leader_index = leader_index_of cmd } in
        rw q (
          loop_after c' u us _ _ (handle-Refines p laws cmd c' h) λ d same.
            rw (← same.same_index, ← same.same_leader_index)
              (update_loop-Refines us d (same.ready ∙ sym same.same_db)))
    | is_err e q ↦ rw q refl
    | is_panic q ↦ rw q tt
  ]

  set_leader_index_lem :
      (b : p.Batch) (i : Option ℕ)
      → (b' : p.Batch) × (set_leader_index p codec b i ≡ ok b')
        × (view b' ≡ stamp_leader i (view b))
  set_leader_index_lem b none = (b, refl, refl)
  set_leader_index_lem b (some i) =
      let (b', done, shown, _, _) = laws.set_lem b sys_leader_index (put_uint 8 i) in
      (b', done, shown)

  commit_lem :
      (c : UpdateContext p)
      → (d : p.Db) × (commit p codec c ≡ ok d)
        × (contents d
            ≡ stamp (record { index = c.index; leader_index = c.leader_index }) (view c.batch))
  unfolding commit
  commit_lem c =
      let (b, stamped, shown) = set_leader_index_lem c.batch c.leader_index in
      let (b', done, shown', _, _) = laws.set_lem b sys_local_index (put_uint 8 c.index) in
      let (d, committed, holds) = laws.commit_lem b' in
      (
        d,
        rw (stamped, done) committed,
        holds ∙ shown' ∙ ap (insert sys_local_index (put_uint 8 c.index)) shown,
      )

  -- Update of a database against run_log.
  abbrev pub DbRefines :
      Result (p.Db × List LogEntry) → Result (Entries × (Indexes × List LogEntry)) → Type 0
  DbRefines (ok (d, rs)) (ok (m, (i, rs'))) = (contents d ≡ stamp i m) × (rs ≡ rs')
  DbRefines (err e) (err e') = e ≡ e'
  DbRefines panic panic = Unit
  DbRefines _ _ = ⊥

  commit-Refines :
      (l : Result (UpdateContext p × List LogEntry))
      (s : Result (Entries × (Indexes × List LogEntry)))
      → LoopRefines l s
      → DbRefines (l >>= λ (c, rs). commit p codec c >>= λ d. ok (d, rs)) s
  commit-Refines (ok (c, rs)) (ok (m, (i, rs'))) k =
      let (d, done, holds) = commit_lem c in
      let same : stamp (record { index = c.index; leader_index = c.leader_index }) (view c.batch)
          ≡ stamp i m =
        λ j. stamp (record { index = k.2 j; leader_index = k.3 j }) (k.1 j) in
      rw done (holds ∙ same, k.4)
  commit-Refines (ok _) (err _) k = absurd k
  commit-Refines (ok _) panic k = absurd k
  commit-Refines (err e) (err e') k = k
  commit-Refines (err e) (ok _) k = absurd k
  commit-Refines (err e) panic k = absurd k
  commit-Refines panic panic k = tt
  commit-Refines panic (ok _) k = absurd k
  commit-Refines panic (err _) k = absurd k

  -- For any database with PebbleLaws, and any codec, Update of a database applies the commands of its entries in order to what the database holds,
  -- each by its specification, and writes the index of the last entry, and its leader index if it
  -- has one, under the system keys; the entries come back with their results. A command that cannot
  -- be decoded, fails or panics makes Update do the same.
  pub update_db-Refines :
      (db : p.Db) (us : List LogEntry)
      → DbRefines
          (update_db p codec db us)
          (run_log codec us (record { index = 0; leader_index = none }) (contents db))
  unfolding update_db
  update_db-Refines db us =
      let c : UpdateContext p = record {
        batch = p.new_batch db;
        db = db;
        index = 0;
        leader_index = none;
      } in
      let (shown, based) = laws.new_batch_lem db in
      rw (← shown) (commit-Refines _ _ (update_loop-Refines us c based))

run_log-index :
    (codec : Codec) (us : List LogEntry) (i i' : Indexes) (m m' : Entries) (rs : List LogEntry)
    → run_log codec us i m ≡ ok (m', (i', rs))
    → i'.index ≡ last_index us i.index
unfolding run_log
run_log-index codec [] i i' m m' rs h = ground arith
run_log-index codec (u ∷ us) i i' m m' rs h = elim (split (codec.unmarshal u.cmd)) [
  | is_ok cmd q ↦ elim (split (run u.index cmd m)) [
    | is_ok x q' ↦ elim (split (run_log codec us (indexes_of u cmd) x.0)) [
      | is_ok y q'' ↦
          let same : y.1.0 ≡ i' = cc (rw (q, q', q'') at h) in
          ap (λ (t : Indexes). t.index) (sym same)
          ∙ run_log-index codec us (indexes_of u cmd) y.1.0 x.0 y.0 y.1.1 q''
      | is_err e q'' ↦ cc (rw (q, q', q'') at h)
      | is_panic q'' ↦ cc (rw (q, q', q'') at h)
    ]
    | is_err e q' ↦ cc (rw (q, q') at h)
    | is_panic q' ↦ cc (rw (q, q') at h)
  ]
  | is_err e q ↦ cc (rw q at h)
  | is_panic q ↦ cc (rw q at h)
]

read_stamped :
    (i : Indexes) (m : Entries)
    → OrderedMap.lookup sys_local_index (stamp i m) ≡ some (put_uint 8 i.index)
read_stamped i m = simp (lookup-insert, equal_refl)

module _ (p : Pebble) (laws : PebbleLaws p) (codec : Codec) (db : p.Db) (us : List LogEntry) where
  -- For any database with PebbleLaws: if the entries are well formed, that is if run_log succeeds, Update succeeds, and afterwards the
  -- local index that a restart reads is the index of the last entry, for entries whose indexes are
  -- below 2 ^ 64. (Without entries it is 0.)
  pub read_local_index-update :
      (m : Entries) (i : Indexes) (rs : List LogEntry)
      → run_log codec us (record { index = 0; leader_index = none }) (laws.contents db)
        ≡ ok (m, (i, rs))
      → last_index us 0 < 2 ^ 64
      → (db' : p.Db) × (update_db p codec db us ≡ ok (db', rs))
        × (read_local_index (p.db_reader db') sys_local_index ≡ ok (last_index us 0))
  unfolding read_local_index
  read_local_index-update m i rs h l = by_result (update_db p codec db us) refl
    where
      refined : DbRefines p laws codec (update_db p codec db us) (ok (m, (i, rs)))
      refined = rw h at (update_db-Refines p laws codec db us)

      last : i.index ≡ last_index us 0
      last = run_log-index codec us _ i (laws.contents db) m rs h

      by_result :
          (r : Result (p.Db × List LogEntry))
          → update_db p codec db us ≡ r
          → (db' : p.Db) × (update_db p codec db us ≡ ok (db', rs))
            × (read_local_index (p.db_reader db') sys_local_index ≡ ok (last_index us 0))
      by_result (ok (d, rs')) e =
          let k : DbRefines p laws codec (ok (d, rs')) (ok (m, (i, rs))) = rw e at refined in
          (
            d,
            e ∙ ap (λ t. ok (d, t)) k.1,
            rw ((laws.db_shows d).get_lem, k.0, read_stamped i m, last) (uint64-put_uint _ l),
          )
      by_result (err x) e = absurd (rw e at refined)
      by_result panic e = absurd (rw e at refined)
