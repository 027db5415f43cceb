-- ===== src/Replication/LogServer/Stream.antt =====
-- The messages that Replicate sends: every entry that the follower lacks, then a heartbeat.
use regatta.LogReader.Cache.{Entry}
use regatta.Prelude.{
  ℕ, zero, suc, ◌+◌, ◌-◌, ◌≤◌, ◌<◌, ◌≡◌, refl, sym, ap, ◌∙◌, true, false, List, [], ◌∷◌, ◌++◌, ltb,
  ◌==◌, arith,
}
use regatta.Bytes.{Bytes}
use regatta.Result.{Result, ok, >>=-eq-ok, ok_inj}
use regatta.Action.{Action}
use regatta.Fsm.Messages.{Command}
use regatta.Table.{ActiveTable}
use regatta.Replication.Messages.{
  ReplicateCommand, commands_response, heartbeat, ReplicateResponse, ReplicateRequest,
}
use regatta.Replication.Entries.{last_index, entry_to_command, to_commands}
use regatta.LogReader.Reader.{LogQuerier, RaftLog}
use regatta.Replication.LogServer.Leader.{
  entries_from, entries_from-append, last_index-entries_from, LeaderLaws, reads,
}
use regatta.Replication.LogServer.{LogHost, replicate_read, replicate_loop, replicate}
use mathlib.Core.List.{append_assoc}
use mathlib.Core.Path.{subst}
use native.Mathlib.Nat.{add_assoc}
use Prim.Native.Nat.{min}

-- Messages with commands, which together carry exactly these, in order.
abbrev pub Carries : ℕ → List ReplicateResponse → List ReplicateCommand → Type 0
Carries applied [] rcs = rcs ≡ []
Carries applied (r ∷ rs) rcs =
    (c : ReplicateCommand) × (cs : List ReplicateCommand) × (rest : List ReplicateCommand) × (rcs
      ≡ (c ∷ cs) ++ rest)
    × (r ≡ record { leader_index = applied; response = commands_response (c ∷ cs) })
    × Carries applied rs rest

to_commands-append :
    (unmarshal : Bytes → Result Command) (ds es : List Entry) (rcs : List ReplicateCommand)
    → to_commands unmarshal (ds ++ es) ≡ ok rcs
    → (cs : List ReplicateCommand) × (rest : List ReplicateCommand) × (to_commands unmarshal ds
        ≡ ok cs)
      × (to_commands unmarshal es ≡ ok rest)
      × (rcs ≡ cs ++ rest)
unfolding to_commands
to_commands-append unmarshal [] es rcs h = ([], rcs, refl, h, refl)
to_commands-append unmarshal (d ∷ ds) es rcs h =
    let (cmd, e, f) = >>=-eq-ok (entry_to_command unmarshal d) _ rcs h in
    let (tail, g, k) = >>=-eq-ok (to_commands unmarshal (ds ++ es)) _ rcs f in
    let (cs, rest, l, m, n) = to_commands-append unmarshal ds es tail g in
    (
      record { leader_index = d.index; cmd = cmd } ∷ cs,
      rest,
      rw (e, l) refl,
      m,
      sym (ok_inj k) ∙ ap (◌∷◌ (record { leader_index = d.index; cmd = cmd })) n,
    )

to_commands-cons :
    (unmarshal : Bytes → Result Command) (e : Entry) (es : List Entry) (cs : List ReplicateCommand)
    → to_commands unmarshal (e ∷ es) ≡ ok cs
    → (c : ReplicateCommand) × (cs' : List ReplicateCommand) × (cs ≡ c ∷ cs')
unfolding to_commands
to_commands-cons unmarshal e es cs h =
    let (cmd, f, g) = >>=-eq-ok (entry_to_command unmarshal e) _ cs h in
    let (tail, l, k) = >>=-eq-ok (to_commands unmarshal es) _ cs g in
    (record { leader_index = e.index; cmd = cmd }, tail, sym (ok_inj k))

module _ (unmarshal : Bytes → Result Command) {S : Type 0} (host : LogHost S) (t : ActiveTable)
    (entry_at : ℕ → Entry) (applied max_message_size : ℕ) (querier : LogQuerier) (log : RaftLog)
    (laws : LeaderLaws host querier log t entry_at applied max_message_size) where
  open laws use {sent, sends, index, open_ended, numbered}

  abbrev loop : ℕ → ℕ → ℕ → Action S (Unit {0})
  loop fuel = replicate_loop unmarshal host max_message_size fuel t applied

  abbrev beat : ReplicateResponse
  beat = record { leader_index = applied; response = heartbeat }

  -- An action sends messages with these commands, and the heartbeat.
  abbrev Streams : Action S (Unit {0}) → S → List ReplicateCommand → Type 0
  Streams act s rcs =
      (msgs : List ReplicateResponse) × (s' : S) × (act s ≡ (s', ok tt))
      × (sent s' ≡ sent s ++ (msgs ++ (beat ∷ [])))
      × Carries applied msgs rcs

  -- The rounds from an index on, if `n` entries are left.
  abbrev StreamsFrom : ℕ → ℕ → Type 0
  StreamsFrom fuel n =
      (first : ℕ) (s : S) (rcs : List ReplicateCommand)
      → log.first ≤ first
      → first + n ≡ applied + 1
      → to_commands unmarshal (entries_from entry_at first n) ≡ ok rcs
      → Streams (loop fuel first (first + n)) s rcs

  loop_round :
      (fuel first last : ℕ) (s s1 : S) (es : List Entry)
      → host.query_raft_log t.table.cluster_id
          (record { first_index = first; last_index = last })
          max_message_size
          s
        ≡ (s1, ok es)
      → loop (suc fuel) first last s
        ≡ replicate_read unmarshal host max_message_size t applied last
            (ok es)
            (λ f. loop fuel f last)
            s1
  unfolding replicate_loop
  loop_round fuel first last s s1 es q = rw (open_ended s, q) refl

  round :
      (fuel n first k : ℕ) (s : S) (rcs : List ReplicateCommand)
      → log.first ≤ first
      → first + n ≡ applied + 1
      → to_commands unmarshal (entries_from entry_at first n) ≡ ok rcs
      → host.query_raft_log t.table.cluster_id
          (record { first_index = first; last_index = first + n })
          max_message_size
          s
        ≡ (s, ok (entries_from entry_at first k))
      → k ≤ n
      → (0 < n → 0 < k)
      → ((n' : ℕ) → n' < n → StreamsFrom fuel n')
      → Streams (loop (suc fuel) first (first + n)) s rcs
  round fuel zero first zero s rcs above e h q le some_read rest =
      let (s2, done, now) = sends beat s in
      (
        [],
        s2,
        loop_round fuel first (first + 0) s s [] q ∙ rw (index false s) done,
        now,
        sym (ok_inj (unfold to_commands in h)),
      )
  round fuel (suc n) first zero s rcs above e h q le some_read rest =
      absurd (omega (arith, some_read))
  round fuel n first (suc k) s rcs above e h q le some_read rest =
      let m : ℕ = n - suc k in
      let whole : n ≡ suc k + m = omega (arith, le) in
      let parts : entries_from entry_at first n
          ≡ entries_from entry_at first (suc k) ++ entries_from entry_at (first + suc k) m =
        ap (entries_from entry_at first) whole ∙ entries_from-append entry_at first (suc k) m in
      let (cs, tail, f, g, joined) =
        to_commands-append unmarshal (entries_from entry_at first (suc k))
          (entries_from entry_at (first + suc k) m) rcs (rw parts at h) in
      let (c, cs', full) =
        to_commands-cons unmarshal (entry_at first) (entries_from entry_at (first + 1) k) cs f in
      let (s2, done, now) =
        sends (record { leader_index = applied; response = commands_response cs }) s in
      let (msgs, s3, run, after, carried) =
        rest m (omega (arith, le)) (first + suc k) s2 tail (omega (arith, above))
          (omega (arith, whole, e)) g in
      (
        record { leader_index = applied; response = commands_response cs } ∷ msgs,
        s3,
        loop_round fuel first (first + n) s s (entries_from entry_at first (suc k)) q
            ∙ rw
                (
                  f,
                  done,
                  next_first m whole,
                  ap (λ x. first + x) whole ∙ sym (add_assoc first (suc k) m),
                )
                run,
        after
            ∙ ap (λ x. x ++ (msgs ++ beat ∷ [])) now
            ∙ append_assoc (sent s)
                (record { leader_index = applied; response = commands_response cs } ∷ [])
                (msgs ++ beat ∷ []),
        (
          c,
          cs',
          tail,
          joined ∙ ap (λ x. x ++ tail) full,
          ap (λ x. record { leader_index = applied; response = commands_response x }) full,
          carried,
        ),
      )
    where
      next_first :
          (m : ℕ)
          → n ≡ suc k + m
          → min (last_index (entry_at first) (entries_from entry_at (first + 1) k) + 1) (first + n)
            ≡ first + suc k
      next_first m whole =
          rw (last_index-entries_from entry_at numbered first k) (omega (arith, whole))

  replicate_loop-Streams : (fuel n : ℕ) → n < fuel → StreamsFrom fuel n
  replicate_loop-Streams zero n l first s rcs above e h = elim l [ ]
  replicate_loop-Streams (suc fuel) n l first s rcs above e h =
      let (k, q, le, some_read) =
        reads host t entry_at applied max_message_size querier log laws first n s above e in
      round fuel n first k s rcs above e h q le some_read
        (λ n' l'. replicate_loop-Streams fuel n' (omega arith))

  -- On a leader with LeaderLaws, so with the log reader Simple, for a request of a table that it has, from
  -- an index above 0 that its log still holds, and at most one past what it applied: if its entries from
  -- there on are decoded, Replicate returns without an error, in the fuel that it has, after it sent
  -- messages that together carry exactly the commands of these entries, in order, each message with the
  -- applied index, and a heartbeat at the end.
  pub replicate-Streams :
      (req : ReplicateRequest) (s : S) (rcs : List ReplicateCommand)
      → 0 < req.leader_index
      → log.first ≤ req.leader_index
      → req.leader_index ≤ applied + 1
      → host.get_table req.table s ≡ (s, ok t)
      → to_commands unmarshal
          (entries_from entry_at req.leader_index (applied + 1 - req.leader_index))
        ≡ ok rcs
      → (msgs : List ReplicateResponse) × (s' : S) × (replicate unmarshal host max_message_size req
            s
          ≡ (s', ok tt))
        × (sent s'
            ≡ sent s ++ (msgs ++ (record { leader_index = applied; response = heartbeat } ∷ [])))
        × Carries applied msgs rcs
  unfolding replicate
  replicate-Streams req s rcs positive above le found h =
      let (msgs, s', run, after, carried) =
        replicate_loop-Streams (left + 1) left (omega arith) req.leader_index s rcs above whole h in
      (
        msgs,
        s',
        rw (nonzero, found, index true s, behind)
            (subst (λ x. loop (left + 1) req.leader_index x s ≡ (s', ok tt)) whole run),
        after,
        carried,
      )
    where
      left : ℕ
      left = applied + 1 - req.leader_index

      whole : req.leader_index + (applied + 1 - req.leader_index) ≡ applied + 1
      whole = omega arith

      nonzero : (req.leader_index == 0) ≡ false
      nonzero = ground (arith, positive)

      behind : ltb (applied + 1) req.leader_index ≡ false
      behind = ground (arith, le)
