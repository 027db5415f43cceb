-- ===== src/Replication/Runs.antt =====
-- The commands of a log, run one after the other.
use regatta.LogReader.Cache.{Entry}
use regatta.Prelude.{
  ℕ, ◌≡◌, refl, sym, ap, ◌∙◌, Bool, true, false, some, List, [], ◌∷◌, ◌++◌, map, arith,
}
use regatta.Bytes.{Bytes}
use mathlib.Core.Path.{subst}
use regatta.Result.{Result, ok, err, panic, ◌>>=◌, >>=-eq-ok, ok_inj}
use regatta.Pebble.OrderedMap.{Entries}
use regatta.Fsm.Messages.{
  ResponseOp, CommandType, CommandFields, Command, Commands, command, CommandResult,
}
use regatta.Fsm.Command.{UpdateResult, result_success}
use regatta.Fsm.Spec.{Change, Outcome, outcome, run, run_all}
use regatta.Fsm.Spec.Users.{SameUsers}
use regatta.Fsm.Spec.Users.Commands.{Alike, responses, run-Alike}
use regatta.Fsm.Update.{LogEntry, Codec, with_result}
use regatta.Fsm.Update.Correct.{Indexes, indexes_of, run_log}
use regatta.Table.{zero_fields}
use regatta.Table.Active.{log_entry}
use regatta.Replication.Messages.{ReplicateCommand, with_leader_index}
use regatta.Replication.Entries.{entry_to_command, to_commands}
use regatta.Replication.Worker.{command_list}

-- The commands succeed one after the other, each at some index, and lead from some entries to others.
abbrev pub Runs : List Command → Entries → Entries → Type 0
Runs [] l l' = l ≡ l'
Runs (c ∷ cs) l l' =
    (j : ℕ) × (m : Entries) × (x : UpdateResult × CommandResult) × (run j c l ≡ ok (m, x))
    × Runs cs m l'

pub Runs-append :
    (cs ds : List Command) (l m n : Entries) → Runs cs l m → Runs ds m n → Runs (cs ++ ds) l n
Runs-append [] ds l m n h k = rw h k
Runs-append (c ∷ cs) ds l m n (j, m', x, e, h) k = (j, m', x, e, Runs-append cs ds m' m n h k)

-- An outcome that ends like a success is one.
Alike-ok :
    (a : Outcome) (m : Entries) (x : UpdateResult × CommandResult)
    → Alike (responses (ok (m, x))) (responses a)
    → (n : Entries) × (y : UpdateResult × CommandResult) × (a ≡ ok (n, y)) × SameUsers m n
Alike-ok (ok (n, y)) m x h = (n, y, refl, h.0)
Alike-ok (err e) m x h = absurd h
Alike-ok panic m x h = absurd h

-- The same commands as a sequence, on entries that agree on the user keys.
pub run_all-Runs :
    (index : ℕ) (cs : List Command) (l l' n : Entries)
    → Runs cs l l'
    → SameUsers l n
    → (n' : Entries) × (rs : List ResponseOp) × (run_all index (command_list cs) n ≡ ok (n', rs))
      × SameUsers l' n'
unfolding run_all
run_all-Runs index [] l l' n h s = (n, [], refl, rw (sym h) s)
run_all-Runs index (c ∷ cs) l l' n (j, m, x, e, h) s =
    let (n1, y, f, t) = Alike-ok (run index c n) m x (rw e at (run-Alike c j index l n s)) in
    let (n', rs, g, u) = run_all-Runs index cs m l' n1 h t in
    (n', y.1.responses ++ rs, rw (f, g) refl, u)

-- The leader index of a command is not looked at.
outcome-leader_index :
    (t : CommandType) (j i : ℕ) (f : CommandFields) (m : Entries) (r : Change (List ResponseOp))
    → outcome t j (record f { leader_index = some i }) m r ≡ outcome t j f m r
unfolding outcome
outcome-leader_index CommandType.put j i f m r = refl
outcome-leader_index CommandType.delete j i f m r = refl
outcome-leader_index _ j i f m r = refl

run-with_leader_index :
    (c : Command) (j i : ℕ) (m : Entries) → run j (with_leader_index i c) m ≡ run j c m
unfolding run
run-with_leader_index (command f seq) j i m = outcome-leader_index f.type j i f m (run_all j seq m)

-- The entries of a raft log that dragonboat hands to the state machine, without their first byte.
abbrev pub applied_from : Bool → Entry → List LogEntry → List LogEntry
applied_from false e us = us
applied_from true e us = elim e.cmd [ [] ↦ us | b ∷ bs ↦ log_entry e.index bs ∷ us ]

abbrev pub applied : List Entry → List LogEntry
applied [] = []
applied (e ∷ es) = applied_from e.encoded e (applied es)

abbrev pub commands : List ReplicateCommand → List Command
commands = map (λ c. c.cmd)

dummy_runs :
    (i : ℕ) (m : Entries)
    → run 0 (with_leader_index i (command (zero_fields CommandType.dummy) Commands.end)) m
      ≡ ok (m, (result_success, record { responses = []; revision = 0 }))
unfolding run outcome
dummy_runs i m = refl

-- What follows the decoding of one entry.
abbrev rest_of :
    (Bytes → Result Command) → ℕ → List Entry → Command → Result (List ReplicateCommand)
rest_of unmarshal index es cmd =
    to_commands unmarshal es >>= λ rest. ok (record { leader_index = index; cmd = cmd } ∷ rest)

module _ (codec : Codec) where
  -- What follows the run of one entry.
  abbrev logged :
      LogEntry
      → Command
      → List LogEntry
      → Entries × (UpdateResult × CommandResult)
      → Result (Entries × (Indexes × List LogEntry))
  logged u cmd us (m', (r, res)) =
      run_log codec us (indexes_of u cmd) m' >>= λ (m'', (i', results)).
      ok (m'', (i', with_result codec u r res ∷ results))

  abbrev pub LogRuns : List Entry → Type 0
  LogRuns es =
      (rcs : List ReplicateCommand) (i : Indexes) (l l' : Entries) (i' : Indexes)
      (rs : List LogEntry)
      → to_commands codec.unmarshal es ≡ ok rcs
      → run_log codec (applied es) i l ≡ ok (l', (i', rs))
      → Runs (commands rcs) l l'

  entry-Runs :
      (index size : ℕ) (encoded : Bool) (raw : Bytes) (es : List Entry)
      → LogRuns es
      → LogRuns
          (record { index = index; size_upper_limit = size; encoded = encoded; cmd = raw } ∷ es)
  unfolding to_commands run_log
  entry-Runs index size false raw es ih rcs i l l' i' rs h k =
      let (rest, e, f) = >>=-eq-ok (to_commands codec.unmarshal es) _ rcs h in
      rw (← ok_inj f) (
        0,
        l,
        (result_success, record { responses = []; revision = 0 }),
        dummy_runs index l,
        ih rest i l l' i' rs e k,
      )
  entry-Runs index size true [] es ih rcs i l l' i' rs h k = ground (arith, h)
  entry-Runs index size true (b ∷ bs) es ih rcs i l l' i' rs h k =
      let (cmd', d, h') =
        >>=-eq-ok
          (entry_to_command codec.unmarshal
            (record { index = index; size_upper_limit = size; encoded = true; cmd = b ∷ bs }))
          (rest_of codec.unmarshal index es) rcs h in
      let (rest, e, f) = >>=-eq-ok (to_commands codec.unmarshal es) _ rcs h' in
      let (cmd, d', g) = >>=-eq-ok (codec.unmarshal bs) _ cmd' d in
      let (x, r, k') =
        >>=-eq-ok (run index cmd l) (logged (log_entry index bs) cmd (applied es)) (l', (i', rs))
          (rw d' at k) in
      let (y, r', k'') =
        >>=-eq-ok (run_log codec (applied es) (indexes_of (log_entry index bs) cmd) x.0) _
          (l', (i', rs)) k' in
      let last : Runs (commands rest) x.0 l' =
        subst (Runs (commands rest) x.0) (ap (λ t. t.0) (ok_inj k''))
          (ih rest (indexes_of (log_entry index bs) cmd) x.0 y.0 y.1.0 y.1.1 e r') in
      rw (← ok_inj f, ← ok_inj g)
        (index, x.0, x.1, run-with_leader_index cmd index index l ∙ r, last)

  -- A log that the leader applied runs the commands that it sends.
  pub run_log-Runs : (es : List Entry) → LogRuns es
  run_log-Runs [] = λ rcs i l l' i' rs h k.
      unfold to_commands run_log in rw (← ok_inj h) (ap (λ x. x.0) (ok_inj k))
  run_log-Runs (e ∷ es) = entry-Runs e.index e.size_upper_limit e.encoded e.cmd es (run_log-Runs es)
