-- ===== src/Manager/Restore/Pairs.antt =====
-- Which pairs of its stream a restore proposes.
use regatta.Prelude.{
  ℕ, ◌+◌, ◌/◌, ◌≡◌, refl, none, some, List, [], ◌∷◌, ◌++◌, length, ltb, Bool-cases, inl, inr, arith,
}
use regatta.Bytes.{Bytes}
use regatta.Result.{Result, ok}
use regatta.Fsm.Messages.{KeyValue, Command, command}
use regatta.Manager.Restore.{
  PutMessage, Restorer, Batch, empty_batch, pair_or_zero, batch_command, read_loop, read_into_table,
}

-- A shard that accepts every proposal and keeps them.
abbrev pub recording : (Bytes → Result PutMessage) → Restorer (List Command)
recording unmarshal = record {
  unmarshal = unmarshal;
  propose = λ id c s. (s ++ (c ∷ []), ok tt);
  wait_for_leader = λ id s. (s, ok tt);
}

abbrev pub batch_of : Command → List KeyValue
batch_of (command f cs) = f.batch

-- The number of the pairs in commands.
abbrev pub pairs_in : List Command → ℕ
pairs_in [] = 0
pairs_in (c ∷ cs) = length (batch_of c) + pairs_in cs

abbrev pub Decodes : (Bytes → Result PutMessage) → List Bytes → Type 0
Decodes unmarshal [] = Unit
Decodes unmarshal (msg ∷ msgs) =
    ((cmd : PutMessage) × (unmarshal msg ≡ ok cmd)) × Decodes unmarshal msgs

abbrev pub total_length : List Bytes → ℕ
total_length [] = 0
total_length (msg ∷ msgs) = length msg + total_length msgs

-- Each pair is decoded from its own record.
abbrev pub ReadsBack : (Bytes → Result PutMessage) → (KeyValue → Bytes) → List KeyValue → Type 0
ReadsBack unmarshal encode [] = Unit
ReadsBack unmarshal encode (kv ∷ kvs) =
    (unmarshal (encode kv) ≡ ok (record { kv = some kv; leader_index = none }))
    × ReadsBack unmarshal encode kvs

length-snoc : {A : Type 0} (l : List A) (a : A) → length (l ++ (a ∷ [])) ≡ length l + 1
length-snoc [] a = refl
length-snoc (b ∷ l) a = ground (arith, length-snoc l a)

pairs_in-snoc :
    (s : List Command) (c : Command) → pairs_in (s ++ (c ∷ [])) ≡ pairs_in s + length (batch_of c)
pairs_in-snoc [] c = omega arith
pairs_in-snoc (d ∷ s) c = ground (arith, pairs_in-snoc s c)

module _ (unmarshal : Bytes → Result PutMessage) (id max_in_mem_log_size : ℕ) where
  -- A batch with one pair more.
  abbrev pub longer : Batch → Bytes → PutMessage → Batch
  longer b msg cmd = record {
    pairs = b.pairs ++ (pair_or_zero cmd.kv ∷ []);
    leader_index = cmd.leader_index;
    size = b.size + length msg;
  }

  read_loop_lem :
      (msgs : List Bytes) (b : Batch) (s : List Command)
      → Decodes unmarshal msgs
      → (t : List Command) × (read_loop (recording unmarshal) id max_in_mem_log_size none msgs b s
          ≡ (t, ok tt))
        × (pairs_in t + length t ≡ pairs_in s + length s + length b.pairs + length msgs + 1)
  unfolding read_loop
  read_loop_lem [] b s d = (
    s ++ (batch_command b ∷ []),
    refl,
    omega (arith, pairs_in-snoc s (batch_command b), length-snoc s (batch_command b)),
  )
  read_loop_lem (msg ∷ msgs) b s d =
      let (cmd, e) = d.0 in
      elim (Bool-cases (ltb (b.size + length msg) (max_in_mem_log_size / 2))) [
        | inl fits ↦
            let (t, run, n) = read_loop_lem msgs (longer b msg cmd) s d.1 in
            (t, rw (e, fits) run, ground (arith, n, length-snoc b.pairs (pair_or_zero cmd.kv)))
        | inr full ↦
            let (t, run, n) =
              read_loop_lem msgs empty_batch
                (s ++ (batch_command (record b { leader_index = cmd.leader_index }) ∷ [])) d.1 in
            (
              t,
              rw (e, full) run,
              ground (
                arith,
                n,
                pairs_in-snoc s (batch_command (record b { leader_index = cmd.leader_index })),
                length-snoc s (batch_command (record b { leader_index = cmd.leader_index })),
              ),
            )
      ]

  -- readIntoTable of a stream whose messages all decode, to a shard that accepts every proposal, proposes
  -- one pair less than it read for every batch but the last: the pairs of its batches and the batches
  -- but the last are as many as the messages.
  pub read_into_table-lost :
      (msgs : List Bytes)
      → Decodes unmarshal msgs
      → (t : List Command) × (read_into_table
            (recording unmarshal)
            id
            max_in_mem_log_size
            (record { messages = msgs; failure = none })
            []
          ≡ (t, ok tt))
        × (pairs_in t + length t ≡ length msgs + 1)
  unfolding read_into_table
  read_into_table-lost msgs d =
      let (t, run, n) = read_loop_lem msgs empty_batch [] d in (t, run, ground (arith, n))
