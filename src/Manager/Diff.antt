-- ===== src/Manager/Diff.antt =====
-- diffTables of storage/table/manager.go: which shards a node starts and stops. A map from identifiers
-- is a list in which each stands once, in one of the orders in which Go may run through it.
use regatta.Prelude.{
  ℕ, ◌≡◌, refl, ◌∙◌, ap, Bool, true, false, not, ◌&&◌, ◌||◌, List, [], ◌∷◌, ltb, ◌==◌,
  if◌then◌else◌, Bool-cases, inl, inr, arith,
}
use regatta.Table.{Table}
use regatta.Manager.{table_ids_range_start}

abbrev pub TableIds : Type 0
TableIds = List (ℕ × Table)

abbrev pub has_key : ℕ → TableIds → Bool
has_key i [] = false
has_key i ((j, t) ∷ m) = i == j || has_key i m

abbrev pub has_id : ℕ → List ℕ → Bool
has_id i [] = false
has_id i (j ∷ js) = i == j || has_id i js

-- tableIDs[id] = t
abbrev pub insert : ℕ → Table → TableIds → TableIds
insert id t [] = (id, t) ∷ []
insert id t ((j, u) ∷ m) = if id == j then (id, t) ∷ m else (j, u) ∷ insert id t m

-- The same under an identifier that is not 0.
abbrev pub insert_nonzero : ℕ → Table → TableIds → TableIds
insert_nonzero id t m = if id == 0 then m else insert id t m

-- The identifiers of the tables.
abbrev pub collect_ids : List Table → TableIds → TableIds
collect_ids [] m = m
collect_ids (t ∷ ts) m =
    collect_ids ts (insert_nonzero t.recover_id t (insert_nonzero t.cluster_id t m))

-- raftTableIDs
abbrev pub distinct : List ℕ → List ℕ
distinct [] = []
distinct (i ∷ is) = let rest = distinct is in if has_id i rest then rest else i ∷ rest

-- Whether a shard of a table is to be started, and a shard of the node to be stopped.
abbrev pub startable : List ℕ → ℕ → Bool
startable raft id = not (has_id id raft) && ltb table_ids_range_start id

abbrev pub stoppable : TableIds → ℕ → Bool
stoppable tables id = not (has_key id tables) && ltb table_ids_range_start id

abbrev pub starts : List ℕ → TableIds → TableIds
starts raft [] = []
starts raft ((id, t) ∷ m) =
    let rest = starts raft m in if startable raft id then (id, t) ∷ rest else rest

abbrev pub stops : TableIds → List ℕ → List ℕ
stops tables [] = []
stops tables (id ∷ ids) =
    let rest = stops tables ids in if stoppable tables id then id ∷ rest else rest

-- diffTables, of the tables and the shards of the node
unfoldable pub diff_tables : List Table → List ℕ → TableIds × List ℕ
diff_tables tables raft =
    (starts (distinct raft) (collect_ids tables []), stops (collect_ids tables []) (distinct raft))

-- Whether a table has the identifier.
abbrev pub owns : ℕ → List Table → Bool
owns i [] = false
owns i (t ∷ ts) = i == t.cluster_id || (i == t.recover_id || owns i ts)

has_key-insert :
    (i j : ℕ) (t : Table) (m : TableIds) → has_key i (insert j t m) ≡ (i == j || has_key i m)
has_key-insert i j t [] = refl
has_key-insert i j t ((k, u) ∷ m) = ground (arith, has_key-insert i j t m)

has_key-collect :
    (i : ℕ) (ts : List Table) (m : TableIds)
    → (i == 0) ≡ false
    → has_key i (collect_ids ts m) ≡ (owns i ts || has_key i m)
has_key-collect i [] m z = refl
has_key-collect i (t ∷ ts) m z =
    rw (has_key-collect i ts (insert_nonzero t.recover_id t (insert_nonzero t.cluster_id t m)) z) (
      ground (
        arith,
        z,
        has_key-insert i t.recover_id t (insert_nonzero t.cluster_id t m),
        has_key-insert i t.cluster_id t m,
      ))

-- A step of a filter, for a test that tells equal numbers alike.
filter_step :
    (f : ℕ → Bool) (i j : ℕ) (rest kept : Bool)
    → kept ≡ (rest && f i)
    → (if f j then i == j || kept else kept) ≡ ((i == j || rest) && f i)
filter_step f i j rest kept h = elim (Bool-cases (i == j)) [
  | inl same ↦ ground (arith, h, same, ap {A = ℕ} f {x = i} {y = j} (ground (arith, same)))
  | inr other ↦ ground (arith, h, other)
]

has_id-if :
    (i j : ℕ) (b : Bool) (js : List ℕ)
    → has_id i (if b then j ∷ js else js) ≡ (if b then i == j || has_id i js else has_id i js)
has_id-if i j true js = refl
has_id-if i j false js = refl

has_key-if :
    (i j : ℕ) (t : Table) (b : Bool) (m : TableIds)
    → has_key i (if b then (j, t) ∷ m else m) ≡ (if b then i == j || has_key i m else has_key i m)
has_key-if i j t true m = refl
has_key-if i j t false m = refl

has_id-distinct : (i : ℕ) (is : List ℕ) → has_id i (distinct is) ≡ has_id i is
has_id-distinct i [] = refl
has_id-distinct i (j ∷ is) = elim (Bool-cases (has_id j (distinct is))) [
  | inl twice ↦ elim (Bool-cases (i == j)) [
    | inl same ↦ ground (
      arith,
      twice,
      same,
      has_id-distinct i is,
      ap (λ x. has_id x (distinct is)) {x = i} {y = j} (ground (arith, same)),
    )
    | inr other ↦ rw (twice, other) (has_id-distinct i is)
  ]
  | inr once ↦ rw (once, has_id-distinct i is) refl
]

has_key-starts :
    (i : ℕ) (raft : List ℕ) (m : TableIds)
    → has_key i (starts raft m)
      ≡ (has_key i m && (not (has_id i raft) && ltb table_ids_range_start i))
has_key-starts i raft [] = refl
has_key-starts i raft ((j, t) ∷ m) =
    has_key-if i j t (startable raft j) (starts raft m)
    ∙ filter_step (startable raft) i j (has_key i m) (has_key i (starts raft m))
        (has_key-starts i raft m)

has_id-stops :
    (i : ℕ) (m : TableIds) (raft : List ℕ)
    → has_id i (stops m raft)
      ≡ (has_id i raft && (not (has_key i m) && ltb table_ids_range_start i))
has_id-stops i m [] = refl
has_id-stops i m (j ∷ js) =
    has_id-if i j (stoppable m j) (stops m js)
    ∙ filter_step (stoppable m) i j (has_id i js) (has_id i (stops m js)) (has_id-stops i m js)

-- diffTables starts exactly the shards above 10000 that a table has, as its cluster or for its recovery,
-- and the node does not run; it stops exactly those above 10000 that the node runs and no table has.
pub diff_tables_lem :
    (i : ℕ) (tables : List Table) (raft : List ℕ)
    → (has_key i (diff_tables tables raft).0
        ≡ (owns i tables && (not (has_id i raft) && ltb table_ids_range_start i)))
      × (has_id i (diff_tables tables raft).1
          ≡ (has_id i raft && (not (owns i tables) && ltb table_ids_range_start i)))
unfolding diff_tables
diff_tables_lem i tables raft = elim (Bool-cases (i == 0)) [
  | inl zero ↦ (
    has_key-starts i (distinct raft) (collect_ids tables []) ∙ ground (arith, zero),
    has_id-stops i (collect_ids tables []) (distinct raft) ∙ ground (arith, zero),
  )
  | inr positive ↦ (
    has_key-starts i (distinct raft) (collect_ids tables [])
        ∙ ground (arith, has_key-collect i tables [] positive, has_id-distinct i raft),
    has_id-stops i (collect_ids tables []) (distinct raft)
        ∙ ground (arith, has_key-collect i tables [] positive, has_id-distinct i raft),
  )
]
