-- ===== src/Lib.antt =====
-- A model of Regatta, a replicated key-value store, and theorems about it.
--
-- Regatta keeps each table in a replicated state machine on a pebble database. Raft (dragonboat)
-- hands the state machine a log of encoded commands; `Update` decodes them, runs each on one batch and
-- commits the batch with the index of the last entry. Reads run on the database. A table on a node
-- sends its requests to its shard as reads and proposals; the engine and the gRPC server stand before
-- the tables. The tables' metadata stand in a key-value store that is replicated in the same way; a
-- manager on each node creates and deletes tables there, and starts and stops the shards that it lists.
-- A follower cluster asks the log server of the leader for the log of a table, which reads it through a
-- cache of its newest entries, and a worker proposes the commands to the follower's own table. Nodes
-- learn of the shards by gossip. The files, by the code that they model:
--
--   Key         storage/table/key/key.go and v1.go: the format of stored keys. Encode, Decode and
--               DecodeBytes are encode, decode and decode_bytes; RoundTrip is about them.
--   Pebble      the interface of the pebble database that the code calls, a parameter (record Pebble),
--               with what its documentation promises (PebbleLaws): a batch and a database show
--               entries in key order, of which OrderedMap has the operations. Seek is about splitAll
--               of pebble/pebble.go. Model is an instance in memory with all of the laws.
--   Fsm         storage/table/fsm. Keys is the system keys, encodeUserKey and incrementRightmostByte
--               of fsm.go; Messages the structs of regattapb/mvcc.pb.go and the sizes that
--               mvcc_vtproto.pb.go computes; Query is query.go and iter.go; Context is updateContext
--               of command.go; Put, Delete, Txn, Compare and Command are the command files;
--               Update is Update, Commit, parseCommand and readLocalIndex; Lookup is Lookup and
--               commandSnapshot.
--               Spec says what commands do to the entries of a table; Refinement and Update/Correct
--               compare the handlers with it, Effects says what the changes of Spec amount to,
--               Spec/Users that they depend on the user keys alone, and Compare/Decides when the
--               comparisons of a transaction hold.
--   Api         regattapb/regatta.pb.go: the requests and the responses of a table.
--   Table       storage/table/table.go: ActiveTable with its bounds on keys and values. The node host is
--               a parameter (RaftHandler); Active has one_node, which applies what it is sent to a
--               database at once and whose stale reads are any function.
--   Engine      storage/engine.go: the requests that it passes to a table, and their headers.
--   Server      regattaserver/kv.go: KVServer and ReadonlyKVServer, with their status codes.
--   Manager     storage/table/manager.go. Manager.antt has the leases, the sequence of identifiers and
--               the creation and deletion of tables over the versioned store, Diff has diffTables,
--               Reconcile has reconcile with the start and stop of shards, Restore has Restore and
--               readIntoTable, Cleanup has cleanup, GetTableByID and CreateTable. LeaseTable reads
--               the clock twice, its model once. Shared is a store that other nodes write to
--               between any two requests.
--   Replication replication/worker.go, replication/replication.go and regattaserver/replication.go.
--               LogServer is Replicate with its loop, Entries entryToCommand; LogServer/Leader is a
--               leader whose log reader is Simple of LogReader, over the log that dragonboat
--               documents, so that what is said of a leader does not cover Cached; Worker is proposeBatch,
--               do, tableState and the body of the routines of Start, one tick each. Runs, Mirror,
--               CatchUp and Round compare a follower with its leader. SnapshotFile is snapshotFile of
--               replication/snapshot/snapshot.go, Snapshot its chunks, SnapshotServer.Stream and
--               recover. Registry is the manager's workers, with reconcileWorkers and reconcileTables;
--               a lock that is waited for without end is the error `blocked`.
--   LogReader   storage/logreader/cache.go and logreader.go: the cache of the log, and reads through it;
--               GetLogReader of dragonboat is a parameter.
--   Cluster     storage/cluster/view.go: what a node knows of all shards by gossip. mergeShardInfo and
--               shardView.update are merge_shard_info and update of View.
--   Kv          storage/kv/map.go and raft.go: the versioned store for the metadata of the tables.
--               MapStore is a function from keys, LFSM.Update is update_store; Raft has
--               RaftStore.Set and Delete, with proposals and JSON as parameters.
--   Bytes       bytes, bytes.Compare and bytes.Equal.
--   Result      values, errors and panics of Go; Action the same with a state.
--   Prelude     tests on numbers, lists, and the names that all files share.
--
-- Stateful Go code is a function from a state to a result with the new state: the state of a handler
-- is its UpdateContext, whose batch is a value of the parameter. An error or a panic carries no state:
-- Update returns it and drops its batch. LFSM.Update writes to its map in place, so that its model
-- returns the map with an error too. Code that calls the node host, the store of metadata or a stream
-- is an Action, which keeps the state that an error leaves. A `[]byte` that may be nil is an Option
-- where nil matters. An iterator is the list of entries that it runs through, a stream the list of its
-- messages with the error at its end. The pool of key buffers hands out empty buffers. Closing an
-- iterator or a value has no effect that the model shows. Protobuf's Command is a tree, so the two loops
-- over it are structural.
--
-- Loops are structural recursion on their lists, but for five that have fuel: the loop of sort.Search,
-- which halves an interval of n and has n + 1 rounds, the loop of bits.Len64, which has 64 rounds for
-- 64 bits, incrementRightmostByte, which has one round for each byte, the loop of Replicate, which
-- reads at least one entry in each round but the last and has one round for each entry up to the
-- applied index, and one more, and the reads of a snapshot file, each of at least eight of its bytes,
-- which have one round for each byte and one more. Bytes wrap at 256 where the code adds to one.
-- Indexes and counts are natural numbers: the code never computes with an index near 2 ^ 64 nor counts
-- so many keys; the sequence of identifiers wraps at 2 ^ 64. Index values are written in eight bytes,
-- little endian.
--
-- Not modelled: the files and directories of the state machine (Open, snapshots, Sync), metrics,
-- logging, the listings and snapshots of the key-value store, the loops and timers of the manager
-- and of the workers, backups, the cluster's gossip and discovery, the REST and maintenance
-- servers, and the command line: they are I/O and glue around libraries, but for the listings,
-- which the manager takes as a parameter.
pub mod Action
pub mod Api
pub mod Bytes
pub mod Cluster
pub mod Engine
pub mod Fsm
pub mod Key
pub mod Kv
pub mod LogReader
pub mod Manager
pub mod Pebble
pub mod Prelude
pub mod Replication
pub mod Result
pub mod Server
pub mod Table
