-- ===== src/Lib.antt =====
-- hybridmvcc (the crate `kagi`): an embedded key-value store with multi-version concurrency
-- control. Paths below are from the repository's root.
--
-- The parts and how they interact. A transaction (src/transaction.rs) is started, committed and
-- aborted by the transaction manager (src/transaction/transaction_manager.rs), which keeps the set
-- of running transactions and stamps the versions of a commit. Versions are nodes (src/storage.rs)
-- in chains, newest first, in the hash memtable (src/memtable/hash_memtable.rs), which decides what
-- a transaction may see and when a write conflicts. A flush copies old versions out of the chains
-- (`snapshot`) into an immutable table and a table file, and `gc` then drops them. The table files
-- are kept in levels by the version set (src/version.rs), which makes each new version durable by
-- a checkpoint record before it installs it, and picks the files of compactions.
--
-- Files:
--   Base          shared names: tests on numbers, lists, `Outcome` (the crate's `Result` with a
--                 panic as a third outcome, src/result.rs), and the key order `Ord`
--   Timestamp     `Timestamp` of src/transaction.rs: a 64-bit word as a natural number, with its
--                 wrap-around written out, as compiled with the feature `hybrid_ts`
--   Storage       src/storage.rs: `RedoNode`, with the address that identifies it
--   Table         src/table.rs: names and metadata of table files
--   Wal.Records   src/wal/log_record.rs, src/wal/wal_log.rs, src/memtable/memtable_log.rs,
--                 src/transaction/transaction_log.rs: log records as values
--   Wal.Checkpoint  src/wal/checkpoint.rs: the manifest, its file, and `CheckpointManager`
--   Wal.Segment   src/wal/segment.rs: pages, the chunks of a record, and the reader
--   Bytes         the byte orders and varints that the formats take from other crates
--   Block.Data    src/block/data_block.rs: the builder and the iterator of a block
--   Cache         src/utils/cache.rs: `ShardedCache`, over the map of the crate `lru`
--   Table.BlockTable  src/table/block_table.rs, src/block/index.rs, src/utils/random_access.rs:
--                 Builder: `BlockTableBuilder`; Reader: `BlockTableReader`, its look-up and its iterator;
--                 RoundTrip: from the one to the other
--   MergingIter   src/merging_iter.rs: the merge of the tables of a compaction
--   Block.Filter  src/block/filter_policy.rs and src/block/filter.rs: the Bloom filter of a table,
--                 with the reader of a target without AVX2
--   Transaction   src/transaction.rs; Status: src/transaction/transaction_table.rs; Snapshots and
--                 Manager: src/transaction/transaction_manager.rs (`commit` is commit_txn, `abort`
--                 is abort_txn)
--   Memtable      Chain: what hash_memtable.rs does along one version chain; HashTable: its
--                 operations on the table, each from its call to its successful compare-and-swap
--   Version       `Version` and its look-up; Builder: `VersionBuilder`; Compaction: the choice of
--                 files; VersionSet: `VersionSet`
--   Database      src/db.rs: `get`, `put` and `delete` through the memtable, the immutable tables
--                 and the table files, and reads across a flush; Flush: `write_level0_table`;
--                 Compaction: the loop of `start_compaction`
-- The modules below these hold the proofs, and Tests the theorems at concrete inputs.
--
-- Correspondence. A pointer tag is two flags of a link, a chain is a list, the hash map of chains
-- an association list, and a `BTreeSet` or `BTreeMap` a list in ascending order. Atomic variables
-- are fields. The keys are any type with an order; values are any type. The write-ahead log that
-- the manager and the version set call, what the version set asks of the checkpoint manager, and
-- the reader of a table file that a look-up in a version calls are parameters: records of
-- operations whose results and errors are arbitrary. The serialisation of the manifest and of keys,
-- values and pointers in table files, the byte orders, the checksums, the hash and the varints of
-- manifest, segments and blocks are parameters with their documented laws; so are the map of the
-- block cache and the system that takes the writes of a file. Other serialisation is not modelled.
-- Scores of levels are `f64` quotients in the code and pairs of whole numbers here.
--
-- Bounds and fuel. `inc` and `dec` loop on two rounds, since of two successive raw values at most
-- one is 0. The binary search of `find_in_files` has the length of the list as fuel, since its
-- count falls in every round. `expand_inputs` has two more than the number of files of the level,
-- since a selection grows in every round but the last. The loops over the bytes of a record or of
-- a segment have one more than their number, since each round takes at least one, and the scan of
-- a block likewise; `next` of a merge has one more than the pairs that are left.
-- `next` of a table has 2, since every block has an entry. The loops of a compaction have one more
-- than the pairs of the merge. Theorems on commit timestamps are for values below 2^61, half of the
-- circle on which they are compared.
--
-- Not modelled: retries after a failed compare-and-swap and the interleaving of two operations
-- inside one chain, memory reclamation by epochs, the sequence of the log's segments, recovery from
-- it, the cache of open tables, and the scheduling of flushes and compactions.
pub mod Base
pub mod Timestamp
pub mod Storage
pub mod Table
pub mod Wal
pub mod Transaction
pub mod Memtable
pub mod Version
pub mod Block
pub mod Bytes
pub mod Cache
pub mod Database
pub mod MergingIter
pub mod Tests
