-- ===== src/Memtable.antt =====
-- src/memtable/: the in-memory table of version chains.
pub mod Chain
pub mod HashTable
