-- ===== src/Tests.antt =====
-- The theorems at concrete inputs, and test runs of the code.
pub mod Fixtures
pub mod Timestamps
pub mod Chains
pub mod Tables
pub mod Transactions
pub mod Versions
pub mod Checkpoints
pub mod Databases
pub mod Blocks
pub mod BlockTables
pub mod Compactions
pub mod Segments
pub mod Filters
pub mod Merges
