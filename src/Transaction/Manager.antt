-- ===== src/Transaction/Manager.antt =====
-- src/transaction/transaction_manager.rs: starting, committing and aborting transactions.
pub mod Invariant
pub mod Outcomes
use hybridmvcc.Base.{
  ℕ, ◌+◌, ◌%◌, ◌^◌, Bool, true, false, Option, none, some, List, [], ◌∷◌, ◌==◌, if◌then◌else◌, map,
  Outcome, ok, err, panic, Ord, exists_in, is_lt,
}
use hybridmvcc.Timestamp.{
  Timestamp, commit, start, uncommitted, new, is_invalid, ts_lt, cmp, invalid_timestamp,
}
use hybridmvcc.Wal.Records.{
  LogPointer, LogRecord, FullLogRecord, create_transaction_commit_log, create_transaction_abort_log,
}
use hybridmvcc.Transaction.{
  Transaction, TransactionMode, normal, fast_commit, new_transaction, is_fast_commit,
}
use hybridmvcc.Transaction.Status.{
  TransactionStatus, committed, aborted, TransactionTable, set_transaction_status,
}
use hybridmvcc.Transaction.Snapshots.{SnapshotData, set_insert, set_remove}
use hybridmvcc.Memtable.Chain.{Shared}
use hybridmvcc.Memtable.HashTable.{MemTable, rollback, stamp_entries}

-- The log as the manager uses it. Each call leaves the log changed whether or not it fails.
pub record WalOps (K V : Type 0) : Type 1 where
  pub Log : Type 0
  pub append_all : List (FullLogRecord K V) → Log → Outcome (Unit {0}) × Log
  pub append_record : FullLogRecord K V → Log → Outcome (LogPointer × LogPointer) × Log
  pub flush : Option LogPointer → Log → Outcome (Unit {0}) × Log

pub record TransactionManager : Type 0 where
  pub timestamp_counter : ℕ
  pub snapshot_data : SnapshotData
  pub cached_min_xip : Timestamp
  pub txn_table : TransactionTable

abbrev pub new_manager : TransactionManager
new_manager = record {
  timestamp_counter = 1;
  snapshot_data = record { xips = []; latest_completed_xid = invalid_timestamp };
  cached_min_xip = invalid_timestamp;
  txn_table = [];
}

-- What the memtable reads of the manager.
abbrev pub shared_of : TransactionManager → Shared
shared_of mgr = record { snapshot_data = mgr.snapshot_data; txn_table = mgr.txn_table }

-- `fetch_add(1)` on a 64-bit counter.
abbrev pub next_counter : ℕ → ℕ
next_counter n = (n + 1) % 2 ^ 64

abbrev pub commit_timestamp_of : TransactionMode → ℕ → Timestamp
commit_timestamp_of fast_commit ts = new start ts
commit_timestamp_of normal ts = new uncommitted ts

unfoldable pub start_transaction :
    {K V : Type 0} → TransactionMode → TransactionManager → Transaction K V × TransactionManager
start_transaction mode mgr =
    let ts = mgr.timestamp_counter in
    let shared = mgr.snapshot_data in
    (
      new_transaction mode (new commit ts) (commit_timestamp_of mode ts),
      record mgr {
        timestamp_counter = next_counter ts;
        snapshot_data = record shared { xips = set_insert (new commit ts) shared.xips };
      },
    )

-- The end of a transaction, under the lock of `commit` and of `abort`.
unfoldable pub complete : Timestamp → SnapshotData → SnapshotData
complete start_ts shared = record {
  xips = set_remove start_ts shared.xips;
  latest_completed_xid =
      if ts_lt shared.latest_completed_xid start_ts then start_ts else shared.latest_completed_xid;
}

unfoldable pub min_xip : TransactionManager → Option Timestamp × TransactionManager
min_xip mgr = elim mgr.snapshot_data.xips [
  | [] ↦ (none, mgr)
  | x ∷ rest ↦ (some x, record mgr { cached_min_xip = x })
]

unfoldable pub cached_min_xip : TransactionManager → Option Timestamp
cached_min_xip mgr = if is_invalid mgr.cached_min_xip then none else some mgr.cached_min_xip

abbrev pub unwrap_or_default : Option Timestamp → Timestamp
unwrap_or_default none = invalid_timestamp
unwrap_or_default (some ts) = ts

module _ {K V : Type 0} ⦃o : Ord K⦄ (w : WalOps K V) where
  -- The parts of a database that a transaction's end changes.
  pub record Store : Type 0 where
    pub mgr : TransactionManager
    pub mem : MemTable K V
    pub log : w.Log

  infixl 5 ◌>>>◌
  abbrev pub ◌>>>◌ :
      {A B : Type 0} → Outcome A × w.Log → (A → w.Log → Outcome B × w.Log) → Outcome B × w.Log
  ◌>>>◌ (ok a, log) f = f a log
  ◌>>>◌ (err e, log) f = (err e, log)
  ◌>>>◌ (panic, log) f = (panic, log)

  -- `append_record` and `flush` of the record that ends a transaction.
  unfoldable pub log_end : FullLogRecord K V → w.Log → Outcome (Unit {0}) × w.Log
  log_end rec log = w.append_record rec log >>> λ pos log'. w.flush (some pos.1) log'

  abbrev pub finish_with :
      TransactionStatus
      → Transaction K V
      → Store
      → Outcome (Unit {0}) × w.Log
      → Outcome (Unit {0}) × Store
  finish_with status txn store (ok done, log) =
      let mgr = store.mgr in
      (
        ok tt,
        record store {
          log = log;
          mgr = record mgr {
            txn_table =
                if is_fast_commit txn
                then set_transaction_status mgr.txn_table txn.start_timestamp status
                else mgr.txn_table;
          };
        },
      )
  finish_with status txn store (err e, log) = (err e, record store { log = log })
  finish_with status txn store (panic, log) = (panic, record store { log = log })

  abbrev pub owns : Transaction K V → ℕ → Bool
  owns txn addr = exists_in (λ r. r.1 == addr) txn.redo_nodes

  -- The block of `commit` under the write lock.
  unfoldable pub publish : Transaction K V → Store → Store
  publish txn store =
      let mgr = store.mgr in
      let mem = store.mem in
      let commit_ts = new commit mgr.timestamp_counter in
      record store {
        mgr = record mgr {
          timestamp_counter = next_counter mgr.timestamp_counter;
          snapshot_data = complete txn.start_timestamp mgr.snapshot_data;
        };
        mem = record mem {
          entries =
              if txn.is_readonly
              then mem.entries
              else stamp_entries commit_ts (owns txn) mem.entries;
        };
      }

  unfoldable pub commit_txn : Transaction K V → Store → Outcome (Unit {0}) × Store
  commit_txn txn store =
      let store' = publish txn store in
      finish_with committed txn store' (
        if txn.is_readonly
        then (ok tt, store'.log)
        else (w.append_all txn.staged_log_records store'.log >>> λ done log.
            log_end
              (record {
                xid = txn.start_timestamp;
                payload =
                    create_transaction_commit_log (new commit store.mgr.timestamp_counter)
                      (unwrap_or_default (cached_min_xip store'.mgr));
              })
              log))

  -- The loop of `abort` over the redo nodes.
  unfoldable pub rollback_all : Transaction K V → List (K × ℕ) → MemTable K V → MemTable K V
  rollback_all txn [] mem = mem
  rollback_all txn ((key, addr) ∷ rest) mem = rollback_all txn rest (rollback txn key mem)

  -- What `abort` does before it writes the log.
  unfoldable pub roll_back : Transaction K V → Store → Store
  roll_back txn store =
      let mgr = store.mgr in
      record store {
        mgr = record mgr { snapshot_data = complete txn.start_timestamp mgr.snapshot_data };
        mem = rollback_all txn txn.redo_nodes store.mem;
      }

  unfoldable pub abort_txn : Transaction K V → Store → Outcome (Unit {0}) × Store
  abort_txn txn store =
      let store' = roll_back txn store in
      finish_with aborted txn store' (
        log_end (record { xid = txn.start_timestamp; payload = create_transaction_abort_log })
          store'.log)
