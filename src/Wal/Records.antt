-- ===== src/Wal/Records.antt =====
-- src/wal/log_record.rs, src/wal/wal_log.rs, src/memtable/memtable_log.rs and
-- src/transaction/transaction_log.rs: the records of the log, before serialisation.
use hybridmvcc.Base.{ℕ}
use hybridmvcc.Timestamp.{Timestamp}
use hybridmvcc.Table.{TableFileSet}

abbrev pub LogPointer : Type 0
LogPointer = ℕ

pub data MemTableLogRecord (K V : Type 0) : Type 0 where
  put : K → V → MemTableLogRecord K V
  delete : K → MemTableLogRecord K V

pub record TxnCommitLog : Type 0 where
  pub commit_ts : Timestamp
  pub min_xip : Timestamp

pub data TransactionLogRecord : Type 0 where
  commit : TxnCommitLog → TransactionLogRecord
  abort : TransactionLogRecord

pub record CheckpointLog (K : Type 0) : Type 0 where
  pub min_xip : Timestamp
  pub min_recovery_point : LogPointer
  pub next_file_num : ℕ
  pub file_set : TableFileSet K

pub data WalLogRecord (K : Type 0) : Type 0 where
  checkpoint : CheckpointLog K → WalLogRecord K

pub data LogRecord (K V : Type 0) : Type 0 where
  mem_table : MemTableLogRecord K V → LogRecord K V
  transaction : TransactionLogRecord → LogRecord K V
  wal : WalLogRecord K → LogRecord K V

pub record FullLogRecord (K V : Type 0) : Type 0 where
  pub xid : Timestamp
  pub payload : LogRecord K V

module _ {K V : Type 0} where
  unfoldable pub create_put_log : K → V → LogRecord K V
  create_put_log key value = mem_table (put key value)

  unfoldable pub create_delete_log : K → LogRecord K V
  create_delete_log key = mem_table (delete key)

  unfoldable pub create_transaction_commit_log : Timestamp → Timestamp → LogRecord K V
  create_transaction_commit_log commit_ts min_xip =
      transaction (commit (record { commit_ts = commit_ts; min_xip = min_xip }))

  unfoldable pub create_transaction_abort_log : LogRecord K V
  create_transaction_abort_log = transaction abort

  unfoldable pub create_checkpoint_log : Timestamp → LogPointer → ℕ → TableFileSet K → LogRecord K V
  create_checkpoint_log min_xip min_recovery_point next_file_num file_set = wal (
      checkpoint (record {
        min_xip = min_xip;
        min_recovery_point = min_recovery_point;
        next_file_num = next_file_num;
        file_set = file_set;
      }))
