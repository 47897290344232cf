-- ===== src/Tests/Fixtures.antt =====
-- The transactions, chains, logs and files that the tests run on.
use hybridmvcc.Base.{ℕ_ord, ℕ, suc, ◌+◌, ◌*◌, ◌^◌, true, false, some, [], ◌∷◌, ok}
use hybridmvcc.Timestamp.{Timestamp}
use hybridmvcc.Storage.{insert}
use hybridmvcc.Memtable.Chain.{Link, Chain, Shared}
use hybridmvcc.Memtable.HashTable.{MemTable}
use hybridmvcc.Transaction.{Transaction, Snapshot, normal}
use hybridmvcc.Transaction.Manager.{TransactionManager, WalOps, Store, new_manager}
use hybridmvcc.Table.{TableFileMeta}
use hybridmvcc.Version.Compaction.{Options}

abbrev pub link : ℕ → Timestamp → ℕ → Link ℕ
link addr ts value = record {
  present = true;
  abort = false;
  node = record { addr = addr; timestamp = ts; collected = 0; redo = insert value };
}

-- The uncommitted mark of the transaction that started at `n`.
abbrev pub mark : ℕ → Timestamp
mark n = n + 3 * 2 ^ 62

-- The mark of a fast-commit transaction.
abbrev pub fast_mark : ℕ → Timestamp
fast_mark n = n + 2 ^ 62

abbrev pub snap : Snapshot
snap = record { min_xid = 4; max_xid = 9; xips = 6 ∷ [] }

abbrev pub txn_at : ℕ → Transaction ℕ ℕ
txn_at n = record {
  mode = normal;
  start_timestamp = n;
  commit_timestamp = mark n;
  is_readonly = true;
  redo_nodes = [];
  pinned = false;
  imm_tables = [];
  value_cache = [];
  staged_log_records = [];
  current_snapshot = some snap;
}

-- A transaction that wrote the node at address 2 under the key 1.
abbrev pub writer : Transaction ℕ ℕ
writer = record (txn_at 6) { is_readonly = false; redo_nodes = (1, 2) ∷ [] }

abbrev pub shared : Shared
shared = record {
  snapshot_data = record { xips = 6 ∷ []; latest_completed_xid = 8 };
  txn_table = [];
}

-- Two versions, the newer one not committed.
abbrev pub two_versions : Chain ℕ
two_versions = link 2 (mark 6) 60 ∷ link 1 3 30 ∷ []

abbrev pub table : MemTable ℕ ℕ
table = record { entries = (1, two_versions) ∷ (5, link 3 4 50 ∷ []) ∷ []; size = 2; next_addr = 4 }

abbrev pub manager : TransactionManager
manager = record new_manager {
  timestamp_counter = 9;
  snapshot_data = record { xips = 6 ∷ []; latest_completed_xid = 8 };
}

-- A log that counts its calls.
abbrev pub counting_log : WalOps ℕ ℕ
counting_log = record {
  Log = ℕ;
  append_all = λ recs n. (ok tt, suc n);
  append_record = λ rec n. (ok (n, suc n), suc n);
  flush = λ pos n. (ok tt, suc n);
}

abbrev pub store : Store counting_log
store = record { mgr = manager; mem = table; log = 0 }

abbrev pub file : ℕ → ℕ → ℕ → TableFileMeta ℕ
file seqnum low high = record {
  file_ref = record { path_id = 0; seqnum = seqnum };
  size = 10;
  min_xip = seqnum;
  infimum = low;
  supremum = high;
  being_compacted = false;
}

abbrev pub options : Options
options = record {
  num_levels = 2;
  level0_file_num_compaction_trigger = 2;
  max_bytes_for_level_base = 100;
  max_bytes_for_level_multiplier = 10;
}
