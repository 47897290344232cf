-- ===== src/Transaction.antt =====
-- src/transaction.rs: a transaction's private state, and snapshots of the running transactions.
pub mod Status
pub mod Snapshots
pub mod Manager
use hybridmvcc.Base.{
  ℕ, Bool, true, false, Option, none, some, List, [], ◌∷◌, ◌++◌, ◌==◌, if◌then◌else◌, exists_in,
}
use hybridmvcc.Timestamp.{Timestamp, ts_lt, ts_ge, cmp}
use hybridmvcc.Storage.{RedoNode, new_insert, new_delete}
use hybridmvcc.Wal.Records.{LogRecord, FullLogRecord}

pub data TransactionMode : Type 0 where
  normal fast_commit : TransactionMode

pub record Snapshot : Type 0 where
  pub min_xid : Timestamp
  pub max_xid : Timestamp
  pub xips : List Timestamp

abbrev pub contains : List Timestamp → Timestamp → Bool
contains xips xid = exists_in (λ x. x == xid) xips

unfoldable pub is_xid_in_progress : Snapshot → Timestamp → Bool
is_xid_in_progress s xid =
    if ts_lt xid s.min_xid then false else if ts_ge xid s.max_xid then true else contains s.xips xid

-- `pinned` says whether the transaction holds an epoch guard. The immutable tables that it refers
-- to are kept with their contents.
pub record Transaction (K V : Type 0) : Type 0 where
  pub mode : TransactionMode
  pub start_timestamp : Timestamp
  pub commit_timestamp : Timestamp
  pub is_readonly : Bool
  pub redo_nodes : List (K × ℕ)
  pub pinned : Bool
  pub imm_tables : List (Timestamp × List (K × Option V))
  pub value_cache : List V
  pub staged_log_records : List (FullLogRecord K V)
  pub current_snapshot : Option Snapshot

abbrev pub fast : TransactionMode → Bool
fast normal = false
fast fast_commit = true

abbrev pub without_key : {A : Type 0} → Timestamp → List (Timestamp × A) → List (Timestamp × A)
without_key k [] = []
without_key k ((j, a) ∷ m) = if j == k then without_key k m else (j, a) ∷ without_key k m

module _ {K V : Type 0} where
  unfoldable pub new_transaction : TransactionMode → Timestamp → Timestamp → Transaction K V
  new_transaction mode start_timestamp commit_timestamp = record {
    mode = mode;
    start_timestamp = start_timestamp;
    commit_timestamp = commit_timestamp;
    is_readonly = true;
    redo_nodes = [];
    pinned = false;
    imm_tables = [];
    value_cache = [];
    staged_log_records = [];
    current_snapshot = none;
  }

  abbrev pub is_fast_commit : Transaction K V → Bool
  is_fast_commit txn = fast txn.mode

  -- The address of a node is chosen by the allocator.
  unfoldable pub get_insert_redo : Transaction K V → ℕ → V → RedoNode V
  get_insert_redo txn addr inserted = new_insert addr txn.commit_timestamp inserted

  unfoldable pub get_delete_redo : Transaction K V → ℕ → RedoNode V
  get_delete_redo txn addr = new_delete addr txn.commit_timestamp

  unfoldable pub add_redo_node : Transaction K V → K → ℕ → Transaction K V
  add_redo_node txn key addr = record txn {
    is_readonly = false;
    redo_nodes = if is_fast_commit txn then txn.redo_nodes else txn.redo_nodes ++ (key, addr) ∷ [];
  }

  unfoldable pub set_gc_guard : Transaction K V → Transaction K V
  set_gc_guard txn = record txn { pinned = true }

  -- `HashMap::insert`
  unfoldable pub ref_imm_table : Transaction K V → Timestamp → List (K × Option V) → Transaction K V
  ref_imm_table txn min_xip imt = record txn {
    imm_tables = (min_xip, imt) ∷ without_key min_xip txn.imm_tables;
  }

  unfoldable pub record_value : Transaction K V → V → Transaction K V
  record_value txn value = record txn { value_cache = txn.value_cache ++ value ∷ [] }

  unfoldable pub drop_read_guard : Transaction K V → Transaction K V
  drop_read_guard txn = record txn { pinned = false; imm_tables = []; value_cache = [] }

  unfoldable pub stage_log_record : Transaction K V → LogRecord K V → Transaction K V
  stage_log_record txn log = record txn {
    staged_log_records =
        txn.staged_log_records ++ record { xid = txn.start_timestamp; payload = log } ∷ [];
  }
