-- ===== src/Tests/Transactions.antt =====
-- Transactions on a concrete store.
use hybridmvcc.Base.{
  invalid_state, false, err, ℕ, ◌^◌, ◌<◌, ◌≤◌, true, not, ◌&&◌, none, some, [], ◌∷◌, ◌==◌, ok, ◌≡◌,
  refl, arith, All, if◌then◌else◌, ltb,
}
use hybridmvcc.Base.{ℕ_ord}
use hybridmvcc.Transaction.{normal, Snapshot, contains, is_xid_in_progress}
use hybridmvcc.Transaction.Snapshots.{record_snapshot}
use hybridmvcc.Transaction.Snapshots.InProgress.{record_snapshot_lem}
use hybridmvcc.Transaction.Manager.{
  roll_back, rollback_all, log_end, WalOps, Store, start_transaction, min_xip, cached_min_xip,
  abort_txn,
}
use hybridmvcc.Transaction.Manager.Invariant.{
  after_complete, complete-IsValid, IsValid, start_transaction-IsValid, min_xip_lem,
}
use hybridmvcc.Memtable.Chain.{rollback_chain}
use hybridmvcc.Memtable.HashTable
use hybridmvcc.Memtable.HashTable.{entry, rollback, set_entry}
use hybridmvcc.Tests.Fixtures.{
  table, link, mark, txn_at, writer, shared, store, manager, counting_log,
}

manager-IsValid : IsValid manager
manager-IsValid = record { running = ground arith; completed = omega arith; counting = omega arith }

record_snapshot_lem_example :
    (s : Snapshot) × (record_snapshot shared.snapshot_data (txn_at 9) ≡ ok s)
    × ((xid : ℕ)
        → xid < 2 ^ 61
        → is_xid_in_progress s xid
          ≡ (if ltb 8 xid then true else contains (6 ∷ []) xid && not (xid == 9)))
record_snapshot_lem_example =
    record_snapshot_lem shared.snapshot_data (txn_at 9) (ground arith) (omega arith)

start_transaction-IsValid_example :
    IsValid (start_transaction {K = ℕ} {V = ℕ} normal manager).1
    × ((start_transaction {K = ℕ} {V = ℕ} normal manager).0.start_timestamp ≡ 9)
    × (contains (6 ∷ []) 9 ≡ false)
    × (8 < 9)
    × (contains (start_transaction {K = ℕ} {V = ℕ} normal manager).1.snapshot_data.xips 9 ≡ true)
start_transaction-IsValid_example =
    start_transaction-IsValid ℕ ℕ normal manager manager-IsValid (omega arith) (omega arith)

complete-IsValid_example :
    IsValid (after_complete manager 6)
    × (contains (after_complete manager 6).snapshot_data.xips 6 ≡ false)
    × (8 ≤ (after_complete manager 6).snapshot_data.latest_completed_xid)
    × (6 ≤ (after_complete manager 6).snapshot_data.latest_completed_xid)
complete-IsValid_example = complete-IsValid manager 6 manager-IsValid (omega arith)

-- A log that fails.
abbrev failing_log : WalOps ℕ ℕ
failing_log = record {
  Log = ℕ;
  append_all = λ recs n. (err invalid_state, n);
  append_record = λ rec n. (err invalid_state, n);
  flush = λ pos n. (err invalid_state, n);
}

abbrev failing_store : Store failing_log
failing_store = record { mgr = manager; mem = table; log = 0 }

min_xip_lem_example :
    ((min_xip manager).0 ≡ none → manager.snapshot_data.xips ≡ [])
    × ((x : ℕ)
        → (min_xip manager).0 ≡ some x
        → (contains manager.snapshot_data.xips x ≡ true)
          × All (λ y. x ≤ y) manager.snapshot_data.xips
          × (cached_min_xip (min_xip manager).1 ≡ some x))
min_xip_lem_example = min_xip_lem manager manager-IsValid

-- The chain that the abort starts from, and the chain that it leaves.
abort_txn_test :
    (entry 1 store.mem.entries ≡ some (link 2 (mark 6) 60 ∷ link 1 3 30 ∷ []))
    × (entry 1 (abort_txn counting_log writer store).1.mem.entries ≡ some (link 1 3 30 ∷ []))
unfolding entry abort_txn roll_back rollback_all rollback set_entry rollback_chain log_end
abort_txn_test = (refl, refl)
