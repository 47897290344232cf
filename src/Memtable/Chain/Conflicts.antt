-- ===== src/Memtable/Chain/Conflicts.antt =====
-- Write-write conflicts: a transaction writes only over versions that it may see.
use hybridmvcc.Base.{◌<◌, Bool, true, false, not, some, ok, ◌≡◌, ◌⊎◌, arith}
use hybridmvcc.Timestamp.{Timestamp, commit, uncommitted, type_, normalize, is_committed}
use hybridmvcc.Transaction.{Transaction, Snapshot}
use hybridmvcc.Transaction.Status.{get_transaction_status, is_committed_status}
use hybridmvcc.Transaction.Snapshots.{get_snapshot}
use hybridmvcc.Memtable.Chain.{Shared, check_ww_conflict, check_xid}
use hybridmvcc.Memtable.Chain.Reads.{visible}

-- A version of a fast-commit transaction that did not commit.
abbrev pub abandoned : Shared → Timestamp → Bool
abandoned shared ts = elim (type_ ts) [
  | commit ↦ false
  | uncommitted ↦ false
  | _ ↦ not (is_committed_status (get_transaction_status shared.txn_table (normalize ts)))
]

module _ {K V : Type 0} (shared : Shared) (txn : Transaction K V) (s : Snapshot)
    (ts : Timestamp) where
  -- For a transaction that has taken its snapshot and a timestamp that is not 0: a version that
  -- the transaction may see is no conflict, and a version that is no conflict may be seen or was
  -- written by a fast-commit transaction that did not commit.
  pub conflict-visible :
      txn.current_snapshot ≡ some s
      → 0 < ts
      → (visible shared s txn ts ≡ true → check_ww_conflict shared txn ts ≡ ok (txn, false))
        × (check_ww_conflict shared txn ts ≡ ok (txn, false)
            → (visible shared s txn ts ≡ true) ⊎ (abandoned shared ts ≡ true))
  unfolding check_ww_conflict check_xid get_snapshot visible is_committed
  conflict-visible h v = (λ e. ground arith, λ e. ground arith)
