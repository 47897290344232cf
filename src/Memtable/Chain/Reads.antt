-- ===== src/Memtable/Chain/Reads.antt =====
-- `get_value` against the newest version that a transaction may see.
use hybridmvcc.Base.{
  Bool, false, not, ◌&&◌, ◌||◌, Option, none, some, [], ◌∷◌, ◌==◌, if◌then◌else◌, ok, ◌≡◌, refl,
  arith,
}
use hybridmvcc.Timestamp.{Timestamp, commit, uncommitted, type_, normalize, ts_gt}
use hybridmvcc.Storage.{RedoRecord, inserted}
use hybridmvcc.Transaction.{Transaction, Snapshot, is_xid_in_progress}
use hybridmvcc.Transaction.Status.{get_transaction_status, is_committed_status}
use hybridmvcc.Transaction.Snapshots.{get_snapshot}
use hybridmvcc.Memtable.Chain.{
  check_version_visibility, Chain, Shared, is_abort, skip_delta, get_value_loop, get_value,
}

module _ {K V : Type 0} where
  -- The versions that a transaction with snapshot `s` may see: its own, those committed by its
  -- start, and those of fast-commit transactions that its snapshot counts as committed.
  unfoldable pub visible : Shared → Snapshot → Transaction K V → Timestamp → Bool
  visible shared s txn ts = elim (type_ ts) [
    | commit ↦ not (ts_gt ts txn.start_timestamp)
    | uncommitted ↦ ts == txn.commit_timestamp
    | _ ↦
        normalize ts == txn.start_timestamp
        || (not (is_xid_in_progress s (normalize ts))
            && is_committed_status (get_transaction_status shared.txn_table (normalize ts)))
  ]

module _ {V : Type 0} where
  -- The newest version that satisfies `p`.
  unfoldable pub newest : (Timestamp → Bool) → Chain V → Option (RedoRecord V)
  newest p [] = none
  newest p (l ∷ rest) = if p l.node.timestamp then some l.node.redo else newest p rest

  abbrev pub value_of : Option (RedoRecord V) → Option V
  value_of none = none
  value_of (some r) = inserted r

module _ {K V : Type 0} where
  pub skip_delta-visible :
      (shared : Shared) (txn : Transaction K V) (s : Snapshot) (ts : Timestamp)
      → txn.current_snapshot ≡ some s
      → skip_delta shared txn ts ≡ ok (txn, not (visible shared s txn ts))
  unfolding skip_delta visible check_version_visibility get_snapshot
  skip_delta-visible shared txn s ts h = ground arith

  loop-newest :
      (shared : Shared) (txn : Transaction K V) (s : Snapshot) (chain : Chain V)
      → txn.current_snapshot ≡ some s
      → get_value_loop shared txn chain ≡ ok (txn, value_of (newest (visible shared s txn) chain))
  unfolding newest get_value_loop
  loop-newest shared txn s [] h = refl
  loop-newest shared txn s (l ∷ rest) h =
      ground
        (arith, skip_delta-visible shared txn s l.node.timestamp h, loop-newest shared txn s rest h)

  -- In a transaction that has taken its snapshot, a read of a chain that is not being removed
  -- returns the value of the newest version that the transaction may see.
  pub get_value-newest :
      (shared : Shared) (txn : Transaction K V) (s : Snapshot) (chain : Chain V)
      → txn.current_snapshot ≡ some s
      → is_abort chain ≡ false
      → get_value shared txn chain ≡ ok (txn, value_of (newest (visible shared s txn) chain))
  unfolding get_value
  get_value-newest shared txn s chain h a = rw a (loop-newest shared txn s chain h)
