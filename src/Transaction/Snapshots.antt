-- ===== src/Transaction/Snapshots.antt =====
-- src/transaction/transaction_manager.rs: the shared set of running transactions, and the
-- snapshots taken of it.
pub mod InProgress
use hybridmvcc.Base.{
  none, some, List, [], ◌∷◌, ◌==◌, if◌then◌else◌, Outcome, ok, panic, ◌>>=◌, is_lt, is_eq,
}
use hybridmvcc.Timestamp.{Timestamp, is_invalid, ts_lt, ts_ge, inc, cmp}
use hybridmvcc.Transaction.{Transaction, Snapshot}

-- The `BTreeSet` of running transactions is a list in ascending order of `cmp`.
pub record SnapshotData : Type 0 where
  pub xips : List Timestamp
  pub latest_completed_xid : Timestamp

-- `BTreeSet::insert` and `BTreeSet::remove`
unfoldable pub set_insert : Timestamp → List Timestamp → List Timestamp
set_insert x [] = x ∷ []
set_insert x (y ∷ ys) =
    if is_lt (cmp x y) then x ∷ y ∷ ys else if is_eq (cmp x y) then y ∷ ys else y ∷ set_insert x ys

unfoldable pub set_remove : Timestamp → List Timestamp → List Timestamp
set_remove x [] = []
set_remove x (y ∷ ys) = if is_eq (cmp x y) then ys else y ∷ set_remove x ys

-- The loop of `record_snapshot` over the running transactions.
unfoldable pub snapshot_loop :
    Timestamp → Timestamp → Timestamp → List Timestamp → List Timestamp → Outcome Snapshot
snapshot_loop max_xid own min_xid xips [] =
    ok (record { min_xid = min_xid; max_xid = max_xid; xips = xips })
snapshot_loop max_xid own min_xid xips (xid ∷ rest) =
    let later =
      snapshot_loop max_xid own
        (if ts_ge xid max_xid then min_xid else if ts_lt xid min_xid then xid else min_xid)
        (if ts_ge xid max_xid then xips else if xid == own then xips else xid ∷ xips) rest in
    if is_invalid xid then panic else later

module _ {K V : Type 0} where
  unfoldable pub record_snapshot : SnapshotData → Transaction K V → Outcome Snapshot
  record_snapshot shared txn =
      let max_xid = inc shared.latest_completed_xid in
      snapshot_loop max_xid txn.start_timestamp max_xid [] shared.xips

  -- The first call takes the snapshot and keeps it in the transaction.
  unfoldable pub get_snapshot :
      SnapshotData → Transaction K V → Outcome (Transaction K V × Snapshot)
  get_snapshot shared txn = elim txn.current_snapshot [
    | none ↦ do
      snapshot ← record_snapshot shared txn
      ok (record txn { current_snapshot = some snapshot }, snapshot)
    | some snapshot ↦ ok (txn, snapshot)
  ]
