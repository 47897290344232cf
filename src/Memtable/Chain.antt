-- ===== src/Memtable/Chain.antt =====
-- src/memtable/hash_memtable.rs: what is done along one version chain. A chain is the list of its
-- links, newest first; a link is a tagged pointer to a node, and the tags are two flags. The null
-- pointer at the end has no tag.
pub mod Reads
pub mod Isolation
pub mod Conflicts
pub mod Collection
use hybridmvcc.Base.{
  ℕ, ◌+◌, ◌-◌, ◌%◌, ◌^◌, Bool, true, false, not, ◌&&◌, ◌||◌, Option, none, some, List, [], ◌∷◌,
  ◌==◌, if◌then◌else◌, Outcome, ok, ◌>>=◌,
}
use hybridmvcc.Timestamp.{
  Timestamp, commit, start, start_committed, uncommitted, cmp, type_, new, normalize, is_invalid,
  is_committed, raw_timestamp, ts_lt, ts_gt, inc,
}
use hybridmvcc.Storage.{RedoNode, store_timestamp, try_set_collected, inserted}
use hybridmvcc.Transaction.{Transaction, is_xid_in_progress}
use hybridmvcc.Transaction.Status.{TransactionTable, get_transaction_status, is_committed_status}
use hybridmvcc.Transaction.Snapshots.{SnapshotData, get_snapshot}

pub record Link (V : Type 0) : Type 0 where
  pub present : Bool
  pub abort : Bool
  pub node : RedoNode V

abbrev pub Chain : Type 0 → Type 0
Chain V = List (Link V)

-- The shared state of the transaction manager that the memtable reads.
pub record Shared : Type 0 where
  pub snapshot_data : SnapshotData
  pub txn_table : TransactionTable

module _ {V : Type 0} where
  abbrev pub is_present : Chain V → Bool
  is_present [] = false
  is_present (l ∷ rest) = l.present

  abbrev pub is_abort : Chain V → Bool
  is_abort [] = false
  is_abort (l ∷ rest) = l.abort

unfoldable pub is_version_safe_for_gc : Timestamp → Timestamp → ℕ → Bool
is_version_safe_for_gc version_ts min_xip freeze_min_age = elim (type_ version_ts) [
  | commit ↦ ts_lt version_ts min_xip
  | uncommitted ↦ false
  | _ ↦
      let limit =
        new commit ((raw_timestamp min_xip + 2 ^ 64 - freeze_min_age % 2 ^ 64) % 2 ^ 64) in
      let safe_limit = if is_invalid limit then inc limit else limit in
      ts_lt (normalize version_ts) safe_limit
]

module _ {K V : Type 0} where
  unfoldable pub check_version_visibility :
      Shared → Transaction K V → Timestamp → Outcome (Transaction K V × Bool)
  check_version_visibility shared txn version_ts = do
    (txn', snapshot) ← get_snapshot shared.snapshot_data txn
    let version_xid = normalize version_ts
    ok (
      txn',
      (if version_xid == txn.start_timestamp
          then true
          else if is_xid_in_progress snapshot version_xid
          then false
          else is_committed_status (get_transaction_status shared.txn_table version_xid)),
    )

  -- Whether `get_value` passes over a version.
  unfoldable pub skip_delta :
      Shared → Transaction K V → Timestamp → Outcome (Transaction K V × Bool)
  skip_delta shared txn delta_ts = elim (type_ delta_ts) [
    | commit ↦ ok (txn, ts_gt delta_ts txn.start_timestamp)
    | uncommitted ↦ ok (txn, not (delta_ts == txn.commit_timestamp))
    | _ ↦ do (txn', visible) ← check_version_visibility shared txn delta_ts; ok (txn', not visible)
  ]

  -- The loop of `get_value`.
  unfoldable pub get_value_loop :
      Shared → Transaction K V → Chain V → Outcome (Transaction K V × Option V)
  get_value_loop shared txn [] = ok (txn, none)
  get_value_loop shared txn (l ∷ rest) = do
    (txn', skip) ← skip_delta shared txn l.node.timestamp
    let older = get_value_loop shared txn' rest
    if skip then older else ok (txn', inserted l.node.redo)

  unfoldable pub get_value :
      Shared → Transaction K V → Chain V → Outcome (Transaction K V × Option V)
  get_value shared txn chain =
      if is_abort chain then ok (txn, none) else get_value_loop shared txn chain

  -- The arm of `check_ww_conflict` for the versions of fast-commit transactions.
  unfoldable pub check_xid : Shared → Transaction K V → Timestamp → Outcome (Transaction K V × Bool)
  check_xid shared txn version_xid = do
    (txn', snapshot) ← get_snapshot shared.snapshot_data txn
    ok (txn', is_xid_in_progress snapshot version_xid && not (version_xid == txn.start_timestamp))

  unfoldable pub check_ww_conflict :
      Shared → Transaction K V → Timestamp → Outcome (Transaction K V × Bool)
  check_ww_conflict shared txn version_ts = elim (type_ version_ts) [
    | start ↦ check_xid shared txn (normalize version_ts)
    | start_committed ↦ check_xid shared txn (normalize version_ts)
    | _ ↦ ok (
      txn,
      is_invalid version_ts
          || (not (is_committed version_ts) && not (txn.commit_timestamp == version_ts))
          || (is_committed version_ts && ts_gt version_ts txn.start_timestamp),
    )
  ]

  -- The test that `put`, `update` and `delete` make on the head of a chain.
  unfoldable pub check_head : Shared → Transaction K V → Chain V → Outcome (Transaction K V × Bool)
  check_head shared txn [] = ok (txn, false)
  check_head shared txn (l ∷ rest) = check_ww_conflict shared txn l.node.timestamp

  -- The loop of `rollback`.
  unfoldable pub rollback_chain : Transaction K V → Chain V → Chain V
  rollback_chain txn [] = []
  rollback_chain txn (l ∷ rest) =
      if l.node.timestamp == txn.commit_timestamp then rollback_chain txn rest else l ∷ rest

module _ {V : Type 0} where
  -- The loop of `snapshot` along one chain: what it collects, and the chain with its mark.
  unfoldable pub collect_chain : Timestamp → ℕ → Chain V → Option (Option V) × Chain V
  collect_chain min_xip age [] = (none, [])
  collect_chain min_xip age (l ∷ rest) =
      let (found, rest') = collect_chain min_xip age rest in
      let (fresh, node') = try_set_collected l.node min_xip in
      if l.abort
      then (none, l ∷ rest)
      else if is_version_safe_for_gc l.node.timestamp min_xip age
      then if fresh
        then (some (inserted l.node.redo), record l { node = node' } ∷ rest)
        else (none, l ∷ rest)
      else (found, l ∷ rest')

  -- The first loop of `gc`: detach what follows the head once it has been collected.
  unfoldable pub detach : Timestamp → ℕ → Chain V → Chain V
  detach min_xip age [] = []
  detach min_xip age (l ∷ []) = l ∷ []
  detach min_xip age (l ∷ n ∷ rest) =
      let rest' = detach min_xip age (n ∷ rest) in
      if is_version_safe_for_gc n.node.timestamp min_xip age
      then (if n.node.collected == min_xip then l ∷ [] else l ∷ n ∷ rest)
      else l ∷ rest'

  -- One round of `gc`: `none` says that the entry is taken out of the table.
  unfoldable pub gc_chain : Timestamp → ℕ → Chain V → Option (Chain V)
  gc_chain min_xip age [] = some []
  gc_chain min_xip age (l ∷ rest) =
      if l.abort
      then some (l ∷ rest)
      else if not (is_version_safe_for_gc l.node.timestamp min_xip age)
      then some (detach min_xip age (l ∷ rest))
      else if not (l.node.collected == min_xip)
      then some (detach min_xip age (l ∷ rest))
      else none

  -- `store_timestamp` through the addresses of `redo_nodes`, seen from one chain.
  unfoldable pub stamp_chain : Timestamp → (ℕ → Bool) → Chain V → Chain V
  stamp_chain ts owned [] = []
  stamp_chain ts owned (l ∷ rest) =
      (if owned l.node.addr then record l { node = store_timestamp l.node ts } else l)
      ∷ stamp_chain ts owned rest
