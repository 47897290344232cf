-- ===== src/Transaction/Snapshots/InProgress.antt =====
-- What a snapshot says of a transaction, against the shared data of which it was taken.
use hybridmvcc.Timestamp.{ts_lt, ts_ge}
use hybridmvcc.Base.{
  ℕ, suc, ◌^◌, ◌<◌, ◌≤◌, true, not, ◌&&◌, ◌||◌, List, [], ◌∷◌, ◌==◌, ok, ◌≡◌, refl, arith, All,
  if◌then◌else◌, ltb,
}
use hybridmvcc.Timestamp.Order.{cmp-commit}
use hybridmvcc.Timestamp.Successor.{inc-commit}
use hybridmvcc.Transaction.{Transaction, Snapshot, is_xid_in_progress, contains}
use hybridmvcc.Transaction.Snapshots.{SnapshotData, snapshot_loop, record_snapshot}

-- All running transactions are valid commit timestamps below the wrap.
abbrev pub InRange : List ℕ → Type 0
InRange = All (λ x. (0 < x) × (x < 2 ^ 61))

record LoopResult (max_xid own min_xid : ℕ) (acc xs : List ℕ) (s : Snapshot) (xid : ℕ)
    : Type 0 where
  max : s.max_xid ≡ max_xid
  min : s.min_xid ≤ min_xid
  least : contains xs xid ≡ true → xid < max_xid → s.min_xid ≤ xid
  members :
      contains s.xips xid
      ≡ (contains acc xid || (contains xs xid && ltb xid max_xid && not (xid == own)))

abbrev next_min : ℕ → ℕ → ℕ → ℕ
next_min max_xid min_xid x =
    if ts_ge x max_xid then min_xid else if ts_lt x min_xid then x else min_xid

abbrev next_acc : ℕ → ℕ → List ℕ → ℕ → List ℕ
next_acc max_xid own acc x = if ts_ge x max_xid then acc else if x == own then acc else x ∷ acc

loop_lem :
    (max_xid own min_xid : ℕ) (acc xs : List ℕ)
    → max_xid < 2 ^ 61
    → min_xid < 2 ^ 61
    → InRange xs
    → (s : Snapshot) × (snapshot_loop max_xid own min_xid acc xs ≡ ok s)
      × ((xid : ℕ) → LoopResult max_xid own min_xid acc xs s xid)
unfolding snapshot_loop
loop_lem max_xid own min_xid acc [] a b r = (
  record { min_xid = min_xid; max_xid = max_xid; xips = acc },
  refl,
  λ xid. record {
    max = refl;
    min = omega arith;
    least = λ h. ground arith;
    members = ground arith;
  },
)
loop_lem max_xid own min_xid acc (x ∷ xs) a b r =
    let (s, e, f) =
      loop_lem max_xid own (next_min max_xid min_xid x) (next_acc max_xid own acc x) xs a
        (ground arith) r.1 in
    (
      s,
      ground (arith, e, r.0),
      λ xid. record {
        max = (f xid).max;
        min = ground (arith, (f xid).min, cmp-commit x max_xid, cmp-commit x min_xid, r.0);
        least = λ h k.
            ground
              (arith, (f xid).least, (f xid).min, cmp-commit x max_xid, cmp-commit x min_xid, r.0);
        members = ground (arith, (f xid).members, cmp-commit x max_xid, r.0);
      },
    )

module _ {K V : Type 0} (shared : SnapshotData) (txn : Transaction K V) where
  -- While the running transactions are valid and all timestamps are below 2^61, a snapshot is
  -- taken without a panic, and among the timestamps below 2^61 it counts as in progress exactly
  -- those above the latest completed transaction, and those that are running, but for its own
  -- transaction.
  pub record_snapshot_lem :
      InRange shared.xips
      → suc shared.latest_completed_xid < 2 ^ 61
      → (s : Snapshot) × (record_snapshot shared txn ≡ ok s)
        × ((xid : ℕ)
            → xid < 2 ^ 61
            → is_xid_in_progress s xid ≡ (
                if ltb shared.latest_completed_xid xid
                then true
                else contains shared.xips xid && not (xid == txn.start_timestamp)))
  unfolding record_snapshot is_xid_in_progress
  record_snapshot_lem r b =
      let last = shared.latest_completed_xid in
      let own = txn.start_timestamp in
      let top = inc-commit last (omega arith) in
      let (s, e, f) = loop_lem (suc last) own (suc last) [] shared.xips b b r in
      (
        s,
        ground (arith, top, e),
        λ xid h.
            let l = f xid in
            ground (
              arith,
              l.max,
              l.min,
              l.least,
              l.members,
              cmp-commit xid s.min_xid,
              cmp-commit xid s.max_xid,
            ),
      )
