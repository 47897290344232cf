-- ===== src/Tests/Chains.antt =====
-- Reads, conflicts and flushes on concrete chains.
use hybridmvcc.Base.{
  ℕ, Option, ◌+◌, ◌^◌, true, false, none, some, [], ◌∷◌, ◌==◌, ok, ◌≡◌, ◌⊎◌, refl, arith,
}
use hybridmvcc.Timestamp.{type_, cmp, new, raw_timestamp, cmp_raw}
use hybridmvcc.Storage.{inserted}
use hybridmvcc.Transaction.Status.{get_transaction_status, aborted}
use hybridmvcc.Memtable.Chain.{
  get_value, check_ww_conflict, is_version_safe_for_gc, collect_chain, gc_chain, stamp_chain,
}
use hybridmvcc.Memtable.Chain.Reads.{visible, newest, get_value-newest}
use hybridmvcc.Memtable.Chain.Conflicts.{conflict-visible, abandoned}
use hybridmvcc.Memtable.Chain.Isolation.{here, next, write, publish, IsOther, repeatable_read}
use hybridmvcc.Memtable.Chain.Collection.{
  left_over, flush-get_value, cancelled_flush_loses, gc_wide, aborted_collected,
}
use hybridmvcc.Memtable.Chain.{Shared, get_value_loop}
use hybridmvcc.Timestamp.{new}
use hybridmvcc.Tests.Fixtures.{link, mark, fast_mark, snap, txn_at, shared, two_versions, writer}

-- A reader that started at 9 does not see the mark of 6.
get_value-newest_example : get_value shared (txn_at 9) two_versions ≡ ok (txn_at 9, some 30)
unfolding newest visible type_ cmp cmp_raw raw_timestamp inserted
get_value-newest_example = get_value-newest shared (txn_at 9) snap two_versions refl refl

-- 9 reads a value that is old enough to be copied, and finds it in the copy.
flush-get_value_example :
    (get_value shared (txn_at 9) (left_over (gc_chain 5 100 (collect_chain 5 100 two_versions).1))
      ≡ get_value shared (txn_at 9) two_versions)
    ⊎ ((copy : Option ℕ) × ((collect_chain 5 100 two_versions).0 ≡ some copy)
        × (get_value shared
              (txn_at 9)
              (left_over (gc_chain 5 100 (collect_chain 5 100 two_versions).1))
            ≡ ok (txn_at 9, none))
        × (get_value shared (txn_at 9) two_versions ≡ ok (txn_at 9, copy)))
unfolding type_
flush-get_value_example =
    flush-get_value shared (txn_at 9) snap 5 100 two_versions refl (ground arith) (omega arith)
      (omega arith) (omega arith) (omega arith) (ground arith) (ground arith)

writer-IsOther : IsOther (txn_at 9) writer
unfolding type_
writer-IsOther = record { mark = refl; differs = refl }

-- 6 writes and then commits at 10.
repeatable_read_example :
    get_value shared
      (txn_at 9)
      (stamp_chain 10 (λ addr. addr == 2) (link 2 (mark 6) 60 ∷ link 1 3 30 ∷ []))
    ≡ get_value shared (txn_at 9) (link 1 3 30 ∷ [])
unfolding stamp_chain type_ cmp
repeatable_read_example =
    repeatable_read shared (txn_at 9) snap (link 1 3 30 ∷ [])
      (stamp_chain 10 (λ addr. addr == 2) (link 2 (mark 6) 60 ∷ link 1 3 30 ∷ [])) refl
      (next (next here (write writer (link 2 (mark 6) 60) writer-IsOther refl refl))
        (publish writer 10 (λ addr. addr == 2) writer-IsOther (ground arith) refl refl refl))
      refl refl

conflict-visible_example :
    (visible shared snap (txn_at 9) 4 ≡ true
      → check_ww_conflict shared (txn_at 9) 4 ≡ ok (txn_at 9, false))
    × (check_ww_conflict shared (txn_at 9) 4 ≡ ok (txn_at 9, false)
        → (visible shared snap (txn_at 9) 4 ≡ true) ⊎ (abandoned shared 4 ≡ true))
conflict-visible_example = conflict-visible shared (txn_at 9) snap 4 refl (omega arith)

cancelled_flush_loses_example :
    ((collect_chain 5 100 (collect_chain 5 100 (link 1 3 30 ∷ [])).1).0 ≡ none)
    × (gc_chain 5 100 (collect_chain 5 100 (collect_chain 5 100 (link 1 3 30 ∷ [])).1).1 ≡ none)
unfolding is_version_safe_for_gc type_ cmp
cancelled_flush_loses_example =
    cancelled_flush_loses 5 100 (link 1 3 30) [] (omega arith) (omega arith) refl refl refl

gc_wide_example : gc_chain (2 ^ 32 + 5) 100 (link 1 3 30 ∷ []) ≡ some (link 1 3 30 ∷ [])
gc_wide_example = gc_wide (2 ^ 32 + 5) 100 (link 1 3 30 ∷ []) (omega arith) (ground arith)

-- The fast-commit transaction 3 has aborted.
abbrev three_aborted : Shared
three_aborted = record shared { txn_table = (3, aborted) ∷ [] }

aborted_collected_example :
    (get_value three_aborted (txn_at 900) (link 2 (fast_mark 3) 30 ∷ link 1 1 20 ∷ [])
      ≡ get_value_loop three_aborted (txn_at 900) (link 1 1 20 ∷ []))
    × ((collect_chain 800 100 (link 2 (fast_mark 3) 30 ∷ link 1 1 20 ∷ [])).0 ≡ some (some 30))
unfolding inserted new get_transaction_status
aborted_collected_example =
    aborted_collected 800 100 three_aborted (txn_at 900) snap 3 (link 2 (fast_mark 3) 30)
      (link 1 1 20 ∷ []) refl (omega arith) (omega arith) (omega arith) refl (omega arith) refl refl
      refl
