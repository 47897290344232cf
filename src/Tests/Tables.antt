-- ===== src/Tests/Tables.antt =====
-- Operations of the hash table on a concrete table.
use hybridmvcc.Base.{
  transaction_aborted, ℕ, true, none, some, [], ◌∷◌, ok, err, ◌≡◌, refl, if◌then◌else◌, key_eq,
}
use hybridmvcc.Base.{ℕ_ord}
use hybridmvcc.Timestamp.{type_, cmp, cmp_raw, raw_timestamp, is_committed}
use hybridmvcc.Storage.{new_insert}
use hybridmvcc.Memtable.Chain.{check_ww_conflict, check_head, rollback_chain}
use hybridmvcc.Memtable.HashTable
use hybridmvcc.Memtable.HashTable.{
  put, get, entry, set_entry, rollback, ensure_entry, install, MemTable, Run,
}
use hybridmvcc.Memtable.HashTable.Writes.{put-entry, get-put, rollback-put}
use hybridmvcc.Memtable.HashTable.Deletes.{get-delete, delete_link}
use hybridmvcc.Tests.Fixtures.{link, mark, txn_at, shared, table}

put_runs : (put shared 5 51 (txn_at 9) table).0 ≡ ok true
unfolding put ensure_entry check_head check_ww_conflict install entry type_ cmp cmp_raw
    raw_timestamp is_committed
put_runs = refl

-- The newest version of the key 1 is another transaction's.
put_conflict : (put shared 1 11 (txn_at 9) table).0 ≡ err transaction_aborted
unfolding put ensure_entry check_head check_ww_conflict install entry type_ cmp cmp_raw
    raw_timestamp is_committed
put_conflict = refl

put-entry_example :
    entry 5 (put shared 5 51 (txn_at 9) table).2.entries
    ≡ some (link 4 (mark 9) 51 ∷ link 3 4 50 ∷ [])
unfolding entry new_insert
put-entry_example = put-entry shared 5 51 (txn_at 9) table 5 put_runs

get-put_example :
    get shared 5 (put shared 5 51 (txn_at 9) table).1 (put shared 5 51 (txn_at 9) table).2
    ≡ ok ((put shared 5 51 (txn_at 9) table).1, some 51)
get-put_example = get-put shared 5 51 (txn_at 9) table (unfold type_ in refl) put_runs

rollback-put_example :
    entry 5 (rollback (txn_at 9) 5 (put shared 5 51 (txn_at 9) table).2).entries
    ≡ some (link 3 4 50 ∷ [])
unfolding rollback_chain entry
rollback-put_example = rollback-put shared 5 51 (txn_at 9) table 5 put_runs

delete_runs : (HashTable.delete shared 5 (txn_at 9) table).0 ≡ ok true
unfolding HashTable.delete check_head check_ww_conflict install entry type_ cmp cmp_raw
    raw_timestamp is_committed
delete_runs = refl

get-delete_example :
    (true ≡ true)
    × ((j : ℕ)
        → entry j (HashTable.delete shared 5 (txn_at 9) table).2.entries ≡ (
            if key_eq j 5
            then some (delete_link (txn_at 9) table ∷ link 3 4 50 ∷ [])
            else entry j table.entries))
    × (get shared 5
          (HashTable.delete shared 5 (txn_at 9) table).1
          (HashTable.delete shared 5 (txn_at 9) table).2
        ≡ ok ((HashTable.delete shared 5 (txn_at 9) table).1, none))
unfolding entry
get-delete_example = get-delete shared 5 (txn_at 9) table (unfold type_ in refl) delete_runs
