-- ===== src/Tests/Databases.antt =====
-- Reads of a database whose storage holds an older value of a key.
use hybridmvcc.Base.{arith, ℕ, true, Option, none, some, [], ◌∷◌, Outcome, ok, ◌≡◌, refl}
use hybridmvcc.Base.{ℕ_ord}
use hybridmvcc.Timestamp.{type_, cmp, cmp_raw, raw_timestamp, is_committed}
use hybridmvcc.Table.{TableFileRef}
use hybridmvcc.Transaction.{set_gc_guard}
use hybridmvcc.Memtable.Chain.{check_head, check_ww_conflict}
use hybridmvcc.Memtable.HashTable
use hybridmvcc.Memtable.HashTable.{entry, ensure_entry, install, imm_get}
use hybridmvcc.Database
use hybridmvcc.Database.{Db, get_from_storage, take_gc_guard}
use hybridmvcc.Database.Across.{flushed, get-flushed}
use hybridmvcc.Memtable.Chain.{
  Chain, get_value, get_value_loop, skip_delta, collect_chain, gc_chain, detach,
  is_version_safe_for_gc,
}
use hybridmvcc.Storage.{try_set_collected, inserted}
use hybridmvcc.Transaction.{Transaction}
use hybridmvcc.Database.Reads.{deleted_read, get_own_put}
use hybridmvcc.Memtable.HashTable.{snapshot_entries, gc_entries, sorted_insert}
use hybridmvcc.Tests.Fixtures.{link, mark, snap, txn_at, shared, table}

abbrev db : Db ℕ ℕ
db = record {
  shared = shared;
  mem_table = table;
  imm_tables = (4, (5, some 40) ∷ []) ∷ [];
  current = record { files = []; compaction_score = [] };
}

abbrev read : TableFileRef → ℕ → Outcome (Option ℕ)
read r key = ok none

delete_runs : (Database.delete db 5 (txn_at 9)).0 ≡ ok true
unfolding Database.delete HashTable.delete check_head check_ww_conflict install entry type_ cmp
    cmp_raw raw_timestamp is_committed
delete_runs = refl

deleted_read_example :
    Database.get read (Database.delete db 5 (txn_at 9)).2 5 (Database.delete db 5 (txn_at 9)).1
    ≡ get_from_storage read
        (Database.delete db 5 (txn_at 9)).2
        5
        (take_gc_guard (Database.delete db 5 (txn_at 9)).1)
deleted_read_example = deleted_read read db 5 (txn_at 9) (unfold type_ in refl) delete_runs

put_runs : (Database.put (ok tt) db 5 51 (txn_at 9)).0 ≡ ok true
unfolding Database.put HashTable.put ensure_entry check_head check_ww_conflict install entry type_
    cmp cmp_raw raw_timestamp is_committed
put_runs = refl

get_own_put_example :
    Database.get read
      (Database.put (ok tt) db 5 51 (txn_at 9)).2
      5
      (Database.put (ok tt) db 5 51 (txn_at 9)).1
    ≡ ok (set_gc_guard (Database.put (ok tt) db 5 51 (txn_at 9)).1, some 51)
get_own_put_example = get_own_put read db 5 (txn_at 9) (ok tt) 51 (unfold type_ in refl) put_runs

-- 9 reads a value that the flush copies.
abbrev old_chain : Chain ℕ
old_chain = link 2 (mark 6) 60 ∷ link 1 3 30 ∷ []

abbrev before_flush : Db ℕ ℕ
before_flush = record db { mem_table = record table { entries = (1, old_chain) ∷ [] } }

get-flushed_example :
    (Database.get read before_flush 1 (txn_at 9)
      ≡ ok (set_gc_guard (take_gc_guard (txn_at 9)), some 30))
    × (after : Transaction ℕ ℕ) × (Database.get read (flushed read before_flush 5 100) 1 (txn_at 9)
        ≡ ok (after, some 30))
unfolding type_ entry cmp cmp_raw raw_timestamp inserted get_value get_value_loop skip_delta
    take_gc_guard
get-flushed_example =
    get-flushed read before_flush 1 (txn_at 9) snap 5 100 old_chain 30 refl (ground arith)
      (omega arith) (omega arith) (omega arith) (omega arith) (ground arith) (ground arith)
      (refl, tt) refl refl

-- The flush copies 30 and leaves only the newer version.
flushed_test :
    ((flushed read before_flush 5 100).mem_table.entries ≡ (1, link 2 (mark 6) 60 ∷ []) ∷ [])
    × ((flushed read before_flush 5 100).imm_tables
        ≡ (4, (5, some 40) ∷ []) ∷ (5, (1, some 30) ∷ []) ∷ [])
unfolding type_ cmp cmp_raw raw_timestamp inserted HashTable.snapshot HashTable.gc snapshot_entries
    gc_entries sorted_insert collect_chain gc_chain detach is_version_safe_for_gc try_set_collected
flushed_test = (refl, refl)
