-- ===== src/Database/Reads.antt =====
-- Reads after writes, through all layers of the database.
use hybridmvcc.Base.{true, Option, some, Outcome, ok, err, panic, ◌≡◌, arith, Ord}
use hybridmvcc.Timestamp.{uncommitted, type_}
use hybridmvcc.Table.{TableFileRef}
use hybridmvcc.Transaction.{Transaction, set_gc_guard}
use hybridmvcc.Memtable.HashTable
use hybridmvcc.Memtable.HashTable.{entry}
use hybridmvcc.Memtable.HashTable.Writes.{
  put-commit_timestamp, put-entry, read-own, put_link, chain_of,
}
use hybridmvcc.Memtable.HashTable.Deletes.{delete-commit_timestamp, get-delete, delete_link}
use hybridmvcc.Database
use hybridmvcc.Database.{Db, get_from_imm, get_from_storage, take_gc_guard}
use hybridmvcc.Storage.{new_insert, new_delete, inserted}

module _ {K V : Type 0} ⦃o : Ord K⦄ (read : TableFileRef → K → Outcome (Option V)) (db : Db K V)
    (key : K) (txn : Transaction K V) where
  -- A deletion does not hide what lies below the memtable: after a successful `delete`, a `get` of
  -- the same transaction, in the normal mode, answers what the storage holds of the key.
  pub deleted_read :
      type_ txn.commit_timestamp ≡ uncommitted
      → (Database.delete db key txn).0 ≡ ok true
      → Database.get read (Database.delete db key txn).2 key (Database.delete db key txn).1
        ≡ get_from_storage read
            (Database.delete db key txn).2
            key
            (take_gc_guard (Database.delete db key txn).1)
  unfolding Database.delete Database.get HashTable.get take_gc_guard new_delete inserted
  deleted_read u h =
      let gone = HashTable.delete db.shared key txn db.mem_table in
      ground (
        arith,
        (get-delete db.shared key txn db.mem_table u h).1 key,
        o.cmp_eq key key,
        read-own db.shared (take_gc_guard gone.1) (delete_link txn db.mem_table)
            (chain_of key db.mem_table),
        delete-commit_timestamp db.shared key txn db.mem_table h,
      )

  -- A transaction in the normal mode whose `put` has succeeded gets the value that it put, whatever
  -- the layers below the memtable hold, and then holds a guard.
  pub get_own_put :
      (room : Outcome (Unit {0})) (value : V)
      → type_ txn.commit_timestamp ≡ uncommitted
      → (Database.put room db key value txn).0 ≡ ok true
      → Database.get read
          (Database.put room db key value txn).2
          key
          (Database.put room db key value txn).1
        ≡ ok (set_gc_guard (Database.put room db key value txn).1, some value)
  unfolding Database.put Database.get HashTable.get take_gc_guard new_insert inserted set_gc_guard
  get_own_put (ok _) value u h =
      let wrote = HashTable.put db.shared key value txn db.mem_table in
      ground (
        arith,
        put-entry db.shared key value txn db.mem_table key h,
        o.cmp_eq key key,
        read-own db.shared (take_gc_guard wrote.1) (put_link value txn db.mem_table)
            (chain_of key db.mem_table),
        put-commit_timestamp db.shared key value txn db.mem_table h,
      )
  get_own_put (err e) value u h = cc
  get_own_put panic value u h = cc
