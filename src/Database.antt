-- ===== src/Database.antt =====
-- src/db.rs: the reads and writes of the database, through the memtable and the storage below it.
pub mod Reads
pub mod Across
pub mod Flush
pub mod Compaction
use hybridmvcc.Base.{
  reverse, ℕ, zero, suc, ◌+◌, ◌-◌, ◌*◌, ◌/◌, ◌%◌, ◌^◌, ◌<◌, ◌≤◌, Bool, true, false, not, ◌&&◌, ◌||◌,
  Option, none, some, List, [], ◌∷◌, ◌++◌, ◌==◌, Outcome, ok, err, panic, ◌≡◌, ◌≢◌, ◌⊎◌, ◌↔◌, inl,
  inr, refl, sym, ap, ◌∙◌, arith, All, Ordering, if◌then◌else◌, Ord, key_eq, key_lt, Bool-cases,
  Option-cases, ◌>>=◌, ltb, leb, length, take, drop, is_lt, is_eq, is_gt, compare, min,
}
use hybridmvcc.Timestamp.{Timestamp, cmp}
use hybridmvcc.Table.{TableFileRef}
use hybridmvcc.Transaction.{Transaction, set_gc_guard, ref_imm_table, record_value}
use hybridmvcc.Memtable.Chain.{Shared}
use hybridmvcc.Memtable.HashTable
use hybridmvcc.Memtable.HashTable.{MemTable, ImmTable, Run, imm_get}
use hybridmvcc.Version
use hybridmvcc.Version.{Version}

-- What reads and writes use of the database; `imm_tables` is in ascending order of `min_xip`.
pub record Db (K V : Type 0) : Type 0 where
  pub shared : Shared
  pub mem_table : MemTable K V
  pub imm_tables : List (Timestamp × ImmTable K V)
  pub current : Version K

-- `take_gc_guard`
unfoldable pub take_gc_guard : {K V : Type 0} → Transaction K V → Transaction K V
take_gc_guard txn = record txn { pinned = false }

module _ {K V : Type 0} ⦃o : Ord K⦄ where
  -- The loop over the immutable tables, newest first.
  unfoldable pub get_from_imm :
      K → List (Timestamp × ImmTable K V) → Transaction K V → Option (Transaction K V × V)
  get_from_imm key [] txn = none
  get_from_imm key ((min_xip, imt) ∷ older) txn = elim (imm_get key imt) [
    | none ↦ get_from_imm key older txn
    | some v ↦ some (ref_imm_table txn min_xip imt, v)
  ]

  module _ (read : TableFileRef → K → Outcome (Option V)) where
    unfoldable pub get_from_storage :
        Db K V → K → Transaction K V → Outcome (Transaction K V × Option V)
    get_from_storage db key txn = elim (get_from_imm key (reverse db.imm_tables) txn) [
      | some (txn', v) ↦ ok (txn', some v)
      | none ↦ do
        found ← Version.get read db.current key
        elim found [ none ↦ ok (txn, none) | some v ↦ ok (record_value txn v, some v) ]
    ]

    unfoldable pub get : Db K V → K → Transaction K V → Outcome (Transaction K V × Option V)
    get db key txn = do
      (txn', found) ← HashTable.get db.shared key (take_gc_guard txn) db.mem_table
      elim found [ none ↦ get_from_storage db key txn' | some v ↦ ok (set_gc_guard txn', some v) ]

  abbrev with_mem : Db K V → Run K V Bool → Outcome Bool × Transaction K V × Db K V
  with_mem db (r, txn, mem) = (r, txn, record db { mem_table = mem })

  -- `room` is what `make_room_for_write` answers, which may start a flush in the background.
  unfoldable pub put :
      Outcome (Unit {0})
      → Db K V
      → K
      → V
      → Transaction K V
      → Outcome Bool × Transaction K V × Db K V
  put (ok _) db key value txn = with_mem db (HashTable.put db.shared key value txn db.mem_table)
  put (err e) db key value txn = (err e, txn, db)
  put panic db key value txn = (panic, txn, db)

  unfoldable pub delete : Db K V → K → Transaction K V → Outcome Bool × Transaction K V × Db K V
  delete db key txn = with_mem db (HashTable.delete db.shared key txn db.mem_table)
