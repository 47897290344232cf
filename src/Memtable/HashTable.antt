-- ===== src/Memtable/HashTable.antt =====
-- src/memtable/hash_memtable.rs: the operations of `HashMemTable`, each from its call to the
-- successful compare-and-swap.
pub mod Flushes
pub mod Writes
pub mod Deletes
use hybridmvcc.Base.{
  ℕ, ◌-◌, Bool, true, false, Option, none, some, List, [], ◌∷◌, if◌then◌else◌, Outcome, ok, err,
  panic, transaction_aborted, Ord, key_eq, key_lt, suc,
}
use hybridmvcc.Timestamp.{Timestamp}
use hybridmvcc.Storage.{RedoNode}
use hybridmvcc.Wal.Records.{LogRecord, create_put_log, create_delete_log}
use hybridmvcc.Transaction.{
  Transaction, get_insert_redo, get_delete_redo, add_redo_node, stage_log_record,
}
use hybridmvcc.Memtable.Chain.{
  Chain, Shared, is_present, get_value, check_head, rollback_chain, collect_chain, gc_chain,
  stamp_chain,
}

-- `next_addr` is the allocator's next fresh address.
pub record MemTable (K V : Type 0) : Type 0 where
  pub entries : List (K × Chain V)
  pub size : ℕ
  pub next_addr : ℕ

abbrev pub empty_table : {K V : Type 0} → MemTable K V
empty_table = record { entries = []; size = 0; next_addr = 1 }

-- `ImmutableHashTable`: a `BTreeMap` as a list in key order, `none` for a deleted key.
abbrev pub ImmTable : Type 0 → Type 0 → Type 0
ImmTable K V = List (K × Option V)

module _ {K A : Type 0} ⦃o : Ord K⦄ where
  unfoldable pub entry : K → List (K × A) → Option A
  entry k [] = none
  entry k ((j, a) ∷ m) = if key_eq k j then some a else entry k m

  unfoldable pub set_entry : K → A → List (K × A) → List (K × A)
  set_entry k a [] = (k, a) ∷ []
  set_entry k a ((j, b) ∷ m) = if key_eq k j then (j, a) ∷ m else (j, b) ∷ set_entry k a m

  -- `BTreeMap::insert`
  unfoldable pub sorted_insert : K → A → List (K × A) → List (K × A)
  sorted_insert k a [] = (k, a) ∷ []
  sorted_insert k a ((j, b) ∷ m) =
      if key_eq k j
      then (j, a) ∷ m
      else if key_lt k j
      then (k, a) ∷ (j, b) ∷ m
      else (j, b) ∷ sorted_insert k a m

-- The result of an operation, beside the transaction and the table as it leaves them.
abbrev pub Run : Type 0 → Type 0 → Type 0 → Type 0
Run K V A = Outcome A × Transaction K V × MemTable K V

module _ {K V : Type 0} ⦃o : Ord K⦄ where
  -- `ImmutableHashTable::get`
  unfoldable pub imm_get : K → ImmTable K V → Option V
  imm_get key imm = elim (entry key imm) [ none ↦ none | some v ↦ v ]

  unfoldable pub get :
      Shared → K → Transaction K V → MemTable K V → Outcome (Transaction K V × Option V)
  get shared key txn mem = elim (entry key mem.entries) [
    | none ↦ ok (txn, none)
    | some chain ↦ get_value shared txn chain
  ]

  -- What `put`, `update` and `delete` do once their compare-and-swap has succeeded.
  unfoldable pub install :
      K
      → LogRecord K V
      → Bool
      → (ℕ → RedoNode V)
      → Chain V
      → Transaction K V
      → MemTable K V
      → Run K V Bool
  install key log present redo chain txn mem = (
    ok true,
    add_redo_node (stage_log_record txn log) key mem.next_addr,
    record mem {
      entries =
          set_entry key
            (record { present = present; abort = false; node = redo mem.next_addr } ∷ chain)
            mem.entries;
      next_addr = suc mem.next_addr;
    },
  )

  abbrev pub guarded :
      Transaction K V
      → MemTable K V
      → Outcome (Transaction K V × Bool)
      → (Transaction K V → Run K V Bool)
      → Run K V Bool
  guarded txn mem (ok (txn', true)) write = (err transaction_aborted, txn', mem)
  guarded txn mem (ok (txn', false)) write = write txn'
  guarded txn mem (err e) write = (err e, txn, mem)
  guarded txn mem panic write = (panic, txn, mem)

  -- A new key gets an entry with an empty chain, and the table grows by one.
  unfoldable pub ensure_entry : K → MemTable K V → MemTable K V × Chain V
  ensure_entry key mem = elim (entry key mem.entries) [
    | none ↦ (record mem { entries = set_entry key [] mem.entries; size = suc mem.size }, [])
    | some chain ↦ (mem, chain)
  ]

  unfoldable pub put : Shared → K → V → Transaction K V → MemTable K V → Run K V Bool
  put shared key value txn mem =
      let (mem', chain) = ensure_entry key mem in
      guarded txn mem' (check_head shared txn chain) (λ txn'.
        install key (create_put_log key value) true (λ addr. get_insert_redo txn' addr value) chain
          txn' mem')

  abbrev update_found :
      K
      → (V → V)
      → Chain V
      → Transaction K V
      → MemTable K V
      → Outcome (Transaction K V × Option V)
      → Run K V Bool
  update_found key f chain txn mem (ok (txn', some value)) =
      install key (create_put_log key (f value)) true (λ addr. get_insert_redo txn' addr (f value))
        chain txn' mem
  update_found key f chain txn mem (ok (txn', none)) = (ok false, txn', mem)
  update_found key f chain txn mem (err e) = (err e, txn, mem)
  update_found key f chain txn mem panic = (panic, txn, mem)

  unfoldable pub update : Shared → K → (V → V) → Transaction K V → MemTable K V → Run K V Bool
  update shared key f txn mem = elim (entry key mem.entries) [
    | none ↦ (ok false, txn, mem)
    | some chain ↦ guarded txn mem (check_head shared txn chain) (λ txn'.
        if is_present chain
        then update_found key f chain txn' mem (get_value shared txn' chain)
        else (ok false, txn', mem))
  ]

  unfoldable pub delete : Shared → K → Transaction K V → MemTable K V → Run K V Bool
  delete shared key txn mem = elim (entry key mem.entries) [
    | none ↦ (ok false, txn, mem)
    | some chain ↦ guarded txn mem (check_head shared txn chain) (λ txn'.
        if is_present chain
        then install key (create_delete_log key) false (λ addr. get_delete_redo txn' addr) chain
            txn' mem
        else (ok false, txn', mem))
  ]

  unfoldable pub rollback : Transaction K V → K → MemTable K V → MemTable K V
  rollback txn key mem = elim (entry key mem.entries) [
    | none ↦ mem
    | some chain ↦ record mem { entries = set_entry key (rollback_chain txn chain) mem.entries }
  ]

  -- The loop of `snapshot` over the entries.
  unfoldable pub snapshot_entries :
      Timestamp → ℕ → List (K × Chain V) → ImmTable K V → ImmTable K V × List (K × Chain V)
  snapshot_entries min_xip age [] imm = (imm, [])
  snapshot_entries min_xip age ((k, chain) ∷ m) imm =
      let (found, chain') = collect_chain min_xip age chain in
      let (imm', m') =
        snapshot_entries min_xip age m
          (elim found [ none ↦ imm | some v ↦ sorted_insert k v imm ]) in
      (imm', (k, chain') ∷ m')

  unfoldable pub snapshot : Timestamp → ℕ → MemTable K V → ImmTable K V × MemTable K V
  snapshot min_xip age mem =
      let (imm, entries') = snapshot_entries min_xip age mem.entries [] in
      (imm, record mem { entries = entries' })

module _ {K V : Type 0} where
  -- The loop of `gc`, with the number of entries that it takes out.
  unfoldable pub gc_entries : Timestamp → ℕ → List (K × Chain V) → ℕ × List (K × Chain V)
  gc_entries min_xip age [] = (0, [])
  gc_entries min_xip age ((k, chain) ∷ m) =
      let (removed, m') = gc_entries min_xip age m in
      elim (gc_chain min_xip age chain) [
        | none ↦ (suc removed, m')
        | some chain' ↦ (removed, (k, chain') ∷ m')
      ]

  unfoldable pub gc : Timestamp → ℕ → MemTable K V → MemTable K V
  gc min_xip age mem =
      let (removed, entries') = gc_entries min_xip age mem.entries in
      record mem { entries = entries'; size = mem.size - removed }

  -- What the stores of a commit do to the whole table.
  unfoldable pub stamp_entries : Timestamp → (ℕ → Bool) → List (K × Chain V) → List (K × Chain V)
  stamp_entries ts owned [] = []
  stamp_entries ts owned ((k, chain) ∷ m) =
      (k, stamp_chain ts owned chain) ∷ stamp_entries ts owned m
