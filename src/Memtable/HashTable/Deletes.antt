-- ===== src/Memtable/HashTable/Deletes.antt =====
-- Deletions and updates: their effect, and when they refuse.
use hybridmvcc.Timestamp.{uncommitted, type_}
use hybridmvcc.Wal.Records.{LogRecord, create_delete_log}
use hybridmvcc.Storage.{RedoNode, inserted, new_delete}
use hybridmvcc.Transaction.{stage_log_record, get_delete_redo, add_redo_node, Transaction}
use hybridmvcc.Memtable.HashTable.Writes.{
  chain_of, guarded-ok, check_head-keeps, install-entry, read-own,
}
use hybridmvcc.Base.{
  ℕ, Bool, true, false, none, some, ◌∷◌, ok, ◌≡◌, inl, inr, refl, sym, ap, ◌∙◌, arith,
  if◌then◌else◌, Ord, key_eq, Option-cases,
}
use hybridmvcc.Memtable.Chain.{is_present, Chain, Link, Shared, check_head}
use hybridmvcc.Memtable.HashTable
use hybridmvcc.Memtable.HashTable.{guarded, get, entry, Run, install, MemTable}

module _ {K V : Type 0} ⦃o : Ord K⦄ where
  abbrev pub delete_link : Transaction K V → MemTable K V → Link V
  delete_link txn mem = record {
    present = false;
    abort = false;
    node = new_delete mem.next_addr txn.commit_timestamp;
  }

  pub install-commit_timestamp :
      (key : K) (log : LogRecord K V) (present : Bool) (redo : ℕ → RedoNode V) (c : Chain V)
      (txn : Transaction K V) (mem : MemTable K V)
      → (install key log present redo c txn mem).1.commit_timestamp ≡ txn.commit_timestamp
  unfolding install add_redo_node stage_log_record
  install-commit_timestamp key log present redo c txn mem = refl

  module _ (shared : Shared) (key : K) (txn : Transaction K V) (mem : MemTable K V) where
    abbrev delete_write : Chain V → Transaction K V → Run K V Bool
    delete_write c txn' =
        if is_present c
        then install key (create_delete_log key) false (λ addr. get_delete_redo txn' addr) c txn'
            mem
        else (ok false, txn', mem)

    delete_found :
        (c : Chain V)
        → entry key mem.entries ≡ some c
        → HashTable.delete shared key txn mem
          ≡ guarded txn mem (check_head shared txn c) (delete_write c)
    unfolding HashTable.delete
    delete_found c e = rw (e, HashTable.delete)

    delete-ok :
        (HashTable.delete shared key txn mem).0 ≡ ok true
        → (t : Transaction K V) × (check_head shared txn (chain_of key mem) ≡ ok (t, false))
          × (is_present (chain_of key mem) ≡ true)
          × (HashTable.delete shared key txn mem
              ≡ install key
                  (create_delete_log key)
                  false
                  (λ addr. get_delete_redo t addr)
                  (chain_of key mem)
                  t
                  mem)
    delete-ok h = elim (Option-cases (entry key mem.entries)) [
      | inl e ↦ unfold HashTable.delete in ground arith
      | inr (c, e) ↦
          let (t, r, g) =
            guarded-ok txn mem (check_head shared txn c) (delete_write c)
              (sym (ap (λ (x : Run K V Bool). x.0) (delete_found c e)) ∙ h) in
          let d = delete_found c e ∙ g in
          let here = ap (λ (x : Run K V Bool). x.0) d in
          (t, ground (arith, e, r), ground (arith, here, e), ground (arith, here, e, d))
    ]

    pub delete-commit_timestamp :
        (HashTable.delete shared key txn mem).0 ≡ ok true
        → (HashTable.delete shared key txn mem).1.commit_timestamp ≡ txn.commit_timestamp
    delete-commit_timestamp h =
        let (t, r, present, d) = delete-ok h in
        ap (λ (x : Run K V Bool). x.1.commit_timestamp) d
        ∙ install-commit_timestamp key (create_delete_log key) false
            (λ addr. get_delete_redo t addr) (chain_of key mem) t mem
        ∙ (check_head-keeps shared txn (chain_of key mem) r).0

    -- A `delete` that succeeds found the key present in front, puts a tombstone there, and leaves
    -- all other keys; the transaction, in the normal mode, then reads no value in the table.
    pub get-delete :
        type_ txn.commit_timestamp ≡ uncommitted
        → (HashTable.delete shared key txn mem).0 ≡ ok true
        → (is_present (chain_of key mem) ≡ true)
          × ((j : K)
              → entry j (HashTable.delete shared key txn mem).2.entries ≡ (
                  if key_eq j key
                  then some (delete_link txn mem ∷ chain_of key mem)
                  else entry j mem.entries))
          × (get shared key
                (HashTable.delete shared key txn mem).1
                (HashTable.delete shared key txn mem).2
              ≡ ok ((HashTable.delete shared key txn mem).1, none))
    unfolding get get_delete_redo new_delete inserted
    get-delete u h =
        let (t, r, present, d) = delete-ok h in
        let own = (check_head-keeps shared txn (chain_of key mem) r).0 in
        let at = λ (j : K).
          ap (λ (x : Run K V Bool). entry j x.2.entries) d
          ∙ install-entry key j (create_delete_log key) false (λ addr. get_delete_redo t addr)
              (chain_of key mem) t mem in
        let kept = ap (λ (x : Run K V Bool). x.1.commit_timestamp) d in
        (
          present,
          λ j. ground (arith, at j, own),
          ground (
            arith,
            at key,
            own,
            kept,
            o.cmp_eq key key,
            install-commit_timestamp key (create_delete_log key) false
                (λ addr. get_delete_redo t addr) (chain_of key mem) t mem,
            read-own shared (HashTable.delete shared key txn mem).1 (delete_link txn mem)
                (chain_of key mem),
          ),
        )
