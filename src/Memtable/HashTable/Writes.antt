-- ===== src/Memtable/HashTable/Writes.antt =====
-- What the writes of a transaction do to the table, and how `rollback` takes them back.
use hybridmvcc.Timestamp.{uncommitted, type_}
use hybridmvcc.Wal.Records.{LogRecord}
use hybridmvcc.Base.{
  ℕ, Bool, true, false, none, some, List, [], ◌∷◌, Outcome, ok, err, panic, ◌≡◌, refl, ap, ◌∙◌,
  arith, if◌then◌else◌, Ord, key_eq,
}
use hybridmvcc.Storage.{inserted, RedoNode, new_insert}
use hybridmvcc.Transaction.Snapshots.{get_snapshot}
use hybridmvcc.Transaction.{stage_log_record, add_redo_node, get_insert_redo, Transaction}
use hybridmvcc.Memtable.Chain.{
  skip_delta, get_value_loop, check_xid, check_ww_conflict, Chain, Link, Shared, check_head,
  rollback_chain, get_value,
}
use hybridmvcc.Memtable.HashTable.{
  rollback, get, guarded, Run, install, ensure_entry, sorted_insert, set_entry, put, entry,
  MemTable,
}

module _ {K A : Type 0} ⦃o : Ord K⦄ where
  pub entry-set_entry :
      (k j : K) (a : A) (m : List (K × A))
      → entry j (set_entry k a m) ≡ (if key_eq j k then some a else entry j m)
  unfolding entry set_entry
  entry-set_entry k j a [] = refl
  entry-set_entry k j a ((i, b) ∷ m) =
      ground (arith, entry-set_entry k j a m, o.cmp_eq k i, o.cmp_eq j i, o.cmp_eq j k)

  pub entry-sorted_insert :
      (k j : K) (a : A) (m : List (K × A))
      → entry j (sorted_insert k a m) ≡ (if key_eq j k then some a else entry j m)
  unfolding entry sorted_insert
  entry-sorted_insert k j a [] = refl
  entry-sorted_insert k j a ((i, b) ∷ m) =
      ground (arith, entry-sorted_insert k j a m, o.cmp_eq k i, o.cmp_eq j i, o.cmp_eq j k)

module _ {K V : Type 0} where
  -- A conflict check changes no timestamp of the transaction.
  pub check_head-keeps :
      (shared : Shared) (txn : Transaction K V) (c : Chain V) {txn' : Transaction K V} {b : Bool}
      → check_head shared txn c ≡ ok (txn', b)
      → (txn'.commit_timestamp ≡ txn.commit_timestamp)
        × (txn'.start_timestamp ≡ txn.start_timestamp)
        × (txn'.mode ≡ txn.mode)
  unfolding check_head check_ww_conflict check_xid get_snapshot
  check_head-keeps shared txn [] h = ground arith
  check_head-keeps shared txn (l ∷ rest) h = ground arith

module _ {K V : Type 0} ⦃o : Ord K⦄ where
  -- The chain of a key, empty if there is none.
  abbrev pub chain_of : K → MemTable K V → Chain V
  chain_of key mem = elim (entry key mem.entries) [ none ↦ [] | some c ↦ c ]

  abbrev pub put_link : V → Transaction K V → MemTable K V → Link V
  put_link value txn mem = record {
    present = true;
    abort = false;
    node = new_insert mem.next_addr txn.commit_timestamp value;
  }

  pub guarded-ok :
      (txn : Transaction K V) (mem : MemTable K V) (r : Outcome (Transaction K V × Bool))
      (write : Transaction K V → Run K V Bool)
      → (guarded txn mem r write).0 ≡ ok true
      → (t : Transaction K V) × (r ≡ ok (t, false)) × (guarded txn mem r write ≡ write t)
  guarded-ok txn mem (ok (t, true)) write h = cc
  guarded-ok txn mem (ok (t, false)) write h = (t, refl, refl)
  guarded-ok txn mem (err e) write h = cc
  guarded-ok txn mem panic write h = cc

  pub ensure_entry_lem :
      (key j : K) (mem : MemTable K V)
      → ((ensure_entry key mem).1 ≡ chain_of key mem)
        × ((ensure_entry key mem).0.next_addr ≡ mem.next_addr)
        × (key_eq j key ≡ false → entry j (ensure_entry key mem).0.entries ≡ entry j mem.entries)
  unfolding ensure_entry
  ensure_entry_lem key j mem =
      (ground arith, ground arith, λ e. ground (arith, entry-set_entry key j [] mem.entries))

  pub install-entry :
      (key j : K) (log : LogRecord K V) (present : Bool) (redo : ℕ → RedoNode V) (c : Chain V)
      (txn : Transaction K V) (mem : MemTable K V)
      → entry j (install key log present redo c txn mem).2.entries ≡ (
          if key_eq j key
          then some (record { present = present; abort = false; node = redo mem.next_addr } ∷ c)
          else entry j mem.entries)
  unfolding install
  install-entry key j log present redo c txn mem = entry-set_entry key j _ mem.entries

  pub read-own :
      (shared : Shared) (txn : Transaction K V) (l : Link V) (rest : Chain V)
      → l.abort ≡ false
      → l.node.timestamp ≡ txn.commit_timestamp
      → type_ txn.commit_timestamp ≡ uncommitted
      → get_value shared txn (l ∷ rest) ≡ ok (txn, inserted l.node.redo)
  unfolding get_value get_value_loop skip_delta
  read-own shared txn l rest a t u = ground arith

  module _ (shared : Shared) (key : K) (value : V) (txn : Transaction K V)
      (mem : MemTable K V) where
    -- A successful `put` adds one version in front of the key's chain, with the transaction's own
    -- mark, and leaves the chains of all other keys.
    pub put-entry :
        (j : K)
        → (put shared key value txn mem).0 ≡ ok true
        → entry j (put shared key value txn mem).2.entries ≡ (
            if key_eq j key
            then some (put_link value txn mem ∷ chain_of key mem)
            else entry j mem.entries)
    unfolding put get_insert_redo
    put-entry j h =
        let ensured = ensure_entry key mem in
        let (e, n, frame) = ensure_entry_lem key j mem in
        let (t, r, g) = guarded-ok txn ensured.0 (check_head shared txn ensured.1) _ h in
        let own = (check_head-keeps shared txn ensured.1 r).0 in
        ap (λ (x : Run K V Bool). entry j x.2.entries) g
        ∙ install-entry key j _ true _ ensured.1 t ensured.0
        ∙ ground (arith, e, n, frame, own)

    pub put-commit_timestamp :
        (put shared key value txn mem).0 ≡ ok true
        → (put shared key value txn mem).1.commit_timestamp ≡ txn.commit_timestamp
    unfolding put install add_redo_node stage_log_record
    put-commit_timestamp h =
        let ensured = ensure_entry key mem in
        let (t, r, g) = guarded-ok txn ensured.0 (check_head shared txn ensured.1) _ h in
        ap (λ (x : Run K V Bool). x.1.commit_timestamp) g
        ∙ (check_head-keeps shared txn ensured.1 r).0

    -- A transaction in the normal mode whose `put` has succeeded reads the value that it put.
    pub get-put :
        type_ txn.commit_timestamp ≡ uncommitted
        → (put shared key value txn mem).0 ≡ ok true
        → get shared key (put shared key value txn mem).1 (put shared key value txn mem).2
          ≡ ok ((put shared key value txn mem).1, some value)
    unfolding get new_insert inserted
    get-put u h = ground (
      arith,
      put-entry key h,
      o.cmp_eq key key,
      read-own shared (put shared key value txn mem).1 (put_link value txn mem) (chain_of key mem),
      put-commit_timestamp h,
    )

    -- A rollback of a key after a successful `put` to it leaves what a rollback without the `put`
    -- leaves there: the version of this write goes, with all that the transaction had written in
    -- front before, and other keys stay.
    pub rollback-put :
        (j : K)
        → (put shared key value txn mem).0 ≡ ok true
        → entry j (rollback txn key (put shared key value txn mem).2).entries ≡ (
            if key_eq j key
            then some (rollback_chain txn (chain_of key mem))
            else entry j mem.entries)
    unfolding rollback rollback_chain new_insert
    rollback-put j h = ground (
      arith,
      put-entry key h,
      put-entry j h,
      o.cmp_eq key key,
      entry-set_entry key j (rollback_chain txn (chain_of key mem))
          (put shared key value txn mem).2.entries,
    )
