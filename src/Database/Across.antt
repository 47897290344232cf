-- ===== src/Database/Across.antt =====
-- Reads of the database across a flush.
use hybridmvcc.Base.{
  reverse, List, ℕ, ◌^◌, ◌<◌, ◌≤◌, Option, none, some, [], ◌∷◌, ◌++◌, Outcome, ok, ◌≡◌, inl, inr,
  refl, sym, ap, ◌∙◌, Ord,
}
use mathlib.Core.List.{reverse-append}
use hybridmvcc.Table.{TableFileRef}
use hybridmvcc.Transaction.{Transaction, Snapshot, ref_imm_table, set_gc_guard}
use hybridmvcc.Memtable.Chain.{get_value_loop, Chain, get_value, gc_chain, collect_chain}
use hybridmvcc.Memtable.Chain.Collection.{
  NormalChain, NotAborted, Unmarked, left_over, flush-get_value,
}
use hybridmvcc.Memtable.HashTable
use hybridmvcc.Memtable.HashTable.Flushes.{Apart, flush-entry}
use hybridmvcc.Memtable.HashTable.{snapshot, gc, MemTable, ImmTable, entry, imm_get}
use hybridmvcc.Database
use hybridmvcc.Database.{Db, get_from_imm, get_from_storage, take_gc_guard}
use hybridmvcc.Timestamp.{Timestamp}

module _ {K V : Type 0} ⦃o : Ord K⦄ (read : TableFileRef → K → Outcome (Option V)) where
  -- The database after a flush: the memtable that `snapshot` and `gc` leave, and the copies as the
  -- newest immutable table.
  abbrev pub flushed : Db K V → Timestamp → ℕ → Db K V
  flushed db m age =
      let (imm, marked) = snapshot m age db.mem_table in
      record db { mem_table = gc m age marked; imm_tables = db.imm_tables ++ (m, imm) ∷ [] }

  -- `get` on what the memtable has under the key.
  abbrev read_entry :
      Db K V → Option (Chain V) → Transaction K V → Outcome (Transaction K V × Option V)
  read_entry db found txn = elim found [
    | none ↦ ok (txn, none)
    | some chain ↦ get_value db.shared txn chain
  ]

  read_left :
      (db : Db K V) (found : Option (Chain V)) (txn : Transaction K V)
      → read_entry db found txn ≡ get_value db.shared txn (left_over found)
  unfolding get_value get_value_loop
  read_left db none txn = refl
  read_left db (some chain) txn = refl

  get-value_in_mem :
      (db : Db K V) (key : K) (txn : Transaction K V) (v : V)
      → HashTable.get db.shared key (take_gc_guard txn) db.mem_table
        ≡ ok (take_gc_guard txn, some v)
      → Database.get read db key txn ≡ ok (set_gc_guard (take_gc_guard txn), some v)
  unfolding Database.get
  get-value_in_mem db key txn v e = rw (e, Database.get) refl

  get-value_below :
      (db : Db K V) (key : K) (txn : Transaction K V)
      → HashTable.get db.shared key (take_gc_guard txn) db.mem_table ≡ ok (take_gc_guard txn, none)
      → Database.get read db key txn ≡ get_from_storage read db key (take_gc_guard txn)
  unfolding Database.get
  get-value_below db key txn e = rw (e, Database.get) refl

  newest_first :
      (older : List (Timestamp × ImmTable K V)) (key : K) (m : Timestamp) (imm : ImmTable K V)
      (v : V) (txn : Transaction K V)
      → entry key imm ≡ some (some v)
      → get_from_imm key (reverse (older ++ (m, imm) ∷ [])) txn ≡ some (ref_imm_table txn m imm, v)
  unfolding get_from_imm imm_get
  newest_first older key m imm v txn e =
      ap (λ layers. get_from_imm key layers txn) (reverse-append older ((m, imm) ∷ []))
      ∙ rw (e, get_from_imm, imm_get) refl

  newest_copy :
      (db : Db K V) (key : K) (found : Transaction K V) (v : V) (txn : Transaction K V)
      → get_from_imm key (reverse db.imm_tables) txn ≡ some (found, v)
      → get_from_storage read db key txn ≡ ok (found, some v)
  unfolding get_from_storage
  newest_copy db key found v txn e = rw (e, get_from_storage) refl

  entry-left :
      (db : Db K V) (mem : MemTable K V) (key : K) (txn : Transaction K V)
      (found : Option (Chain V))
      → entry key mem.entries ≡ found
      → HashTable.get db.shared key txn mem ≡ get_value db.shared txn (left_over found)
  unfolding HashTable.get
  entry-left db mem key txn found e = ap (λ x. read_entry db x txn) e ∙ read_left db found txn

  -- A value that `get` finds in the memtable before a flush it finds after the flush too, in the
  -- memtable that `snapshot` and `gc` leave or in the newest immutable table. The transaction has
  -- taken its snapshot, and started at `min_xip` or later and below 2^61; the table has every key
  -- once; the key's chain has only versions of transactions in the normal mode, with timestamps
  -- below 2^61, no abort tags and no mark of an earlier flush with this `min_xip`; `min_xip` is not
  -- 0 and below 2^32.
  pub get-flushed :
      (db : Db K V) (key : K) (txn : Transaction K V) (s : Snapshot) (m : Timestamp) (age : ℕ)
      (c : Chain V) (v : V)
      → txn.current_snapshot ≡ some s
      → NormalChain c
      → 0 < m
      → m < 2 ^ 32
      → m ≤ txn.start_timestamp
      → txn.start_timestamp < 2 ^ 61
      → NotAborted c
      → Unmarked m c
      → Apart db.mem_table.entries
      → entry key db.mem_table.entries ≡ some c
      → get_value db.shared (take_gc_guard txn) c ≡ ok (take_gc_guard txn, some v)
      → (Database.get read db key txn ≡ ok (set_gc_guard (take_gc_guard txn), some v))
        × (after : Transaction K V) × (Database.get read (flushed db m age) key txn
            ≡ ok (after, some v))
  unfolding take_gc_guard
  get-flushed db key txn s m age c v snap n z f a b ab u once before reads =
      let t = take_gc_guard txn in
      let db' = flushed db m age in
      let imm = (snapshot m age db.mem_table).0 in
      let (gc_left, copied) = flush-entry m age key c db.mem_table once before in
      let in_left =
        entry-left db' db'.mem_table key t (gc_chain m age (collect_chain m age c).1) gc_left in
      let later : (after : Transaction K V) × (Database.get read db' key txn ≡ ok (after, some v)) =
        elim (flush-get_value db.shared t s m age c snap n z f a b ab u) [
          | inl same ↦ (set_gc_guard t, get-value_in_mem db' key txn v (in_left ∙ same ∙ reads))
          | inr (copy, k, nothing, is) ↦
              let copy_is : copy ≡ some v = cc (sym is ∙ reads) in
              (
                ref_imm_table t m imm,
                get-value_below db' key txn (in_left ∙ nothing)
                    ∙ newest_copy db' key (ref_imm_table t m imm) v t
                        (newest_first db.imm_tables key m imm v t (copied ∙ k ∙ ap some copy_is)),
              )
        ] in
      (
        get-value_in_mem db key txn v (entry-left db db.mem_table key t (some c) before ∙ reads),
        later.0,
        later.1,
      )
