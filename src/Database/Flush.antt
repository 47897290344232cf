-- ===== src/Database/Flush.antt =====
-- `write_level0_table` of src/db.rs: an immutable table goes to a table file.
pub mod Level0
use hybridmvcc.Base.{
  ℕ, zero, suc, ◌+◌, ◌-◌, ◌*◌, ◌/◌, ◌%◌, ◌^◌, ◌<◌, ◌≤◌, Bool, true, false, not, ◌&&◌, ◌||◌, Option,
  none, some, List, [], ◌∷◌, ◌++◌, ◌==◌, Outcome, ok, err, panic, ◌≡◌, ◌≢◌, ◌⊎◌, ◌↔◌, inl, inr,
  refl, sym, ap, ◌∙◌, arith, All, Ordering, if◌then◌else◌, Ord, key_eq, key_lt, Bool-cases,
  Option-cases, ◌>>=◌, ltb, leb, length, take, drop, is_lt, is_eq, is_gt, compare, min,
}
use hybridmvcc.Base.{then_with}
use hybridmvcc.Memtable.HashTable.{ImmTable}
use hybridmvcc.Table.{TableFileRef, TableFileMeta, new_meta}
use hybridmvcc.Table.BlockTable.{Format}
use hybridmvcc.Table.BlockTable.Builder.{BlockTableBuilder, new, add, finish}
use hybridmvcc.Timestamp.{Timestamp}
use hybridmvcc.Wal.Segment.{Device}

-- What `BlockTableOptions` says to the builder; the filter policy is its number of bits.
pub record BlockTableOptions : Type 0 where
  pub block_size : ℕ
  pub block_restart_interval : ℕ
  pub millibits_per_key : ℕ

abbrev pub create_table_builder : {K : Type 0} → BlockTableOptions → BlockTableBuilder K
create_table_builder options =
    new options.block_size options.block_restart_interval options.millibits_per_key []

-- The end of `write_level0_table` from the first and the last key.
unfoldable pub level0_meta :
    {K : Type 0} → TableFileRef → ℕ → Timestamp → Option K × Option K → Outcome (TableFileMeta K)
level0_meta file_ref size min_xip (some first_key, some last_key) =
    ok (new_meta file_ref size min_xip first_key last_key)
level0_meta file_ref size min_xip (some first_key, none) = panic
level0_meta file_ref size min_xip (none, last_key) = panic

module _ {K V : Type 0} (f : Format K V) (device : Device) where
  -- The loop over the immutable table with the first and the last key so far. A deleted key has no
  -- entry in the file.
  unfoldable pub add_entries :
      ImmTable K V
      → Option K
      → Option K
      → BlockTableBuilder K
      → Outcome (Option K × Option K) × BlockTableBuilder K
  add_entries [] first_key last_key b = (ok (first_key, last_key), b)
  add_entries ((key, none) ∷ rest) first_key last_key b =
      add_entries rest (elim first_key [ none ↦ some key | some k ↦ some k ]) (some key) b
  add_entries ((key, some value) ∷ rest) first_key last_key b =
      then_with (add f device key value b) λ _ b'.
        add_entries rest (elim first_key [ none ↦ some key | some k ↦ some k ]) (some key) b'

  -- The scope of the table builder.
  unfoldable pub write_entries :
      ImmTable K V → BlockTableBuilder K → Outcome (Option K × Option K) × BlockTableBuilder K
  write_entries imm b =
      then_with (add_entries imm none none b)
        λ keys b1. then_with (finish f device b1) λ _ b2. (ok keys, b2)

  -- With the metadata the file, which is new: its number is one that no other file has.
  unfoldable pub write_level0_table :
      BlockTableOptions → ℕ → Timestamp → ImmTable K V → Outcome (TableFileMeta K) × List ℕ
  write_level0_table options file_num min_xip imm =
      let (keys, b) = write_entries imm (create_table_builder options) in
      if ltb 0 (length imm)
      then (
        keys >>= level0_meta (record { path_id = 0; seqnum = file_num }) (length b.out) min_xip,
        b.out,
      )
      else (panic, [])
