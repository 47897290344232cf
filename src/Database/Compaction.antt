-- ===== src/Database/Compaction.antt =====
-- `start_compaction` of src/db.rs: the loop that writes the pairs of the inputs to new table files.
pub mod Outputs
pub mod Complete
use hybridmvcc.Base.{
  ℕ, zero, suc, ◌+◌, ◌-◌, ◌*◌, ◌/◌, ◌%◌, ◌^◌, ◌<◌, ◌≤◌, Bool, true, false, not, ◌&&◌, ◌||◌, Option,
  none, some, List, [], ◌∷◌, ◌++◌, ◌==◌, Outcome, ok, err, panic, ◌≡◌, ◌≢◌, ◌⊎◌, ◌↔◌, inl, inr,
  refl, sym, ap, ◌∙◌, arith, All, Ordering, if◌then◌else◌, Ord, key_eq, key_lt, Bool-cases,
  Option-cases, ◌>>=◌, ltb, leb, length, take, drop, is_lt, is_eq, is_gt, compare, min,
}
use hybridmvcc.Base.{then_with}
use hybridmvcc.Database.Flush.{BlockTableOptions, create_table_builder}
use hybridmvcc.MergingIter.{TableIterator}
use hybridmvcc.Table.{TableFileRef, TableFileMeta, new_meta}
use hybridmvcc.Table.BlockTable.{Format}
use hybridmvcc.Table.BlockTable.Builder.{BlockTableBuilder, add, finish, size_hint}
use hybridmvcc.Timestamp.{invalid_timestamp}
use hybridmvcc.Version.{VersionEdit, add_file}
use hybridmvcc.Wal.Segment.{Device}

-- What the loop changes: the merge of the inputs, the counter of file numbers, the edit of the
-- compaction, and the files with their numbers.
pub record Work (K I : Type 0) : Type 0 where
  pub citer : I
  pub next_file_num : ℕ
  pub edit : VersionEdit K
  pub files : List (ℕ × List ℕ)

module _ {K V I : Type 0} (f : Format K V) (device : Device) (options : BlockTableOptions)
    (t : TableIterator K V I) (output_level max_file_size : ℕ) where
  -- The outcome of a call on the builder, with the merge beside it.
  abbrev pub on_builder :
      {A : Type 0} → Outcome A × BlockTableBuilder K → I → Outcome A × (BlockTableBuilder K × I)
  on_builder (result, b) citer = (result, (b, citer))

  -- The outcome of a call on the merge, with the builder beside it.
  abbrev pub on_merge :
      {A : Type 0} → Outcome A × I → BlockTableBuilder K → Outcome A × (BlockTableBuilder K × I)
  on_merge (result, citer) b = (result, (b, citer))

  -- The inner loop, with the last key so far: until the merge ends or the file is large enough.
  unfoldable pub fill_output :
      ℕ → K → BlockTableBuilder K × I → Outcome K × (BlockTableBuilder K × I)
  fill_output zero last_key (b, citer) = (panic, (b, citer))
  fill_output (suc fuel) last_key (b, citer) = then_with (on_merge (t.next_pair citer) b) λ found s.
      elim found [
        | none ↦ (ok last_key, s)
        | some (k, v) ↦ then_with (on_builder (add f device k v s.0) s.1) λ _ s'.
            elim (ltb max_file_size (size_hint s'.0)) [
              | true ↦ (ok k, s')
              | false ↦ fill_output fuel k s'
            ]
      ]

  -- The scope of the table builder of one file, from its first pair.
  unfoldable pub build_output : ℕ → K → V → I → Outcome K × (BlockTableBuilder K × I)
  build_output fuel k v citer =
      then_with (on_builder (add f device k v (create_table_builder options)) citer) λ _ s.
        then_with (fill_output fuel k s) λ last_key s'.
          then_with (on_builder (finish f device s'.0) s'.1) λ _ s''. (ok last_key, s'')

  -- A step of the merge.
  abbrev pub stepped : {A : Type 0} → Outcome A × I → Work K I → Outcome A × Work K I
  stepped (found, citer) w = (found, record w { citer = citer })

  -- The file that was built, under the next number, and its metadata.
  unfoldable pub store :
      K → Outcome K × (BlockTableBuilder K × I) → Work K I → Outcome (TableFileMeta K) × Work K I
  store first_key (built, (b, citer)) w =
      let n = w.next_file_num in
      let file_ref : TableFileRef = record { path_id = 0; seqnum = n } in
      (
        (do
          last_key ← built
          ok (new_meta file_ref (length b.out) invalid_timestamp first_key last_key)),
        (record w {
          citer = citer;
          next_file_num = (n + 1) % 2 ^ 64;
          files = w.files ++ (n, b.out) ∷ [];
        }),
      )

  -- The outer loop.
  unfoldable pub write_outputs : ℕ → Work K I → Outcome (Unit {0}) × Work K I
  write_outputs zero w = (panic, w)
  write_outputs (suc fuel) w = then_with (stepped (t.next_pair w.citer) w) λ found w1. elim found [
    | none ↦ (ok tt, w1)
    | some (k, v) ↦
        then_with (store k (build_output fuel k v w1.citer) w1)
          λ meta w2. write_outputs fuel (record w2 { edit = add_file w2.edit output_level meta })
  ]
