-- ===== src/Version/VersionSet.antt =====
-- src/version.rs: `VersionSet`, the current version and how it is replaced.
pub mod Durability
pub mod Picking
use hybridmvcc.Base.{
  ℕ, zero, suc, ◌+◌, ◌-◌, ◌*◌, ◌/◌, ◌%◌, ◌^◌, ◌<◌, ◌≤◌, Bool, true, false, not, ◌&&◌, ◌||◌, Option,
  none, some, List, [], ◌∷◌, ◌++◌, ◌==◌, Outcome, ok, err, panic, ◌≡◌, ◌≢◌, ◌⊎◌, ◌↔◌, inl, inr,
  refl, sym, ap, ◌∙◌, arith, All, Ordering, if◌then◌else◌, Ord, key_eq, key_lt, Bool-cases,
  Option-cases, ◌>>=◌, ltb, leb, length, take, drop, is_lt, is_eq, is_gt, compare, min,
}
use hybridmvcc.Timestamp.{Timestamp, cmp}
use hybridmvcc.Table.{TableFileRef, TableFileMeta, TableFileSet}
use hybridmvcc.Wal.Records.{LogPointer, CheckpointLog}
use hybridmvcc.Version.{
  Version, VersionEdit, Score, score_lt_one, new_version, new_edit, mark_as_being_compacted,
}
use hybridmvcc.Version.Builder.{new_builder, apply, save_to}
use hybridmvcc.Version.Compaction.{
  Options, Compaction, calculate_compaction_score, try_pick_files_to_compact,
}

-- What `log_and_apply` asks of the write-ahead log and of the checkpoint manager.
pub record Durable (K : Type 0) : Type 1 where
  pub Disk : Type 0
  pub append_checkpoint : CheckpointLog K → Disk → Outcome (LogPointer × LogPointer) × Disk
  pub flush : Option LogPointer → Disk → Outcome (Unit {0}) × Disk
  pub create_checkpoint : Timestamp → LogPointer → Disk → Outcome (Unit {0}) × Disk

pub record VersionSet (K : Type 0) : Type 0 where
  pub options : Options
  pub next_file_num : ℕ
  pub min_xip : Timestamp
  pub min_recovery_point : LogPointer
  pub current : Version K
  pub level0_compactions_in_progress : Bool

module _ {K : Type 0} where
  unfoldable pub new_version_set : Options → VersionSet K
  new_version_set options = record {
    options = options;
    next_file_num = 2;
    min_xip = 0;
    min_recovery_point = 0;
    current = new_version options.num_levels;
    level0_compactions_in_progress = false;
  }

  unfoldable pub new_file_number : VersionSet K → ℕ × VersionSet K
  new_file_number vset =
      (vset.next_file_num, record vset { next_file_num = (vset.next_file_num + 1) % 2 ^ 64 })

  unfoldable pub set_next_file_number : VersionSet K → ℕ → VersionSet K
  set_next_file_number vset next_file_num = record vset { next_file_num = next_file_num }

  unfoldable pub set_current : VersionSet K → Version K → VersionSet K
  set_current vset version = record vset { current = version }

  unfoldable pub recover : VersionSet K → CheckpointLog K → VersionSet K
  recover vset checkpoint =
      let version : Version K = record (new_version vset.options.num_levels) {
        files = checkpoint.file_set;
      } in
      set_current
        (record (set_next_file_number vset checkpoint.next_file_num) {
          min_xip = checkpoint.min_xip;
          min_recovery_point = checkpoint.min_recovery_point;
        })
        (calculate_compaction_score vset.options version)

module _ {K : Type 0} ⦃o : Ord K⦄ where
  -- The version that an edit makes of the current one.
  unfoldable pub edited : VersionSet K → VersionEdit K → Outcome (Version K)
  edited vset edit = do
    builder ← apply (new_builder vset.options.num_levels) edit
    version ← save_to builder vset.current (new_version vset.options.num_levels)
    ok (calculate_compaction_score vset.options version)

  abbrev pub min_xip_of : VersionSet K → VersionEdit K → Timestamp
  min_xip_of vset edit = elim edit.min_xip [ none ↦ vset.min_xip | some m ↦ m ]

  -- The checkpoint record of `log_and_apply`, with the new version. The new `min_xip` must not be
  -- below the old one.
  unfoldable pub prepare :
      VersionSet K → VersionEdit K → LogPointer → Outcome (CheckpointLog K × Version K)
  prepare vset edit min_recovery_point =
      if is_lt (cmp (min_xip_of vset edit) vset.min_xip) then panic else do
        version ← edited vset edit
        ok (
          record {
            min_xip = min_xip_of vset edit;
            min_recovery_point = min_recovery_point;
            next_file_num = vset.next_file_num;
            file_set = version.files;
          },
          version,
        )

  abbrev pub installed : VersionSet K → CheckpointLog K → Version K → VersionSet K
  installed vset checkpoint version = record vset {
    current = version;
    min_xip = checkpoint.min_xip;
    min_recovery_point = checkpoint.min_recovery_point;
  }

  module _ (d : Durable K) where
    -- The checkpoint made durable: the record, the flush, and then the manifest.
    unfoldable pub persist : CheckpointLog K → d.Disk → Outcome (Unit {0}) × d.Disk
    persist checkpoint disk =
        let (appended, disk1) = d.append_checkpoint checkpoint disk in
        elim appended [
          | ok pos ↦
              let (flushed, disk2) = d.flush (some pos.1) disk1 in
              elim flushed [
                | ok _ ↦ d.create_checkpoint checkpoint.min_xip pos.0 disk2
                | err e ↦ (err e, disk2)
                | panic ↦ (panic, disk2)
              ]
          | err e ↦ (err e, disk1)
          | panic ↦ (panic, disk1)
        ]

    unfoldable pub log_and_apply :
        VersionSet K
        → VersionEdit K
        → LogPointer
        → d.Disk
        → Outcome (Unit {0}) × VersionSet K × d.Disk
    log_and_apply vset edit min_recovery_point disk = elim (prepare vset edit min_recovery_point) [
      | ok (checkpoint, version) ↦
          let (done, disk') = persist checkpoint disk in
          elim done [
            | ok _ ↦ (ok tt, installed vset checkpoint version, disk')
            | err e ↦ (err e, vset, disk')
            | panic ↦ (panic, vset, disk')
          ]
      | err e ↦ (err e, vset, disk)
      | panic ↦ (panic, vset, disk)
    ]

    unfoldable pub finalize_compaction :
        VersionSet K → Compaction K → d.Disk → Outcome (Unit {0}) × VersionSet K × d.Disk
    finalize_compaction vset c disk =
        log_and_apply
          (if c.level == 0 then record vset { level0_compactions_in_progress = false } else vset)
          c.edit vset.min_recovery_point disk

  unfoldable pub mark_inputs : ℕ → List (TableFileMeta K) → VersionEdit K → VersionEdit K
  mark_inputs level [] edit = edit
  mark_inputs level (f ∷ rest) edit = mark_inputs level rest (mark_as_being_compacted edit level f)

  unfoldable pub register_compaction : VersionSet K → Compaction K → Outcome (VersionSet K)
  register_compaction vset c = do
    version ←
        edited vset
          (mark_inputs (c.level + 1) c.output_inputs (mark_inputs c.level c.start_inputs new_edit))
    ok (record vset {
      current = version;
      level0_compactions_in_progress =
          if c.level == 0 then true else vset.level0_compactions_in_progress;
    })

  -- The search of `pick_compaction` through the levels, with their scores.
  unfoldable pub pick_level :
      Bool
      → Version K
      → ℕ
      → List Score
      → Outcome (Option (ℕ × List (TableFileMeta K) × List (TableFileMeta K)))
  pick_level busy0 v level [] = ok none
  pick_level busy0 v level (score ∷ rest) =
      let later = pick_level busy0 v (suc level) rest in
      if busy0 && level == 0 then later else if score_lt_one score then later else do
        picked ← try_pick_files_to_compact v level
        elim picked [ none ↦ later | some (ifs, ofs) ↦ ok (some (level, ifs, ofs)) ]

  unfoldable pub pick_compaction : VersionSet K → Outcome (Option (Compaction K) × VersionSet K)
  pick_compaction vset = do
    picked ←
        pick_level vset.level0_compactions_in_progress vset.current 0 vset.current.compaction_score
    elim picked [
      | none ↦ ok (none, vset)
      | some (level, ifs, ofs) ↦
          let c : Compaction K = record {
            level = level;
            start_inputs = ifs;
            output_inputs = ofs;
            edit = new_edit;
          } in
          do vset' ← register_compaction vset c; ok (some c, vset')
    ]
