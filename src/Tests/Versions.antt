-- ===== src/Tests/Versions.antt =====
-- Versions with concrete files.
use hybridmvcc.Base.{
  ◌<◌, true, exists_in, get_elem?, ℕ, zero, suc, ◌≤◌, false, Option, none, some, List, [], ◌∷◌,
  Outcome, ok, ◌≡◌, ◌≢◌, refl, arith, is_lt,
}
use hybridmvcc.Base.{ℕ_ord}
use hybridmvcc.Timestamp.{cmp}
use hybridmvcc.Wal.Records.{CheckpointLog}
use hybridmvcc.Table.{TableFileMeta}
use hybridmvcc.Version.{
  new_edit, new_version, mark_as_being_compacted, Version, VersionEdit, find_in_files,
}
use hybridmvcc.Version.Search.{find_in_files_lem, Rising, Splits}
use hybridmvcc.Version.Builder.{
  merge_iters, new_builder, apply, add_all, mark_all, save_to, save_levels, VersionBuilder,
  save_level, sort_by, insert_by, compare_level_files,
}
use hybridmvcc.Version.Builder.Merge.{Ordered}
use hybridmvcc.Version.Builder.Saved.{holds, holds-save_level, save_level-Ordered}
use hybridmvcc.Version.Compaction.{
  Compaction, calculate_compaction_score, scores, level_score, total_size, expand_loop,
  expand_inputs, try_pick_files_to_compact, get_range, range_of, get_overlapping_inputs,
  overlap_oldest, max_min_xip, pick_loop, last_supremum,
}
use hybridmvcc.Version.Compaction.Inputs.{expand_loop_total}
use hybridmvcc.Version.VersionSet.Picking.{pick_compaction_lem}
use hybridmvcc.Version.VersionSet.{
  pick_compaction, pick_level, register_compaction, mark_inputs, edited, Durable, VersionSet,
  log_and_apply, prepare, new_version_set, recover,
}
use hybridmvcc.Version.VersionSet.Durability.{MadeDurable, log_and_apply-recover}
use hybridmvcc.Tests.Fixtures.{file, options}

abbrev level1 : List (TableFileMeta ℕ)
level1 = file 1 10 19 ∷ file 2 20 29 ∷ []

level1-Rising : Rising level1
level1-Rising zero zero f g h a b = ground arith
level1-Rising zero (suc zero) f g h a b = ground arith
level1-Rising zero (suc (suc j)) f g h a b = cc
level1-Rising (suc zero) zero f g h a b = absurd (omega arith)
level1-Rising (suc zero) (suc zero) f g h a b = ground arith
level1-Rising (suc zero) (suc (suc j)) f g h a b = cc
level1-Rising (suc (suc i)) j f g h a b = cc

find_in_files_lem_example :
    (n : ℕ) × (find_in_files level1 25 ≡ ok (get_elem? level1 n)) × (n ≤ 2) × Splits level1 25 n
find_in_files_lem_example = find_in_files_lem level1 25 level1-Rising

abbrev builder : VersionBuilder ℕ
builder = record {
  added = [] ∷ (file 3 30 39 ∷ []) ∷ [];
  deleted = (1, (file 1 10 19).file_ref) ∷ [];
  mark_compacted = [];
}

-- The deleted file is gone, whatever the base has.
holds-save_level_example :
    holds (file 1 10 19).file_ref (save_level builder 1 (file 3 30 39 ∷ []) level1) ≡ false
holds-save_level_example =
    holds-save_level builder 1 (file 3 30 39 ∷ []) level1 (file 1 10 19).file_ref

save_level-Ordered_example :
    Ordered (compare_level_files 1) (save_level builder 1 (file 3 15 16 ∷ []) level1)
save_level-Ordered_example =
    save_level-Ordered 1 builder (file 3 15 16 ∷ []) level1 (omega arith)
      (unfold compare_level_files in ground arith)

abbrev tree : Version ℕ
tree = record { files = (file 5 12 25 ∷ file 4 11 14 ∷ []) ∷ level1 ∷ []; compaction_score = [] }

expand_loop_total_example :
    (r : Outcome (List (TableFileMeta ℕ))) × (expand_loop 4 tree.files 0 (file 4 11 14 ∷ [])
      ≡ some r)
expand_loop_total_example =
    expand_loop_total 4 tree.files 0 (file 4 11 14 ∷ []) (omega arith) (omega arith)

pick_runs : try_pick_files_to_compact tree 0 ≡ ok (some (file 5 12 25 ∷ file 4 11 14 ∷ [], level1))
unfolding try_pick_files_to_compact pick_loop expand_inputs expand_loop get_range range_of
    last_supremum get_overlapping_inputs overlap_oldest max_min_xip sort_by insert_by cmp
pick_runs = refl

-- A disk that keeps the last checkpoint.
abbrev disk : Durable ℕ
disk = record {
  Disk = Option (CheckpointLog ℕ);
  append_checkpoint = λ c d. (ok (0, 1), some c);
  flush = λ pos d. (ok tt, d);
  create_checkpoint = λ m p d. (ok tt, d);
}

abbrev vset : VersionSet ℕ
vset = record {
  options = options;
  next_file_num = 6;
  min_xip = 2;
  min_recovery_point = 0;
  current = tree;
  level0_compactions_in_progress = false;
}

abbrev edit : VersionEdit ℕ
edit = record {
  min_xip = some 7;
  add_files = (0, file 6 40 49) ∷ [];
  deleted = [];
  mark_compacted = [];
}

log_and_apply-recover_example :
    ((checkpoint : CheckpointLog ℕ) (version : Version ℕ) (disk' : Option (CheckpointLog ℕ))
      → prepare vset edit 3 ≡ ok (checkpoint, version)
      → MadeDurable disk checkpoint none disk'
      → (log_and_apply disk vset edit 3 none).0 ≡ ok tt)
    × ((log_and_apply disk vset edit 3 none).0 ≡ ok tt
        → (checkpoint : CheckpointLog ℕ) × (version : Version ℕ) × (prepare vset edit 3
            ≡ ok (checkpoint, version))
          × MadeDurable disk checkpoint none (log_and_apply disk vset edit 3 none).2
          × (recover (new_version_set options) checkpoint
              ≡ record (log_and_apply disk vset edit 3 none).1 {
                level0_compactions_in_progress = false;
              })
          × (is_lt (cmp checkpoint.min_xip 2) ≡ false))
    × ((log_and_apply disk vset edit 3 none).0 ≢ ok tt
        → (log_and_apply disk vset edit 3 none).1 ≡ vset)
log_and_apply-recover_example = log_and_apply-recover disk vset edit 3 none

abbrev due : VersionSet ℕ
due = record vset {
  current = record tree {
    compaction_score = record { num = 2; den = 2 } ∷ record { num = 0; den = 1 } ∷ [];
  };
}

abbrev busy_file : ℕ → ℕ → ℕ → TableFileMeta ℕ
busy_file n low high = record (file n low high) { being_compacted = true }

-- All files are taken, so no level has anything left to compact.
abbrev taken : VersionSet ℕ
taken = record vset {
  current = record {
    files =
        (busy_file 5 12 25 ∷ busy_file 4 11 14 ∷ [])
        ∷ (busy_file 1 10 19 ∷ busy_file 2 20 29 ∷ [])
        ∷ [];
    compaction_score = record { num = 0; den = 2 } ∷ record { num = 0; den = 1 } ∷ [];
  };
  level0_compactions_in_progress = true;
}

abbrev job : Compaction ℕ
job = record {
  level = 0;
  start_inputs = file 5 12 25 ∷ file 4 11 14 ∷ [];
  output_inputs = level1;
  edit = new_edit;
}

pick_compaction_runs : pick_compaction due ≡ ok (some job, taken)
unfolding pick_compaction pick_level register_compaction mark_inputs edited
    calculate_compaction_score scores level_score total_size new_version new_builder apply add_all
    mark_all save_to save_levels save_level merge_iters sort_by insert_by compare_level_files
    new_edit mark_as_being_compacted try_pick_files_to_compact pick_loop expand_inputs expand_loop
    get_range range_of last_supremum get_overlapping_inputs overlap_oldest max_min_xip cmp
pick_compaction_runs = refl

pick_compaction_lem_example :
    (exists_in (λ f. f.being_compacted) job.start_inputs ≡ false)
    × (exists_in (λ f. f.being_compacted) job.output_inputs ≡ false)
    × (due.level0_compactions_in_progress ≡ true → 0 < job.level)
    × (job.level ≡ 0 → taken.level0_compactions_in_progress ≡ true)
    × (due.level0_compactions_in_progress ≡ true → taken.level0_compactions_in_progress ≡ true)
pick_compaction_lem_example = pick_compaction_lem due taken job pick_compaction_runs
