-- ===== src/Version/Compaction.antt =====
-- src/version.rs: the choice of the files of a compaction.
pub mod Inputs
use hybridmvcc.Base.{
  reverse_ordering, reverse, key_gt, keep, exists_in, ℕ, zero, suc, ◌+◌, ◌-◌, ◌*◌, ◌/◌, ◌%◌, ◌^◌,
  ◌<◌, ◌≤◌, Bool, true, false, not, ◌&&◌, ◌||◌, Option, none, some, List, [], ◌∷◌, ◌++◌, ◌==◌,
  Outcome, ok, err, panic, ◌≡◌, ◌≢◌, ◌⊎◌, ◌↔◌, inl, inr, refl, sym, ap, ◌∙◌, arith, All, Ordering,
  if◌then◌else◌, Ord, key_eq, key_lt, Bool-cases, Option-cases, ◌>>=◌, ltb, leb, length, take, drop,
  is_lt, is_eq, is_gt, compare, min,
}
use hybridmvcc.Timestamp.{Timestamp, cmp}
use hybridmvcc.Table.{TableFileRef, TableFileMeta, TableFileSet}
use hybridmvcc.Version.{Version, VersionEdit, Score, files_at, new_edit, delete_file}
use hybridmvcc.Version.Builder.{sort_by}

-- The options that the versions read.
pub record Options : Type 0 where
  pub num_levels : ℕ
  pub level0_file_num_compaction_trigger : ℕ
  pub max_bytes_for_level_base : ℕ
  pub max_bytes_for_level_multiplier : ℕ

abbrev pub idle : {K : Type 0} → TableFileMeta K → Bool
idle f = not f.being_compacted

unfoldable pub total_size : {K : Type 0} → List (TableFileMeta K) → ℕ
total_size [] = 0
total_size (f ∷ rest) = (f.size + total_size rest) % 2 ^ 64

module _ {K : Type 0} (opt : Options) where
  -- One level of `calculate_compaction_score`; a level above 0 has the file-number score 0, so its
  -- size score is the greater one exactly when its size is not 0.
  unfoldable pub level_score : ℕ → ℕ → List (TableFileMeta K) → Score
  level_score last level files =
      let level_size = total_size (keep idle files) in
      let max_size =
        (opt.max_bytes_for_level_base * (opt.max_bytes_for_level_multiplier ^ level % 2 ^ 64))
        % 2 ^ 64 in
      if level == last
      then record { num = 0; den = 1 }
      else if level == 0
      then record { num = length (keep idle files); den = opt.level0_file_num_compaction_trigger }
      else if ltb 0 level_size
      then record { num = level_size; den = max_size }
      else record { num = 0; den = 1 }

  unfoldable pub scores : ℕ → ℕ → TableFileSet K → List Score
  scores last level [] = []
  scores last level (files ∷ rest) = level_score last level files ∷ scores last (suc level) rest

  unfoldable pub calculate_compaction_score : Version K → Version K
  calculate_compaction_score v = record v {
    compaction_score = scores (length v.files - 1) 0 v.files;
  }

-- `iter().max()` of timestamps: the last of the greatest.
unfoldable pub max_min_xip : {K : Type 0} → List (TableFileMeta K) → Option Timestamp
max_min_xip [] = none
max_min_xip (f ∷ rest) = elim (max_min_xip rest) [
  | none ↦ some f.min_xip
  | some m ↦ some (if is_gt (cmp f.min_xip m) then f.min_xip else m)
]

module _ {K : Type 0} ⦃o : Ord K⦄ where
  abbrev pub overlaps : K → K → TableFileMeta K → Bool
  overlaps infimum supremum f = not (key_lt f.supremum infimum) && not (key_gt f.infimum supremum)

  -- The fold over the files of level 0, oldest first.
  unfoldable pub overlap_oldest :
      Timestamp → K → K → List (TableFileMeta K) → List (TableFileMeta K)
  overlap_oldest max_ts infimum supremum [] = []
  overlap_oldest max_ts infimum supremum (f ∷ rest) =
      let more = overlap_oldest max_ts infimum supremum rest in
      if not (is_gt (cmp f.min_xip max_ts)) || (overlaps infimum supremum f && idle f)
      then f ∷ more
      else []

  unfoldable pub get_overlapping_inputs :
      TableFileSet K → ℕ → List (TableFileMeta K) → K → K → Outcome (List (TableFileMeta K))
  get_overlapping_inputs files level prev_files infimum supremum =
      if level == 0
      then elim (max_min_xip prev_files) [
        | none ↦ panic
        | some max_ts ↦
            ok (reverse (overlap_oldest max_ts infimum supremum (reverse (files_at files level))))
      ]
      else ok (keep (overlaps infimum supremum) (files_at files level))

  -- `get_range`: `none` stands for the panics on an empty list.
  unfoldable pub range_of : List (TableFileMeta K) → Option (K × K)
  range_of [] = none
  range_of (f ∷ rest) = elim (range_of rest) [
    | none ↦ some (f.infimum, f.supremum)
    | some (i, s) ↦
        some (
          if key_lt i f.infimum then i else f.infimum,
          if key_lt f.supremum s then s else f.supremum,
        )
  ]

  unfoldable pub last_supremum : List (TableFileMeta K) → Option K
  last_supremum [] = none
  last_supremum (f ∷ []) = some f.supremum
  last_supremum (f ∷ g ∷ rest) = last_supremum (g ∷ rest)

  unfoldable pub get_range : ℕ → List (TableFileMeta K) → Outcome (K × K)
  get_range level files =
      if level == 0
      then elim (range_of files) [ none ↦ panic | some r ↦ ok r ]
      else elim (last_supremum files) [
        | none ↦ panic
        | some s ↦ elim files [ [] ↦ panic | f ∷ rest ↦ ok (f.infimum, s) ]
      ]

  -- The loop of `expand_inputs`; `none` says that the fuel ran out.
  unfoldable pub expand_loop :
      ℕ → TableFileSet K → ℕ → List (TableFileMeta K) → Option (Outcome (List (TableFileMeta K)))
  expand_loop zero all level files = none
  expand_loop (suc fuel) all level [] = some (ok [])
  expand_loop (suc fuel) all level (f ∷ fs) =
      elim (do
        (infimum, supremum) ← get_range level (f ∷ fs)
        get_overlapping_inputs all level (f ∷ fs) infimum supremum) [
          | ok files' ↦
              let grown = expand_loop fuel all level files' in
              if leb (length files') (length (f ∷ fs)) then some (ok files') else grown
          | err e ↦ some (err e)
          | panic ↦ some panic
        ]

  -- A selection grows in every round but the last, so the number of files of the level is enough.
  unfoldable pub expand_inputs :
      TableFileSet K → ℕ → List (TableFileMeta K) → Outcome (Option (List (TableFileMeta K)))
  expand_inputs all level files =
      elim (expand_loop (suc (suc (length (files_at all level)))) all level files) [
        | none ↦ panic
        | some r ↦ do
          files' ← r
          ok (if exists_in (λ f. f.being_compacted) files' then none else some files')
      ]

  abbrev pub pick_order : ℕ → TableFileMeta K → TableFileMeta K → Ordering
  pick_order level a b =
      if level == 0 then cmp a.min_xip b.min_xip else reverse_ordering (compare a.size b.size)

  -- The loop of `try_pick_files_to_compact` over the candidates.
  unfoldable pub pick_loop :
      TableFileSet K
      → ℕ
      → List (TableFileMeta K)
      → Outcome (Option (List (TableFileMeta K) × List (TableFileMeta K)))
  pick_loop all level [] = ok none
  pick_loop all level (f ∷ rest) =
      let later = pick_loop all level rest in
      let next = if level == 0 then ok none else later in
      do
        expanded ← expand_inputs all level (f ∷ [])
        elim expanded [
          | none ↦ next
          | some start ↦ do
            (infimum, supremum) ← get_range level start
            overlapping ← get_overlapping_inputs all (suc level) [] infimum supremum
            outputs ← expand_inputs all (suc level) overlapping
            elim outputs [ none ↦ next | some out ↦ ok (some (start, out)) ]
        ]

  unfoldable pub try_pick_files_to_compact :
      Version K → ℕ → Outcome (Option (List (TableFileMeta K) × List (TableFileMeta K)))
  try_pick_files_to_compact v level =
      if ltb (suc level) (length v.files)
      then pick_loop v.files level (sort_by (pick_order level) (keep idle (files_at v.files level)))
      else panic

pub record Compaction (K : Type 0) : Type 0 where
  pub level : ℕ
  pub start_inputs : List (TableFileMeta K)
  pub output_inputs : List (TableFileMeta K)
  pub edit : VersionEdit K

module _ {K : Type 0} where
  abbrev pub output_level : Compaction K → ℕ
  output_level c = c.level + 1

  unfoldable pub delete_all : ℕ → List (TableFileMeta K) → VersionEdit K → VersionEdit K
  delete_all level [] edit = edit
  delete_all level (f ∷ rest) edit = delete_all level rest (delete_file edit level f)

  unfoldable pub delete_inputs : Compaction K → Compaction K
  delete_inputs c = record c {
    edit = delete_all (c.level + 1) c.output_inputs (delete_all c.level c.start_inputs c.edit);
  }
