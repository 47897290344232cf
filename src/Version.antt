-- ===== src/Version.antt =====
-- src/version.rs: the levels of table files, and the look-up of a key in them.
pub mod Search
pub mod Builder
pub mod Compaction
pub mod VersionSet
use hybridmvcc.Base.{
  replicate, key_gt, get_elem?, ℕ, zero, suc, ◌+◌, ◌-◌, ◌*◌, ◌/◌, ◌%◌, ◌^◌, ◌<◌, ◌≤◌, Bool, true,
  false, not, ◌&&◌, ◌||◌, Option, none, some, List, [], ◌∷◌, ◌++◌, ◌==◌, Outcome, ok, err, panic,
  ◌≡◌, ◌≢◌, ◌⊎◌, ◌↔◌, inl, inr, refl, sym, ap, ◌∙◌, arith, All, Ordering, if◌then◌else◌, Ord,
  key_eq, key_lt, Bool-cases, Option-cases, ◌>>=◌, ltb, leb, length, take, drop, is_lt, is_eq,
  is_gt, compare, min,
}
use hybridmvcc.Timestamp.{Timestamp}
use hybridmvcc.Table.{TableFileRef, TableFileMeta, TableFileSet}

pub record VersionEdit (K : Type 0) : Type 0 where
  pub min_xip : Option Timestamp
  pub add_files : List (ℕ × TableFileMeta K)
  pub deleted : List (ℕ × TableFileRef)
  pub mark_compacted : List (ℕ × TableFileRef)

module _ {K : Type 0} where
  unfoldable pub new_edit : VersionEdit K
  new_edit = record { min_xip = none; add_files = []; deleted = []; mark_compacted = [] }

  unfoldable pub set_min_xip : VersionEdit K → Timestamp → VersionEdit K
  set_min_xip edit min_xip = record edit { min_xip = some min_xip }

  unfoldable pub add_file : VersionEdit K → ℕ → TableFileMeta K → VersionEdit K
  add_file edit level file = record edit { add_files = edit.add_files ++ (level, file) ∷ [] }

  -- The set of deleted files is a list: only membership is asked of it.
  unfoldable pub delete_file : VersionEdit K → ℕ → TableFileMeta K → VersionEdit K
  delete_file edit level file = record edit { deleted = (level, file.file_ref) ∷ edit.deleted }

  unfoldable pub mark_as_being_compacted : VersionEdit K → ℕ → TableFileMeta K → VersionEdit K
  mark_as_being_compacted edit level file = record edit {
    mark_compacted = edit.mark_compacted ++ (level, file.file_ref) ∷ [];
  }

-- A compaction score is a quotient of whole numbers in `f64`; the code only asks whether it is
-- below 1 or above 0, which the two numbers answer.
pub record Score : Type 0 where
  pub num : ℕ
  pub den : ℕ

abbrev pub score_lt_one : Score → Bool
score_lt_one s = ltb s.num s.den

-- The table cache is not part of the value: it is the reader that `get` is given.
pub record Version (K : Type 0) : Type 0 where
  pub files : TableFileSet K
  pub compaction_score : List Score

unfoldable pub new_version : {K : Type 0} → ℕ → Version K
new_version num_levels = record {
  files = replicate num_levels [];
  compaction_score = replicate num_levels (record { num = 0; den = 1 });
}

-- `files[level]`; the callers have checked the level.
abbrev pub files_at : {K : Type 0} → TableFileSet K → ℕ → List (TableFileMeta K)
files_at [] level = []
files_at (fs ∷ rest) zero = fs
files_at (fs ∷ rest) (suc level) = files_at rest level

module _ {K : Type 0} ⦃o : Ord K⦄ where
  -- The loop of `find_in_files`; `count` falls in every round, so fuel `count` is enough. An index
  -- out of range would be a panic, `none`.
  unfoldable pub find_loop : ℕ → List (TableFileMeta K) → K → ℕ → ℕ → Option ℕ
  find_loop zero files key first count = if count == 0 then some first else none
  find_loop (suc fuel) files key first count =
      let step = count / 2 in
      let after = find_loop fuel files key (first + (step + 1)) (count - (step + 1)) in
      let before = find_loop fuel files key first step in
      if count == 0 then some first else elim (get_elem? files (first + step)) [
        | none ↦ none
        | some mid ↦ if key_lt mid.supremum key then after else before
      ]

  unfoldable pub find_in_files : List (TableFileMeta K) → K → Outcome (Option (TableFileMeta K))
  find_in_files files key = elim (find_loop (length files) files key 0 (length files)) [
    | none ↦ panic
    | some first ↦ ok (get_elem? files first)
  ]

  module _ {V : Type 0} (read : TableFileRef → K → Outcome (Option V)) where
    unfoldable pub get_level0 : List (TableFileMeta K) → K → Outcome (Option V)
    get_level0 [] key = ok none
    get_level0 (f ∷ rest) key =
        let older = get_level0 rest key in
        if key_lt key f.infimum || key_gt key f.supremum
        then older
        else elim (read f.file_ref key) [
          | ok (some value) ↦ ok (some value)
          | ok none ↦ older
          | err e ↦ err e
          | panic ↦ panic
        ]

    unfoldable pub get_level : List (TableFileMeta K) → K → Outcome (Option V)
    get_level files key = do
      found ← find_in_files files key
      elim found [ none ↦ ok none | some f ↦ read f.file_ref key ]

    unfoldable pub get_levels : TableFileSet K → K → Outcome (Option V)
    get_levels [] key = ok none
    get_levels (files ∷ rest) key = do
      found ← get_level files key
      elim found [ none ↦ get_levels rest key | some value ↦ ok (some value) ]

    unfoldable pub get : Version K → K → Outcome (Option V)
    get v key = elim v.files [
      | [] ↦ ok none
      | level0 ∷ rest ↦ do
        found ← get_level0 level0 key
        elim found [ none ↦ get_levels rest key | some value ↦ ok (some value) ]
    ]
