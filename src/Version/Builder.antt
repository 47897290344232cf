-- ===== src/Version/Builder.antt =====
-- src/version.rs: `VersionBuilder`, which applies an edit to a version.
pub mod Merge
pub mod Saved
use hybridmvcc.Base.{
  keep, replicate, map, exists_in, ℕ, zero, suc, ◌+◌, ◌-◌, ◌*◌, ◌/◌, ◌%◌, ◌^◌, ◌<◌, ◌≤◌, Bool, true,
  false, not, ◌&&◌, ◌||◌, Option, none, some, List, [], ◌∷◌, ◌++◌, ◌==◌, Outcome, ok, err, panic,
  ◌≡◌, ◌≢◌, ◌⊎◌, ◌↔◌, inl, inr, refl, sym, ap, ◌∙◌, arith, All, Ordering, if◌then◌else◌, Ord,
  key_eq, key_lt, Bool-cases, Option-cases, ◌>>=◌, ltb, leb, length, take, drop, is_lt, is_eq,
  is_gt, compare, min,
}
use hybridmvcc.Timestamp.{Timestamp, cmp}
use hybridmvcc.Table.{TableFileRef, TableFileMeta, TableFileSet}
use hybridmvcc.Version.{Version, VersionEdit, files_at}

abbrev pub ref_eq : TableFileRef → TableFileRef → Bool
ref_eq a b = a.path_id == b.path_id && a.seqnum == b.seqnum

-- Membership in the sets of (level, file) pairs.
abbrev pub listed : ℕ → TableFileRef → List (ℕ × TableFileRef) → Bool
listed level r = exists_in (λ d. d.0 == level && ref_eq d.1 r)

pub record VersionBuilder (K : Type 0) : Type 0 where
  pub added : TableFileSet K
  pub deleted : List (ℕ × TableFileRef)
  pub mark_compacted : List (ℕ × TableFileRef)

-- `added[level].push(f)`; the caller has checked the level.
unfoldable pub push_at : {K : Type 0} → ℕ → TableFileMeta K → TableFileSet K → TableFileSet K
push_at level f [] = []
push_at zero f (fs ∷ rest) = (fs ++ f ∷ []) ∷ rest
push_at (suc level) f (fs ∷ rest) = fs ∷ push_at level f rest

-- `iter_a` and `iter_b` merged: the first goes first only if it is less.
unfoldable pub merge_iters : {A : Type 0} → (A → A → Ordering) → List A → List A → List A
merge_iters cmp [] bs = bs
merge_iters cmp (a ∷ as') [] = a ∷ as'
merge_iters cmp (a ∷ as') (b ∷ bs) = elim (is_lt (cmp a b)) [
  | true ↦ a ∷ merge_iters cmp as' (b ∷ bs)
  | false ↦ b ∷ merge_iters cmp (a ∷ as') bs
]

-- `sort_by` is stable: an insertion after the elements that are not greater.
unfoldable pub insert_by : {A : Type 0} → (A → A → Ordering) → A → List A → List A
insert_by cmp x [] = x ∷ []
insert_by cmp x (y ∷ ys) = if is_gt (cmp x y) then y ∷ insert_by cmp x ys else x ∷ y ∷ ys

unfoldable pub sort_by : {A : Type 0} → (A → A → Ordering) → List A → List A
sort_by cmp [] = []
sort_by cmp (x ∷ xs) = insert_by cmp x (sort_by cmp xs)

unfoldable pub mark_all :
    ℕ → List (ℕ × TableFileRef) → List (ℕ × TableFileRef) → Outcome (List (ℕ × TableFileRef))
mark_all num_levels [] marks = ok marks
mark_all num_levels ((level, r) ∷ rest) marks =
    let later = mark_all num_levels rest ((level, r) ∷ marks) in
    if ltb level num_levels then later else panic

module _ {K : Type 0} where
  unfoldable pub new_builder : ℕ → VersionBuilder K
  new_builder num_levels = record {
    added = replicate num_levels [];
    deleted = [];
    mark_compacted = [];
  }

  -- The loops of `apply`: a level out of range fails an assertion.
  unfoldable pub add_all : List (ℕ × TableFileMeta K) → TableFileSet K → Outcome (TableFileSet K)
  add_all [] added = ok added
  add_all ((level, f) ∷ rest) added =
      let later = add_all rest (push_at level f added) in
      if ltb level (length added) then later else panic

  unfoldable pub apply : VersionBuilder K → VersionEdit K → Outcome (VersionBuilder K)
  apply builder edit = do
    added ← add_all edit.add_files builder.added
    marks ← mark_all (length builder.added) edit.mark_compacted builder.mark_compacted
    ok (record { added = added; deleted = edit.deleted; mark_compacted = marks })

module _ {K : Type 0} ⦃o : Ord K⦄ where
  -- Level 0 newest first, the other levels by infimum.
  unfoldable pub compare_level_files : ℕ → TableFileMeta K → TableFileMeta K → Ordering
  compare_level_files level a b =
      if level == 0 then cmp b.min_xip a.min_xip else o.cmp a.infimum b.infimum

  abbrev pub mark_file : List (ℕ × TableFileRef) → ℕ → TableFileMeta K → TableFileMeta K
  mark_file marks level f =
      if listed level f.file_ref marks then record f { being_compacted = true } else f

  -- One level of `save_to`: what is added, merged with the base, without what is deleted.
  unfoldable pub save_level :
      VersionBuilder K
      → ℕ
      → List (TableFileMeta K)
      → List (TableFileMeta K)
      → List (TableFileMeta K)
  save_level builder level added base = map (mark_file builder.mark_compacted level) (
      keep (λ f. not (listed level f.file_ref builder.deleted))
        (merge_iters (compare_level_files level) (sort_by (compare_level_files level) added) base))

  unfoldable pub save_levels :
      VersionBuilder K → ℕ → TableFileSet K → TableFileSet K → TableFileSet K
  save_levels builder level [] base = []
  save_levels builder level (added ∷ more) base =
      save_level builder level added (files_at base 0)
      ∷ save_levels builder (suc level) more (drop 1 base)

  -- The assertions compare the numbers of levels.
  unfoldable pub save_to : VersionBuilder K → Version K → Version K → Outcome (Version K)
  save_to builder base v =
      if length base.files == length builder.added && length v.files == length builder.added
      then ok (record v { files = save_levels builder 0 builder.added base.files })
      else panic
