-- ===== src/Version/Builder/Saved.antt =====
-- What a saved level holds, and in which order.
use hybridmvcc.Base.{
  map, keep, exists_in, ℕ, ◌<◌, Bool, true, false, not, ◌&&◌, ◌||◌, List, [], ◌∷◌, ◌≡◌, inl, inr,
  refl, ap, arith, Ord, Bool-cases, is_gt,
}
use hybridmvcc.Table.{TableFileRef, TableFileMeta}
use hybridmvcc.Version.Builder.{
  VersionBuilder, ref_eq, listed, save_level, mark_file, compare_level_files, merge_iters, sort_by,
}
use hybridmvcc.Version.Builder.Merge.{
  Ordered, Swaps, exists-merge, exists-sort, merge-Ordered, sort-Ordered,
}

ref_eq_sound : (a b : TableFileRef) → ref_eq a b ≡ true → a ≡ b
ref_eq_sound a b h = ground arith

-- Whether a file with the reference is among the files of a level.
abbrev pub holds : {K : Type 0} → TableFileRef → List (TableFileMeta K) → Bool
holds r = exists_in (λ f. ref_eq f.file_ref r)

module _ {K : Type 0} ⦃o : Ord K⦄ where
  holds-map :
      (r : TableFileRef) (marks : List (ℕ × TableFileRef)) (level : ℕ) (fs : List (TableFileMeta K))
      → holds r (map (mark_file marks level) fs) ≡ holds r fs
  holds-map r marks level [] = refl
  holds-map r marks level (f ∷ fs) = ground (arith, holds-map r marks level fs)

  holds-keep :
      (r : TableFileRef) (level : ℕ) (gone : List (ℕ × TableFileRef)) (fs : List (TableFileMeta K))
      → holds r (keep (λ f. not (listed level f.file_ref gone)) fs)
        ≡ (holds r fs && not (listed level r gone))
  holds-keep r level gone [] = refl
  holds-keep r level gone (f ∷ fs) = elim (Bool-cases (ref_eq f.file_ref r)) [
    | inl same ↦ ground (
      arith,
      same,
      holds-keep r level gone fs,
      ap (λ (x : TableFileRef). listed level x gone) (ref_eq_sound f.file_ref r same),
    )
    | inr other ↦ ground (arith, other, holds-keep r level gone fs)
  ]

  -- A saved level holds a file exactly when the edit adds it or the base has it, and the edit
  -- does not delete it at this level.
  pub holds-save_level :
      (b : VersionBuilder K) (level : ℕ) (added base : List (TableFileMeta K)) (r : TableFileRef)
      → holds r (save_level b level added base)
        ≡ ((holds r added || holds r base) && not (listed level r b.deleted))
  unfolding save_level
  holds-save_level b level added base r = ground (
    arith,
    holds-map r b.mark_compacted level (
        keep (λ f. not (listed level f.file_ref b.deleted))
          (merge_iters (compare_level_files level) (sort_by (compare_level_files level) added)
            base)),
    holds-keep r level b.deleted
        (merge_iters (compare_level_files level) (sort_by (compare_level_files level) added) base),
    exists-merge (compare_level_files level) (λ f. ref_eq f.file_ref r)
        (sort_by (compare_level_files level) added) base,
    exists-sort (compare_level_files level) (λ f. ref_eq f.file_ref r) added,
  )

  module _ (level : ℕ) where
    Ordered-tail :
        (x : TableFileMeta K) (xs : List (TableFileMeta K))
        → Ordered (compare_level_files level) (x ∷ xs)
        → Ordered (compare_level_files level) xs
    Ordered-tail x [] h = tt
    Ordered-tail x (y ∷ ys) h = h.1

    not-gt_trans :
        0 < level
        → (x y z : TableFileMeta K) → is_gt (compare_level_files level x y) ≡ false
        → is_gt (compare_level_files level y z) ≡ false
        → is_gt (compare_level_files level x z) ≡ false
    unfolding compare_level_files
    not-gt_trans l x y z h k =
        let a = x.infimum in
        let b = y.infimum in
        let c = z.infimum in
        ground (arith, o.cmp_trans a b c, o.cmp_eq a b, o.cmp_eq b c, o.cmp_eq a c)

    drop_second :
        0 < level
        → (x y : TableFileMeta K) (ys : List (TableFileMeta K))
        → Ordered (compare_level_files level) (x ∷ y ∷ ys)
        → Ordered (compare_level_files level) (x ∷ ys)
    drop_second l x y [] h = tt
    drop_second l x y (z ∷ zs) h = (not-gt_trans l x y z h.0 h.1.0, h.1.1)

    keep-under :
        (p : TableFileMeta K → Bool)
        → 0 < level
        → (x : TableFileMeta K) (xs : List (TableFileMeta K))
        → Ordered (compare_level_files level) (x ∷ xs)
        → Ordered (compare_level_files level) (x ∷ keep p xs)
    keep-under p l x [] h = tt
    keep-under p l x (y ∷ ys) h = elim (Bool-cases (p y)) [
      | inl e ↦ rw e (h.0, keep-under p l y ys h.1)
      | inr e ↦ rw e (keep-under p l x ys (drop_second l x y ys h))
    ]

    keep-Ordered :
        (p : TableFileMeta K → Bool)
        → 0 < level
        → (xs : List (TableFileMeta K)) → Ordered (compare_level_files level) xs
        → Ordered (compare_level_files level) (keep p xs)
    keep-Ordered p l [] h = tt
    keep-Ordered p l (x ∷ xs) h = elim (Bool-cases (p x)) [
      | inl e ↦ rw e (keep-under p l x xs h)
      | inr e ↦ rw e (keep-Ordered p l xs (Ordered-tail x xs h))
    ]

    map-Ordered :
        (marks : List (ℕ × TableFileRef)) (xs : List (TableFileMeta K))
        → 0 < level
        → Ordered (compare_level_files level) xs
        → Ordered (compare_level_files level) (map (mark_file marks level) xs)
    map-Ordered marks [] l h = tt
    map-Ordered marks (x ∷ []) l h = tt
    map-Ordered marks (x ∷ y ∷ ys) l h =
        (unfold compare_level_files in ground (arith, h.0), map-Ordered marks (y ∷ ys) l h.1)

    compare-Swaps : 0 < level → Swaps (compare_level_files {K = K} level)
    unfolding compare_level_files
    compare-Swaps l x y = ground (arith, o.cmp_swap x.infimum y.infimum)

    -- Above level 0, a saved level is in ascending order of the infima if the base level was,
    -- whatever the order in which the edit lists its files.
    pub save_level-Ordered :
        (b : VersionBuilder K) (added base : List (TableFileMeta K))
        → 0 < level
        → Ordered (compare_level_files level) base
        → Ordered (compare_level_files level) (save_level b level added base)
    unfolding save_level
    save_level-Ordered b added base l h = map-Ordered b.mark_compacted _ l (
        keep-Ordered (λ f. not (listed level f.file_ref b.deleted)) l _
          (merge-Ordered (compare_level_files level) _ base (compare-Swaps l)
            (sort-Ordered (compare_level_files level) added (compare-Swaps l)) h))
