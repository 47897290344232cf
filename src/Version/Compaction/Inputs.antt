-- ===== src/Version/Compaction/Inputs.antt =====
-- The selection of a compaction's inputs ends, and takes no file that another compaction has.
use hybridmvcc.Version.Builder.{sort_by}
use hybridmvcc.Timestamp.{Timestamp}
use hybridmvcc.Base.{
  reverse, exists_in, keep, ℕ, zero, suc, ◌+◌, ◌<◌, ◌≤◌, Bool, false, some, List, [], ◌∷◌, Outcome,
  ok, err, panic, ◌≡◌, inl, inr, refl, ap, ◌∙◌, arith, Ord, Bool-cases, Option-cases, ◌>>=◌, leb,
  length,
}
use mathlib.Core.List.{reverse-append}
use hybridmvcc.Base.{length-append, Outcome-cases, bind-ok}
use hybridmvcc.Table.{TableFileMeta, TableFileSet}
use hybridmvcc.Version.{Version, files_at}
use hybridmvcc.Version.Compaction.{
  idle, pick_order, overlaps, max_min_xip, get_range, overlap_oldest, get_overlapping_inputs,
  expand_loop, expand_inputs, pick_loop, try_pick_files_to_compact,
}

length-keep : {A : Type 0} (p : A → Bool) (xs : List A) → length (keep p xs) ≤ length xs
length-keep p [] = omega arith
length-keep p (x ∷ xs) = ground (arith, length-keep p xs)

length-reverse : {A : Type 0} (xs : List A) → length (reverse xs) ≡ length xs
length-reverse [] = refl
length-reverse (x ∷ xs) =
    ap length (reverse-append (x ∷ []) xs)
    ∙ omega (arith, length-append (reverse xs) (x ∷ []), length-reverse xs)

module _ {K : Type 0} ⦃o : Ord K⦄ where
  length-overlap_oldest :
      (t : Timestamp) (i s : K) (fs : List (TableFileMeta K))
      → length (overlap_oldest t i s fs) ≤ length fs
  unfolding overlap_oldest
  length-overlap_oldest t i s [] = omega arith
  length-overlap_oldest t i s (f ∷ fs) = ground (arith, length-overlap_oldest t i s fs)

  -- No more files are selected than the level has.
  length-overlapping :
      (all : TableFileSet K) (level : ℕ) (prev files : List (TableFileMeta K)) (i s : K)
      → get_overlapping_inputs all level prev i s ≡ ok files
      → length files ≤ length (files_at all level)
  unfolding get_overlapping_inputs
  length-overlapping all level prev files i s h = elim (Option-cases (max_min_xip prev)) [
    | inl e ↦ ground (arith, e, length-keep (overlaps i s) (files_at all level))
    | inr (t, e) ↦ ground (
      arith,
      e,
      length-keep (overlaps i s) (files_at all level),
      length-reverse (overlap_oldest t i s (reverse (files_at all level))),
      length-overlap_oldest t i s (reverse (files_at all level)),
      length-reverse (files_at all level),
    )
  ]

  abbrev round : TableFileSet K → ℕ → List (TableFileMeta K) → Outcome (List (TableFileMeta K))
  round all level files = do
    (infimum, supremum) ← get_range level files
    get_overlapping_inputs all level files infimum supremum

  length-round :
      (all : TableFileSet K) (level : ℕ) (prev files : List (TableFileMeta K))
      → round all level prev ≡ ok files
      → length files ≤ length (files_at all level)
  length-round all level prev files h =
      let (r, e, g) = bind-ok (get_range level prev) _ h in
      length-overlapping all level prev files r.0 r.1 g

  -- The loop of `expand_inputs` ends on any fuel above 0 that, with the size of the selection, is
  -- above the number of files of the level: the fuel that `expand_inputs` gives is enough from any
  -- selection.
  pub expand_loop_total :
      (fuel : ℕ) (all : TableFileSet K) (level : ℕ) (files : List (TableFileMeta K))
      → 0 < fuel
      → suc (length (files_at all level)) ≤ fuel + length files
      → (r : Outcome (List (TableFileMeta K))) × (expand_loop fuel all level files ≡ some r)
  unfolding expand_loop
  expand_loop_total zero all level files z h = absurd (omega arith)
  expand_loop_total (suc fuel) all level [] z h = (ok [], refl)
  expand_loop_total (suc fuel) all level (f ∷ fs) z h =
      elim (Outcome-cases (round all level (f ∷ fs))) [
        | inl (files', e) ↦
            let bound = length-round all level (f ∷ fs) files' e in
            elim (Bool-cases (leb (length files') (length (f ∷ fs)))) [
              | inl stop ↦ (ok files', ground (arith, e, stop))
              | inr grow ↦
                  let (r, g) =
                    expand_loop_total fuel all level files' (ground arith) (ground arith) in
                  (r, ground (arith, e, grow, g))
            ]
        | inr (inl (c, e)) ↦ (err c, ground (arith, e))
        | inr (inr e) ↦ (panic, ground (arith, e))
      ]

  expand_inputs-idle :
      (all : TableFileSet K) (level : ℕ) (files out : List (TableFileMeta K))
      → expand_inputs all level files ≡ ok (some out)
      → exists_in (λ f. f.being_compacted) out ≡ false
  unfolding expand_inputs
  expand_inputs-idle all level files out h =
      let (r, e) =
        expand_loop_total (suc (suc (length (files_at all level)))) all level files (omega arith)
          (omega arith) in
      ground (arith, e, h)

  pick_loop-idle :
      (all : TableFileSet K) (level : ℕ) (fs start out : List (TableFileMeta K))
      → pick_loop all level fs ≡ ok (some (start, out))
      → (exists_in (λ f. f.being_compacted) start ≡ false)
        × (exists_in (λ f. f.being_compacted) out ≡ false)
  unfolding pick_loop
  pick_loop-idle all level [] start out h = cc
  pick_loop-idle all level (f ∷ rest) start out h =
      let ih = pick_loop-idle all level rest start out in
      let (picked, e, g) = bind-ok (expand_inputs all level (f ∷ [])) _ h in
      elim (Option-cases picked) [
        | inl n ↦ ground (arith, n, g, ih)
        | inr (start', n) ↦
            let (r, er, gr) = bind-ok (get_range level start') _ (rw n at g) in
            let (ov, eo, go) = bind-ok (get_overlapping_inputs all (suc level) [] r.0 r.1) _ gr in
            let (outs, es, gs) = bind-ok (expand_inputs all (suc level) ov) _ go in
            elim (Option-cases outs) [
              | inl m ↦ ground (arith, m, gs, ih)
              | inr (out', m) ↦ ground (
                arith,
                m,
                n,
                gs,
                expand_inputs-idle all level (f ∷ []) start',
                expand_inputs-idle all (suc level) ov out',
                e,
                es,
              )
            ]
      ]

  -- When files are picked for a compaction, neither the start files nor the output files are being
  -- compacted.
  pub pick-idle :
      (v : Version K) (level : ℕ) (start out : List (TableFileMeta K))
      → try_pick_files_to_compact v level ≡ ok (some (start, out))
      → (exists_in (λ f. f.being_compacted) start ≡ false)
        × (exists_in (λ f. f.being_compacted) out ≡ false)
  unfolding try_pick_files_to_compact
  pick-idle v level start out h = ground (
    arith,
    pick_loop-idle v.files level (sort_by (pick_order level) (keep idle (files_at v.files level)))
        start out,
  )
