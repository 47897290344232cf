-- ===== src/Version/VersionSet/Picking.antt =====
-- `pick_compaction`: what it picks is idle, and there is one compaction of level 0 at a time.
use hybridmvcc.Base.{
  exists_in, ℕ, suc, ◌<◌, Bool, true, false, ◌&&◌, some, List, [], ◌∷◌, ◌==◌, ok, ◌≡◌, inl, inr, ap,
  ◌∙◌, arith, if◌then◌else◌, Ord, Bool-cases, Option-cases,
}
use hybridmvcc.Base.{bind-ok}
use hybridmvcc.Table.{TableFileMeta}
use hybridmvcc.Version.{Version, Score, score_lt_one, new_edit}
use hybridmvcc.Version.Compaction.{Compaction, try_pick_files_to_compact}
use hybridmvcc.Version.Compaction.Inputs.{pick-idle}
use hybridmvcc.Version.VersionSet.{
  VersionSet, pick_level, pick_compaction, register_compaction, edited,
}

module _ {K : Type 0} ⦃o : Ord K⦄ where
  abbrev busy : TableFileMeta K → Bool
  busy f = f.being_compacted

  pick_level-idle :
      (busy0 : Bool) (v : Version K) (level : ℕ) (scores : List Score) (l : ℕ)
      (start out : List (TableFileMeta K))
      → pick_level busy0 v level scores ≡ ok (some (l, start, out))
      → (busy0 ≡ true → 0 < l) × (exists_in busy start ≡ false) × (exists_in busy out ≡ false)
  unfolding pick_level
  pick_level-idle busy0 v level [] l start out h = cc
  pick_level-idle busy0 v level (score ∷ rest) l start out h =
      let ih = pick_level-idle busy0 v (suc level) rest l start out in
      elim (Bool-cases (busy0 && level == 0)) [
        | inl e ↦ ih (rw e at h)
        | inr e ↦ elim (Bool-cases (score_lt_one score)) [
          | inl low ↦ ih (rw (e, low) at h)
          | inr high ↦
              let (picked, p, g) =
                bind-ok (try_pick_files_to_compact v level) _ (rw (e, high) at h) in
              elim (Option-cases picked) [
                | inl n ↦ ih (rw n at g)
                | inr ((s, t), n) ↦
                    let idle = pick-idle v level s t (p ∙ ap ok n) in
                    (
                      ground (arith, g, n, e),
                      ground (arith, g, n, idle),
                      ground (arith, g, n, idle),
                    )
              ]
        ]
      ]

  register-level0 :
      (vset vset' : VersionSet K) (c : Compaction K)
      → register_compaction vset c ≡ ok vset'
      → vset'.level0_compactions_in_progress
        ≡ (if c.level == 0 then true else vset.level0_compactions_in_progress)
  unfolding register_compaction
  register-level0 vset vset' c h =
      let (version, e, g) = bind-ok (edited vset _) _ h in ground (arith, g)

  -- A compaction that is picked has inputs none of which is being compacted. While a compaction of
  -- level 0 is in progress no other one of that level is picked, and picking one puts it in
  -- progress.
  pub pick_compaction_lem :
      (vset vset' : VersionSet K) (c : Compaction K)
      → pick_compaction vset ≡ ok (some c, vset')
      → (exists_in busy c.start_inputs ≡ false)
        × (exists_in busy c.output_inputs ≡ false)
        × (vset.level0_compactions_in_progress ≡ true → 0 < c.level)
        × (c.level ≡ 0 → vset'.level0_compactions_in_progress ≡ true)
        × (vset.level0_compactions_in_progress ≡ true → vset'.level0_compactions_in_progress ≡ true)
  unfolding pick_compaction
  pick_compaction_lem vset vset' c h =
      let (picked, p, g) = bind-ok (pick_level _ _ 0 _) _ h in
      elim (Option-cases picked) [
        | inl n ↦ absurd (ground (arith, g, n))
        | inr ((l, s, t), n) ↦
            let idle =
              pick_level-idle vset.level0_compactions_in_progress vset.current 0
                vset.current.compaction_score l s t (p ∙ ap ok n) in
            let made : Compaction K = record {
              level = l;
              start_inputs = s;
              output_inputs = t;
              edit = new_edit;
            } in
            let (vset2, r, k) = bind-ok (register_compaction vset made) _ (rw n at g) in
            let flag = register-level0 vset vset2 made r in
            (
              ground (arith, k, idle),
              ground (arith, k, idle),
              ground (arith, k, idle),
              ground (arith, k, flag),
              ground (arith, k, flag),
            )
      ]
