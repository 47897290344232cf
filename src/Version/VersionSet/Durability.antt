-- ===== src/Version/VersionSet/Durability.antt =====
-- A version is installed only when its checkpoint is durable, and the checkpoint rebuilds it.
use hybridmvcc.Version.Compaction.{calculate_compaction_score}
use hybridmvcc.Timestamp.{cmp}
use hybridmvcc.Base.{
  some, sym, ap, ◌∙◌, Outcome-cases, false, ok, ◌≡◌, ◌≢◌, inl, inr, arith, Ord, is_lt,
}
use hybridmvcc.Wal.Records.{LogPointer, CheckpointLog}
use hybridmvcc.Version.{new_version, Version, VersionEdit}
use hybridmvcc.Version.VersionSet.{
  set_next_file_number, set_current, min_xip_of, edited, VersionSet, Durable, log_and_apply,
  new_version_set, installed, prepare, persist, recover,
}

module _ {K : Type 0} ⦃o : Ord K⦄ where
  -- A prepared version has the scores of its own files, and the record has its files.
  prepare-files :
      (vset : VersionSet K) (edit : VersionEdit K) (rp : LogPointer) (checkpoint : CheckpointLog K)
      (version : Version K)
      → prepare vset edit rp ≡ ok (checkpoint, version)
      → (version ≡ calculate_compaction_score vset.options version)
        × (checkpoint ≡ record {
          min_xip = min_xip_of vset edit;
          min_recovery_point = rp;
          next_file_num = vset.next_file_num;
          file_set = version.files;
        })
        × (is_lt (cmp checkpoint.min_xip vset.min_xip) ≡ false)
  unfolding prepare edited calculate_compaction_score
  prepare-files vset edit rp checkpoint version h = ground arith

module _ {K : Type 0} ⦃o : Ord K⦄ (d : Durable K) where
  -- The checkpoint is on disk: its record is appended, the log is flushed up to the end of the
  -- record, and then the manifest is written with the place of the record.
  abbrev pub MadeDurable : CheckpointLog K → d.Disk → d.Disk → Type 0
  MadeDurable checkpoint disk disk' =
      (start : LogPointer) × (end : LogPointer) × (disk1 : d.Disk) × (disk2 : d.Disk)
      × (d.append_checkpoint checkpoint disk ≡ (ok (start, end), disk1))
      × (d.flush (some end) disk1 ≡ (ok tt, disk2))
      × (d.create_checkpoint checkpoint.min_xip start disk2 ≡ (ok tt, disk'))

  persist-MadeDurable :
      (checkpoint : CheckpointLog K) (disk disk' : d.Disk)
      → persist d checkpoint disk ≡ (ok tt, disk')
      → MadeDurable checkpoint disk disk'
  unfolding persist
  persist-MadeDurable checkpoint disk disk' h =
      let appended = d.append_checkpoint checkpoint disk in
      elim (Outcome-cases appended.0) [
        | inl ((start, end), a) ↦
            let flushed = d.flush (some end) appended.1 in
            elim (Outcome-cases flushed.0) [
              | inl (u, f) ↦ (
                start,
                end,
                appended.1,
                flushed.1,
                ap (λ x. (x, appended.1)) a,
                ap (λ x. (x, flushed.1)) f,
                ground (arith, a, f, h),
              )
              | inr (inl (c, f)) ↦ absurd (ground (arith, a, f, ap (λ x. x.0) h))
              | inr (inr f) ↦ absurd (ground (arith, a, f, ap (λ x. x.0) h))
            ]
        | inr (inl (c, a)) ↦ absurd (ground (arith, a, ap (λ x. x.0) h))
        | inr (inr a) ↦ absurd (ground (arith, a, ap (λ x. x.0) h))
      ]

  MadeDurable-persist :
      (checkpoint : CheckpointLog K) (disk disk' : d.Disk)
      → MadeDurable checkpoint disk disk'
      → persist d checkpoint disk ≡ (ok tt, disk')
  unfolding persist
  MadeDurable-persist checkpoint disk disk' (start, end, disk1, disk2, a, f, c) =
      ground (arith, a, f, c)

module _ {K : Type 0} ⦃o : Ord K⦄ (d : Durable K) (vset : VersionSet K) (edit : VersionEdit K)
    (rp : LogPointer) (disk : d.Disk) where
  -- What a recovery finds is what was installed, but for the mark of a running level-0 compaction.
  reopened :
      (checkpoint : CheckpointLog K) (version : Version K)
      → prepare vset edit rp ≡ ok (checkpoint, version)
      → recover (new_version_set vset.options) checkpoint
        ≡ record (installed vset checkpoint version) { level0_compactions_in_progress = false }
  unfolding new_version_set recover set_current set_next_file_number calculate_compaction_score
      new_version
  reopened checkpoint version e =
      let (files, c, m) = prepare-files vset edit rp checkpoint version e in
      ground (arith, files, c)

  log_and_apply-succeeds :
      (checkpoint : CheckpointLog K) (version : Version K) (disk' : d.Disk)
      → prepare vset edit rp ≡ ok (checkpoint, version)
      → persist d checkpoint disk ≡ (ok tt, disk')
      → (log_and_apply d vset edit rp disk).0 ≡ ok tt
  unfolding log_and_apply
  log_and_apply-succeeds checkpoint version disk' e p = ground (arith, e, p)

  log_and_apply-ok :
      (log_and_apply d vset edit rp disk).0 ≡ ok tt
      → (checkpoint : CheckpointLog K) × (version : Version K) × (prepare vset edit rp
          ≡ ok (checkpoint, version))
        × (persist d checkpoint disk ≡ (ok tt, (log_and_apply d vset edit rp disk).2))
        × ((log_and_apply d vset edit rp disk).1 ≡ installed vset checkpoint version)
  unfolding log_and_apply
  log_and_apply-ok h = elim (Outcome-cases (prepare vset edit rp)) [
    | inl ((checkpoint, version), e) ↦ elim (Outcome-cases (persist d checkpoint disk).0) [
      | inl (u, p) ↦ (
        checkpoint,
        version,
        e,
        ap (λ done. (done, (persist d checkpoint disk).1)) p
            ∙ ap (λ disk'. (ok tt, disk')) (ground (arith, e, p)),
        ground (arith, e, p),
      )
      | inr (inl (c, p)) ↦ absurd (ground (arith, e, p))
      | inr (inr p) ↦ absurd (ground (arith, e, p))
    ]
    | inr (inl (c, e)) ↦ absurd (ground (arith, e))
    | inr (inr e) ↦ absurd (ground (arith, e))
  ]

  log_and_apply-not_ok :
      (log_and_apply d vset edit rp disk).0 ≢ ok tt → (log_and_apply d vset edit rp disk).1 ≡ vset
  unfolding log_and_apply
  log_and_apply-not_ok h = elim (Outcome-cases (prepare vset edit rp)) [
    | inl ((checkpoint, version), e) ↦ elim (Outcome-cases (persist d checkpoint disk).0) [
      | inl (u, p) ↦ absurd (h (ground (arith, e, p)))
      | inr (inl (c, p)) ↦ ground (arith, e, p)
      | inr (inr p) ↦ ground (arith, e, p)
    ]
    | inr (inl (c, e)) ↦ ground (arith, e)
    | inr (inr e) ↦ ground (arith, e)
  ]

  -- `log_and_apply` succeeds when the new version is prepared and its checkpoint can be made
  -- durable: the record appended, the log flushed up to its end and the manifest written with its
  -- place. When it succeeds, all this has been done, in this order; a recovery of a new, empty
  -- version set with the same options from that checkpoint rebuilds the version set that was
  -- installed, but for the mark of a running level-0 compaction, which is off; and `min_xip` has
  -- not gone back. When it fails or panics, the version set is as it was.
  pub log_and_apply-recover :
      ((checkpoint : CheckpointLog K) (version : Version K) (disk' : d.Disk)
        → prepare vset edit rp ≡ ok (checkpoint, version)
        → MadeDurable d checkpoint disk disk'
        → (log_and_apply d vset edit rp disk).0 ≡ ok tt)
      × ((log_and_apply d vset edit rp disk).0 ≡ ok tt
          → (checkpoint : CheckpointLog K) × (version : Version K) × (prepare vset edit rp
              ≡ ok (checkpoint, version))
            × MadeDurable d checkpoint disk (log_and_apply d vset edit rp disk).2
            × (recover (new_version_set vset.options) checkpoint
                ≡ record (log_and_apply d vset edit rp disk).1 {
                  level0_compactions_in_progress = false;
                })
            × (is_lt (cmp checkpoint.min_xip vset.min_xip) ≡ false))
      × ((log_and_apply d vset edit rp disk).0 ≢ ok tt
          → (log_and_apply d vset edit rp disk).1 ≡ vset)
  log_and_apply-recover = (
    λ checkpoint version disk' e durable.
        log_and_apply-succeeds checkpoint version disk' e
          (MadeDurable-persist d checkpoint disk disk' durable),
    λ h.
        let (checkpoint, version, e, p, i) = log_and_apply-ok h in
        (
          checkpoint,
          version,
          e,
          persist-MadeDurable d checkpoint disk _ p,
          reopened checkpoint version e
              ∙ ap (λ (v : VersionSet K). record v { level0_compactions_in_progress = false })
                  (sym i),
          (prepare-files vset edit rp checkpoint version e).2,
        ),
    log_and_apply-not_ok,
  )
