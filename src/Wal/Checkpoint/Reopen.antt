-- ===== src/Wal/Checkpoint/Reopen.antt =====
-- What a checkpoint has written is what a restart reads.
use hybridmvcc.Wal.Records.{LogPointer}
use hybridmvcc.Timestamp.{Timestamp}
use hybridmvcc.Base.{
  drop-append, append-nil, take-append, drop_past, length-append, length-append, ℕ, ◌+◌, ◌-◌, ◌^◌,
  ◌<◌, ◌≤◌, some, List, [], ◌++◌, ok, ◌≡◌, refl, ap, arith, length,
}
use hybridmvcc.Wal.Checkpoint.{
  other_object, absent, regular, DbState, written, set_db_state, read_manifest_file,
  create_checkpoint, write_file, read_manifest, WriteEnd, write_manifest, store_manifest, overwrite,
  open_manager, FileState, CheckpointManager, Manifest, Codec, decode,
}

-- What the libraries document: what is serialised is read back, a 32-bit number takes four bytes,
-- and a manifest, which has only fields of fixed width, always the same number of bytes.
pub record IsCodec (c : Codec) (size : ℕ) : Type 0 where
  pub read_back : (m : Manifest) → c.deserialize (c.serialize m) ≡ some m
  pub width : (m : Manifest) → length (c.serialize m) ≡ size
  pub crc_word : (bytes : List ℕ) → c.crc32 bytes < 2 ^ 32
  pub word_back : (n : ℕ) → n < 2 ^ 32 → c.read_u32 (c.write_u32 n) ≡ n
  pub word_width : (n : ℕ) → length (c.write_u32 n) ≡ 4

module _ (c : Codec) (size : ℕ) (laws : IsCodec c size) where
  abbrev encoded : Manifest → List ℕ
  encoded m = c.serialize m ++ c.write_u32 (c.crc32 (c.serialize m))

  length-encoded : (m : Manifest) → length (encoded m) ≡ size + 4
  length-encoded m = omega (
    arith,
    length-append (c.serialize m) (c.write_u32 (c.crc32 (c.serialize m))),
    laws.width m,
    laws.word_width (c.crc32 (c.serialize m)),
  )

  body_length : (m : Manifest) → length (encoded m) - 4 ≡ length (c.serialize m)
  body_length m = omega (arith, length-encoded m, laws.width m)

  decode-encoded : (m : Manifest) → decode c (encoded m) ≡ ok m
  unfolding decode
  decode-encoded m =
      rw
        (
          body_length m,
          take-append (c.serialize m) (c.write_u32 (c.crc32 (c.serialize m))),
          drop-append (c.serialize m) (c.write_u32 (c.crc32 (c.serialize m))),
          laws.word_back (c.crc32 (c.serialize m)) (laws.crc_word (c.serialize m)),
          laws.read_back m,
        )
        (ground (arith, length-encoded m))

  -- The file is absent or a regular file that is no longer than a manifest.
  abbrev pub Fits : FileState → Type 0
  Fits absent = Unit
  Fits other_object = ⊥
  Fits (regular bytes) = length bytes ≤ size + 4

  overwrite-encoded :
      (m : Manifest) (old : List ℕ) → length old ≤ size + 4 → overwrite (encoded m) old ≡ encoded m
  unfolding overwrite
  overwrite-encoded m old h =
      rw (drop_past (length (encoded m)) old (omega (arith, length-encoded m)))
        (append-nil (encoded m))

  write_manifest_lem :
      (m : Manifest) (file : FileState)
      → Fits file
      → write_manifest c written m file ≡ (ok tt, regular (encoded m))
  unfolding write_manifest write_file
  write_manifest_lem m absent h = rw (overwrite-encoded m [] (omega arith)) refl
  write_manifest_lem m other_object h = absurd h
  write_manifest_lem m (regular old) h = rw (overwrite-encoded m old h) refl

  read-encoded : (m : Manifest) → read_manifest_file c (regular (encoded m)) ≡ ok (some m)
  unfolding read_manifest_file
  read-encoded m = rw (read_manifest_file, decode-encoded m) refl

  reopen :
      (now : ℕ) (end : WriteEnd) (m : Manifest)
      → open_manager c now end (regular (encoded m))
        ≡ (ok tt, record { manifest_file = regular (encoded m); manifest = m })
  unfolding open_manager read_manifest
  reopen now end m = rw (open_manager, read_manifest, read-encoded m) refl

  store-reopen :
      (m : Manifest) (mgr : CheckpointManager c) (later : ℕ) (end : WriteEnd)
      → Fits mgr.manifest_file
      → ((store_manifest c written m mgr).0 ≡ ok tt)
        × ((store_manifest c written m mgr).1.manifest ≡ m)
        × Fits (store_manifest c written m mgr).1.manifest_file
        × (open_manager c later end (store_manifest c written m mgr).1.manifest_file
            ≡ (ok tt, (store_manifest c written m mgr).1))
  unfolding store_manifest
  store-reopen m mgr later end h =
      rw (write_manifest_lem m mgr.manifest_file h)
        (refl, refl, omega (arith, length-encoded m), reopen later end m)

  module _ (mgr : CheckpointManager c) (now later : ℕ) (end : WriteEnd) where
    -- On a manifest file that is absent or no longer than a manifest, `create_checkpoint` succeeds
    -- when the write does: the checkpoint becomes the last one, the last one the one before, and
    -- the database state stays. A restart, whenever it is, reads the manager's state back.
    pub create_checkpoint-reopen :
        (min_xip : Timestamp) (checkpoint : LogPointer)
        → Fits mgr.manifest_file
        → ((create_checkpoint c now written min_xip checkpoint mgr).0 ≡ ok tt)
          × ((create_checkpoint c now written min_xip checkpoint mgr).1.manifest ≡ record {
            db_state = mgr.manifest.db_state;
            last_checkpoint_pos = checkpoint;
            prev_checkpoint_pos = mgr.manifest.last_checkpoint_pos;
            min_xip = min_xip;
            time = now;
          })
          × Fits (create_checkpoint c now written min_xip checkpoint mgr).1.manifest_file
          × (open_manager c later end
                (create_checkpoint c now written min_xip checkpoint mgr).1.manifest_file
              ≡ (ok tt, (create_checkpoint c now written min_xip checkpoint mgr).1))
    unfolding create_checkpoint
    create_checkpoint-reopen min_xip checkpoint h = store-reopen _ mgr later end h

    -- On a manifest file that is absent or no longer than a manifest, `set_db_state` succeeds when
    -- the write does: the state is the new one and the checkpoints stay. A restart, whenever it
    -- is, reads the manager's state back.
    pub set_db_state-reopen :
        (state : DbState)
        → Fits mgr.manifest_file
        → ((set_db_state c now written state mgr).0 ≡ ok tt)
          × ((set_db_state c now written state mgr).1.manifest.db_state ≡ state)
          × ((set_db_state c now written state mgr).1.manifest.last_checkpoint_pos
              ≡ mgr.manifest.last_checkpoint_pos)
          × (open_manager c later end (set_db_state c now written state mgr).1.manifest_file
              ≡ (ok tt, (set_db_state c now written state mgr).1))
    unfolding set_db_state
    set_db_state-reopen state h =
        let (done, kept, fits, back) = store-reopen _ mgr later end h in
        (
          done,
          ap (λ (m : Manifest). m.db_state) kept,
          ap (λ (m : Manifest). m.last_checkpoint_pos) kept,
          back,
        )
