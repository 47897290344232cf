-- ===== src/Wal/Checkpoint.antt =====
-- src/wal/checkpoint.rs: the manifest and the file that it is kept in.
pub mod Reopen
use hybridmvcc.Base.{
  wrong_object_type, io, data_corrupted, ℕ, zero, suc, ◌+◌, ◌-◌, ◌*◌, ◌/◌, ◌%◌, ◌^◌, ◌<◌, ◌≤◌, Bool,
  true, false, not, ◌&&◌, ◌||◌, Option, none, some, List, [], ◌∷◌, ◌++◌, ◌==◌, Outcome, ok, err,
  panic, ◌≡◌, ◌≢◌, ◌⊎◌, ◌↔◌, inl, inr, refl, sym, ap, ◌∙◌, arith, All, Ordering, if◌then◌else◌, Ord,
  key_eq, key_lt, Bool-cases, Option-cases, ◌>>=◌, ltb, leb, length, take, drop, is_lt, is_eq,
  is_gt, compare, min,
}
use hybridmvcc.Base.{Error}
use hybridmvcc.Timestamp.{Timestamp}
use hybridmvcc.Wal.Records.{LogPointer}

pub data DbState : Type 0 where
  shutdowned shutdowning in_crash_recovery in_production : DbState

pub record Manifest : Type 0 where
  pub db_state : DbState
  pub last_checkpoint_pos : LogPointer
  pub prev_checkpoint_pos : LogPointer
  pub min_xip : Timestamp
  pub time : ℕ

-- `Manifest::default`, with what `SystemTime::now` answers.
unfoldable pub default_manifest : ℕ → Manifest
default_manifest now = record {
  db_state = shutdowned;
  last_checkpoint_pos = 0;
  prev_checkpoint_pos = 0;
  min_xip = 0;
  time = now;
}

-- What stands under the path of the manifest; a file is its bytes.
pub data FileState : Type 0 where
  absent other_object : FileState
  regular : List ℕ → FileState

-- How a write ends: the file may fail to open, and `write_all` may fail after some of the bytes.
pub data WriteEnd : Type 0 where
  written not_opened : WriteEnd
  failed_after : ℕ → WriteEnd

-- The libraries for bytes: bincode, crc32fast and byteorder.
pub record Codec : Type 0 where
  pub serialize : Manifest → List ℕ
  pub deserialize : List ℕ → Option Manifest
  pub crc32 : List ℕ → ℕ
  pub write_u32 : ℕ → List ℕ
  pub read_u32 : List ℕ → ℕ

-- The file is opened without truncation, so what is written covers the first bytes only.
unfoldable pub overwrite : List ℕ → List ℕ → List ℕ
overwrite new old = new ++ drop (length new) old

abbrev pub bytes_of : FileState → List ℕ
bytes_of (regular bytes) = bytes
bytes_of absent = []
bytes_of other_object = []

unfoldable pub write_file : WriteEnd → List ℕ → FileState → Outcome (Unit {0}) × FileState
write_file end bytes other_object = (err io, other_object)
write_file not_opened bytes file = (err io, file)
write_file written bytes file = (ok tt, regular (overwrite bytes (bytes_of file)))
write_file (failed_after n) bytes file =
    (err io, regular (overwrite (take n bytes) (bytes_of file)))

module _ (c : Codec) where
  -- `read_manifest` of a file that is there.
  unfoldable pub decode : List ℕ → Outcome Manifest
  decode buffer =
      let body = take (length buffer - 4) buffer in
      let crc_file = c.read_u32 (drop (length buffer - 4) buffer) in
      if ltb (length buffer) 4
      then err data_corrupted
      else if not (c.crc32 body == crc_file)
      then err data_corrupted
      else elim (c.deserialize body) [ none ↦ err data_corrupted | some m ↦ ok m ]

  unfoldable pub read_manifest_file : FileState → Outcome (Option Manifest)
  read_manifest_file absent = ok none
  read_manifest_file other_object = err wrong_object_type
  read_manifest_file (regular buffer) = do m ← decode buffer; ok (some m)

  unfoldable pub write_manifest : WriteEnd → Manifest → FileState → Outcome (Unit {0}) × FileState
  write_manifest end m file =
      let body = c.serialize m in write_file end (body ++ c.write_u32 (c.crc32 body)) file

  pub record CheckpointManager : Type 0 where
    pub manifest_file : FileState
    pub manifest : Manifest

  -- The manifest in memory is changed before it is written.
  unfoldable pub store_manifest :
      WriteEnd → Manifest → CheckpointManager → Outcome (Unit {0}) × CheckpointManager
  store_manifest end m mgr =
      let (done, file) = write_manifest end m mgr.manifest_file in
      (done, record { manifest_file = file; manifest = m })

  unfoldable pub create_checkpoint :
      ℕ
      → WriteEnd
      → Timestamp
      → LogPointer
      → CheckpointManager
      → Outcome (Unit {0}) × CheckpointManager
  create_checkpoint now end min_xip checkpoint mgr =
      let old = mgr.manifest in
      store_manifest end
        (record old {
          time = now;
          min_xip = min_xip;
          prev_checkpoint_pos = old.last_checkpoint_pos;
          last_checkpoint_pos = checkpoint;
        })
        mgr

  unfoldable pub set_db_state :
      ℕ → WriteEnd → DbState → CheckpointManager → Outcome (Unit {0}) × CheckpointManager
  set_db_state now end state mgr =
      let old = mgr.manifest in store_manifest end (record old { db_state = state; time = now }) mgr

  -- `read_manifest` of the manager: a missing file is written with the default.
  unfoldable pub read_manifest :
      ℕ → WriteEnd → CheckpointManager → Outcome (Unit {0}) × CheckpointManager
  read_manifest now end mgr =
      let file = mgr.manifest_file in
      let fresh = write_manifest end (default_manifest now) file in
      elim (read_manifest_file file) [
        | ok (some m) ↦ (ok tt, record mgr { manifest = m })
        | ok none ↦ elim fresh.0 [
          | ok _ ↦ (ok tt, record { manifest_file = fresh.1; manifest = default_manifest now })
          | err e ↦ (err e, record mgr { manifest_file = fresh.1 })
          | panic ↦ (panic, record mgr { manifest_file = fresh.1 })
        ]
        | err e ↦ (err e, mgr)
        | panic ↦ (panic, mgr)
      ]

  unfoldable pub open_manager : ℕ → WriteEnd → FileState → Outcome (Unit {0}) × CheckpointManager
  open_manager now end file =
      read_manifest now end (record { manifest_file = file; manifest = default_manifest now })
