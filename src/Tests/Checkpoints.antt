-- ===== src/Tests/Checkpoints.antt =====
-- The manifest with a simple codec.
use hybridmvcc.Base.{
  ℕ, zero, suc, ◌%◌, ◌^◌, Option, none, some, List, [], ◌∷◌, ok, ◌≡◌, refl, arith, length,
}
use hybridmvcc.Wal.Checkpoint.{
  Manifest, Codec, absent, written, CheckpointManager, create_checkpoint, open_manager, DbState,
  shutdowned, shutdowning, in_crash_recovery, in_production, default_manifest,
}
use hybridmvcc.Wal.Checkpoint.Reopen.{IsCodec, Fits, create_checkpoint-reopen}

abbrev state_code : DbState → ℕ
state_code shutdowned = 0
state_code shutdowning = 1
state_code in_crash_recovery = 2
state_code in_production = 3

abbrev state_of : ℕ → DbState
state_of zero = shutdowned
state_of (suc zero) = shutdowning
state_of (suc (suc zero)) = in_crash_recovery
state_of (suc (suc (suc n))) = in_production

abbrev deserialize : List ℕ → Option Manifest
deserialize (s ∷ last ∷ prev ∷ min_xip ∷ time ∷ []) = some (record {
  db_state = state_of s;
  last_checkpoint_pos = last;
  prev_checkpoint_pos = prev;
  min_xip = min_xip;
  time = time;
})
deserialize _ = none

abbrev codec : Codec
codec = record {
  serialize = λ m.
      state_code m.db_state
      ∷ m.last_checkpoint_pos
      ∷ m.prev_checkpoint_pos
      ∷ m.min_xip
      ∷ m.time
      ∷ [];
  deserialize = deserialize;
  crc32 = λ bytes. length bytes % 2 ^ 32;
  write_u32 = λ n. n ∷ 0 ∷ 0 ∷ 0 ∷ [];
  read_u32 = λ bytes. elim bytes [ [] ↦ 0 | b ∷ rest ↦ b ];
}

state_back : (s : DbState) → state_of (state_code s) ≡ s
state_back shutdowned = refl
state_back shutdowning = refl
state_back in_crash_recovery = refl
state_back in_production = refl

codec-IsCodec : IsCodec codec 5
codec-IsCodec = record {
  read_back = λ m. rw (state_back m.db_state) refl;
  width = λ m. omega arith;
  crc_word = λ bytes. omega arith;
  word_back = λ n h. refl;
  word_width = λ n. omega arith;
}

abbrev manager : CheckpointManager codec
manager = record { manifest_file = absent; manifest = default_manifest 0 }

create_checkpoint-reopen_example :
    ((create_checkpoint codec 100 written 7 40 manager).0 ≡ ok tt)
    × ((create_checkpoint codec 100 written 7 40 manager).1.manifest ≡ record {
      db_state = shutdowned;
      last_checkpoint_pos = 40;
      prev_checkpoint_pos = 0;
      min_xip = 7;
      time = 100;
    })
    × Fits codec 5 codec-IsCodec (create_checkpoint codec 100 written 7 40 manager).1.manifest_file
    × (open_manager codec 200 written
          (create_checkpoint codec 100 written 7 40 manager).1.manifest_file
        ≡ (ok tt, (create_checkpoint codec 100 written 7 40 manager).1))
unfolding default_manifest
create_checkpoint-reopen_example =
    create_checkpoint-reopen codec 5 codec-IsCodec manager 100 200 written 7 40 tt
