-- ===== src/Tests/Blocks.antt =====
-- Blocks with simple codecs.
use hybridmvcc.Base.{slice, some, List, [], ◌∷◌, ok, ◌≡◌, refl, arith, ◌>>=◌, compare}
use hybridmvcc.Bytes.{ByteOrder, IsByteOrder, VarInt, IsVarInt}
use hybridmvcc.Block.Data.{
  new_iterator, read_all, seal, add, new_builder, entry_bytes, restart_due, seek, current,
  shared_prefix, restart_bytes, num_restarts, next, next_entry, assemble_key, decode_at, reset,
  get_restart_offset, seek_loop, seek_to_restart, scan_to,
}
use hybridmvcc.Block.Data.Iteration.{Entry, add_all, read-seal}

-- One number of the list stands for a whole word.
abbrev pub words : ByteOrder
words = record {
  write_u16 = λ n. n ∷ 0 ∷ [];
  read_u16 = λ bytes. elim bytes [ [] ↦ 0 | b ∷ rest ↦ b ];
  write_u32 = λ n. n ∷ 0 ∷ 0 ∷ 0 ∷ [];
  read_u32 = λ bytes. elim bytes [ [] ↦ 0 | b ∷ rest ↦ b ];
  write_u64 = λ n. n ∷ 0 ∷ 0 ∷ 0 ∷ 0 ∷ 0 ∷ 0 ∷ 0 ∷ [];
  read_u64 = λ bytes. elim bytes [ [] ↦ 0 | b ∷ rest ↦ b ];
}

pub words-IsByteOrder : IsByteOrder words
words-IsByteOrder = record {
  u16_width = λ n. omega arith;
  u16_back = λ n rest h. refl;
  u32_width = λ n. omega arith;
  u32_back = λ n rest h. refl;
  u64_width = λ n. omega arith;
  u64_back = λ n rest h. refl;
}

abbrev pub varint : VarInt
varint = record {
  encode_var = λ n. n ∷ [];
  decode_var = λ bytes. elim bytes [ [] ↦ (0, 0) | b ∷ rest ↦ (b, 1) ];
}

pub varint-IsVarInt : IsVarInt varint
varint-IsVarInt = record { var_back = λ n rest h. refl; var_pos = λ n. omega arith }

abbrev entries : List Entry
entries =
    (1 ∷ 2 ∷ [], 7 ∷ []) ∷ (1 ∷ 2 ∷ 3 ∷ [], 8 ∷ []) ∷ (1 ∷ 4 ∷ [], 9 ∷ 9 ∷ []) ∷ (5 ∷ [], []) ∷ []

read-seal_example :
    (new_iterator words (seal words (add_all varint varint-IsVarInt (new_builder 2) entries)).0
      >>= λ it. read_all varint 5 it)
    ≡ ok entries
unfolding add restart_due new_builder
read-seal_example =
    read-seal words varint words-IsByteOrder varint-IsVarInt 2 entries (ground arith) (omega arith)

-- `seek` stops behind the first entry that is not below the key.
seek_runs :
    (do
      it ←
          new_iterator words (seal words (add_all varint varint-IsVarInt (new_builder 2) entries)).0
      found ← seek varint words (λ a b. compare (shared_prefix a (1 ∷ 4 ∷ [])) 2) it (1 ∷ 4 ∷ [])
      current found)
    ≡ ok (some (1 ∷ 4 ∷ [], 9 ∷ 9 ∷ []))
unfolding new_iterator num_restarts seal add restart_due new_builder entry_bytes restart_bytes
    shared_prefix seek seek_loop seek_to_restart scan_to next next_entry assemble_key decode_at
    get_restart_offset reset current slice
seek_runs = refl
