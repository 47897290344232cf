-- ===== src/Bytes.antt =====
-- The crates `byteorder`, `integer_encoding` and `bincode`, as interfaces: numbers as bytes.
use hybridmvcc.Base.{Option, some, ℕ, ◌^◌, ◌<◌, List, ◌++◌, ◌≡◌, length}

-- Little-endian words, read from the front of a slice.
pub record ByteOrder : Type 0 where
  pub write_u16 : ℕ → List ℕ
  pub read_u16 : List ℕ → ℕ
  pub write_u32 : ℕ → List ℕ
  pub read_u32 : List ℕ → ℕ
  pub write_u64 : ℕ → List ℕ
  pub read_u64 : List ℕ → ℕ

pub record IsByteOrder (b : ByteOrder) : Type 0 where
  pub u16_width : (n : ℕ) → length (b.write_u16 n) ≡ 2
  pub u16_back : (n : ℕ) (rest : List ℕ) → n < 2 ^ 16 → b.read_u16 (b.write_u16 n ++ rest) ≡ n
  pub u32_width : (n : ℕ) → length (b.write_u32 n) ≡ 4
  pub u32_back : (n : ℕ) (rest : List ℕ) → n < 2 ^ 32 → b.read_u32 (b.write_u32 n ++ rest) ≡ n
  pub u64_width : (n : ℕ) → length (b.write_u64 n) ≡ 8
  pub u64_back : (n : ℕ) (rest : List ℕ) → n < 2 ^ 64 → b.read_u64 (b.write_u64 n ++ rest) ≡ n

-- Numbers of variable width: `decode_var` answers the number and how many bytes it took.
pub record VarInt : Type 0 where
  pub encode_var : ℕ → List ℕ
  pub decode_var : List ℕ → ℕ × ℕ

pub record IsVarInt (v : VarInt) : Type 0 where
  pub var_back :
      (n : ℕ) (rest : List ℕ)
      → n < 2 ^ 64
      → v.decode_var (v.encode_var n ++ rest) ≡ (n, length (v.encode_var n))
  pub var_pos : (n : ℕ) → 0 < length (v.encode_var n)

-- `serialize` and `deserialize` of a type, or the bytes that it already is. A vector has less than
-- 2 ^ 64 bytes.
pub record Serializer (A : Type 0) : Type 0 where
  pub serialize : A → List ℕ
  pub deserialize : List ℕ → Option A

pub record IsSerializer {A : Type 0} (s : Serializer A) : Type 0 where
  pub read_back : (a : A) → s.deserialize (s.serialize a) ≡ some a
  pub bounded : (a : A) → length (s.serialize a) < 2 ^ 64
