-- ===== src/Table/BlockTable.antt =====
-- src/table/block_table.rs and src/block/index.rs: table files of blocks.
pub mod Builder
pub mod Reader
pub mod RoundTrip
use hybridmvcc.Base.{
  ℕ, zero, suc, ◌+◌, ◌-◌, ◌*◌, ◌/◌, ◌%◌, ◌^◌, ◌<◌, ◌≤◌, Bool, true, false, not, ◌&&◌, ◌||◌, Option,
  none, some, List, [], ◌∷◌, ◌++◌, ◌==◌, Outcome, ok, err, panic, ◌≡◌, ◌≢◌, ◌⊎◌, ◌↔◌, inl, inr,
  refl, sym, ap, ◌∙◌, arith, All, Ordering, if◌then◌else◌, Ord, key_eq, key_lt, Bool-cases,
  Option-cases, ◌>>=◌, ltb, leb, length, take, drop, is_lt, is_eq, is_gt, compare, min,
}
use hybridmvcc.Bytes.{ByteOrder, VarInt, Serializer}

-- `BLOCK_TABLE_MAGIC_NUMBER`, `BLOCK_TRAILER_LENGTH` and `TABLE_FOOTER_LENGTH`
abbrev pub magic_number : ℕ
magic_number = 0xb10cba5e

abbrev pub trailer_length : ℕ
trailer_length = 4

abbrev pub footer_length : ℕ
footer_length = 40

pub record ItemPointer : Type 0 where
  pub offset : ℕ
  pub length : ℕ

pub record TableFooter : Type 0 where
  pub index_ptr : ItemPointer
  pub filter_ptr : Option ItemPointer

-- What the format takes from other crates; `hash64` is the filter's.
pub record Format (K V : Type 0) : Type 0 where
  pub order : ByteOrder
  pub varint : VarInt
  pub crc32 : List ℕ → ℕ
  pub hash64 : List ℕ → ℕ
  pub pointers : Serializer ItemPointer
  pub keys : Serializer K
  pub values : Serializer V
