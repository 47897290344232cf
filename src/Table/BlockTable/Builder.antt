-- ===== src/Table/BlockTable/Builder.antt =====
-- `BlockTableBuilder` of src/table/block_table.rs, with `BinarySearchIndexBuilder` of
-- src/block/index.rs, which is a block builder. `out` is the file written so far.
pub mod Blocks
pub mod Invariant
pub mod Flushes
pub mod Files
pub mod Sections
pub mod Finish
use hybridmvcc.Base.{
  ℕ, ◌+◌, ◌%◌, ◌^◌, Bool, Option, none, some, List, ◌++◌, ◌==◌, Outcome, ok, err, panic,
  if◌then◌else◌, ltb, length, take,
}
use hybridmvcc.Base.{io, then_with}
use hybridmvcc.Block.Data.{
  DataBlockBuilder, new_builder, builder_empty, full_len, reset_builder, seal,
}
use hybridmvcc.Block.Data
use hybridmvcc.Block.Filter.{FullFilterBlockBuilder, create_filter_block_builder, seal_filter}
use hybridmvcc.Block.Filter
use hybridmvcc.Wal.Segment.{Device}
use hybridmvcc.Table.BlockTable.{
  Format, ItemPointer, TableFooter, magic_number, trailer_length, footer_length,
}

pub record BlockTableBuilder (K : Type 0) : Type 0 where
  pub block_size : ℕ
  pub block_builder : DataBlockBuilder
  pub index_builder : DataBlockBuilder
  pub filter_builder : Option FullFilterBlockBuilder
  pub out : List ℕ
  pub out_offset : ℕ
  pub last_key : Option K

unfoldable pub new : {K : Type 0} → ℕ → ℕ → ℕ → List ℕ → BlockTableBuilder K
new block_size restart_interval millibits_per_key out = record {
  block_size = block_size;
  block_builder = new_builder restart_interval;
  index_builder = new_builder restart_interval;
  filter_builder = some (create_filter_block_builder millibits_per_key);
  out = out;
  out_offset = 0;
  last_key = none;
}

unfoldable pub need_flush : {K : Type 0} → BlockTableBuilder K → List ℕ → List ℕ → Bool
need_flush b key value = ltb b.block_size (full_len b.block_builder + length key + length value)

unfoldable pub size_hint : {K : Type 0} → BlockTableBuilder K → ℕ
size_hint b = b.out_offset + full_len b.block_builder + footer_length

abbrev pub or_zeros : Option ItemPointer → ItemPointer
or_zeros none = record { offset = 0; length = 0 }
or_zeros (some ptr) = ptr

module _ {K V : Type 0} (f : Format K V) where
  abbrev pub pointer_bytes : ItemPointer → List ℕ
  pointer_bytes ptr = f.order.write_u64 ptr.offset ++ f.order.write_u64 ptr.length

  -- The footer without its checksum; no filter is two zeros.
  unfoldable pub footer_bytes : TableFooter → List ℕ
  footer_bytes footer =
      f.order.write_u32 magic_number
      ++ (pointer_bytes footer.index_ptr ++ pointer_bytes (or_zeros footer.filter_ptr))

module _ {K V : Type 0} (f : Format K V) (device : Device) where
  -- `write_all`: all bytes, or an error after some of them.
  unfoldable pub write_all : List ℕ → BlockTableBuilder K → Outcome (Unit {0}) × BlockTableBuilder K
  write_all bytes b = elim (device b.out bytes) [
    | none ↦ (ok tt, record b { out = b.out ++ bytes })
    | some n ↦ (err io, record b { out = b.out ++ take n bytes })
  ]

  unfoldable pub write_block :
      List ℕ → BlockTableBuilder K → Outcome ItemPointer × BlockTableBuilder K
  write_block buf b =
      let crc = f.crc32 buf % 2 ^ 32 in
      then_with (write_all buf b) λ _ b1.
        let b2 : BlockTableBuilder K = record b1 { out_offset = b1.out_offset + length buf } in
        then_with (write_all (f.order.write_u32 crc) b2) λ _ b3.
          let b4 : BlockTableBuilder K = record b3 { out_offset = b3.out_offset + 4 } in
          (
            (if b.out_offset + length buf + trailer_length == b4.out_offset
                then ok (record { offset = b.out_offset; length = length buf })
                else panic),
            b4,
          )

  unfoldable pub flush : BlockTableBuilder K → Outcome (Option ItemPointer) × BlockTableBuilder K
  flush b =
      if builder_empty b.block_builder
      then (ok none, b)
      else let (buf, sealed) = seal f.order b.block_builder in
        then_with (write_block buf (record b { block_builder = reset_builder sealed }))
          λ ptr b'. (ok (some ptr), b')

  -- `add_item` of the index.
  unfoldable pub add_item : K → ItemPointer → DataBlockBuilder → DataBlockBuilder
  add_item key ptr index = Data.add f.varint index (f.keys.serialize key) (f.pointers.serialize ptr)

  -- A block that was flushed is entered under the last key.
  unfoldable pub index_last : Option ItemPointer → BlockTableBuilder K → BlockTableBuilder K
  index_last none b = b
  index_last (some ptr) b = elim b.last_key [
    | none ↦ b
    | some key ↦ record b { index_builder = add_item key ptr b.index_builder }
  ]

  -- The end of `add_raw`: the key goes to the filter, and the pair to the block.
  unfoldable pub push : List ℕ → List ℕ → BlockTableBuilder K → BlockTableBuilder K
  push key value b = record b {
    filter_builder = elim b.filter_builder [
      | none ↦ none
      | some filter ↦ some (Filter.add f.hash64 key filter)
    ];
    block_builder = Data.add f.varint b.block_builder key value;
  }

  -- The front of `add_raw`: a full block is flushed. `start_block` of the filter does nothing.
  unfoldable pub make_room :
      List ℕ → List ℕ → BlockTableBuilder K → Outcome (Option ItemPointer) × BlockTableBuilder K
  make_room key value b = if need_flush b key value then flush b else (ok none, b)

  unfoldable pub add_raw :
      List ℕ → List ℕ → BlockTableBuilder K → Outcome (Unit {0}) × BlockTableBuilder K
  add_raw key value b =
      then_with (make_room key value b) λ ptr b'. (ok tt, push key value (index_last ptr b'))

  unfoldable pub add : K → V → BlockTableBuilder K → Outcome (Unit {0}) × BlockTableBuilder K
  add key value b =
      then_with (add_raw (f.keys.serialize key) (f.values.serialize value) b)
        λ _ b'. (ok tt, record b' { last_key = some key })

  unfoldable pub write_toc :
      TableFooter → BlockTableBuilder K → Outcome (Unit {0}) × BlockTableBuilder K
  write_toc footer b =
      let body = footer_bytes f footer in
      let toc = body ++ f.order.write_u32 (f.crc32 body % 2 ^ 32) in
      then_with (write_all toc b) λ _ b'.
        if length toc == footer_length
        then (ok tt, record b' { out_offset = b'.out_offset + length toc })
        else (panic, b')

  -- The filter block of `finish`.
  unfoldable pub write_filter :
      BlockTableBuilder K → Outcome (Option ItemPointer) × BlockTableBuilder K
  write_filter b = elim b.filter_builder [
    | none ↦ (ok none, b)
    | some filter ↦ elim (seal_filter filter) [
      | ok (block, filter') ↦
          then_with (write_block block (record b { filter_builder = some filter' }))
            λ ptr b'. (ok (some ptr), b')
      | err e ↦ (err e, b)
      | panic ↦ (panic, b)
    ]
  ]

  unfoldable pub finish : BlockTableBuilder K → Outcome (Unit {0}) × BlockTableBuilder K
  finish b = then_with (flush b) λ ptr b1.
      then_with (write_filter (index_last ptr b1)) λ filter_ptr b2.
        let (index_block, index) = seal f.order b2.index_builder in
        then_with (write_block index_block (record b2 { index_builder = reset_builder index }))
          λ index_ptr b3. write_toc (record { index_ptr = index_ptr; filter_ptr = filter_ptr }) b3
