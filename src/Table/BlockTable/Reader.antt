-- ===== src/Table/BlockTable/Reader.antt =====
-- `BlockTableReader` of src/table/block_table.rs. The file is a sequence of
-- bytes, as `RandomAccess` of src/utils/random_access.rs reads it.
pub mod Lookup
pub mod Iterator
pub mod Footer
pub mod Opening
pub mod Blocks
pub mod Iteration
use hybridmvcc.MergingIter.{TableIterator}
use hybridmvcc.Base.{
  ℕ, zero, suc, ◌+◌, ◌-◌, ◌%◌, ◌^◌, Bool, true, false, Option, none, some, List, ◌++◌, ◌==◌,
  Outcome, ok, err, panic, Ordering, if◌then◌else◌, ◌>>=◌, ltb, length, take, drop, is_eq, is_gt,
}
use hybridmvcc.Base.{data_corrupted, then_with, replicate}
use hybridmvcc.Block.Data.{DataBlockIterator, new_iterator, or_panic}
use hybridmvcc.Block.Data
use hybridmvcc.Block.Filter.{key_may_match}
use hybridmvcc.Cache.{LruMap, CacheId, ShardedCache, get_cache_id}
use hybridmvcc.Cache
use hybridmvcc.Table.BlockTable.{
  Format, ItemPointer, TableFooter, magic_number, trailer_length, footer_length,
}

-- `read_at` into a buffer of zeros: what the file does not have stays zero, and the number of
-- bytes read is not looked at.
unfoldable pub read_at : List ℕ → ℕ → ℕ → List ℕ
read_at file len off = let got = take len (drop off file) in got ++ replicate (len - length got) 0

pub record BlockTableReader : Type 0 where
  pub reader : List ℕ
  pub index_block : List ℕ
  pub filter_reader : Option (List ℕ)
  pub cache_id : CacheId

module _ {K V : Type 0} (f : Format K V) where
  -- The footer without its checksum, as it was read.
  unfoldable pub parse_footer : List ℕ → Outcome TableFooter
  parse_footer footer =
      let e = f.order in
      let filter_length = e.read_u64 (drop 28 footer) in
      if e.read_u32 footer == magic_number
      then ok (record {
        index_ptr = record {
          offset = e.read_u64 (drop 4 footer);
          length = e.read_u64 (drop 12 footer);
        };
        filter_ptr =
            if ltb 0 filter_length
            then some (record { offset = e.read_u64 (drop 20 footer); length = filter_length })
            else none;
      })
      else err data_corrupted

  -- A file that is shorter than a footer makes the subtraction of the lengths panic.
  unfoldable pub read_footer : List ℕ → Outcome TableFooter
  read_footer file =
      let buf = read_at file footer_length (length file - footer_length) in
      let footer = take (footer_length - 4) buf in
      let crc_file = f.order.read_u32 (drop (footer_length - 4) buf) in
      if ltb (length file) footer_length
      then panic
      else if f.crc32 footer % 2 ^ 32 == crc_file
      then parse_footer footer
      else err data_corrupted

  unfoldable pub read_block : List ℕ → ItemPointer → Outcome (List ℕ)
  read_block file ptr =
      let buf = read_at file (ptr.length + trailer_length) ptr.offset in
      let contents = take ptr.length buf in
      let crc_file = f.order.read_u32 (drop ptr.length buf) in
      if f.crc32 contents % 2 ^ 32 == crc_file then ok contents else err data_corrupted

  unfoldable pub read_filter : List ℕ → Option ItemPointer → Outcome (Option (List ℕ))
  read_filter file none = ok none
  read_filter file (some ptr) = do block ← read_block file ptr; ok (some block)

  unfoldable pub open_table :
      {L : Type 0} → List ℕ → ShardedCache L → Outcome BlockTableReader × ShardedCache L
  open_table file cache =
      let (cache_id, cache') = get_cache_id cache in
      (
        (do
          footer ← read_footer file
          index_block ← read_block file footer.index_ptr
          filter ← read_filter file footer.filter_ptr
          ok (record {
            reader = file;
            index_block = index_block;
            filter_reader = filter;
            cache_id = cache_id;
          })),
        cache',
      )

  module _ {L : Type 0} (m : LruMap L (CacheId × ℕ) (List ℕ)) (hash : CacheId × ℕ → ℕ) where
    -- What a miss in the cache does.
    unfoldable pub load :
        BlockTableReader → ItemPointer → Bool → ShardedCache L → Outcome (List ℕ) × ShardedCache L
    load table ptr for_compaction cache = elim (read_block table.reader ptr) [
      | err e ↦ (err e, cache)
      | panic ↦ (panic, cache)
      | ok block ↦
          if for_compaction
          then (ok block, cache)
          else elim (Cache.insert m hash table.cache_id ptr.offset block cache) [
            | ok (old, cache') ↦ (ok block, cache')
            | err e ↦ (err e, cache)
            | panic ↦ (panic, cache)
          ]
    ]

    unfoldable pub get_block :
        BlockTableReader → ItemPointer → Bool → ShardedCache L → Outcome (List ℕ) × ShardedCache L
    get_block table ptr for_compaction cache =
        elim (Cache.get m hash table.cache_id ptr.offset cache) [
          | err e ↦ (err e, cache)
          | panic ↦ (panic, cache)
          | ok (some block, cache') ↦ (ok block, cache')
          | ok (none, cache') ↦ load table ptr for_compaction cache'
        ]
