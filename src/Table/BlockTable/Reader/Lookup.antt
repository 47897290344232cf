-- ===== src/Table/BlockTable/Reader/Lookup.antt =====
-- `get` of a table of src/table/block_table.rs.
use hybridmvcc.Base.{
  ℕ, Bool, true, false, Option, none, some, List, Outcome, ok, Ordering, if◌then◌else◌, ◌>>=◌,
  is_eq, is_gt,
}
use hybridmvcc.Base.{then_with}
use hybridmvcc.Block.Data
use hybridmvcc.Block.Data.{DataBlockIterator, new_iterator, or_panic}
use hybridmvcc.Block.Filter.{key_may_match}
use hybridmvcc.Cache.{LruMap, CacheId, ShardedCache}
use hybridmvcc.Table.BlockTable.{Format, ItemPointer}
use hybridmvcc.Table.BlockTable.Reader.{BlockTableReader, get_block}

module _ {K V : Type 0} (f : Format K V) {L : Type 0} (m : LruMap L (CacheId × ℕ) (List ℕ))
    (hash : CacheId × ℕ → ℕ) where
  -- The order of keys under which blocks are searched, on their bytes; a key that does not
  -- deserialise panics, which the order of the model leaves to `get`.
  module _ (key_comp : List ℕ → List ℕ → Ordering) where
    -- The pointer of the block that a key is in, if any.
    unfoldable pub find_block : BlockTableReader → List ℕ → Outcome (Option ItemPointer)
    find_block table key_buf = do
      it ← new_iterator f.order table.index_block
      it' ← Data.seek f.varint f.order key_comp it key_buf
      found ← Data.current it'
      elim found [
        | none ↦ ok none
        | some (last_key, ptr) ↦
            if is_gt (key_comp key_buf last_key)
            then ok none
            else (do ptr' ← or_panic (f.pointers.deserialize ptr); ok (some ptr'))
      ]

    unfoldable pub find_value : List ℕ → List ℕ → Outcome (Option V)
    find_value block key_buf = do
      it ← new_iterator f.order block
      it' ← Data.seek f.varint f.order key_comp it key_buf
      found ← Data.current it'
      elim found [
        | none ↦ ok none
        | some (k, value_buf) ↦
            if is_eq (key_comp k key_buf)
            then (do value ← or_panic (f.values.deserialize value_buf); ok (some value))
            else ok none
      ]

    unfoldable pub get : BlockTableReader → K → ShardedCache L → Outcome (Option V) × ShardedCache L
    get table key cache =
        let key_buf = f.keys.serialize key in
        let may_match : Outcome Bool = elim table.filter_reader [
          | none ↦ ok true
          | some block ↦ key_may_match f.hash64 block key_buf
        ] in
        then_with (may_match, cache)
          λ may cache.
            if may
            then (then_with (find_block table key_buf, cache)
                λ found cache. elim found [
                  | none ↦ (ok none, cache)
                  | some ptr ↦
                      then_with (get_block f m hash table ptr false cache)
                        λ block cache'. (find_value block key_buf, cache')
                ])
            else (ok none, cache)
