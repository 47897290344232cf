-- ===== src/Table/BlockTable/Reader/Iterator.antt =====
-- `BlockTableIterator` of src/table/block_table.rs.
use hybridmvcc.Base.{
  ℕ, zero, suc, Bool, true, false, Option, none, some, List, Outcome, ok, err, panic, ◌>>=◌,
}
use hybridmvcc.Base.{then_with}
use hybridmvcc.Block.Data
use hybridmvcc.Block.Data.{DataBlockIterator, new_iterator, or_panic}
use hybridmvcc.Cache.{LruMap, CacheId, ShardedCache}
use hybridmvcc.MergingIter.{TableIterator}
use hybridmvcc.Table.BlockTable.{Format, ItemPointer}
use hybridmvcc.Table.BlockTable.Reader.{BlockTableReader, get_block}

module _ {K V : Type 0} (f : Format K V) {L : Type 0} (m : LruMap L (CacheId × ℕ) (List ℕ))
    (hash : CacheId × ℕ → ℕ) where
  -- The iterator with the cache that it reads through.
  pub record BlockTableIterator : Type 0 where
    pub table : BlockTableReader
    pub block_iter : Option DataBlockIterator
    pub index_iter : DataBlockIterator
    pub for_compaction : Bool
    pub cache : ShardedCache L

  unfoldable pub iter : BlockTableReader → Bool → ShardedCache L → Outcome BlockTableIterator
  iter table for_compaction cache = do
    index_iter ← new_iterator f.order table.index_block
    ok (record {
      table = table;
      block_iter = none;
      index_iter = index_iter;
      for_compaction = for_compaction;
      cache = cache;
    })

  unfoldable pub load_block :
      ItemPointer → BlockTableIterator → Outcome (Unit {0}) × BlockTableIterator
  load_block ptr it =
      let (block, cache) = get_block f m hash it.table ptr it.for_compaction it.cache in
      let it' : BlockTableIterator = record it { cache = cache } in
      elim (block >>= λ contents. new_iterator f.order contents) [
        | ok block_iter ↦ (ok tt, record it' { block_iter = some block_iter })
        | err e ↦ (err e, it')
        | panic ↦ (panic, it')
      ]

  unfoldable pub get_next_block : BlockTableIterator → Outcome Bool × BlockTableIterator
  get_next_block it = elim (Data.next f.varint it.index_iter) [
    | err e ↦ (err e, it)
    | panic ↦ (panic, it)
    | ok (none, index_iter) ↦ (ok false, record it { index_iter = index_iter })
    | ok (some (key, ptr), index_iter) ↦
        let it' : BlockTableIterator = record it { index_iter = index_iter } in
        then_with (or_panic (f.pointers.deserialize ptr), it')
          λ ptr it. then_with (load_block ptr it) λ _ it. (ok true, it)
  ]

  unfoldable pub deserialize_pair : List ℕ × List ℕ → Outcome (K × V)
  deserialize_pair (key_buf, value_buf) = do
    key ← or_panic (f.keys.deserialize key_buf)
    value ← or_panic (f.values.deserialize value_buf)
    ok (key, value)

  -- Each call of `next` of itself follows a step of the index, so one more than its entries is
  -- fuel enough.
  unfoldable pub next : ℕ → BlockTableIterator → Outcome (Option (K × V)) × BlockTableIterator
  next zero it = (panic, it)
  next (suc fuel) it = elim it.block_iter [
    | none ↦
        then_with (get_next_block it)
          λ more it'. elim more [ true ↦ next fuel it' | false ↦ (ok none, it') ]
    | some block_iter ↦ elim (Data.next f.varint block_iter) [
      | err e ↦ (err e, it)
      | panic ↦ (panic, it)
      | ok (some pair, block_iter') ↦ (
        (do pair' ← deserialize_pair pair; ok (some pair')),
        record it { block_iter = some block_iter' },
      )
      | ok (none, block_iter') ↦
          then_with (get_next_block (record it { block_iter = none }))
            λ more it'. elim more [ true ↦ next fuel it' | false ↦ (ok none, it') ]
    ]
  ]

  -- The iterator for a merge. `reset` and `seek` of a table do nothing.
  unfoldable pub table_iterator : ℕ → TableIterator K V BlockTableIterator
  table_iterator fuel = record {
    next_pair = next fuel;
    reset_iter = λ it. it;
    seek_iter = λ key it. it;
  }
