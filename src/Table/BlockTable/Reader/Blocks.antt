-- ===== src/Table/BlockTable/Reader/Blocks.antt =====
-- Blocks read through the cache: what is found there is what the file has.
use hybridmvcc.Base.{
  none, Option, ℕ, ◌^◌, ◌<◌, Bool, true, false, some, List, ok, ◌≡◌, inl, inr, refl, sym, ◌∙◌,
  Option-cases, length,
}
use hybridmvcc.Block.Data.Iteration.{Small}
use hybridmvcc.Cache
use hybridmvcc.Cache.{ShardedCache, CacheId, LruMap, IsLruMap}
use hybridmvcc.Cache.Lookups.{Coherent, get-Coherent, insert-Coherent}
use hybridmvcc.Table.BlockTable.{ItemPointer, Format}
use hybridmvcc.Table.BlockTable.Builder.Blocks.{IsFormat, Stored, read_block_lem}
use hybridmvcc.Table.BlockTable.Builder.Invariant.{Placed, block_of, image, content_at}
use hybridmvcc.Table.BlockTable.Reader.{read_block, BlockTableReader, load, get_block}
use hybridmvcc.Table.BlockTable.Reader.Footer.{Fits}

module _ {K V L : Type 0} (f : Format K V) (laws : IsFormat f) (interval : ℕ)
    (m : LruMap L (CacheId × ℕ) (List ℕ)) (lru : IsLruMap m) (hash : CacheId × ℕ → ℕ)
    (table : BlockTableReader) (bs : List (Placed K)) where
  -- What the cache has under the table's id is what the pointers say.
  abbrev pub Good : CacheId → ℕ → List ℕ → Type 0
  Good id offset content = id ≡ table.cache_id → content_at f laws interval bs offset ≡ some content

  abbrev pub Cached : ShardedCache L → Type 0
  Cached cache = Coherent m lru hash Good cache

  -- A block that can be read, and that has entries.
  pub record Sound (x : Placed K) : Type 0 where
    pub stored : Stored f table.reader x.ptr (image f laws interval x.entries)
    pub found : content_at f laws interval bs x.ptr.offset ≡ some (image f laws interval x.entries)
    pub nonempty : 0 < length x.entries
    pub small : Small f.varint laws.varints x.entries
    pub few : length (block_of f laws interval x.entries).restarts < 2 ^ 32
    pub fits : Fits f laws x.ptr

  pub record Fetched (x : Placed K) (for_compaction : Bool) (cache : ShardedCache L) : Type 0 where
    pub after : ShardedCache L
    pub runs :
        get_block f m hash table x.ptr for_compaction cache
        ≡ (ok (image f laws interval x.entries), after)
    pub cached : Cached after

  record Loaded (x : Placed K) (for_compaction : Bool) (cache : ShardedCache L) : Type 0 where
    after : ShardedCache L
    runs :
        load f m hash table x.ptr for_compaction cache
        ≡ (ok (image f laws interval x.entries), after)
    cached : Cached after

  load_missed :
      (ptr : ItemPointer) (cache after : ShardedCache L) (content : List ℕ) (old : Option (List ℕ))
      → read_block f table.reader ptr ≡ ok content
      → Cache.insert m hash table.cache_id ptr.offset content cache ≡ ok (old, after)
      → load f m hash table ptr false cache ≡ (ok content, after)
  unfolding load
  load_missed ptr cache after content old reads put = rw (reads, put, load) refl

  load_lem :
      (x : Placed K) (for_compaction : Bool) (cache : ShardedCache L)
      → Sound x
      → Cached cache
      → Loaded x for_compaction cache
  unfolding load
  load_lem x true cache s h = record {
    after = cache;
    runs =
        rw
          (
            read_block_lem f laws table.reader x.ptr (image f laws interval x.entries) s.stored,
            load,
          )
          refl;
    cached = h;
  }
  load_lem x false cache s h =
      let content = image f laws interval x.entries in
      let (old, after, put, kept) =
        insert-Coherent m lru hash Good table.cache_id x.ptr.offset content cache h
          (λ e. s.found) in
      record {
        after = after;
        runs =
            load_missed x.ptr cache after content old
              (read_block_lem f laws table.reader x.ptr content s.stored) put;
        cached = kept;
      }

  get_block_miss :
      (ptr : ItemPointer) (for_compaction : Bool) (cache after : ShardedCache L)
      (found : Option (List ℕ))
      → Cache.get m hash table.cache_id ptr.offset cache ≡ ok (found, after)
      → found ≡ none
      → get_block f m hash table ptr for_compaction cache
        ≡ load f m hash table ptr for_compaction after
  unfolding get_block
  get_block_miss ptr for_compaction cache after found runs e = rw (runs, e, get_block) refl

  get_block_hit :
      (ptr : ItemPointer) (for_compaction : Bool) (cache after : ShardedCache L)
      (found : Option (List ℕ)) (content : List ℕ)
      → Cache.get m hash table.cache_id ptr.offset cache ≡ ok (found, after)
      → found ≡ some content
      → get_block f m hash table ptr for_compaction cache ≡ (ok content, after)
  unfolding get_block
  get_block_hit ptr for_compaction cache after found content runs e = rw (runs, e, get_block) refl

  pub get_block_lem :
      (x : Placed K) (for_compaction : Bool) (cache : ShardedCache L)
      → Sound x
      → Cached cache
      → Fetched x for_compaction cache
  get_block_lem x for_compaction cache s h =
      let (found, after, runs, kept, good) =
        get-Coherent m lru hash Good table.cache_id x.ptr.offset cache h in
      elim (Option-cases found) [
        | inl e ↦
            let l = load_lem x for_compaction after s kept in
            record {
              after = l.after;
              runs = get_block_miss x.ptr for_compaction cache after found runs e ∙ l.runs;
              cached = l.cached;
            }
        | inr (content, e) ↦ record {
          after = after;
          runs =
              get_block_hit x.ptr for_compaction cache after found (image f laws interval x.entries)
                runs (e ∙ sym (good content e refl) ∙ s.found);
          cached = kept;
        }
      ]
