-- ===== src/Table/BlockTable/RoundTrip.antt =====
-- A table file, from the pairs that it is built of to the pairs that its iterator gives.
use hybridmvcc.Block.Filter.Entries.{length-map}
use hybridmvcc.Base.{
  ℕ, suc, ◌+◌, ◌*◌, ◌%◌, ◌^◌, ◌<◌, ◌≤◌, Bool, none, some, List, [], ◌∷◌, ◌++◌, ok, ◌≡◌, inl, refl,
  sym, ap, ◌∙◌, arith, All, length,
}
use mathlib.Core.Path.{subst}
use hybridmvcc.Base.{map, length-append}
use hybridmvcc.Block.Data.{seal, restart_bytes}
use hybridmvcc.Block.Data.Iteration.{Entry, Small, seal-Gives, length-restart_bytes}
use hybridmvcc.Block.Filter.Membership.{seals_lem}
use hybridmvcc.Cache.{CacheId, LruMap, IsLruMap, ShardedCache}
use hybridmvcc.Cache.Lookups.{Held, Whole}
use hybridmvcc.MergingIter.Rows.{Yields}
use hybridmvcc.Wal.Segment.{Device}
use hybridmvcc.Wal.Segment.Pages.{Accepts}
use hybridmvcc.Table.BlockTable.{Format}
use hybridmvcc.Table.BlockTable.Builder.{BlockTableBuilder, new, add, finish}
use hybridmvcc.Table.BlockTable.Builder.Blocks.{IsFormat, Stored, entry}
use hybridmvcc.Table.BlockTable.Builder.Invariant.{
  map-append, Placed, entries_of, block_of, image, index_entry, content_at, Built,
}
use hybridmvcc.Table.BlockTable.Builder.Files.{add_lem}
use hybridmvcc.Table.BlockTable.Builder.Finish.{TableFile, finish_lem}
use hybridmvcc.Table.BlockTable.Reader.{BlockTableReader, open_table}
use hybridmvcc.Table.BlockTable.Reader.Iterator.{BlockTableIterator, iter, table_iterator}
use hybridmvcc.Table.BlockTable.Reader.Opening.{Stored-within, Stored-Fits, opened, open_table_lem}
use hybridmvcc.Table.BlockTable.Reader.Blocks.{Sound}
use hybridmvcc.Table.BlockTable.Reader.Iteration.{outside, yields_lem}

module _ {K V : Type 0} (f : Format K V) (laws : IsFormat f) (interval : ℕ) where
  -- A finished file of blocks that together have these pairs.
  pub record IsTableOf (file : List ℕ) (pairs : List (K × V)) : Type 0 where
    placed : List (Placed K)
    filter_block : List ℕ
    finished : TableFile f laws interval file placed filter_block
    holds : entries_of placed ≡ map (entry f) pairs

  -- All entries of serialised pairs have lengths that a word can hold.
  entries-Small :
      (es : List Entry) (pairs : List (K × V))
      → es ≡ map (entry f) pairs
      → Small f.varint laws.varints es
  entries-Small es pairs e = subst (Small f.varint laws.varints) (sym e) (go pairs)
    where
      go : (pairs : List (K × V)) → Small f.varint laws.varints (map (entry f) pairs)
      go [] = tt
      go ((key, value) ∷ pairs) =
          ((laws.keys_back.bounded key, laws.values_back.bounded value), go pairs)

  index-Small :
      (bs : List (Placed K)) → Small f.varint laws.varints (map (index_entry f laws interval) bs)
  index-Small [] = tt
  index-Small (b ∷ bs) =
      ((laws.keys_back.bounded b.key, omega (arith, laws.pointer_width b.ptr)), index-Small bs)

  Small-split :
      (es es' : List Entry)
      → Small f.varint laws.varints (es ++ es')
      → Small f.varint laws.varints es × Small f.varint laws.varints es'
  Small-split [] es' s = (tt, s)
  Small-split (e ∷ es) es' (h, s) =
      let (first, second) = Small-split es es' s in ((h, first), second)

  -- A block has four bytes for each of its restart points.
  few_restarts :
      (es : List Entry)
      → length (block_of f laws interval es).restarts ≤ length (image f laws interval es)
  unfolding seal
  few_restarts es =
      let b = block_of f laws interval es in
      let r = restart_bytes f.order b.restarts in
      let w = f.order.write_u32 (length b.restarts % 2 ^ 32) in
      omega (
        arith,
        length-append b.buffer (r ++ w),
        length-append r w,
        length-restart_bytes f.order laws.words b.restarts,
      )

  module _ {L : Type 0} (m : LruMap L (CacheId × ℕ) (List ℕ)) (lru : IsLruMap m)
      (hash : CacheId × ℕ → ℕ) where
    -- Every block of a finished file can be read.
    sounds_lem :
        (table : BlockTableReader) (all bs : List (Placed K))
        → length table.reader < 2 ^ 32
        → Small f.varint laws.varints (entries_of bs)
        → All (λ (x : Placed K). Stored f table.reader x.ptr (image f laws interval x.entries)) bs
        → All (λ (x : Placed K). 0 < length x.entries) bs
        → All
            (λ (x : Placed K).
              content_at f laws interval all x.ptr.offset ≡ some (image f laws interval x.entries))
            bs
        → All (Sound f laws interval m lru hash table all) bs
    sounds_lem table all [] short small stored nonempty found = tt
    sounds_lem table all (x ∷ bs) short small (s, stored) (n, nonempty) (at, found) =
        let (here, rest) = Small-split x.entries (entries_of bs) small in
        let content = image f laws interval x.entries in
        let within = Stored-within f laws table.reader x.ptr content s in
        (
          record {
            stored = s;
            found = at;
            nonempty = n;
            small = here;
            few = omega (arith, few_restarts x.entries, within.1, short);
            fits = Stored-Fits f laws table.reader x.ptr content s short;
          },
          sounds_lem table all bs short rest stored nonempty found,
        )

    -- What opening a file and iterating over it gives.
    pub record Reads (for_compaction : Bool) (fuel : ℕ) (file : List ℕ) (cache : ShardedCache L)
        (pairs : List (K × V)) : Type 0 where
      pub table : BlockTableReader
      pub cache_after : ShardedCache L
      pub it : BlockTableIterator f m hash
      pub opens : open_table f file cache ≡ (ok table, cache_after)
      pub starts : iter f m hash table for_compaction cache_after ≡ ok it
      pub yields : Yields (table_iterator f m hash fuel) it pairs

    -- A table file shorter than 2 ^ 32 bytes is read back pair by pair, through a cache that has
    -- nothing under the identifier that it gives out next; fuel 2 is enough.
    pub reads_lem :
        (for_compaction : Bool) (fuel : ℕ) (file : List ℕ) (cache : ShardedCache L)
        (pairs : List (K × V))
        → IsTableOf file pairs
        → length file < 2 ^ 32
        → Whole m lru hash cache
        → ((offset : ℕ) (content : List ℕ) → Held m lru hash cache cache.last_id offset content → ⊥)
        → Reads for_compaction (suc (suc fuel)) file cache pairs
    unfolding iter
    reads_lem for_compaction fuel file cache pairs of short whole fresh =
        let bs = of.placed in
        let t = of.finished in
        let index = map (index_entry f laws interval) bs in
        let cache' : ShardedCache L = record cache { last_id = (cache.last_id + 1) % 2 ^ 32 } in
        let table = opened f laws interval file bs of.filter_block cache in
        let within =
          Stored-within f laws file t.footer.index_ptr (image f laws interval index) t.index_at in
        let (index_iter, starts, gives) =
          seal-Gives f.order f.varint laws.words laws.varints interval index (index-Small bs)
            (omega (arith, few_restarts index, within.1, short)) in
        let it : BlockTableIterator f m hash = record {
          table = table;
          block_iter = none;
          index_iter = index_iter;
          for_compaction = for_compaction;
          cache = cache';
        } in
        record {
          table = table;
          cache_after = cache';
          it = it;
          opens = open_table_lem f laws interval file bs of.filter_block cache t short;
          starts = rw (starts, iter) refl;
          yields =
              yields_lem f laws interval m lru hash table bs fuel pairs it [] bs (outside refl)
                (record {
                  table_is = refl;
                  cached = record {
                    all_shards = whole;
                    all_good = λ id offset content held is. absurd (
                        fresh offset content
                          (subst (λ i. Held m lru hash cache i offset content) is held));
                  };
                  index = gives;
                })
                (sounds_lem table bs bs short (entries-Small (entries_of bs) pairs of.holds)
                  t.stored t.nonempty t.found)
                of.holds;
        }

  module _ (millibits : ℕ) (device : Device) (a : Accepts device) where
    -- A builder that these pairs were added to.
    pub record Holds (b : BlockTableBuilder K) (pairs : List (K × V)) : Type 0 where
      placed : List (Placed K)
      current : List Entry
      built : Built f laws interval millibits b placed current
      same : entries_of placed ++ current ≡ map (entry f) pairs

    pub new-Holds : (block_size : ℕ) → Holds (new block_size interval millibits []) []
    unfolding new
    new-Holds block_size = record {
      placed = [];
      current = [];
      built = record {
        block = refl;
        index = refl;
        at_end = refl;
        stored = tt;
        nonempty = tt;
        below = tt;
        found = tt;
        last = inl refl;
        filter = refl;
      };
      same = refl;
    }

    pub add-Holds :
        (b : BlockTableBuilder K) (pairs : List (K × V)) (key : K) (value : V)
        → Holds b pairs
        → (after : BlockTableBuilder K) × (add f device key value b ≡ (ok tt, after))
          × Holds after (pairs ++ (key, value) ∷ [])
    add-Holds b pairs key value h =
        let (after, placed, rest, runs, built, same) =
          add_lem f laws interval millibits device a b h.placed h.current key value h.built in
        (
          after,
          runs,
          record {
            placed = placed;
            current = rest;
            built = built;
            same =
                same
                ∙ ap (λ t. t ++ entry f (key, value) ∷ []) h.same
                ∙ sym (map-append (entry f) pairs (key, value));
          },
        )

    -- A filter with bits whose total does not overflow a word lets `finish` go through.
    pub finish-Holds :
        (b : BlockTableBuilder K) (pairs : List (K × V))
        → 0 < millibits
        → length pairs * millibits + 511999 < 2 ^ 64
        → Holds b pairs
        → (after : BlockTableBuilder K) × (finish f device b ≡ (ok tt, after))
          × IsTableOf after.out pairs
    finish-Holds b pairs some_bits small h =
        let first = λ (e : Entry). e.0 in
        let keys = map first (entries_of h.placed ++ h.current) in
        let same_count : length keys ≡ length pairs =
          length-map first (entries_of h.placed ++ h.current)
          ∙ ap length h.same
          ∙ length-map (entry f) pairs in
        let (block, sealed, seals) =
          seals_lem f.hash64 millibits keys some_bits
            (subst (λ n. n * millibits + 511999 < 2 ^ 64) (sym same_count) small) in
        let (after, placed, runs, file, same) =
          finish_lem f laws interval millibits device a b h.placed h.current block sealed h.built
            seals in
        (
          after,
          runs,
          record { placed = placed; filter_block = block; finished = file; holds = same ∙ h.same },
        )
