-- ===== src/Table/BlockTable/Reader/Opening.antt =====
-- Opening a finished table file: its index and its filter are read.
use mathlib.Core.Path.{subst}
use hybridmvcc.Base.{
  map, ℕ, ◌+◌, ◌%◌, ◌^◌, ◌<◌, ◌≤◌, true, false, Option, none, some, List, ◌++◌, ok, ◌≡◌, inl, inr,
  refl, sym, ap, ◌∙◌, arith, if◌then◌else◌, Bool-cases, ltb, length,
}
use hybridmvcc.Base.{length-append}
use hybridmvcc.Cache.{ShardedCache}
use hybridmvcc.Table.BlockTable.{Format, ItemPointer}
use hybridmvcc.Table.BlockTable.Builder.Blocks.{IsFormat, Stored, read_block_lem, checksum}
use hybridmvcc.Table.BlockTable.Builder.Invariant.{Placed, image, index_entry}
use hybridmvcc.Table.BlockTable.Builder.Finish.{TableFile}
use hybridmvcc.Table.BlockTable.Builder.{or_zeros}
use hybridmvcc.Table.BlockTable.Reader.{BlockTableReader, read_filter, open_table}
use hybridmvcc.Table.BlockTable.Reader.Footer.{Fits, read_footer_lem}

module _ {K V : Type 0} (f : Format K V) (laws : IsFormat f) where
  -- A block of a file lies within it.
  pub Stored-within :
      (file : List ℕ) (ptr : ItemPointer) (content : List ℕ)
      → Stored f file ptr content
      → (ptr.offset ≤ length file) × (length content ≤ length file) × (ptr.length ≤ length file)
  Stored-within file ptr content s =
      let rest = checksum f content ++ s.behind in
      let total = ap length s.laid in
      let first = length-append s.before (content ++ rest) in
      let second = length-append content rest in
      (
        omega (arith, total, first, s.at),
        omega (arith, total, first, second),
        omega (arith, total, first, second, s.size),
      )

  pub Stored-Fits :
      (file : List ℕ) (ptr : ItemPointer) (content : List ℕ)
      → Stored f file ptr content
      → length file < 2 ^ 32
      → Fits f laws ptr
  Stored-Fits file ptr content s small =
      let (at, _, len) = Stored-within file ptr content s in
      (omega (arith, at, small), omega (arith, len, small))

  -- The filter of a table: a block without bytes is none.
  abbrev pub filter_of : List ℕ → Option (List ℕ)
  filter_of block = if ltb 0 (length block) then some block else none

  read_filter_lem :
      (file : List ℕ) (ptr : ItemPointer) (block : List ℕ)
      → Stored f file ptr block
      → read_filter f file (if ltb 0 ptr.length then some ptr else none) ≡ ok (filter_of block)
  unfolding read_filter
  read_filter_lem file ptr block s = elim (Bool-cases (ltb 0 (length block))) [
    | inl e ↦
        let e' : ltb 0 ptr.length ≡ true = ap (ltb 0) s.size ∙ e in
        rw (e, e') (simp (read_block_lem f laws file ptr block s) refl)
    | inr e ↦ let e' : ltb 0 ptr.length ≡ false = ap (ltb 0) s.size ∙ e in rw (e, e') refl
  ]

  module _ (interval : ℕ) {L : Type 0} where
    abbrev pub opened : List ℕ → List (Placed K) → List ℕ → ShardedCache L → BlockTableReader
    opened file bs filter_block cache = record {
      reader = file;
      index_block = image f laws interval (map (index_entry f laws interval) bs);
      filter_reader = filter_of filter_block;
      cache_id = cache.last_id;
    }

    pub open_table_lem :
        (file : List ℕ) (bs : List (Placed K)) (filter_block : List ℕ) (cache : ShardedCache L)
        → TableFile f laws interval file bs filter_block
        → length file < 2 ^ 32
        → open_table f file cache ≡ (
          ok (opened file bs filter_block cache),
          (record cache { last_id = (cache.last_id + 1) % 2 ^ 32 }),
        )
    unfolding open_table hybridmvcc.Cache.get_cache_id
    open_table_lem file bs filter_block cache t small =
        let fp = ap or_zeros t.has_filter in
        let footer_read =
          read_footer_lem f laws file t.front t.footer t.ends
            (Stored-Fits file t.footer.index_ptr
              (image f laws interval (map (index_entry f laws interval) bs)) t.index_at small)
            (subst (Fits f laws) (sym fp)
              (Stored-Fits file t.filter_ptr filter_block t.filter_at small)) in
        let index_read =
          read_block_lem f laws file t.footer.index_ptr
            (image f laws interval (map (index_entry f laws interval) bs)) t.index_at in
        let filter_read =
          ap (λ (p : ItemPointer). read_filter f file (if ltb 0 p.length then some p else none)) fp
          ∙ read_filter_lem file t.filter_ptr filter_block t.filter_at in
        simp (footer_read, index_read, filter_read) refl
