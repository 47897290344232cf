-- ===== src/Table/BlockTable/Builder/Flushes.antt =====
-- `flush` and `add` of a table builder keep its invariant.
use mathlib.Core.Path.{subst}
use hybridmvcc.Block.Data
use hybridmvcc.Base.{
  ℕ, ◌%◌, ◌^◌, ◌<◌, Bool, true, false, Option, none, some, List, [], ◌∷◌, ◌++◌, ◌==◌, Outcome, ok,
  ◌≡◌, inl, inr, refl, sym, ap, ◌∙◌, arith, if◌then◌else◌, length,
}
use hybridmvcc.Base.{then_with, map, append-nil, append_assoc, length-append}
use hybridmvcc.Block.Data.{DataBlockBuilder, new_builder, builder_empty, reset_builder, seal}
use hybridmvcc.Block.Data.Iteration.{Entry, add_all-append, buffer_grows}
use hybridmvcc.Block.Filter.{create_filter_block_builder}
use hybridmvcc.Block.Filter.Membership
use hybridmvcc.Wal.Segment.{Device}
use hybridmvcc.Wal.Segment.Pages.{Accepts}
use hybridmvcc.Table.BlockTable.{Format, ItemPointer}
use hybridmvcc.Table.BlockTable.Builder.{
  BlockTableBuilder, write_block, flush, index_last, add_item,
}
use hybridmvcc.Table.BlockTable.Builder.Blocks.{
  IsFormat, Stored, Stored-append, appended-Stored, pointer_at, checksum, wrote, write_block_lem,
}
use hybridmvcc.Table.BlockTable.Builder.Invariant.{
  Placed, entries_of, All-imp, All-append, entries_of-append, map-append, block_of, image,
  index_entry, content_at, content_at-append, content_at-last, Built, reset-seal,
}

module _ {K V : Type 0} (f : Format K V) (laws : IsFormat f) (interval millibits : ℕ)
    (device : Device) (a : Accepts device) where
  -- `flush` once the block is not empty.
  abbrev seal_and_write :
      BlockTableBuilder K → DataBlockBuilder → Outcome (Option ItemPointer) × BlockTableBuilder K
  seal_and_write b block =
      let (buf, sealed) = seal f.order block in
      then_with (write_block f device buf (record b { block_builder = reset_builder sealed }))
        λ ptr b'. (ok (some ptr), b')

  abbrev emptied : BlockTableBuilder K → BlockTableBuilder K
  emptied b = record b { block_builder = new_builder interval }

  -- A block with entries goes to the end of the file.
  flush_full :
      (b : BlockTableBuilder K) (e : Entry) (es : List Entry)
      → b.block_builder ≡ block_of f laws interval (e ∷ es)
      → flush f device b ≡ (
        ok (some (pointer_at f b.out_offset (image f laws interval (e ∷ es)))),
        wrote f (image f laws interval (e ∷ es)) (emptied b),
      )
  unfolding flush
  flush_full b e es h =
      let full : builder_empty b.block_builder ≡ false = ground (
        arith,
        ap (λ (x : DataBlockBuilder). length x.buffer) h,
        buffer_grows f.varint laws.varints (new_builder interval) e es,
      ) in
      ap
        (λ (t : Bool).
          let r : Outcome (Option ItemPointer) × BlockTableBuilder K =
            (if t then (ok none, b) else seal_and_write b b.block_builder) in
          r)
        full
      ∙ ap (seal_and_write b) h
      ∙ ap
          (λ (x : DataBlockBuilder).
            let b' : BlockTableBuilder K = record b { block_builder = x } in
            let r : Outcome (Option ItemPointer) × BlockTableBuilder K =
              then_with (write_block f device (image f laws interval (e ∷ es)) b')
                λ ptr b''. (ok (some ptr), b'') in
            r)
          (reset-seal f laws interval (e ∷ es))
      ∙ ap
          (λ (r : Outcome ItemPointer × BlockTableBuilder K).
            let s : Outcome (Option ItemPointer) × BlockTableBuilder K =
              then_with r λ ptr b''. (ok (some ptr), b'') in
            s)
          (write_block_lem f device (image f laws interval (e ∷ es)) (emptied b) a)

  flush_none :
      (b : BlockTableBuilder K)
      → b.block_builder ≡ block_of f laws interval []
      → flush f device b ≡ (ok none, b)
  unfolding flush new_builder
  flush_none b h =
      let empty : builder_empty b.block_builder ≡ true =
        ap (λ (x : DataBlockBuilder). length x.buffer == 0) h in
      simp empty refl

  -- The builder behind a flush whose block has been entered in the index.
  pub record Flushed (b : BlockTableBuilder K) (bs : List (Placed K)) (current : List Entry)
      : Type 0 where
    pub ptr : Option ItemPointer
    pub after : BlockTableBuilder K
    pub placed : List (Placed K)
    pub runs : flush f device b ≡ (ok ptr, after)
    pub built : Built f laws interval millibits (index_last f device ptr after) placed []
    pub same : entries_of placed ≡ entries_of bs ++ current
    pub more : (tail : List ℕ) × ((index_last f device ptr after).out ≡ b.out ++ tail)

  -- The builder once the block of `current` is in the file and in the index.
  abbrev placed_block : BlockTableBuilder K → List Entry → K → Placed K
  placed_block b current key = record {
    entries = current;
    key = key;
    ptr = pointer_at f b.out_offset (image f laws interval current);
  }

  abbrev behind_block : BlockTableBuilder K → List Entry → K → BlockTableBuilder K
  behind_block b current key =
      let content = image f laws interval current in
      let b' = wrote f content (emptied b) in
      record b' {
        index_builder = add_item f device key (pointer_at f b.out_offset content) b.index_builder;
      }

  placed-Built :
      (b : BlockTableBuilder K) (bs : List (Placed K)) (current : List Entry) (key : K)
      → 0 < length current
      → Built f laws interval millibits b bs current
      → Built f laws interval millibits
          (behind_block b current key)
          (bs ++ placed_block b current key ∷ [])
          []
  unfolding add_item
  placed-Built b bs current key some_entry h =
      let content = image f laws interval current in
      let sum = checksum f content in
      let x = placed_block b current key in
      let out' = b.out ++ content ++ sum in
      let wide = laws.words.u32_width (f.crc32 content % 2 ^ 32) in
      let long = length-append (b.out ++ content) sum in
      let short = length-append b.out content in
      let At = λ (y : Placed K).
        content_at f laws interval (bs ++ x ∷ []) y.ptr.offset
        ≡ some (image f laws interval y.entries) in
      record {
        block = refl;
        index =
            ap (λ i. Data.add f.varint i (f.keys.serialize key) (f.pointers.serialize x.ptr))
              h.index
            ∙ sym (
                add_all-append f.varint laws.varints (new_builder interval)
                  (map (index_entry f laws interval) bs) (f.keys.serialize key)
                  (f.pointers.serialize x.ptr))
            ∙ ap (block_of f laws interval) (sym (map-append (index_entry f laws interval) bs x));
        at_end = omega (arith, h.at_end, wide, long, short);
        stored =
            All-append (λ (y : Placed K). Stored f out' y.ptr (image f laws interval y.entries)) bs
              x
              (All-imp (λ (y : Placed K). Stored f b.out y.ptr (image f laws interval y.entries))
                (λ (y : Placed K). Stored f out' y.ptr (image f laws interval y.entries)) bs
                (λ y s.
                  subst (λ t. Stored f t y.ptr (image f laws interval y.entries))
                    (sym (append_assoc b.out content sum))
                    (Stored-append f b.out (content ++ sum) y.ptr (image f laws interval y.entries)
                      s))
                h.stored)
              (subst (λ n. Stored f out' (pointer_at f n content) content) (sym h.at_end)
                (appended-Stored f b.out content));
        nonempty = All-append (λ (y : Placed K). 0 < length y.entries) bs x h.nonempty some_entry;
        below =
            All-append (λ (y : Placed K). y.ptr.offset < length out') bs x
              (All-imp (λ (y : Placed K). y.ptr.offset < length b.out)
                (λ (y : Placed K). y.ptr.offset < length out') bs
                (λ y lt. omega (arith, lt, long, short)) h.below)
              (omega (arith, h.at_end, wide, long, short));
        found =
            All-append At bs x
              (All-imp
                (λ (y : Placed K).
                  content_at f laws interval bs y.ptr.offset
                  ≡ some (image f laws interval y.entries))
                At bs
                (λ y e.
                  content_at-append f laws interval bs x y.ptr.offset
                    (image f laws interval y.entries) e)
                h.found)
              (content_at-last f laws interval bs x (
                All-imp (λ (y : Placed K). y.ptr.offset < length b.out)
                  (λ (y : Placed K). y.ptr.offset < x.ptr.offset) bs
                  (λ y lt. omega (arith, lt, h.at_end)) h.below));
        last = inl refl;
        filter =
            h.filter
            ∙ ap
                (λ es. some (
                  Membership.add_all f.hash64 (create_filter_block_builder millibits)
                    (map (λ (e : Entry). e.0) es)))
                (sym (entries_of-append bs x) ∙ sym (append-nil (entries_of (bs ++ x ∷ []))));
      }

  pub flush_lem :
      (b : BlockTableBuilder K) (bs : List (Placed K)) (current : List Entry)
      → Built f laws interval millibits b bs current
      → Flushed b bs current
  unfolding index_last
  flush_lem b bs [] h = record {
    ptr = none;
    after = b;
    placed = bs;
    runs = flush_none b h.block;
    built = h;
    same = sym (append-nil (entries_of bs));
    more = ([], sym (append-nil b.out));
  }
  flush_lem b bs (e ∷ es) h = elim h.last [
    | inl nil ↦ absurd (cc nil)
    | inr (key, keyed) ↦
        let content = image f laws interval (e ∷ es) in
        let ptr = pointer_at f b.out_offset content in
        let b' = wrote f content (emptied b) in
        let x = placed_block b (e ∷ es) key in
        let indexed : index_last f device (some ptr) b' ≡ behind_block b (e ∷ es) key =
          simp keyed refl in
        record {
          ptr = some ptr;
          after = b';
          placed = bs ++ x ∷ [];
          runs = flush_full b e es h.block;
          built =
              subst (λ t. Built f laws interval millibits t (bs ++ x ∷ []) []) (sym indexed)
                (placed-Built b bs (e ∷ es) key (omega arith) h);
          same = entries_of-append bs x;
          more = (
            content ++ checksum f content,
            ap (λ (t : BlockTableBuilder K). t.out) indexed
                ∙ append_assoc b.out content (checksum f content),
          );
        }
  ]
