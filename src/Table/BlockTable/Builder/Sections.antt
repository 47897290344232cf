-- ===== src/Table/BlockTable/Builder/Sections.antt =====
-- The sections that `finish` writes behind the blocks: filter, index and footer.
use hybridmvcc.Base.{
  none, err, panic, ℕ, ◌+◌, ◌%◌, ◌^◌, true, Option, some, List, ◌++◌, ◌==◌, Outcome, ok, ◌≡◌, refl,
  ap, ◌∙◌, arith, length,
}
use hybridmvcc.Base.{then_with, map, length-append}
use hybridmvcc.Block.Data.{DataBlockBuilder, new_builder, reset_builder, seal}
use hybridmvcc.Block.Filter.{FullFilterBlockBuilder, seal_filter}
use hybridmvcc.Wal.Segment.{Device}
use hybridmvcc.Wal.Segment.Pages.{Accepts}
use hybridmvcc.Table.BlockTable.{Format, ItemPointer, TableFooter, footer_length, magic_number}
use hybridmvcc.Table.BlockTable.Builder.{
  or_zeros, pointer_bytes, BlockTableBuilder, write_block, footer_bytes, write_toc, write_filter,
}
use hybridmvcc.Table.BlockTable.Builder.Blocks.{
  IsFormat, pointer_at, checksum, wrote, write_block_lem, write_all_lem,
}
use hybridmvcc.Table.BlockTable.Builder.Invariant.{Placed, block_of, image, index_entry, reset-seal}

module _ {K V : Type 0} (f : Format K V) (laws : IsFormat f) where
  length-pointer_bytes : (ptr : ItemPointer) → length (pointer_bytes f ptr) ≡ 16
  length-pointer_bytes ptr = omega (
    arith,
    length-append (f.order.write_u64 ptr.offset) (f.order.write_u64 ptr.length),
    laws.words.u64_width ptr.offset,
    laws.words.u64_width ptr.length,
  )

  pub length-footer_bytes : (footer : TableFooter) → length (footer_bytes f footer) ≡ 36
  unfolding footer_bytes
  length-footer_bytes footer =
      let i = pointer_bytes f footer.index_ptr in
      let p = pointer_bytes f (or_zeros footer.filter_ptr) in
      omega (
        arith,
        length-append (f.order.write_u32 magic_number) (i ++ p),
        length-append i p,
        laws.words.u32_width magic_number,
        length-pointer_bytes footer.index_ptr,
        length-pointer_bytes (or_zeros footer.filter_ptr),
      )

module _ {K V : Type 0} (f : Format K V) (laws : IsFormat f) (interval millibits : ℕ)
    (device : Device) (a : Accepts device) where
  -- A filter that seals is written behind the blocks.
  abbrev pub behind_filter :
      BlockTableBuilder K → List ℕ → FullFilterBlockBuilder → BlockTableBuilder K
  behind_filter b block sealed = wrote f block (record b { filter_builder = some sealed })

  write_filter_lem :
      (b : BlockTableBuilder K) (filter sealed : FullFilterBlockBuilder) (block : List ℕ)
      → b.filter_builder ≡ some filter
      → seal_filter filter ≡ ok (block, sealed)
      → write_filter f device b
        ≡ (ok (some (pointer_at f b.out_offset block)), behind_filter b block sealed)
  unfolding write_filter
  write_filter_lem b filter sealed block has seals =
      ap
        (λ (t : Option FullFilterBlockBuilder).
          let r : Outcome (Option ItemPointer) × BlockTableBuilder K = elim t [
            | none ↦ (ok none, b)
            | some filter ↦ after_seal (seal_filter filter)
          ] in
          r)
        has
      ∙ ap after_seal seals
      ∙ ap written (write_block_lem f device block (record b { filter_builder = some sealed }) a)
    where
      written :
          Outcome ItemPointer × BlockTableBuilder K
          → Outcome (Option ItemPointer) × BlockTableBuilder K
      written run = then_with run λ ptr b'. (ok (some ptr), b')

      after_seal :
          Outcome (List ℕ × FullFilterBlockBuilder)
          → Outcome (Option ItemPointer) × BlockTableBuilder K
      after_seal r = elim r [
        | ok (block, filter') ↦
            written (write_block f device block (record b { filter_builder = some filter' }))
        | err e ↦ (err e, b)
        | panic ↦ (panic, b)
      ]

  write_toc_lem :
      (footer : TableFooter) (b : BlockTableBuilder K)
      → write_toc f device footer b ≡ (
          let toc = footer_bytes f footer ++ checksum f (footer_bytes f footer) in
          let b' : BlockTableBuilder K = record b {
            out = b.out ++ toc;
            out_offset = b.out_offset + length toc;
          } in
          (ok tt, b'))
  unfolding write_toc
  write_toc_lem footer b =
      let body = footer_bytes f footer in
      let toc = body ++ checksum f body in
      let forty : (length toc == footer_length) ≡ true = ground (
        arith,
        length-append body (checksum f body),
        length-footer_bytes f laws footer,
        laws.words.u32_width (f.crc32 body % 2 ^ 32),
      ) in
      simp (write_all_lem f device toc b a, forty) refl

  -- `finish` once the last block is in the file.
  abbrev pub finish_rest : BlockTableBuilder K → Outcome (Unit {0}) × BlockTableBuilder K
  finish_rest b = then_with (write_filter f device b) λ filter_ptr b2.
      let (index_block, index) = seal f.order b2.index_builder in
      then_with
        (write_block f device index_block (record b2 { index_builder = reset_builder index }))
        λ index_ptr b3.
          write_toc f device (record { index_ptr = index_ptr; filter_ptr = filter_ptr }) b3

  -- The index block, behind the filter.
  abbrev write_index :
      Option ItemPointer
      → BlockTableBuilder K
      → DataBlockBuilder
      → Outcome (Unit {0}) × BlockTableBuilder K
  write_index filter_ptr b index =
      then_with
        (write_block f device (seal f.order index).0
          (record b { index_builder = reset_builder (seal f.order index).1 }))
        λ index_ptr b3.
          write_toc f device (record { index_ptr = index_ptr; filter_ptr = filter_ptr }) b3

  abbrev pub index_image : List (Placed K) → List ℕ
  index_image bs = image f laws interval (map (index_entry f laws interval) bs)

  abbrev pub behind_index : BlockTableBuilder K → List (Placed K) → BlockTableBuilder K
  behind_index b bs = wrote f (index_image bs) (record b { index_builder = new_builder interval })

  abbrev pub footer_of :
      BlockTableBuilder K → BlockTableBuilder K → List ℕ → List (Placed K) → TableFooter
  footer_of b b2 block bs = record {
    index_ptr = pointer_at f b2.out_offset (index_image bs);
    filter_ptr = some (pointer_at f b.out_offset block);
  }

  abbrev pub finished : BlockTableBuilder K → TableFooter → BlockTableBuilder K
  finished b footer =
      let toc = footer_bytes f footer ++ checksum f (footer_bytes f footer) in
      record b { out = b.out ++ toc; out_offset = b.out_offset + length toc }

  pub finish_rest_lem :
      (b : BlockTableBuilder K) (bs : List (Placed K)) (filter sealed : FullFilterBlockBuilder)
      (block : List ℕ)
      → b.index_builder ≡ block_of f laws interval (map (index_entry f laws interval) bs)
      → b.filter_builder ≡ some filter
      → seal_filter filter ≡ ok (block, sealed)
      → let b2 = behind_filter b block sealed in
        finish_rest b ≡ (ok tt, finished (behind_index b2 bs) (footer_of b b2 block bs))
  finish_rest_lem b bs filter sealed block index has seals =
      let b2 = behind_filter b block sealed in
      let filter_ptr = some (pointer_at f b.out_offset block) in
      let entries = map (index_entry f laws interval) bs in
      ap
        (λ (run : Outcome (Option ItemPointer) × BlockTableBuilder K).
          let r : Outcome (Unit {0}) × BlockTableBuilder K =
            then_with run λ filter_ptr b2. write_index filter_ptr b2 b2.index_builder in
          r)
        (write_filter_lem b filter sealed block has seals)
      ∙ ap (write_index filter_ptr b2) index
      ∙ ap
          (λ (x : DataBlockBuilder).
            let r : Outcome (Unit {0}) × BlockTableBuilder K =
              then_with (write_block f device (index_image bs) (record b2 { index_builder = x }))
                λ index_ptr b3.
                  write_toc f device (record { index_ptr = index_ptr; filter_ptr = filter_ptr })
                    b3 in
            r)
          (reset-seal f laws interval entries)
      ∙ ap
          (λ (run : Outcome ItemPointer × BlockTableBuilder K).
            let r : Outcome (Unit {0}) × BlockTableBuilder K = then_with run λ index_ptr b3.
              write_toc f device (record { index_ptr = index_ptr; filter_ptr = filter_ptr }) b3 in
            r)
          (write_block_lem f device (index_image bs)
            (record b2 { index_builder = new_builder interval }) a)
      ∙ write_toc_lem (footer_of b b2 block bs) (behind_index b2 bs)
