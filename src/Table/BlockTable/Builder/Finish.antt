-- ===== src/Table/BlockTable/Builder/Finish.antt =====
-- `finish` of a table builder: the filter, the index and the footer go behind the blocks.
use hybridmvcc.Table.BlockTable.Builder.Flushes.{flush_lem}
use mathlib.Core.Path.{subst}
use hybridmvcc.Block.Filter.Membership
use hybridmvcc.Block.Data.Iteration.{Entry}
use hybridmvcc.Base.{
  ◌<◌, append-nil, [], sym, ℕ, ◌%◌, ◌^◌, Option, some, List, ◌++◌, Outcome, ok, ◌≡◌, refl, ap, ◌∙◌,
  arith, All, length,
}
use hybridmvcc.Base.{then_with, map, length-append}
use hybridmvcc.Block.Data.{new_builder}
use hybridmvcc.Block.Filter.{create_filter_block_builder, FullFilterBlockBuilder, seal_filter}
use hybridmvcc.Wal.Segment.{Device}
use hybridmvcc.Wal.Segment.Pages.{Accepts}
use hybridmvcc.Table.BlockTable.{Format, ItemPointer, TableFooter}
use hybridmvcc.Table.BlockTable.Builder.{index_last, finish, BlockTableBuilder, footer_bytes}
use hybridmvcc.Table.BlockTable.Builder.Blocks.{
  appended-Stored, Stored-append, IsFormat, Stored, pointer_at, checksum, wrote,
}
use hybridmvcc.Table.BlockTable.Builder.Invariant.{
  All-imp, entries_of, Built, Placed, image, index_entry, content_at,
}
use hybridmvcc.Table.BlockTable.Builder.Sections.{
  behind_filter, behind_index, footer_of, finished, index_image, finish_rest, finish_rest_lem,
}

-- A finished file with the footer that stands at its end.
pub record TableFile {K V : Type 0} (f : Format K V) (laws : IsFormat f) (interval : ℕ)
    (file : List ℕ) (bs : List (Placed K)) (filter_block : List ℕ) : Type 0 where
  pub footer : TableFooter
  pub filter_ptr : ItemPointer
  pub front : List ℕ
  pub ends : file ≡ front ++ (footer_bytes f footer ++ checksum f (footer_bytes f footer))
  pub index_at :
      Stored f file footer.index_ptr (image f laws interval (map (index_entry f laws interval) bs))
  pub has_filter : footer.filter_ptr ≡ some filter_ptr
  pub filter_at : Stored f file filter_ptr filter_block
  pub stored : All (λ (x : Placed K). Stored f file x.ptr (image f laws interval x.entries)) bs
  pub nonempty : All (λ (x : Placed K). 0 < length x.entries) bs
  pub found :
      All
        (λ (x : Placed K).
          content_at f laws interval bs x.ptr.offset ≡ some (image f laws interval x.entries))
        bs

module _ {K V : Type 0} (f : Format K V) (laws : IsFormat f) (interval millibits : ℕ)
    (device : Device) (a : Accepts device) where
  Stored-wrote :
      (b : BlockTableBuilder K) (buf : List ℕ) (ptr : ItemPointer) (content : List ℕ)
      → Stored f b.out ptr content
      → Stored f (wrote f buf b).out ptr content
  Stored-wrote b buf ptr content s =
      Stored-append f (b.out ++ buf) (checksum f buf) ptr content
        (Stored-append f b.out buf ptr content s)

  wrote-Stored :
      (b : BlockTableBuilder K) (buf : List ℕ)
      → b.out_offset ≡ length b.out
      → Stored f (wrote f buf b).out (pointer_at f b.out_offset buf) buf
  wrote-Stored b buf at =
      subst (λ n. Stored f (wrote f buf b).out (pointer_at f n buf) buf) (sym at)
        (appended-Stored f b.out buf)

  wrote-at_end :
      (b : BlockTableBuilder K) (buf : List ℕ)
      → b.out_offset ≡ length b.out
      → (wrote f buf b).out_offset ≡ length (wrote f buf b).out
  wrote-at_end b buf at = omega (
    arith,
    at,
    length-append (b.out ++ buf) (checksum f buf),
    length-append b.out buf,
    laws.words.u32_width (f.crc32 buf % 2 ^ 32),
  )

  -- `finish` goes through when the filter seals, and leaves a whole table file.
  pub finish_lem :
      (b : BlockTableBuilder K) (bs : List (Placed K)) (current : List Entry) (block : List ℕ)
      (sealed : FullFilterBlockBuilder)
      → Built f laws interval millibits b bs current
      → seal_filter (
          Membership.add_all f.hash64
            (create_filter_block_builder millibits)
            (map (λ (e : Entry). e.0) (entries_of bs ++ current)))
        ≡ ok (block, sealed)
      → (after : BlockTableBuilder K) × (placed : List (Placed K)) × (finish f device b
          ≡ (ok tt, after))
        × TableFile f laws interval after.out placed block
        × (entries_of placed ≡ entries_of bs ++ current)
  unfolding finish
  finish_lem b bs current block sealed h seals =
      let r = flush_lem f laws interval millibits device a b bs current h in
      let b1 = index_last f device r.ptr r.after in
      let b2 = behind_filter f laws interval millibits device a b1 block sealed in
      let b3 = behind_index f laws interval millibits device a b2 r.placed in
      let footer = footer_of f laws interval millibits device a b1 b2 block r.placed in
      let toc = footer_bytes f footer ++ checksum f (footer_bytes f footer) in
      let filter =
        Membership.add_all f.hash64 (create_filter_block_builder millibits)
          (map (λ (e : Entry). e.0) (entries_of r.placed ++ [])) in
      let seals' : seal_filter filter ≡ ok (block, sealed) =
        ap
          (λ es. seal_filter (
            Membership.add_all f.hash64 (create_filter_block_builder millibits)
              (map (λ (e : Entry). e.0) es)))
          (append-nil (entries_of r.placed) ∙ r.same)
        ∙ seals in
      let keep = λ (ptr : ItemPointer) (content : List ℕ) (s : Stored f b2.out ptr content).
        Stored-append f b3.out toc ptr content (
          Stored-wrote (record b2 { index_builder = new_builder interval })
            (index_image f laws interval millibits device a r.placed) ptr content s) in
      (
        finished f laws interval millibits device a b3 footer,
        r.placed,
        ap
              (λ (run : Outcome (Option ItemPointer) × BlockTableBuilder K).
                let s : Outcome (Unit {0}) × BlockTableBuilder K = then_with run λ ptr b1.
                  finish_rest f laws interval millibits device a (index_last f device ptr b1) in
                s)
              r.runs
            ∙ finish_rest_lem f laws interval millibits device a b1 r.placed filter sealed block
                r.built.index r.built.filter seals',
        record {
          footer = footer;
          filter_ptr = pointer_at f b1.out_offset block;
          front = b3.out;
          ends = refl;
          index_at =
              Stored-append f b3.out toc
                (pointer_at f b2.out_offset
                  (index_image f laws interval millibits device a r.placed))
                (index_image f laws interval millibits device a r.placed)
                (wrote-Stored (record b2 { index_builder = new_builder interval })
                  (index_image f laws interval millibits device a r.placed)
                  (wrote-at_end (record b1 { filter_builder = some sealed }) block r.built.at_end));
          has_filter = refl;
          filter_at =
              keep (pointer_at f b1.out_offset block) block
                (wrote-Stored (record b1 { filter_builder = some sealed }) block r.built.at_end);
          stored =
              All-imp (λ (x : Placed K). Stored f b1.out x.ptr (image f laws interval x.entries))
                (λ (x : Placed K). Stored f (b3.out ++ toc) x.ptr (image f laws interval x.entries))
                r.placed
                (λ x s. keep x.ptr (image f laws interval x.entries) (
                  Stored-wrote (record b1 { filter_builder = some sealed }) block x.ptr
                    (image f laws interval x.entries) s))
                r.built.stored;
          nonempty = r.built.nonempty;
          found = r.built.found;
        },
        r.same,
      )
