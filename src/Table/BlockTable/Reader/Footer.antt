-- ===== src/Table/BlockTable/Reader/Footer.antt =====
-- Opening a table file: the footer is found again, and with it the index and the filter.
use hybridmvcc.Base.{
  ℕ, ◌+◌, ◌-◌, ◌%◌, ◌^◌, ◌<◌, true, false, none, some, List, [], ◌++◌, ◌==◌, ok, ◌≡◌, refl, sym, ap,
  ◌∙◌, arith, if◌then◌else◌, ltb, length, drop,
}
use hybridmvcc.Base.{
  append-nil, append_assoc, length-append, drop-append_at, drop-append_past, take-append_at,
}
use hybridmvcc.Table.BlockTable.{Format, ItemPointer, TableFooter, footer_length, magic_number}
use hybridmvcc.Table.BlockTable.Builder.{footer_bytes, or_zeros}
use hybridmvcc.Table.BlockTable.Builder.Blocks.{IsFormat, checksum, read_at_lem}
use hybridmvcc.Table.BlockTable.Builder.Sections.{length-footer_bytes}
use hybridmvcc.Table.BlockTable.Reader.{parse_footer, read_footer}

module _ {K V : Type 0} (f : Format K V) (laws : IsFormat f) where
  abbrev pub Fits : ItemPointer → Type 0
  Fits ptr = (ptr.offset < 2 ^ 64) × (ptr.length < 2 ^ 64)

  -- The footer as it is read: a filter without bytes is none.
  abbrev pub read_back : TableFooter → TableFooter
  read_back footer =
      let p = or_zeros footer.filter_ptr in
      record { index_ptr = footer.index_ptr; filter_ptr = if ltb 0 p.length then some p else none }

  flat : (m a b c d : List ℕ) → m ++ (a ++ b ++ (c ++ d)) ≡ m ++ (a ++ (b ++ (c ++ (d ++ []))))
  flat m a b c d = simp (append_assoc, append-nil) refl

  parse_footer_lem :
      (footer : TableFooter)
      → Fits footer.index_ptr
      → Fits (or_zeros footer.filter_ptr)
      → parse_footer f (footer_bytes f footer) ≡ ok (read_back footer)
  unfolding parse_footer footer_bytes
  parse_footer_lem footer (io, il) (po, pl) =
      let e = f.order in
      let p = or_zeros footer.filter_ptr in
      let m = e.write_u32 magic_number in
      let a = e.write_u64 footer.index_ptr.offset in
      let b = e.write_u64 footer.index_ptr.length in
      let c = e.write_u64 p.offset in
      let d = e.write_u64 p.length in
      let body = m ++ (a ++ b ++ (c ++ d)) in
      let four = laws.words.u32_width magic_number in
      let wa = laws.words.u64_width footer.index_ptr.offset in
      let wb = laws.words.u64_width footer.index_ptr.length in
      let wc = laws.words.u64_width p.offset in
      let f28 = flat m a b c d in
      let after_m = a ++ (b ++ (c ++ (d ++ []))) in
      let after_a = b ++ (c ++ (d ++ [])) in
      let after_b = c ++ (d ++ []) in
      let at4 : drop 4 body ≡ after_m =
        ap (drop 4) f28 ∙ drop-append_at 4 m after_m (omega (arith, four)) in
      let at12 : drop 12 body ≡ after_a =
        ap (drop 12) f28
        ∙ drop-append_past 8 12 m after_m (omega (arith, four))
        ∙ drop-append_at 8 a after_a (omega (arith, wa)) in
      let at20 : drop 20 body ≡ after_b =
        ap (drop 20) f28
        ∙ drop-append_past 16 20 m after_m (omega (arith, four))
        ∙ drop-append_past 8 16 a after_a (omega (arith, wa))
        ∙ drop-append_at 8 b after_b (omega (arith, wb)) in
      let at28 : drop 28 body ≡ d ++ [] =
        ap (drop 28) f28
        ∙ drop-append_past 24 28 m after_m (omega (arith, four))
        ∙ drop-append_past 16 24 a after_a (omega (arith, wa))
        ∙ drop-append_past 8 16 b after_b (omega (arith, wb))
        ∙ drop-append_at 8 c (d ++ []) (omega (arith, wc)) in
      let magic : (e.read_u32 body == magic_number) ≡ true =
        ground (arith, laws.words.u32_back magic_number (a ++ b ++ (c ++ d)) (omega arith)) in
      simp
        (
          magic,
          ap e.read_u64 at4 ∙ laws.words.u64_back footer.index_ptr.offset after_a io,
          ap e.read_u64 at12 ∙ laws.words.u64_back footer.index_ptr.length after_b il,
          ap e.read_u64 at20 ∙ laws.words.u64_back p.offset (d ++ []) po,
          ap e.read_u64 at28 ∙ laws.words.u64_back p.length [] pl,
        )
        refl

  pub read_footer_lem :
      (file front : List ℕ) (footer : TableFooter)
      → file ≡ front ++ (footer_bytes f footer ++ checksum f (footer_bytes f footer))
      → Fits footer.index_ptr
      → Fits (or_zeros footer.filter_ptr)
      → read_footer f file ≡ ok (read_back footer)
  unfolding read_footer
  read_footer_lem file front footer ends i p =
      let body = footer_bytes f footer in
      let sum = checksum f body in
      let wide = laws.words.u32_width (f.crc32 body % 2 ^ 32) in
      let long = length-footer_bytes f laws footer in
      let both = length-append body sum in
      let total : length file ≡ length front + 40 =
        omega (arith, ap length ends, length-append front (body ++ sum), both, wide, long) in
      let buf =
        read_at_lem f laws file front (body ++ sum) [] footer_length (length file - footer_length)
          (ends ∙ ap (λ t. front ++ t) (sym (append-nil (body ++ sum)))) (omega (arith, total))
          (omega (arith, both, wide, long)) in
      let head = take-append_at (footer_length - 4) body sum (omega (arith, long)) in
      let word : f.order.read_u32 (drop (footer_length - 4) (body ++ sum)) ≡ f.crc32 body % 2 ^ 32 =
        ap f.order.read_u32
          (drop-append_at (footer_length - 4) body sum (omega (arith, long)) ∙ sym (append-nil sum))
        ∙ laws.words.u32_back (f.crc32 body % 2 ^ 32) [] (omega arith) in
      let enough : ltb (length file) footer_length ≡ false = ground (arith, total) in
      let same : (f.crc32 body % 2 ^ 32 == f.crc32 body % 2 ^ 32) ≡ true = ground arith in
      rw (enough, buf, head, word, same) (parse_footer_lem footer i p)
