-- ===== src/Table/BlockTable/Builder/Blocks.antt =====
-- Blocks in a table file: what `write_block` has written, `read_block` reads back.
use hybridmvcc.Base.{
  append-nil, ◌<◌, some, ℕ, ◌+◌, ◌-◌, ◌%◌, ◌^◌, true, List, [], ◌++◌, ◌==◌, ok, ◌≡◌, refl, sym, ap,
  ◌∙◌, arith, length, take, drop,
}
use hybridmvcc.Base.{drop-append_at, take-append_at, length-append, append_assoc}
use hybridmvcc.Bytes.{IsByteOrder, IsVarInt, IsSerializer}
use hybridmvcc.Block.Data.Iteration.{Entry}
use hybridmvcc.Wal.Segment.{Device}
use hybridmvcc.Wal.Segment.Pages.{Accepts}
use hybridmvcc.Table.BlockTable.{Format, ItemPointer, trailer_length}
use hybridmvcc.Table.BlockTable.Builder.{BlockTableBuilder, write_all, write_block}
use hybridmvcc.Table.BlockTable.Reader.{read_at, read_block}

pub record IsFormat {K V : Type 0} (f : Format K V) : Type 0 where
  pub words : IsByteOrder f.order
  pub varints : IsVarInt f.varint
  pub pointers_back :
      (ptr : ItemPointer)
      → ptr.offset < 2 ^ 64
      → ptr.length < 2 ^ 64
      → f.pointers.deserialize (f.pointers.serialize ptr) ≡ some ptr
  pub pointer_width : (ptr : ItemPointer) → length (f.pointers.serialize ptr) ≡ 16
  pub keys_back : IsSerializer f.keys
  pub values_back : IsSerializer f.values

module _ {K V : Type 0} (f : Format K V) where
  -- A pair as it stands in a block.
  abbrev pub entry : K × V → Entry
  entry (key, value) = (f.keys.serialize key, f.values.serialize value)

  abbrev pub checksum : List ℕ → List ℕ
  checksum content = f.order.write_u32 (f.crc32 content % 2 ^ 32)

  -- The file has these bytes where the pointer says, and their checksum behind them.
  pub record Stored (file : List ℕ) (ptr : ItemPointer) (content : List ℕ) : Type 0 where
    pub before : List ℕ
    pub behind : List ℕ
    pub laid : file ≡ before ++ (content ++ (checksum content ++ behind))
    pub at : ptr.offset ≡ length before
    pub size : ptr.length ≡ length content

  pub Stored-append :
      (file more : List ℕ) (ptr : ItemPointer) (content : List ℕ)
      → Stored file ptr content
      → Stored (file ++ more) ptr content
  Stored-append file more ptr content s = record {
    before = s.before;
    behind = s.behind ++ more;
    laid =
        ap (λ t. t ++ more) s.laid
        ∙ append_assoc s.before (content ++ (checksum content ++ s.behind)) more
        ∙ ap (λ t. s.before ++ t)
            (append_assoc content (checksum content ++ s.behind) more
              ∙ ap (λ t. content ++ t) (append_assoc (checksum content) s.behind more));
    at = s.at;
    size = s.size;
  }

  abbrev pub pointer_at : ℕ → List ℕ → ItemPointer
  pointer_at offset content = record { offset = offset; length = length content }

  pub appended-Stored :
      (file content : List ℕ)
      → Stored (file ++ content ++ checksum content) (pointer_at (length file) content) content
  appended-Stored file content = record {
    before = file;
    behind = [];
    laid =
        append_assoc file content (checksum content)
        ∙ ap (λ t. file ++ (content ++ t)) (sym (append-nil (checksum content)));
    at = refl;
    size = refl;
  }

  module _ (laws : IsFormat f) where
    pub read_at_lem :
        (file before bytes behind : List ℕ) (len off : ℕ)
        → file ≡ before ++ (bytes ++ behind)
        → off ≡ length before
        → len ≡ length bytes
        → read_at file len off ≡ bytes
    unfolding read_at
    read_at_lem file before bytes behind len off e o l =
        let got : take len (drop off file) ≡ bytes =
          ap (λ t. take len (drop off t)) e
          ∙ ap (λ t. take len t) (drop-append_at off before (bytes ++ behind) o)
          ∙ take-append_at len bytes behind l in
        let full : len - length bytes ≡ 0 = omega (arith, l) in rw (got, full) (append-nil bytes)

    pub read_block_lem :
        (file : List ℕ) (ptr : ItemPointer) (content : List ℕ)
        → Stored file ptr content
        → read_block f file ptr ≡ ok content
    unfolding read_block
    read_block_lem file ptr content s =
        let sum = checksum content in
        let wide = laws.words.u32_width (f.crc32 content % 2 ^ 32) in
        let buf =
          read_at_lem file s.before (content ++ sum) s.behind (ptr.length + trailer_length)
            ptr.offset (s.laid ∙ ap (λ t. s.before ++ t) (sym (append_assoc content sum s.behind)))
            s.at (omega (arith, s.size, length-append content sum, wide)) in
        let body = take-append_at ptr.length content sum s.size in
        let word : f.order.read_u32 (drop ptr.length (content ++ sum)) ≡ f.crc32 content % 2 ^ 32 =
          ap f.order.read_u32 (drop-append_at ptr.length content sum s.size ∙ sym (append-nil sum))
          ∙ laws.words.u32_back (f.crc32 content % 2 ^ 32) [] (omega arith) in
        rw (buf, body, word) (ground arith)

  pub write_all_lem :
      (device : Device) (bytes : List ℕ) (b : BlockTableBuilder K)
      → Accepts device
      → write_all f device bytes b ≡ (ok tt, record b { out = b.out ++ bytes })
  unfolding write_all
  write_all_lem device bytes b a = rw (a b.out bytes, write_all) refl

  -- The builder behind a block.
  abbrev pub wrote : List ℕ → BlockTableBuilder K → BlockTableBuilder K
  wrote buf b = record b {
    out = b.out ++ buf ++ checksum buf;
    out_offset = b.out_offset + length buf + 4;
  }

  pub write_block_lem :
      (device : Device) (buf : List ℕ) (b : BlockTableBuilder K)
      → Accepts device
      → write_block f device buf b ≡ (ok (pointer_at b.out_offset buf), wrote buf b)
  unfolding write_block
  write_block_lem device buf b a =
      let b2 : BlockTableBuilder K = record b {
        out = b.out ++ buf;
        out_offset = b.out_offset + length buf;
      } in
      let same : (b.out_offset + length buf + trailer_length == b.out_offset + length buf + 4)
          ≡ true =
        ground arith in
      simp (write_all_lem device buf b a, write_all_lem device (checksum buf) b2 a, same) refl
