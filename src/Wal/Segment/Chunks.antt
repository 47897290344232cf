-- ===== src/Wal/Segment/Chunks.antt =====
-- One chunk under `read_record` of src/wal/segment.rs: it is read whole, with its type and checksum.
use hybridmvcc.Base.{
  get_elem?, drop-append_past, append_assoc, append-nil, drop-append_at, take-append_at,
  length-append, ℕ, zero, suc, ◌+◌, ◌-◌, ◌%◌, ◌^◌, ◌<◌, Bool, true, false, Option, some, List, [],
  ◌∷◌, ◌++◌, Outcome, ok, ◌≡◌, refl, sym, ap, ◌∙◌, arith, ◌>>=◌, leb, length, take, drop,
}
use hybridmvcc.Base.{slice_at, get_elem?_at}
use hybridmvcc.Bytes.{ByteOrder, IsByteOrder}
use hybridmvcc.Wal.Segment.{
  zeros, header_size, checksum_size, chunk_bytes, next_type, RecordHeaderType, no_record, full,
  first, middle, last, bad_record, type_byte, type_of_byte, ends_record, read_chunk, next_page,
  read_loop,
}
use hybridmvcc.Wal.Segment.Writer.{length-chunk_bytes}

-- The types that a chunk is written with, and those that a record may go on after.
abbrev pub is_chunk : RecordHeaderType → Bool
is_chunk no_record = false
is_chunk bad_record = false
is_chunk full = true
is_chunk first = true
is_chunk middle = true
is_chunk last = true

abbrev pub goes_on : RecordHeaderType → Bool
goes_on no_record = true
goes_on first = true
goes_on middle = true
goes_on full = false
goes_on last = false
goes_on bad_record = false

pub next_type_lem :
    (typ : RecordHeaderType) (is_last : Bool)
    → goes_on typ ≡ true
    → (is_chunk (next_type typ is_last) ≡ true)
      × (ends_record (next_type typ is_last) ≡ is_last)
      × (is_last ≡ false → goes_on (next_type typ is_last) ≡ true)
unfolding next_type
next_type_lem no_record true h = (refl, refl, λ e. cc)
next_type_lem no_record false h = (refl, refl, λ e. refl)
next_type_lem first true h = (refl, refl, λ e. cc)
next_type_lem first false h = (refl, refl, λ e. refl)
next_type_lem middle true h = (refl, refl, λ e. cc)
next_type_lem middle false h = (refl, refl, λ e. refl)
next_type_lem full is_last h = cc
next_type_lem last is_last h = cc
next_type_lem bad_record is_last h = cc

regroup4 : (a b c d : List ℕ) → a ++ b ++ c ++ d ≡ a ++ (b ++ (c ++ d))
regroup4 a b c d = simp append_assoc refl

pub zeros_cons : (k : ℕ) → 0 < k → zeros k ≡ 0 ∷ zeros (k - 1)
unfolding zeros
zeros_cons zero h = absurd (omega arith)
zeros_cons (suc k) h = let e : suc k - 1 ≡ k = omega arith in rw e refl

pub zeros_none : zeros 0 ≡ []
unfolding zeros
zeros_none = refl

module _ (b : ByteOrder) (words : IsByteOrder b) (crc32 : List ℕ → ℕ) where
  read_chunk_lem :
      (typ : RecordHeaderType) (chunk bytes : List ℕ) (p : ℕ) (pre tail : List ℕ)
      → bytes ≡ pre ++ (chunk_bytes b crc32 typ chunk ++ tail)
      → p ≡ length pre
      → length chunk < 2 ^ 16
      → read_chunk b crc32 bytes p ≡ ok (chunk, p + 3 + length chunk + checksum_size)
  unfolding read_chunk
  read_chunk_lem typ chunk bytes p pre tail e h small =
      let n = b.write_u16 (length chunk % 2 ^ 16) in
      let header = type_byte typ ∷ (n ++ chunk) in
      let w = b.write_u32 (crc32 header % 2 ^ 32) in
      let whole = chunk_bytes b crc32 typ chunk in
      let size = length-chunk_bytes b words crc32 typ chunk in
      let four = words.u32_width (crc32 header % 2 ^ 32) in
      let parts : whole ≡ header ++ w = unfold chunk_bytes in refl in
      let head : length whole - checksum_size ≡ length header =
        omega (arith, ap length parts, length-append header w, four) in
      let len : b.read_u16 (drop (p + 1) bytes) ≡ length chunk =
        ap (λ t. b.read_u16 (drop (p + 1) t)) (e ∙ ap (λ t. pre ++ (t ++ tail)) parts)
        ∙ ap b.read_u16 (
            drop-append_past 1 (p + 1) pre (header ++ w ++ tail) (omega (arith, h))
            ∙ regroup4 n chunk w tail)
        ∙ words.u16_back (length chunk % 2 ^ 16) (chunk ++ (w ++ tail)) (omega arith)
        ∙ omega (arith, small) in
      let at =
        slice_at bytes p (3 + length chunk + checksum_size) pre whole tail e h
          (omega (arith, size)) in
      let body : take (length whole - checksum_size) whole ≡ header =
        ap (λ t. take (length whole - checksum_size) t) parts ∙ take-append_at _ header w head in
      let sum : b.read_u32 (drop (length whole - checksum_size) whole) ≡ crc32 header % 2 ^ 32 =
        ap b.read_u32 (
          ap (λ t. drop (length whole - checksum_size) t) parts
          ∙ drop-append_at _ header w head
          ∙ sym (append-nil w))
        ∙ words.u32_back (crc32 header % 2 ^ 32) [] (omega arith) in
      let own : drop 3 header ≡ chunk =
        drop-append_at 2 n chunk (omega (arith, words.u16_width (length chunk % 2 ^ 16))) in
      ground (arith, len, at, body, sum, own)

  -- What a round does with a chunk of a type that a record may have.
  abbrev pub after_chunk :
      ℕ → List ℕ → ℕ → List ℕ → RecordHeaderType → List ℕ × ℕ → Outcome (Option (List ℕ × ℕ))
  after_chunk fuel bytes offset buffer typ (chunk, p') = elim (ends_record typ) [
    | true ↦ ok (some (buffer ++ chunk, p' - offset))
    | false ↦ read_loop b crc32 fuel bytes offset true p' (buffer ++ chunk)
  ]

  pub after_chunk_end :
      (rounds : ℕ) (bytes : List ℕ) (offset : ℕ) (buffer : List ℕ) (typ : RecordHeaderType)
      (chunk : List ℕ) (p : ℕ)
      → ends_record typ ≡ true
      → after_chunk rounds bytes offset buffer typ (chunk, p)
        ≡ ok (some (buffer ++ chunk, p - offset))
  after_chunk_end rounds bytes offset buffer typ chunk p e = rw (e, after_chunk) refl

  pub after_chunk_more :
      (rounds : ℕ) (bytes : List ℕ) (offset : ℕ) (buffer : List ℕ) (typ : RecordHeaderType)
      (chunk : List ℕ) (p : ℕ)
      → ends_record typ ≡ false
      → after_chunk rounds bytes offset buffer typ (chunk, p)
        ≡ read_loop b crc32 rounds bytes offset true p (buffer ++ chunk)
  after_chunk_more rounds bytes offset buffer typ chunk p e = rw (e, after_chunk) refl

  round_chunk :
      (typ : RecordHeaderType) (fuel : ℕ) (bytes : List ℕ) (offset : ℕ) (started : Bool) (p : ℕ)
      (buffer : List ℕ)
      → is_chunk typ ≡ true
      → leb (length bytes) (p + header_size) ≡ false
      → get_elem? bytes p ≡ some (type_byte typ)
      → read_loop b crc32 (suc fuel) bytes offset started p buffer
        ≡ (read_chunk b crc32 bytes p >>= after_chunk fuel bytes offset buffer typ)
  unfolding read_loop type_of_byte
  round_chunk no_record fuel bytes offset started p buffer is l g = cc
  round_chunk bad_record fuel bytes offset started p buffer is l g = cc
  round_chunk full fuel bytes offset started p buffer is l g = rw (l, g, read_loop) refl
  round_chunk first fuel bytes offset started p buffer is l g = rw (l, g, read_loop) refl
  round_chunk middle fuel bytes offset started p buffer is l g = rw (l, g, read_loop) refl
  round_chunk last fuel bytes offset started p buffer is l g = rw (l, g, read_loop) refl

  -- One round of the loop on a chunk.
  pub read_loop-chunk :
      (typ : RecordHeaderType) (chunk bytes : List ℕ) (p : ℕ) (pre tail : List ℕ) (fuel offset : ℕ)
      (started : Bool) (buffer : List ℕ)
      → is_chunk typ ≡ true
      → bytes ≡ pre ++ (chunk_bytes b crc32 typ chunk ++ tail)
      → p ≡ length pre
      → 0 < length chunk
      → length chunk < 2 ^ 16
      → read_loop b crc32 (suc fuel) bytes offset started p buffer
        ≡ after_chunk fuel bytes offset buffer typ (chunk, p + 3 + length chunk + checksum_size)
  unfolding chunk_bytes
  read_loop-chunk typ chunk bytes p pre tail fuel offset started buffer is e h pos small =
      round_chunk typ fuel bytes offset started p buffer is
        (ground (
          arith,
          ap length e,
          length-append pre (chunk_bytes b crc32 typ chunk ++ tail),
          length-append (chunk_bytes b crc32 typ chunk) tail,
          length-chunk_bytes b words crc32 typ chunk,
        ))
        (get_elem?_at bytes p pre _ (type_byte typ) e h)
      ∙ ap (λ r. r >>= after_chunk fuel bytes offset buffer typ)
          (read_chunk_lem typ chunk bytes p pre tail e h small)

  pub round_none :
      (fuel : ℕ) (bytes : List ℕ) (offset : ℕ) (started : Bool) (p : ℕ) (buffer : List ℕ)
      → leb (length bytes) (p + header_size) ≡ false
      → get_elem? bytes p ≡ some 0
      → leb (length bytes) (next_page (p + 1) + header_size) ≡ false
      → read_loop b crc32 (suc fuel) bytes offset started p buffer
        ≡ read_loop b crc32 fuel bytes offset started (next_page (p + 1)) buffer
  unfolding read_loop type_of_byte
  round_none fuel bytes offset started p buffer l g n = rw (l, g, read_loop) (rw n refl)
