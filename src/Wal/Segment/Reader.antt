-- ===== src/Wal/Segment/Reader.antt =====
-- `read_record` of src/wal/segment.rs on its way through the pages: it steps over padding, and from
-- chunk to chunk.
use hybridmvcc.Base.{
  append_assoc, length-append, ℕ, zero, suc, ◌+◌, ◌-◌, ◌%◌, ◌^◌, ◌<◌, ◌≤◌, Bool, true, List, ◌++◌,
  ◌≡◌, ◌≢◌, inl, inr, refl, sym, ap, ◌∙◌, arith, Bool-cases, ltb, leb, length,
}
use hybridmvcc.Base.{get_elem?_at}
use hybridmvcc.Bytes.{ByteOrder, IsByteOrder}
use hybridmvcc.Wal.Segment.{
  zeros, page_size, header_size, checksum_size, chunk_bytes, RecordHeaderType, next_page, read_loop,
}
use hybridmvcc.Wal.Segment.Pages.{padding, room_at, length-zeros}
use hybridmvcc.Wal.Segment.Writer.{length-chunk_bytes}
use hybridmvcc.Wal.Segment.Chunks.{
  read_loop-chunk, round_none, after_chunk, is_chunk, zeros_cons, zeros_none,
}

module _ (b : ByteOrder) (words : IsByteOrder b) (crc32 : List ℕ → ℕ) where
  -- A state of the reader on its way through a segment.
  pub record At (bytes more : List ℕ) (p used rounds : ℕ) : Type 0 where
    pub pre : List ℕ
    pub laid : bytes ≡ pre ++ more
    pub here : p ≡ length pre
    pub in_page : p % page_size ≡ used % page_size
    pub enough : length bytes < rounds + p

  skip_zeros :
      (bytes more : List ℕ) (p used rounds offset : ℕ) (started : Bool) (buffer : List ℕ)
      → At bytes (zeros (page_size - used) ++ more) p used rounds
      → suc used < page_size
      → page_size - used ≤ header_size
      → header_size < length more
      → (rounds' : ℕ) × (read_loop b crc32 rounds bytes offset started p buffer
          ≡ read_loop b crc32 rounds' bytes offset started
              (p + length (zeros (page_size - used)))
              buffer)
        × At bytes more (p + length (zeros (page_size - used))) 0 rounds'
  skip_zeros bytes more p used zero offset started buffer s lo hi big = absurd (
      omega (
        arith,
        s.enough,
        s.here,
        ap length s.laid,
        length-append s.pre (zeros (page_size - used) ++ more),
      ))
  skip_zeros bytes more p used (suc rounds) offset started buffer s lo hi big =
      let k = page_size - used in
      let total = ap length s.laid in
      let outer = length-append s.pre (zeros k ++ more) in
      let inner = length-append (zeros k) more in
      let wide = length-zeros k in
      let first_zero = zeros_cons k (omega arith) in
      let behind = length-append s.pre (zeros k) in
      let next : next_page (p + 1) ≡ p + length (zeros k) = omega (arith, s.in_page, wide) in
      (
        rounds,
        round_none b words crc32 rounds bytes offset started p buffer
              (ground (arith, s.here, total, outer, inner))
              (get_elem?_at bytes p s.pre (zeros (k - 1) ++ more) 0
                (s.laid ∙ ap (λ t. s.pre ++ (t ++ more)) first_zero) s.here)
              (ground (arith, s.here, total, outer, inner, wide, next))
            ∙ ap (λ t. read_loop b crc32 rounds bytes offset started t buffer) next,
        record {
          pre = s.pre ++ zeros k;
          laid = s.laid ∙ sym (append_assoc s.pre (zeros k) more);
          here = omega (arith, s.here, behind);
          in_page = omega (arith, s.in_page, wide);
          enough = omega (arith, s.enough, wide);
        },
      )

  -- The reader gets behind the padding, unless the page has exactly one byte left.
  pub skip_padding :
      (bytes more : List ℕ) (p used rounds offset : ℕ) (started : Bool) (buffer : List ℕ)
      → At bytes (padding used ++ more) p used rounds
      → used ≤ page_size
      → suc used ≢ page_size
      → header_size < length more
      → (rounds' : ℕ) × (read_loop b crc32 rounds bytes offset started p buffer
          ≡ read_loop b crc32 rounds' bytes offset started (p + length (padding used)) buffer)
        × At bytes more (p + length (padding used)) (room_at used) rounds'
  skip_padding bytes more p used rounds offset started buffer s fits odd big =
      elim (Bool-cases (leb (page_size - used) header_size)) [
        | inl tight ↦ elim (Bool-cases (ltb (suc used) page_size)) [
          | inl part ↦ rw tight (
              skip_zeros bytes more p used rounds offset started buffer (rw tight at s)
                (ground (arith, part)) (ground (arith, tight)) big)
          | inr full_page ↦
              let none_left : page_size - used ≡ 0 = ground (arith, odd, full_page, fits) in
              rw (tight, none_left)
                (stay (rw (tight, none_left) at s) (ground (arith, none_left, fits)))
        ]
        | inr wide ↦ rw wide (keep_at (rw wide at s))
      ]
    where
      keep_at :
          At bytes more p used rounds
          → (rounds' : ℕ) × (read_loop b crc32 rounds bytes offset started p buffer
              ≡ read_loop b crc32 rounds' bytes offset started (p + 0) buffer)
            × At bytes more (p + 0) used rounds'
      keep_at t = let e : p + 0 ≡ p = omega arith in rw e (rounds, refl, t)

      stay :
          At bytes (zeros 0 ++ more) p used rounds
          → used ≡ page_size
          → (rounds' : ℕ) × (read_loop b crc32 rounds bytes offset started p buffer
              ≡ read_loop b crc32 rounds' bytes offset started (p + length (zeros 0)) buffer)
            × At bytes more (p + length (zeros 0)) 0 rounds'
      stay t u =
          let e : p + length (zeros 0) ≡ p = omega (arith, length-zeros 0) in
          rw e (
            rounds,
            refl,
            record {
              pre = t.pre;
              laid = t.laid ∙ ap (λ z. t.pre ++ (z ++ more)) zeros_none;
              here = t.here;
              in_page = omega (arith, t.in_page, u);
              enough = t.enough;
            },
          )

  pub step_chunk :
      (typ : RecordHeaderType) (chunk bytes more : List ℕ) (p used rounds offset : ℕ)
      (started : Bool) (buffer : List ℕ)
      → is_chunk typ ≡ true
      → At bytes (chunk_bytes b crc32 typ chunk ++ more) p used rounds
      → 0 < length chunk
      → length chunk < 2 ^ 16
      → (rounds' : ℕ) × (read_loop b crc32 rounds bytes offset started p buffer
          ≡ after_chunk b words crc32 rounds' bytes offset buffer typ
              (chunk, p + (length chunk + header_size)))
        × At bytes more
            (p + (length chunk + header_size))
            (used + (length chunk + header_size))
            rounds'
  step_chunk typ chunk bytes more p used zero offset started buffer is s pos small = absurd (
      omega (
        arith,
        s.enough,
        s.here,
        ap length s.laid,
        length-append s.pre (chunk_bytes b crc32 typ chunk ++ more),
      ))
  step_chunk typ chunk bytes more p used (suc rounds) offset started buffer is s pos small =
      let cb = chunk_bytes b crc32 typ chunk in
      let behind : p + 3 + length chunk + checksum_size ≡ p + (length chunk + header_size) =
        omega arith in
      (
        rounds,
        read_loop-chunk b words crc32 typ chunk bytes p s.pre more rounds offset started buffer is
              s.laid s.here pos small
            ∙ ap (λ t. after_chunk b words crc32 rounds bytes offset buffer typ (chunk, t)) behind,
        record {
          pre = s.pre ++ cb;
          laid = s.laid ∙ sym (append_assoc s.pre cb more);
          here =
              omega
                (arith, s.here, length-append s.pre cb, length-chunk_bytes b words crc32 typ chunk);
          in_page = omega (arith, s.in_page);
          enough = omega (arith, s.enough);
        },
      )
