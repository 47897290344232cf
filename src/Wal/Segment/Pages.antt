-- ===== src/Wal/Segment/Pages.antt =====
-- The page in memory and the file behind it: what flushes and chunks of src/wal/segment.rs do to them.
use hybridmvcc.Base.{
  take-append, take-append-take, false, drop-append_past, take-append_at, take-append-drop,
  append_assoc, length-drop, take_whole, take-append_within, length-append, append-nil, ℕ, zero,
  suc, ◌+◌, ◌-◌, ◌%◌, ◌≤◌, true, none, List, [], ◌++◌, ok, ◌≡◌, inl, inr, refl, sym, ap, ◌∙◌, arith,
  if◌then◌else◌, Bool-cases, leb, length, take, drop,
}
use hybridmvcc.Bytes.{ByteOrder}
use hybridmvcc.Wal.Segment.{
  Segment, Device, zeros, page_size, header_size, flush_page, write_page, splice, chunk_bytes,
  write_chunk, segment_start, RecordHeaderType,
}

-- `before` are the bytes of the full pages, and `used` those of the page in memory, which is zero
-- behind them and in the file up to `page_flushed`.
pub record Holds (seg : Segment) (before used : List ℕ) : Type 0 where
  pub in_page : seg.page ≡ used ++ zeros (page_size - length used)
  pub allocated : seg.page_allocated ≡ length used
  pub fits : length used ≤ page_size
  pub flushed : seg.page_flushed ≤ length used
  pub in_file : seg.file ≡ before ++ take seg.page_flushed used
  pub started : length before ≡ seg.page_start
  pub aligned : seg.page_start % page_size ≡ 0

-- The system takes every write.
abbrev pub Accepts : Device → Type 0
Accepts device = (file bytes : List ℕ) → device file bytes ≡ none

pub length-zeros : (n : ℕ) → length (zeros n) ≡ n
unfolding zeros
length-zeros zero = refl
length-zeros (suc n) = omega (arith, length-zeros n)

drop-zeros : (m n : ℕ) → drop m (zeros n) ≡ zeros (n - m)
unfolding zeros
drop-zeros zero n = let e : n - 0 ≡ n = omega arith in rw e refl
drop-zeros (suc m) zero = let e : 0 - suc m ≡ 0 = omega arith in rw e refl
drop-zeros (suc m) (suc n) = let e : suc n - suc m ≡ n - m = omega arith in rw e (drop-zeros m n)

splice_lem :
    (n m : ℕ) (c used : List ℕ)
    → n ≡ length used
    → splice n c (used ++ zeros m) ≡ used ++ c ++ zeros (m - length c)
unfolding splice
splice_lem n m c used h =
    ap (λ t. t ++ (c ++ drop (n + length c) (used ++ zeros m))) (take-append_at n used (zeros m) h)
    ∙ ap (λ t. used ++ (c ++ t))
        (drop-append_past (length c) (n + length c) used (zeros m) (omega (arith, h))
          ∙ drop-zeros (length c) m)
    ∙ sym (append_assoc used c (zeros (m - length c)))

-- The zeros that fill a page whose rest is too short for a chunk.
abbrev pub padding : ℕ → List ℕ
padding used = if leb (page_size - used) header_size then zeros (page_size - used) else []

abbrev pub room_at : ℕ → ℕ
room_at used = if leb (page_size - used) header_size then 0 else used

module _ (seg : Segment) (before used : List ℕ) (h : Holds seg before used) where
  page_length : length seg.page ≡ page_size
  page_length =
      ap length h.in_page
      ∙ omega (
        arith,
        length-append used (zeros (page_size - length used)),
        length-zeros (page_size - length used),
        h.fits,
      )

  taken : take seg.page_flushed seg.page ≡ take seg.page_flushed used
  taken =
      ap (λ t. take seg.page_flushed t) h.in_page
      ∙ take-append_within seg.page_flushed used (zeros (page_size - length used)) h.flushed

  -- The file with the rest of the page is the full pages and this one.
  flushed_file :
      seg.file ++ take (page_size - seg.page_flushed) (drop seg.page_flushed seg.page)
      ≡ before ++ (used ++ zeros (page_size - length used))
  flushed_file =
      let rest = drop seg.page_flushed seg.page in
      ap (λ t. seg.file ++ t)
        (take_whole (page_size - seg.page_flushed) rest
          (omega (arith, length-drop seg.page_flushed seg.page, page_length)))
      ∙ ap (λ t. t ++ rest) (h.in_file ∙ ap (λ t. before ++ t) (sym taken))
      ∙ append_assoc before (take seg.page_flushed seg.page) rest
      ∙ ap (λ t. before ++ t) (take-append-drop seg.page_flushed seg.page ∙ h.in_page)

  abbrev pub fresh_page : Segment
  fresh_page = record seg {
    file = seg.file ++ take (page_size - seg.page_flushed) (drop seg.page_flushed seg.page);
    page = zeros page_size;
    page_allocated = 0;
    page_flushed = 0;
    page_start = seg.page_start + page_size;
  }

  pub fresh_page-Holds : Holds fresh_page (before ++ (used ++ zeros (page_size - length used))) []
  fresh_page-Holds = record {
    in_page = refl;
    allocated = refl;
    fits = omega arith;
    flushed = omega arith;
    in_file = flushed_file ∙ sym (append-nil _);
    started = omega (
      arith,
      length-append before (used ++ zeros (page_size - length used)),
      length-append used (zeros (page_size - length used)),
      length-zeros (page_size - length used),
      h.fits,
      h.started,
    );
    aligned = omega (arith, h.aligned);
  }

  write_page-reset :
      (device : Device) → Accepts device → write_page device true seg ≡ (ok tt, fresh_page)
  unfolding write_page
  write_page-reset device a =
      rw
        (
          a seg.file (take (page_size - seg.page_flushed) (drop seg.page_flushed seg.page)),
          write_page,
        )
        refl

  pub flush_page-reset :
      (device : Device) → Accepts device → flush_page device true seg ≡ (ok tt, fresh_page)
  unfolding flush_page
  flush_page-reset device a = write_page-reset device a

  kept_file :
      seg.file ++ take (seg.page_allocated - seg.page_flushed) (drop seg.page_flushed seg.page)
      ≡ before ++ used
  kept_file =
      let rest = take (seg.page_allocated - seg.page_flushed) (drop seg.page_flushed seg.page) in
      ap (λ t. t ++ rest) (h.in_file ∙ ap (λ t. before ++ t) (sym taken))
      ∙ append_assoc before (take seg.page_flushed seg.page) rest
      ∙ ap (λ t. before ++ t)
          (take-append-take seg.page_flushed (seg.page_allocated - seg.page_flushed) (length used)
              seg.page (omega (arith, h.allocated, h.flushed))
            ∙ ap (λ t. take (length used) t) h.in_page
            ∙ take-append used (zeros (page_size - length used)))

  abbrev kept_page : Segment
  kept_page = record seg {
    file =
        seg.file ++ take (seg.page_allocated - seg.page_flushed) (drop seg.page_flushed seg.page);
    page_flushed = seg.page_allocated;
  }

  write_page-keep :
      (device : Device) → Accepts device → write_page device false seg ≡ (ok tt, kept_page)
  unfolding write_page
  write_page-keep device a =
      rw
        (
          a seg.file
              (take (seg.page_allocated - seg.page_flushed) (drop seg.page_flushed seg.page)),
          write_page,
        )
        refl

  -- A flush without a reset has all bytes of the segment in the file, at most zeros behind them.
  pub flush_page_lem :
      (device : Device)
      → Accepts device
      → (after : Segment) × (tail : List ℕ) × (flush_page device false seg ≡ (ok tt, after))
        × (after.file ≡ before ++ used ++ tail)
  unfolding flush_page
  flush_page_lem device a = elim (Bool-cases (leb page_size (seg.page_allocated + header_size))) [
    | inl e ↦ (
      fresh_page,
      zeros (page_size - length used),
      ap (λ t. write_page device t seg) e ∙ write_page-reset device a,
      flushed_file ∙ sym (append_assoc before used (zeros (page_size - length used))),
    )
    | inr e ↦ (
      kept_page,
      [],
      ap (λ t. write_page device t seg) e ∙ write_page-keep device a,
      kept_file ∙ sym (append-nil (before ++ used)),
    )
  ]

  pub write_chunk-Holds :
      (b : ByteOrder) (crc32 : List ℕ → ℕ) (typ : RecordHeaderType) (chunk : List ℕ)
      → length used + length (chunk_bytes b crc32 typ chunk) ≤ page_size
      → Holds (write_chunk b crc32 typ chunk seg) before (used ++ chunk_bytes b crc32 typ chunk)
  unfolding write_chunk
  write_chunk-Holds b crc32 typ chunk le =
      let c = chunk_bytes b crc32 typ chunk in
      let k = page_size - length used in
      let grown = length-append used c in
      record {
        in_page =
            ap (λ t. splice seg.page_allocated c t) h.in_page
            ∙ splice_lem seg.page_allocated k c used h.allocated
            ∙ ap (λ t. used ++ c ++ zeros t) (omega (arith, grown));
        allocated = omega (arith, grown, h.allocated);
        fits = omega (arith, grown, le);
        flushed = omega (arith, grown, h.flushed);
        in_file =
            h.in_file
            ∙ ap (λ t. before ++ t) (sym (take-append_within seg.page_flushed used c h.flushed));
        started = h.started;
        aligned = h.aligned;
      }

pub write_chunk-start :
    (b : ByteOrder) (crc32 : List ℕ → ℕ) (typ : RecordHeaderType) (chunk : List ℕ) (seg : Segment)
    → segment_start (write_chunk b crc32 typ chunk seg) ≡ segment_start seg
unfolding segment_start write_chunk
write_chunk-start b crc32 typ chunk seg = refl
