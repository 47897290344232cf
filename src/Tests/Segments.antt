-- ===== src/Tests/Segments.antt =====
-- A segment of two pages, and records that end near the end of a page.
use hybridmvcc.Base.{
  ap, List, ◌++◌, length-append, get_elem?_at, append_assoc, sym, drop, drop-append_past, slice,
  slice_lem, get_elem?, ℕ, ◌+◌, false, none, some, [], ◌∷◌, ok, ◌≡◌, refl, arith, length,
}
use hybridmvcc.Wal.Segment.{
  checksum_size, read_loop, read_chunk, type_of_byte, Segment, zeros, append, flush_page,
  read_record, current_lsn, sufficient_capacity, page_size,
}
use hybridmvcc.Wal.Segment.Pages.{length-zeros, Holds}
use hybridmvcc.Wal.Segment.RoundTrip.{read-append}
use hybridmvcc.Wal.Segment.Gaps.{next_page_lost}
use hybridmvcc.Tests.Blocks.{words, words-IsByteOrder}

abbrev fresh : Segment
fresh = record {
  segno = 1;
  file = [];
  page = zeros page_size;
  page_allocated = 0;
  page_flushed = 0;
  page_start = 0;
  capacity = 0x20000;
}

fresh-Holds : Holds fresh [] []
fresh-Holds = record {
  in_page = refl;
  allocated = refl;
  fits = omega arith;
  flushed = omega arith;
  in_file = refl;
  started = refl;
  aligned = refl;
}

read-append_example :
    (after : Segment) × (flushed : Segment) × (size : ℕ) × (append
        (λ _ _. none)
        words
        length
        (7 ∷ 8 ∷ 9 ∷ [])
        fresh
      ≡ (ok (some (current_lsn fresh + size)), after))
    × (flush_page (λ _ _. none) false after ≡ (ok tt, flushed))
    × (read_record words length flushed.file 0 ≡ ok (some (7 ∷ 8 ∷ 9 ∷ [], size)))
unfolding sufficient_capacity
read-append_example =
    read-append words words-IsByteOrder length (λ _ _. none) (λ _ _. refl) (7 ∷ 8 ∷ 9 ∷ []) fresh []
      [] fresh-Holds (omega arith) refl (λ e. absurd (omega arith))

-- A record of two bytes: type, length, bytes and checksum.
abbrev two_bytes : List ℕ
two_bytes = 1 ∷ 2 ∷ 0 ∷ 7 ∷ 8 ∷ 5 ∷ 0 ∷ 0 ∷ 0 ∷ []

-- A page of zeros.
abbrev zero_page : List ℕ
zero_page = zeros 0xffff ++ (0 ∷ [])

length-zero_page : length zero_page ≡ 0x10000
length-zero_page = omega (arith, length-append (zeros 0xffff) (0 ∷ []), length-zeros 0xffff)

length-two_pages : length (zero_page ++ two_bytes) ≡ 0x10009
length-two_pages = omega (arith, length-append zero_page two_bytes, length-zero_page)

-- The page after the zeros holds the record.
next_page_lost_example : read_record words length (zero_page ++ two_bytes) 0xffff ≡ ok none
next_page_lost_example =
    next_page_lost words length 0xffff (zero_page ++ two_bytes) refl
      (get_elem?_at (zero_page ++ two_bytes) 0xffff (zeros 0xffff) two_bytes 0
        (append_assoc (zeros 0xffff) (0 ∷ []) two_bytes) (sym (length-zeros 0xffff)))
      (omega (arith, length-two_pages))

-- A read that starts at that page finds it.
two_bytes-chunk :
    read_chunk words length (zero_page ++ two_bytes) 0x10000 ≡ ok (7 ∷ 8 ∷ [], 0x10009)
unfolding read_chunk
two_bytes-chunk =
    let size : drop 0x10001 (zero_page ++ two_bytes) ≡ drop 1 two_bytes =
      drop-append_past 1 0x10001 zero_page two_bytes (omega (arith, length-zero_page)) in
    let chunk : slice 0x10000 9 (zero_page ++ two_bytes) ≡ some two_bytes =
      slice_lem 0x10000 9 zero_page two_bytes [] (sym length-zero_page) refl in
    rw (size, chunk, read_chunk)
      (ap (λ t. ok (7 ∷ 8 ∷ [], 0x10003 + words.read_u16 t + checksum_size)) size)

next_page_test :
    read_record words length (zero_page ++ two_bytes) 0x10000 ≡ ok (some (7 ∷ 8 ∷ [], 9))
unfolding read_record read_loop type_of_byte
next_page_test =
    let typ : get_elem? (zero_page ++ two_bytes) 0x10000 ≡ some 1 =
      get_elem?_at (zero_page ++ two_bytes) 0x10000 zero_page (drop 1 two_bytes) 1 refl
        (sym length-zero_page) in
    ground (arith, length-two_pages, typ, two_bytes-chunk)
