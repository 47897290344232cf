-- ===== src/Wal/Segment/Gaps.antt =====
-- The last byte of a page: what `read_record` of src/wal/segment.rs does there.
use hybridmvcc.Base.{
  get_elem?, ℕ, suc, ◌+◌, ◌-◌, ◌%◌, ◌≤◌, true, false, none, some, List, [], ok, ◌≡◌, inl, inr, refl,
  arith, Bool-cases, leb, length,
}
use hybridmvcc.Bytes.{ByteOrder}
use hybridmvcc.Wal.Segment.{read_record, read_loop, page_size, header_size, next_page, type_of_byte}

next_page-last : (p : ℕ) → p % page_size ≡ page_size - 1 → next_page (p + 1) ≡ p + 1 + page_size
next_page-last p h = omega (arith, h)

module _ (b : ByteOrder) (crc32 : List ℕ → ℕ) where
  read_loop-last_byte :
      (fuel p : ℕ) (bytes : List ℕ)
      → p % page_size ≡ page_size - 1
      → get_elem? bytes p ≡ some 0
      → length bytes ≤ p + 1 + page_size + header_size
      → leb (length bytes) (p + header_size) ≡ false
      → read_loop b crc32 (suc fuel) bytes p false p [] ≡ ok none
  unfolding read_loop type_of_byte
  read_loop-last_byte fuel p bytes last gap short more =
      let over : leb (length bytes) (next_page (p + 1) + header_size) ≡ true =
        ground (arith, next_page-last p last, short) in
      rw (more, gap, over) refl

  -- When a zero byte stands in the last position `p` of a page and the file ends no later than one
  -- header (seven bytes) behind the page after it, `read_record` at `p` says that no record is
  -- left, whatever that page holds: it steps over the byte and then looks for the end of the page
  -- that it has just entered.
  pub next_page_lost :
      (p : ℕ) (bytes : List ℕ)
      → p % page_size ≡ page_size - 1
      → get_elem? bytes p ≡ some 0
      → length bytes ≤ p + 1 + page_size + header_size
      → read_record b crc32 bytes p ≡ ok none
  unfolding read_record
  next_page_lost p bytes last gap short = elim (Bool-cases (leb (length bytes) (p + header_size))) [
    | inl e ↦ rw e refl
    | inr e ↦ rw e (read_loop-last_byte (length bytes) p bytes last gap short e)
  ]
