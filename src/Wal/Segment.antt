-- ===== src/Wal/Segment.antt =====
-- src/wal/segment.rs: a segment is a file of pages; a record is cut into chunks that do not cross a
-- page, each with a type, a length and a checksum.
pub mod Pages
pub mod Writer
pub mod Chunks
pub mod Reader
pub mod RoundTrip
pub mod Gaps
use hybridmvcc.Base.{
  slice, replicate, get_elem?, ℕ, zero, suc, ◌+◌, ◌-◌, ◌*◌, ◌/◌, ◌%◌, ◌^◌, ◌<◌, ◌≤◌, Bool, true,
  false, not, ◌&&◌, ◌||◌, Option, none, some, List, [], ◌∷◌, ◌++◌, ◌==◌, Outcome, ok, err, panic,
  ◌≡◌, ◌≢◌, ◌⊎◌, ◌↔◌, inl, inr, refl, sym, ap, ◌∙◌, arith, All, Ordering, if◌then◌else◌, Ord,
  key_eq, key_lt, Bool-cases, Option-cases, ◌>>=◌, ltb, leb, length, take, drop, is_lt, is_eq,
  is_gt, compare, min,
}
use hybridmvcc.Base.{Error, io, data_corrupted, invalid_argument}
use hybridmvcc.Bytes.{ByteOrder}
use hybridmvcc.Wal.Records.{LogPointer}

-- `SEGMENT_PAGE_SIZE`, `CHECKSUM_SIZE` and `RECORD_HEADER_SIZE`
abbrev pub page_size : ℕ
page_size = 0x10000

abbrev pub checksum_size : ℕ
checksum_size = 4

abbrev pub header_size : ℕ
header_size = 7

pub data RecordHeaderType : Type 0 where
  no_record full first middle last bad_record : RecordHeaderType

abbrev pub type_byte : RecordHeaderType → ℕ
type_byte no_record = 0
type_byte full = 1
type_byte first = 2
type_byte middle = 3
type_byte last = 4
type_byte bad_record = 5

unfoldable pub type_of_byte : ℕ → RecordHeaderType
type_of_byte n =
    if n == 0
    then no_record
    else if n == 1
    then full
    else if n == 2
    then first
    else if n == 3
    then middle
    else if n == 4
    then last
    else bad_record

unfoldable pub zeros : ℕ → List ℕ
zeros n = replicate n 0

-- `page_flushed` and `page_allocated` are positions in `page`, and `page_start` is that of the page
-- in the file.
pub record Segment : Type 0 where
  pub segno : ℕ
  pub file : List ℕ
  pub page : List ℕ
  pub page_allocated : ℕ
  pub page_flushed : ℕ
  pub page_start : ℕ
  pub capacity : ℕ

unfoldable pub check_capacity : ℕ → Outcome (Unit {0})
check_capacity capacity = if ltb header_size capacity then ok tt else err invalid_argument

-- `create` with the file that the system has opened.
unfoldable pub create : ℕ → List ℕ → ℕ → Outcome Segment
create segno file capacity = do
  check ← check_capacity capacity
  ok (record {
    segno = segno;
    file = file;
    page = zeros page_size;
    page_allocated = 0;
    page_flushed = 0;
    page_start = 0;
    capacity = capacity;
  })

-- `open`: the file is padded to whole pages.
unfoldable pub open_segment : ℕ → List ℕ → ℕ → Outcome Segment
open_segment segno file capacity =
    let over = length file % page_size in
    let padding = if over == 0 then 0 else page_size - over in
    check_capacity capacity >>= λ check.
    if ltb capacity (length file)
    then err invalid_argument
    else ok (record {
      segno = segno;
      file = file ++ zeros padding;
      page = zeros page_size;
      page_allocated = 0;
      page_flushed = 0;
      page_start = length file + padding;
      capacity = capacity;
    })

unfoldable pub segment_start : Segment → LogPointer
segment_start seg = (seg.segno - 1) * seg.capacity

unfoldable pub current_lsn : Segment → LogPointer
current_lsn seg = segment_start seg + (seg.page_start + seg.page_allocated)

unfoldable pub flushed_lsn : Segment → LogPointer
flushed_lsn seg = segment_start seg + (seg.page_start + seg.page_flushed)

abbrev pub dirty : Segment → Bool
dirty seg = not (seg.page_allocated == seg.page_flushed)

unfoldable pub sufficient_capacity : Segment → ℕ → Outcome Bool
sufficient_capacity seg record_size =
    let remaining_pages = (seg.capacity - seg.page_start) / page_size in
    let here = page_size - seg.page_allocated in
    let remaining =
      if ltb 0 remaining_pages
      then here + (page_size - header_size) * (remaining_pages - 1)
      else here in
    if ltb seg.capacity seg.page_start
    then panic
    else if seg.capacity == seg.page_start
    then ok false
    else ok (leb record_size remaining)

-- The type of a chunk, from that of the chunk before.
unfoldable pub next_type : RecordHeaderType → Bool → RecordHeaderType
next_type no_record is_last = if is_last then full else first
next_type first is_last = if is_last then last else middle
next_type middle is_last = if is_last then last else middle
next_type full is_last = no_record
next_type last is_last = no_record
next_type bad_record is_last = no_record

-- `copy_from_slice` into a page.
unfoldable pub splice : ℕ → List ℕ → List ℕ → List ℕ
splice start bytes page = take start page ++ (bytes ++ drop (start + length bytes) page)

module _ (b : ByteOrder) (crc32 : List ℕ → ℕ) where
  unfoldable pub chunk_bytes : RecordHeaderType → List ℕ → List ℕ
  chunk_bytes typ chunk =
      let header = type_byte typ ∷ (b.write_u16 (length chunk % 2 ^ 16) ++ chunk) in
      header ++ b.write_u32 (crc32 header % 2 ^ 32)

  unfoldable pub write_chunk : RecordHeaderType → List ℕ → Segment → Segment
  write_chunk typ chunk seg = record seg {
    page = splice seg.page_allocated (chunk_bytes typ chunk) seg.page;
    page_allocated = seg.page_allocated + length (chunk_bytes typ chunk);
  }

-- How the system takes a write at the end of a file: all of it, or an error after some bytes.
abbrev pub Device : Type 0
Device = List ℕ → List ℕ → Option ℕ

module _ (device : Device) where
  -- `flush_page` once it is known whether the page is done with.
  unfoldable pub write_page : Bool → Segment → Outcome (Unit {0}) × Segment
  write_page reset seg =
      let allocated = if reset then page_size else seg.page_allocated in
      let bytes = take (allocated - seg.page_flushed) (drop seg.page_flushed seg.page) in
      elim (device seg.file bytes) [
        | some n ↦
            (err io, record seg { page_allocated = allocated; file = seg.file ++ take n bytes })
        | none ↦ (
          ok tt,
          (if reset
              then record seg {
                file = seg.file ++ bytes;
                page = zeros page_size;
                page_allocated = 0;
                page_flushed = 0;
                page_start = seg.page_start + page_size;
              }
              else record seg {
                file = seg.file ++ bytes;
                page_allocated = allocated;
                page_flushed = allocated;
              }),
        )
      ]

  unfoldable pub flush_page : Bool → Segment → Outcome (Unit {0}) × Segment
  flush_page reset seg = write_page (reset || leb page_size (seg.page_allocated + header_size)) seg

  -- The flush at the front of a round of `append`.
  unfoldable pub make_room : Segment → Outcome (Unit {0}) × Segment
  make_room seg =
      if leb (page_size - seg.page_allocated) header_size then flush_page true seg else (ok tt, seg)

  module _ (b : ByteOrder) (crc32 : List ℕ → ℕ) where
    -- The loop of `append`. A round takes at least one byte, so fuel above the length is enough.
    unfoldable pub append_loop :
        ℕ → RecordHeaderType → List ℕ → Segment → Outcome (Unit {0}) × Segment
    append_loop zero typ rest seg = (panic, seg)
    append_loop (suc fuel) typ [] seg = (ok tt, seg)
    append_loop (suc fuel) typ (x ∷ xs) seg =
        let (room, seg') = make_room seg in
        let size = min (length (x ∷ xs)) (page_size - seg'.page_allocated - header_size) in
        let typ' = next_type typ (size == length (x ∷ xs)) in
        elim room [
          | ok _ ↦
              append_loop fuel typ' (drop size (x ∷ xs))
                (write_chunk b crc32 typ' (take size (x ∷ xs)) seg')
          | err e ↦ (err e, seg')
          | panic ↦ (panic, seg')
        ]

    -- `none` when the segment says that it has no room.
    unfoldable pub append : List ℕ → Segment → Outcome (Option LogPointer) × Segment
    append bytes seg = elim (sufficient_capacity seg (length bytes)) [
      | ok true ↦
          let (done, seg') = append_loop (suc (length bytes)) no_record bytes seg in
          (done >>= λ _. ok (some (current_lsn seg')), seg')
      | ok false ↦ (ok none, seg)
      | err e ↦ (err e, seg)
      | panic ↦ (panic, seg)
    ]

-- `SegmentView`: the bytes of a segment file.
unfoldable pub open_view : List ℕ → ℕ → Outcome (List ℕ)
open_view file capacity = check_capacity capacity >>= λ check.
    if ltb capacity (length file) then err invalid_argument else ok file

abbrev pub ends_record : RecordHeaderType → Bool
ends_record full = true
ends_record last = true
ends_record _ = false

-- The first position of the page after that of `p`, as `read_record` computes it.
abbrev pub next_page : ℕ → ℕ
next_page p = p + (page_size - p % page_size)

module _ (b : ByteOrder) (crc32 : List ℕ → ℕ) where
  -- The chunk at `p`, checked: its bytes, and the position behind it.
  unfoldable pub read_chunk : List ℕ → ℕ → Outcome (List ℕ × ℕ)
  read_chunk bytes p =
      let chunk_length = b.read_u16 (drop (p + 1) bytes) in
      elim (slice p (3 + chunk_length + checksum_size) bytes) [
        | none ↦ err data_corrupted
        | some whole ↦
            let chunk = take (length whole - checksum_size) whole in
            let checksum_file = b.read_u32 (drop (length whole - checksum_size) whole) in
            if crc32 chunk % 2 ^ 32 == checksum_file
            then ok (drop 3 chunk, p + 3 + chunk_length + checksum_size)
            else err data_corrupted
      ]

  -- The loop of `read_record`: the position grows in every round, so the length is fuel enough.
  unfoldable pub read_loop : ℕ → List ℕ → ℕ → Bool → ℕ → List ℕ → Outcome (Option (List ℕ × ℕ))
  read_loop zero bytes offset started p buffer = panic
  read_loop (suc fuel) bytes offset started p buffer =
      if leb (length bytes) (p + header_size)
      then err data_corrupted
      else elim (get_elem? bytes p) [
        | none ↦ panic
        | some byte ↦ elim (type_of_byte byte) [
          | no_record ↦ elim (leb (length bytes) (next_page (p + 1) + header_size) && not started) [
            | true ↦ ok none
            | false ↦ read_loop fuel bytes offset started (next_page (p + 1)) buffer
          ]
          | bad_record ↦ err data_corrupted
          | typ ↦ do
            (chunk, p') ← read_chunk bytes p
            elim (ends_record typ) [
              | true ↦ ok (some (buffer ++ chunk, p' - offset))
              | false ↦ read_loop fuel bytes offset true p' (buffer ++ chunk)
            ]
        ]
      ]

  unfoldable pub read_record : List ℕ → ℕ → Outcome (Option (List ℕ × ℕ))
  read_record bytes offset =
      if leb (length bytes) (offset + header_size)
      then ok none
      else read_loop (suc (length bytes)) bytes offset false offset []
