-- ===== src/Wal/Segment/Writer.antt =====
-- What `append` writes: a record adds its chunks behind the bytes so far.
use hybridmvcc.Base.{
  err, panic, Outcome, length-take, append_assoc, length-drop, length-append, append-nil, ℕ, zero,
  suc, ◌+◌, ◌-◌, ◌%◌, ◌^◌, ◌<◌, ◌≤◌, Bool, List, [], ◌∷◌, ◌++◌, ◌==◌, ok, ◌≡◌, inl, inr, refl, sym,
  ap, ◌∙◌, arith, Bool-cases, leb, length, take, drop, min,
}
use hybridmvcc.Wal.Segment.Pages.{
  Holds, Accepts, padding, room_at, fresh_page, fresh_page-Holds, flush_page-reset,
  write_chunk-Holds, write_chunk-start,
}
use hybridmvcc.Bytes.{ByteOrder, IsByteOrder}
use hybridmvcc.Wal.Segment.{
  Segment, Device, zeros, page_size, header_size, make_room, chunk_bytes, write_chunk, append_loop,
  next_type, segment_start, RecordHeaderType, type_byte,
}

record Roomy (device : Device) (seg : Segment) (before used : List ℕ) : Type 0 where
  after : Segment
  before' : List ℕ
  used' : List ℕ
  runs : make_room device seg ≡ (ok tt, after)
  holds : Holds after before' used'
  same : before' ++ used' ≡ before ++ (used ++ padding (length used))
  at : length used' ≡ room_at (length used)
  same_place : segment_start after ≡ segment_start seg

make_room_lem :
    (device : Device) (seg : Segment) (before used : List ℕ)
    → Accepts device
    → Holds seg before used
    → Roomy device seg before used
unfolding make_room segment_start
make_room_lem device seg before used a h =
    elim (Bool-cases (leb (page_size - length used) header_size)) [
      | inl e ↦ record {
        after = fresh_page seg before used h;
        before' = before ++ (used ++ zeros (page_size - length used));
        used' = [];
        runs = rw (seen e) (flush_page-reset seg before used h device a);
        holds = fresh_page-Holds seg before used h;
        same = rw e (append-nil _);
        at = rw e refl;
        same_place = refl;
      }
      | inr e ↦ record {
        after = seg;
        before' = before;
        used' = used;
        runs = rw (seen e) refl;
        holds = h;
        same = rw e (ap (λ t. before ++ t) (sym (append-nil used)));
        at = rw e refl;
        same_place = refl;
      }
    ]
  where
    seen :
        {t : Bool}
        → leb (page_size - length used) header_size ≡ t
        → leb (page_size - seg.page_allocated) header_size ≡ t
    seen e = ap (λ n. leb (page_size - n) header_size) h.allocated ∙ e

shuffle : (a b c d e : List ℕ) → a ++ (b ++ c) ++ d ++ e ≡ a ++ b ++ (c ++ (d ++ e))
shuffle a b c d e = simp append_assoc refl

abbrev pub chunk_size : ℕ → ℕ → ℕ
chunk_size used total = min total (page_size - room_at used - header_size)

pub chunk_size_lem :
    (used total : ℕ)
    → 0 < total
    → (0 < chunk_size used total)
      × (chunk_size used total ≤ total)
      × (room_at used + (chunk_size used total + header_size) ≤ page_size)
chunk_size_lem used total h = ground arith

module _ (b : ByteOrder) (words : IsByteOrder b) (crc32 : List ℕ → ℕ) where
  pub length-chunk_bytes :
      (typ : RecordHeaderType) (chunk : List ℕ)
      → length (chunk_bytes b crc32 typ chunk) ≡ length chunk + header_size
  unfolding chunk_bytes
  length-chunk_bytes typ chunk =
      let n = b.write_u16 (length chunk % 2 ^ 16) in
      let header = type_byte typ ∷ (n ++ chunk) in
      omega (
        arith,
        length-append header (b.write_u32 (crc32 header % 2 ^ 32)),
        length-append n chunk,
        words.u16_width (length chunk % 2 ^ 16),
        words.u32_width (crc32 header % 2 ^ 32),
      )

  -- The bytes that the loop of `append` adds to a segment whose page has `used` bytes.
  unfoldable pub encoded : ℕ → RecordHeaderType → List ℕ → ℕ → List ℕ
  encoded zero typ rest used = []
  encoded (suc fuel) typ [] used = []
  encoded (suc fuel) typ (x ∷ xs) used =
      let size = chunk_size used (length (x ∷ xs)) in
      let typ' = next_type typ (size == length (x ∷ xs)) in
      padding used
      ++ (chunk_bytes b crc32 typ' (take size (x ∷ xs))
          ++ encoded fuel typ' (drop size (x ∷ xs)) (room_at used + (size + header_size)))

  module _ (device : Device) (a : Accepts device) where
    -- The rest of the loop after a chunk at the position `n`.
    abbrev one_round :
        ℕ → RecordHeaderType → ℕ → List ℕ → Segment → ℕ → Outcome (Unit {0}) × Segment
    one_round fuel typ x xs seg n =
        let total = length (x ∷ xs) in
        let size = min total (page_size - n - header_size) in
        append_loop device b crc32 fuel (next_type typ (size == total)) (drop size (x ∷ xs))
          (write_chunk b crc32 (next_type typ (size == total)) (take size (x ∷ xs)) seg)

    append_loop_step :
        (fuel : ℕ) (typ : RecordHeaderType) (x : ℕ) (xs : List ℕ) (seg after : Segment)
        → make_room device seg ≡ (ok tt, after)
        → append_loop device b crc32 (suc fuel) typ (x ∷ xs) seg
          ≡ one_round fuel typ x xs after after.page_allocated
    unfolding append_loop
    append_loop_step fuel typ x xs seg after h =
        ap
          (λ (p : Outcome (Unit {0}) × Segment).
            let size = min (length (x ∷ xs)) (page_size - p.1.page_allocated - header_size) in
            let typ' = next_type typ (size == length (x ∷ xs)) in
            let later : Outcome (Unit {0}) × Segment = elim p.0 [
              | ok _ ↦
                  append_loop device b crc32 fuel typ' (drop size (x ∷ xs))
                    (write_chunk b crc32 typ' (take size (x ∷ xs)) p.1)
              | err e ↦ (err e, p.1)
              | panic ↦ (panic, p.1)
            ] in
            later)
          h

    pub append_loop_lem :
        (fuel : ℕ) (typ : RecordHeaderType) (bytes : List ℕ) (seg : Segment) (before used : List ℕ)
        → length bytes < fuel
        → Holds seg before used
        → (after : Segment) × (before' : List ℕ) × (used' : List ℕ) × (append_loop device b crc32
              fuel typ bytes seg
            ≡ (ok tt, after))
          × Holds after before' used'
          × (segment_start after ≡ segment_start seg)
          × (before' ++ used' ≡ before ++ used ++ encoded fuel typ bytes (length used))
    unfolding append_loop encoded
    append_loop_lem zero typ bytes seg before used f h = absurd (omega arith)
    append_loop_lem (suc fuel) typ [] seg before used f h =
        (seg, before, used, refl, h, refl, sym (append-nil _))
    append_loop_lem (suc fuel) typ (x ∷ xs) seg before used f h =
        let r = make_room_lem device seg before used a h in
        let total = length (x ∷ xs) in
        let size = chunk_size (length used) total in
        let typ' = next_type typ (size == total) in
        let chunk = take size (x ∷ xs) in
        let bytes = chunk_bytes b crc32 typ' chunk in
        let rest = drop size (x ∷ xs) in
        let wide = length-chunk_bytes typ' chunk in
        let taken = length-take size (x ∷ xs) in
        let sized = chunk_size_lem (length used) total (omega arith) in
        let grown = length-append r.used' bytes in
        let ends : length (r.used' ++ bytes) ≡ room_at (length used) + (size + header_size) =
          omega (arith, grown, wide, taken, r.at, sized) in
        let (after, before', used', runs, holds, place, same) =
          append_loop_lem fuel typ' rest (write_chunk b crc32 typ' chunk r.after) r.before'
            (r.used' ++ bytes) (omega (arith, length-drop size (x ∷ xs), sized))
            (write_chunk-Holds r.after r.before' r.used' r.holds b crc32 typ' chunk
              (omega (arith, ends, grown, sized))) in
        (
          after,
          before',
          used',
          append_loop_step fuel typ x xs seg r.after r.runs
              ∙ ap (one_round fuel typ x xs r.after) (r.holds.allocated ∙ r.at)
              ∙ runs,
          holds,
          place ∙ write_chunk-start b crc32 typ' chunk r.after ∙ r.same_place,
          same
              ∙ ap (λ n. r.before' ++ (r.used' ++ bytes) ++ encoded fuel typ' rest n) ends
              ∙ ap (λ t. t ++ encoded fuel typ' rest (room_at (length used) + (size + header_size)))
                  (sym (append_assoc r.before' r.used' bytes) ∙ ap (λ t. t ++ bytes) r.same)
              ∙ shuffle before used (padding (length used)) bytes
                  (encoded fuel typ' rest (room_at (length used) + (size + header_size))),
        )
