-- ===== src/Wal/Segment/RoundTrip.antt =====
-- What a segment has taken, it gives back: `read_record` against `append`.
use hybridmvcc.Wal.Records.{LogPointer}
use hybridmvcc.Base.{
  err, panic, none, if◌then◌else◌, Option, ◌>>=◌, Outcome, leb, false, take-append-drop,
  length-drop, take_whole, drop_past, length-append, length-take, append_assoc, ℕ, zero, suc, ◌+◌,
  ◌-◌, ◌<◌, ◌≤◌, Bool, true, some, List, [], ◌∷◌, ◌++◌, ◌==◌, ok, ◌≡◌, ◌≢◌, inl, inr, refl, ap, ◌∙◌,
  arith, Bool-cases, length, take, drop,
}
use hybridmvcc.Bytes.{ByteOrder, IsByteOrder}
use hybridmvcc.Wal.Segment.{
  append_loop, no_record, flush_page, sufficient_capacity, Segment, read_record, current_lsn,
  append, Device, page_size, header_size, chunk_bytes, next_type, RecordHeaderType, read_loop,
}
use hybridmvcc.Wal.Segment.Pages.{flush_page_lem, Holds, Accepts, padding, room_at}
use hybridmvcc.Wal.Segment.Writer.{
  append_loop_lem, chunk_size, chunk_size_lem, encoded, length-chunk_bytes,
}
use hybridmvcc.Wal.Segment.Chunks.{after_chunk_more, after_chunk_end, goes_on, next_type_lem}
use hybridmvcc.Wal.Segment.Reader.{At, skip_padding, step_chunk}
use mathlib.Core.Path.{subst}

regroup3 : (a b c d : List ℕ) → a ++ (b ++ c) ++ d ≡ a ++ (b ++ (c ++ d))
regroup3 a b c d = simp append_assoc refl

module _ (b : ByteOrder) (words : IsByteOrder b) (crc32 : List ℕ → ℕ) where
  encoded_nil :
      (fuel : ℕ) (typ : RecordHeaderType) (used : ℕ) → encoded b words crc32 fuel typ [] used ≡ []
  unfolding encoded
  encoded_nil zero typ used = refl
  encoded_nil (suc fuel) typ used = refl

  read_loop_lem :
      (fuel : ℕ) (typ : RecordHeaderType) (rest : List ℕ) (used : ℕ) (bytes tail : List ℕ)
      (p rounds offset : ℕ) (started : Bool) (buffer : List ℕ)
      → length rest < fuel
      → 0 < length rest
      → goes_on typ ≡ true
      → used ≤ page_size
      → suc used ≢ page_size
      → At b words crc32 bytes (encoded b words crc32 fuel typ rest used ++ tail) p used rounds
      → read_loop b crc32 rounds bytes offset started p buffer
        ≡ ok (some (buffer ++ rest, p + length (encoded b words crc32 fuel typ rest used) - offset))
  unfolding encoded
  read_loop_lem zero typ rest used bytes tail p rounds offset started buffer f pos g fits odd s =
      absurd (omega arith)
  read_loop_lem (suc fuel) typ [] used bytes tail p rounds offset started buffer f pos g fits odd
        s =
      absurd (omega arith)
  read_loop_lem (suc fuel) typ (x ∷ xs) used bytes tail p rounds offset started buffer f pos g fits
        odd s =
      let total = length (x ∷ xs) in
      let size = chunk_size used total in
      let is_last = size == total in
      let typ' = next_type typ is_last in
      let chunk = take size (x ∷ xs) in
      let cb = chunk_bytes b crc32 typ' chunk in
      let rest = drop size (x ∷ xs) in
      let later = encoded b words crc32 fuel typ' rest (room_at used + (size + header_size)) in
      let sized = chunk_size_lem used total pos in
      let wide = length-chunk_bytes b words crc32 typ' chunk in
      let taken = length-take size (x ∷ xs) in
      let more = cb ++ (later ++ tail) in
      let types = next_type_lem typ is_last g in
      let short : length chunk ≡ size = omega (arith, taken, sized) in
      let (r1, skips, s1) =
        skip_padding b words crc32 bytes more p used rounds offset started buffer
          (subst (λ t. At b words crc32 bytes t p used rounds)
            (regroup3 (padding used) cb later tail) s)
          fits odd (omega (arith, length-append cb (later ++ tail), wide, taken, sized)) in
      let (r2, steps, s2) =
        step_chunk b words crc32 typ' chunk bytes (later ++ tail) (p + length (padding used))
          (room_at used) r1 offset started buffer types.0 s1 (omega (arith, short, sized))
          (omega (arith, short, sized)) in
      let added = length-append (padding used) (cb ++ later) in
      let added2 = length-append cb later in
      let at_end : p + length (padding used) + (length chunk + header_size) + length later - offset
          ≡ p + length (padding used ++ (cb ++ later)) - offset =
        omega (arith, added, added2, wide) in
      skips ∙ steps ∙ elim (Bool-cases is_last) [
        | inl e ↦
            let none_left : rest ≡ [] = drop_past size (x ∷ xs) (ground (arith, e)) in
            let all : chunk ≡ x ∷ xs = take_whole size (x ∷ xs) (ground (arith, e)) in
            let no_more : length later ≡ 0 = ap length (
              ap (λ t. encoded b words crc32 fuel typ' t (room_at used + (size + header_size)))
                none_left
              ∙ encoded_nil fuel typ' (room_at used + (size + header_size))) in
            after_chunk_end b words crc32 r2 bytes offset buffer typ' chunk
              (p + length (padding used) + (length chunk + header_size)) (types.1 ∙ e)
            ∙ (ap
                  (λ t. ok (
                    some (
                      buffer ++ t,
                      p + length (padding used) + (length chunk + header_size) - offset,
                    )))
                  all
                ∙ ap (λ n. ok (some (buffer ++ (x ∷ xs), n))) (omega (arith, at_end, no_more)))
        | inr e ↦
            let full_page : room_at used + (size + header_size) ≡ page_size = ground (arith, e) in
            after_chunk_more b words crc32 r2 bytes offset buffer typ' chunk
              (p + length (padding used) + (length chunk + header_size)) (types.1 ∙ e)
            ∙ (read_loop_lem fuel typ' rest (room_at used + (size + header_size)) bytes tail
                  (p + length (padding used) + (length chunk + header_size)) r2 offset true
                  (buffer ++ chunk) (omega (arith, length-drop size (x ∷ xs), sized))
                  (ground (arith, length-drop size (x ∷ xs), e, sized)) (types.2 e)
                  (omega (arith, full_page)) (omega (arith, full_page))
                  (subst
                    (λ n.
                      At b words crc32 bytes (later ++ tail)
                        (p + length (padding used) + (length chunk + header_size))
                        (room_at used + (n + header_size)) r2)
                    short s2)
                ∙ ap (λ n. ok (some (buffer ++ chunk ++ rest, n))) at_end
                ∙ ap (λ t. ok (some (t, p + length (padding used ++ (cb ++ later)) - offset)))
                    (append_assoc buffer chunk rest
                      ∙ ap (λ t. buffer ++ t) (take-append-drop size (x ∷ xs))))
      ]

  encoded_long :
      (fuel : ℕ) (typ : RecordHeaderType) (bytes : List ℕ) (used : ℕ)
      → 0 < length bytes
      → header_size < length (encoded b words crc32 (suc fuel) typ bytes used)
  unfolding encoded
  encoded_long fuel typ [] used pos = absurd (omega arith)
  encoded_long fuel typ (x ∷ xs) used pos =
      let size = chunk_size used (length (x ∷ xs)) in
      let typ' = next_type typ (size == length (x ∷ xs)) in
      let chunk = take size (x ∷ xs) in
      let cb = chunk_bytes b crc32 typ' chunk in
      let later =
        encoded b words crc32 fuel typ' (drop size (x ∷ xs))
          (room_at used + (size + header_size)) in
      omega (
        arith,
        length-append (padding used) (cb ++ later),
        length-append cb later,
        length-chunk_bytes b words crc32 typ' chunk,
        length-take size (x ∷ xs),
        chunk_size_lem used (length (x ∷ xs)) pos,
      )

  append_runs :
      (device : Device) (bytes : List ℕ) (seg after : Segment)
      → sufficient_capacity seg (length bytes) ≡ ok true
      → append_loop device b crc32 (suc (length bytes)) no_record bytes seg ≡ (ok tt, after)
      → append device b crc32 bytes seg ≡ (ok (some (current_lsn after)), after)
  unfolding append
  append_runs device bytes seg after room runs =
      let ends : Outcome (Unit {0}) × Segment → Outcome (Option LogPointer) × Segment =
        λ p. (p.0 >>= λ _. ok (some (current_lsn p.1)), p.1) in
      ap
        (λ (s : Outcome Bool).
          let result : Outcome (Option LogPointer) × Segment = elim s [
            | ok true ↦ ends (append_loop device b crc32 (suc (length bytes)) no_record bytes seg)
            | ok false ↦ (ok none, seg)
            | err e ↦ (err e, seg)
            | panic ↦ (panic, seg)
          ] in
          result)
        room
      ∙ ap ends runs

  read_record-enough :
      (file : List ℕ) (offset : ℕ)
      → offset + header_size < length file
      → read_record b crc32 file offset
        ≡ read_loop b crc32 (suc (length file)) file offset false offset []
  unfolding read_record
  read_record-enough file offset h =
      let e : leb (length file) (offset + header_size) ≡ false = ground arith in
      ap
        (λ (t : Bool).
          if t then ok none else read_loop b crc32 (suc (length file)) file offset false offset [])
        e

  module _ (device : Device) (a : Accepts device) where
    -- A record that is not empty, appended to a segment that says it has room and then flushed, is
    -- read back whole from where the segment stood, and the position behind it is the one that
    -- `append` returned, provided that the system takes all writes and the page did not have
    -- exactly one byte left.
    pub read-append :
        (bytes : List ℕ) (seg : Segment) (before used : List ℕ)
        → Holds seg before used
        → 0 < length bytes
        → sufficient_capacity seg (length bytes) ≡ ok true
        → suc seg.page_allocated ≢ page_size
        → (after : Segment) × (flushed : Segment) × (size : ℕ) × (append device b crc32 bytes seg
            ≡ (ok (some (current_lsn seg + size)), after))
          × (flush_page device false after ≡ (ok tt, flushed))
          × (read_record b crc32 flushed.file (seg.page_start + seg.page_allocated)
              ≡ ok (some (bytes, size)))
    unfolding current_lsn
    read-append bytes seg before used h pos room odd =
        let fuel = suc (length bytes) in
        let enc = encoded b words crc32 fuel no_record bytes (length used) in
        let (after, before', used', runs, holds, place, same) =
          append_loop_lem b words crc32 device a fuel no_record bytes seg before used (omega arith)
            h in
        let (flushed, tail, flushes, file) = flush_page_lem after before' used' holds device a in
        let whole : flushed.file ≡ before ++ used ++ (enc ++ tail) =
          file ∙ ap (λ t. t ++ tail) same ∙ append_assoc (before ++ used) enc tail in
        let here : seg.page_start + seg.page_allocated ≡ length (before ++ used) =
          omega (arith, length-append before used, h.started, h.allocated) in
        let reads =
          read_loop_lem fuel no_record bytes (length used) flushed.file tail
            (seg.page_start + seg.page_allocated) (suc (length flushed.file))
            (seg.page_start + seg.page_allocated) false [] (omega arith) pos refl h.fits
            (λ e. odd (ap suc h.allocated ∙ e))
            (record {
              pre = before ++ used;
              laid = whole;
              here = here;
              in_page = omega (arith, h.aligned, h.allocated);
              enough = omega arith;
            }) in
        let stands : current_lsn after ≡ current_lsn seg + length enc = omega (
          arith,
          place,
          ap length same,
          length-append (before ++ used) enc,
          length-append before' used',
          here,
          holds.started,
          holds.allocated,
        ) in
        (
          after,
          flushed,
          length enc,
          append_runs device bytes seg after room runs ∙ ap (λ n. (ok (some n), after)) stands,
          flushes,
          read_record-enough flushed.file (seg.page_start + seg.page_allocated) (
                omega (
                  arith,
                  ap length whole,
                  length-append (before ++ used) (enc ++ tail),
                  length-append enc tail,
                  here,
                  encoded_long (length bytes) no_record bytes (length used) pos,
                ))
              ∙ reads
              ∙ ap (λ n. ok (some (bytes, n))) (omega arith),
        )
