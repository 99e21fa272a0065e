-- ===== src/StreamBuffer/Reclaim.antt =====
-- `Reclaim()`, and the writes that call it: `_limit` leaves no room behind the data, and there are
-- flushed bytes in front of it.
use netb.Prelude.{
  ℕ, ◌+◌, ◌-◌, ◌≤◌, ◌<◌, ◌≡◌, ◌++◌, length, take, drop, slice, overwrite, true, some, max_size,
  arith, ok, fault, undefined, add_size-eq, sub_size-eq, sym, ap, ◌∙◌, append_assoc, length-take,
  take-drop-take, length-drop, length-append, take-append, length-slice, length-overwrite,
  take-overwrite,
}
use netb.Memory.{Bytes, rotated, rotate, resize, resized, store}
use netb.StreamBuffer.{StreamBuffer, reclaim, writable, write}
use netb.StreamBuffer.Valid.{IsValid, contents, length-resized, take-resized}
use netb.StreamBuffer.Read.{length-contents}

-- The buffer that `Reclaim()` leaves.
abbrev pub reclaimed : StreamBuffer → StreamBuffer
reclaimed b = record b {
  bytes = rotated b.bytes b.opos (b.wpos - b.opos);
  opos = 0;
  rpos = b.rpos - b.opos;
  wpos = b.wpos - b.opos;
}

rotated_front :
    (bs : Bytes) (o last : ℕ)
    → o ≤ last
    → last ≤ length bs
    → take last (rotated bs o last) ≡ slice bs o (last - o) ++ take o bs
rotated_front bs o last h k =
    ap (λ t. take last t) (sym (append_assoc (slice bs o (last - o)) (take o bs) (drop last bs)))
    ∙ take-append last (slice bs o (last - o) ++ take o bs) (drop last bs) (
        omega (
          arith,
          length-append (slice bs o (last - o)) (take o bs),
          length-slice bs o (last - o),
          length-take o bs,
        ))

module _ {b : StreamBuffer} (v : IsValid b) where
  reclaim_fits : b.opos ≤ b.rpos → b.opos + b.opos ≤ b.wpos → reclaim b ≡ ok (reclaimed b)
  unfolding reclaim rotate
  reclaim_fits ord h = ground (arith, v, sub_size-eq b.wpos b.opos, sub_size-eq b.rpos b.opos)

  -- `Reclaim()` keeps all but the last `_opos` bytes of the contents, and puts the flushed bytes
  -- in the place of those.
  pub contents-reclaimed :
      b.opos + b.opos ≤ b.wpos
      → contents (reclaimed b)
        ≡ take (length (contents b) - b.opos) (contents b) ++ take b.opos b.bytes
  contents-reclaimed h =
      rotated_front b.bytes b.opos (b.wpos - b.opos) (omega (arith, v)) (omega (arith, v))
      ∙ ap (λ t. t ++ take b.opos b.bytes) kept
    where
      kept :
          slice b.bytes b.opos (b.wpos - b.opos - b.opos)
          ≡ take (length (contents b) - b.opos) (contents b)
      kept =
          rw (length-contents v) (
            sym
              (take-drop-take (b.wpos - b.opos - b.opos) b.opos b.wpos b.bytes (omega (arith, v))))

  reclaim_undefined : b.wpos < b.opos + b.opos → reclaim b ≡ fault undefined
  unfolding reclaim rotate
  reclaim_undefined h = ground (arith, v, sub_size-eq b.wpos b.opos)

  length-rotated :
      b.opos + b.opos ≤ b.wpos → length (rotated b.bytes b.opos (b.wpos - b.opos)) ≡ length b.bytes
  length-rotated h = omega (
    arith,
    v,
    length-append (slice b.bytes b.opos (b.wpos - b.opos - b.opos))
        (take b.opos b.bytes ++ drop (b.wpos - b.opos) b.bytes),
    length-append (take b.opos b.bytes) (drop (b.wpos - b.opos) b.bytes),
    length-slice b.bytes b.opos (b.wpos - b.opos - b.opos),
    length-take b.opos b.bytes,
    length-drop (b.wpos - b.opos) b.bytes,
  )

-- A write that has to reclaim: it would pass the limit where the data stands, and not in front.
pub record NeedsReclaim (n : ℕ) (b : StreamBuffer) : Type 0 where
  pub valid : IsValid b
  pub ordered : b.opos ≤ b.rpos
  pub small : n ≤ max_size
  pub limit_fits : b.limit ≤ max_size
  pub behind : b.limit < b.wpos + n
  pub front : b.wpos - b.opos + n ≤ b.limit
  pub limited : 0 < b.limit

-- The buffer after such a write of `p`.
abbrev pub moved : Bytes → StreamBuffer → StreamBuffer
moved p b = record b {
  bytes =
      overwrite (resized (rotated b.bytes b.opos (b.wpos - b.opos)) (b.wpos - b.opos + length p))
        (b.wpos - b.opos) p;
  opos = 0;
  rpos = b.rpos - b.opos;
  wpos = b.wpos - b.opos + length p;
}

module _ (p : Bytes) {b : StreamBuffer} (h : NeedsReclaim (length p) b) where
  writable_reclaims :
      b.opos + b.opos ≤ b.wpos
      → writable (length p) b
        ≡ ok (
          true,
          record (reclaimed b) {
            bytes = resized (rotated b.bytes b.opos (b.wpos - b.opos)) (b.wpos - b.opos + length p);
          },
        )
  unfolding writable resize
  writable_reclaims le = ground (
    arith,
    h,
    h.valid,
    sub_size-eq (length b.bytes) b.wpos,
    sub_size-eq b.wpos b.opos,
    add_size-eq (b.wpos - b.opos) (length p),
    add_size-eq b.wpos (length p),
    sub_size-eq (b.wpos - b.opos + length p) (b.wpos - b.opos),
    length-resized (rotated b.bytes b.opos (b.wpos - b.opos)) (b.wpos - b.opos + length p),
    reclaim_fits h.valid,
  )

  pub write_moves : b.opos + b.opos ≤ b.wpos → write p b ≡ ok (some (b.wpos - b.opos), moved p b)
  unfolding write store
  write_moves le = rw (writable_reclaims le) (
      ground (
        arith,
        h,
        h.valid,
        length-resized (rotated b.bytes b.opos (b.wpos - b.opos)) (b.wpos - b.opos + length p),
        add_size-eq (b.wpos - b.opos) (length p),
        length-overwrite
            (resized (rotated b.bytes b.opos (b.wpos - b.opos)) (b.wpos - b.opos + length p))
            (b.wpos - b.opos) p,
      ))

  contents-moved :
      b.opos + b.opos ≤ b.wpos
      → contents (moved p b)
        ≡ (take (length (contents b) - b.opos) (contents b) ++ take b.opos b.bytes) ++ p
  contents-moved le =
      take-overwrite
        (resized (rotated b.bytes b.opos (b.wpos - b.opos)) (b.wpos - b.opos + length p))
        (b.wpos - b.opos) p
        (omega (
          arith,
          length-resized (rotated b.bytes b.opos (b.wpos - b.opos)) (b.wpos - b.opos + length p),
        ))
      ∙ ap (λ t. t ++ p)
          (take-resized (b.wpos - b.opos) (rotated b.bytes b.opos (b.wpos - b.opos))
              (b.wpos - b.opos + length p) (omega (arith, h.valid, length-rotated h.valid le))
              (omega arith)
            ∙ contents-reclaimed h.valid le)

  pub moved-IsValid : b.opos + b.opos ≤ b.wpos → IsValid (moved p b)
  moved-IsValid le = ground (
    arith,
    h,
    h.valid,
    length-resized (rotated b.bytes b.opos (b.wpos - b.opos)) (b.wpos - b.opos + length p),
    length-overwrite
        (resized (rotated b.bytes b.opos (b.wpos - b.opos)) (b.wpos - b.opos + length p))
        (b.wpos - b.opos) p,
  )

  -- `Write` into a valid buffer with a limit, where the bytes would pass the limit behind the data
  -- but not once the flushed bytes are given up, their number and the limit are at most the
  -- largest size of a vector, the reading position is not before the origin, and twice the flushed
  -- length is at most the writing position: it succeeds, but the last `_opos` bytes of the
  -- contents are replaced by the flushed bytes, and then the new bytes follow; the buffer stays
  -- valid.
  pub write_reclaims :
      b.opos + b.opos ≤ b.wpos
      → (b' : StreamBuffer) × (write p b ≡ ok (some (b.wpos - b.opos), b'))
        × (contents b'
            ≡ (take (length (contents b) - b.opos) (contents b) ++ take b.opos b.bytes) ++ p)
        × IsValid b'
  write_reclaims le = (moved p b, write_moves le, contents-moved le, moved-IsValid le)

  -- `Write` into a valid buffer with a limit, where the bytes would pass the limit behind the data
  -- but not once the flushed bytes are given up, their number and the limit are at most the
  -- largest size of a vector, the reading position is not before the origin, and twice the flushed
  -- length is more than the writing position: it is undefined, since `Reclaim()` calls
  -- `std::rotate` with its end before its middle.
  pub write_undefined : b.wpos < b.opos + b.opos → write p b ≡ fault undefined
  unfolding write writable
  write_undefined lt = ground (
    arith,
    h,
    h.valid,
    sub_size-eq (length b.bytes) b.wpos,
    sub_size-eq b.wpos b.opos,
    add_size-eq (b.wpos - b.opos) (length p),
    add_size-eq b.wpos (length p),
    reclaim_undefined h.valid,
  )
