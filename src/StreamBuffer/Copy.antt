-- ===== src/StreamBuffer/Copy.antt =====
-- Copying: the copy constructors and `operator=`.
use netb.Prelude.{
  ◌-◌, ◌≤◌, ◌≡◌, [], length, take, overwrite, slice, ok, arith, sym, ap, ◌∙◌, sub_size-eq,
  take-overwrite, take-drop-take, take_all, length-slice, length-overwrite,
}
use netb.Memory.{Bytes, load, store, resize, resized}
use netb.StreamBuffer.{StreamBuffer, size, copy, assign}
use netb.StreamBuffer.Valid.{IsValid, contents, unread, length-resized}
use netb.StreamBuffer.Read.{length-contents}

-- The vector of a copy: space for what follows the origin, and `bs` at its front.
abbrev pub vector_of : Bytes → StreamBuffer → Bytes → Bytes
vector_of old b bs = overwrite (resized old (length b.bytes - b.opos)) 0 bs

front_of :
    (old : Bytes) (b : StreamBuffer) (bs : Bytes)
    → length bs ≤ length b.bytes - b.opos
    → take (length bs) (vector_of old b bs) ≡ bs
front_of old b bs h =
    ap (λ n. take n (vector_of old b bs)) (omega arith)
    ∙ take-overwrite (resized old (length b.bytes - b.opos)) 0 bs
        (omega (arith, length-resized old (length b.bytes - b.opos)))

module _ {b : StreamBuffer} (v : IsValid b) where
  slice-contents : slice b.bytes b.opos (b.wpos - b.opos) ≡ contents b
  slice-contents =
      sym (take-drop-take (b.wpos - b.opos) b.opos b.wpos b.bytes (omega (arith, v)))
      ∙ take_all (b.wpos - b.opos) (contents b) (omega (arith, length-contents v))

  -- Both copy constructors make of a valid buffer a valid buffer with the same contents, all of
  -- which are unread.
  pub copy_lem :
      (b' : StreamBuffer) × (copy b ≡ ok b')
      × (contents b' ≡ contents b)
      × (unread b' ≡ contents b)
      × IsValid b'
  unfolding copy size load store resize
  copy_lem = (new, made, kept, kept, valid)
    where
      new : StreamBuffer
      new = record {
        bytes = vector_of [] b (contents b);
        limit = b.limit;
        opos = 0;
        rpos = 0;
        wpos = length (contents b);
      }

      made : copy b ≡ ok new
      made = ground (
        arith,
        v,
        length-contents v,
        slice-contents,
        sub_size-eq (length b.bytes) b.opos,
        sub_size-eq b.wpos b.opos,
        length-resized [] (length b.bytes - b.opos),
      )

      kept : contents new ≡ contents b
      kept = front_of [] b (contents b) (omega (arith, v, length-contents v))

      valid : IsValid new
      valid = ground (
        arith,
        v,
        length-contents v,
        length-resized [] (length b.bytes - b.opos),
        length-overwrite (resized [] (length b.bytes - b.opos)) 0 (contents b),
      )

  -- Assigning a valid buffer, whose reading position is not before its origin, to another buffer
  -- whose origin is not behind the first one's: the result is a valid buffer whose contents are as
  -- many bytes as those of the first buffer, but taken from its vector at the other buffer's
  -- origin.
  pub assign_lem :
      (a : StreamBuffer)
      → b.opos ≤ b.rpos
      → a.opos ≤ b.opos
      → (b' : StreamBuffer) × (assign a b ≡ ok b')
        × (contents b' ≡ slice b.bytes a.opos (length (contents b)))
        × IsValid b'
  unfolding assign size load store resize
  assign_lem a ord le = (new, made, kept, valid)
    where
      data' : Bytes
      data' = slice b.bytes a.opos (length (contents b))

      long : length data' ≡ length (contents b)
      long = omega (arith, v, length-contents v, length-slice b.bytes a.opos (length (contents b)))

      new : StreamBuffer
      new = record {
        bytes = vector_of a.bytes b data';
        limit = b.limit;
        opos = 0;
        rpos = b.rpos - b.opos;
        wpos = length (contents b);
      }

      made : assign a b ≡ ok new
      made = ground (
        arith,
        v,
        length-contents v,
        long,
        sub_size-eq (length b.bytes) b.opos,
        sub_size-eq b.wpos b.opos,
        sub_size-eq b.rpos b.opos,
        length-resized a.bytes (length b.bytes - b.opos),
      )

      kept : contents new ≡ data'
      kept =
          ap (λ n. take n (vector_of a.bytes b data')) (sym long)
          ∙ front_of a.bytes b data' (omega (arith, v, long, length-contents v))

      valid : IsValid new
      valid = ground (
        arith,
        v,
        length-contents v,
        length-resized a.bytes (length b.bytes - b.opos),
        length-overwrite (resized a.bytes (length b.bytes - b.opos)) 0 data',
      )
