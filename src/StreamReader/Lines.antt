-- ===== src/StreamReader/Lines.antt =====
-- Reading a string up to a delimiting string.
use netb.Prelude.{
  false, ℕ, ◌+◌, ◌<◌, ◌≤◌, ◌≡◌, [], ◌∷◌, ◌++◌, true, arith, some, ap, length, ◌∙◌, ok,
  length-append, append_assoc, ==_refl, ne→==, le→ltb,
}
use netb.Memory.{Bytes}
use netb.StreamBuffer.{StreamBuffer, readable_string, is_one_of, find, advance_read}
use netb.StreamBuffer.Valid.{IsValid, unread, advanced}
use netb.StreamBuffer.Read.{readable-eq, readable_string-eq, advance_read_fits}
use netb.StreamBuffer.Search.{AllFail, find-append, find-none}
use netb.StreamReader.{string_string, up_to}
use netb.StreamReader.Decodes.{reader, string_n_fits, prefix_fits}
use netb.Wire.{advanced-IsValid, unread-advanced_append}

-- None of the bytes is one of the delimiter's.
abbrev pub HasNone : Bytes → Bytes → Type 0
HasNone delim bs = AllFail (is_one_of delim) bs

module _ {b : StreamBuffer} (v : IsValid b) (s : Bytes) (d : ℕ) (ds rest : Bytes) where
  readable_delim :
      (line : Bytes)
      → HasNone (d ∷ ds) line
      → unread b ≡ line ++ (d ∷ ds ++ rest)
      → (length (d ∷ ds) ≤ length (unread b))
        × (readable_string (d ∷ ds) b ≡ ok (some (length line)))
  unfolding is_one_of
  readable_delim line free e = (
    fits,
    readable_string-eq v (d ∷ ds) fits
        ∙ ap (λ t. ok (find (is_one_of (d ∷ ds)) t)) e
        ∙ ap ok (find-append (is_one_of (d ∷ ds)) line d (ds ++ rest) free (rw (==_refl d))),
  )
    where
      fits : length (d ∷ ds) ≤ length (unread b)
      fits = omega (
        arith,
        ap (λ (t : Bytes). length t) e,
        length-append line (d ∷ ds ++ rest),
        length-append ds rest,
      )

  skip_delim :
      (c : ℕ) (cs : Bytes)
      → unread b ≡ (c ∷ cs) ++ (d ∷ ds ++ rest)
      → advance_read (length (d ∷ ds)) (advanced (length (c ∷ cs)) b)
        ≡ (some (b.rpos + length (c ∷ cs)), advanced (length ((c ∷ cs) ++ d ∷ ds)) b)
  skip_delim c cs e =
      advance_read_fits (advanced-IsValid (c ∷ cs) (d ∷ ds ++ rest) v e) (length (d ∷ ds)) (
        rw (unread-advanced_append (c ∷ cs) (d ∷ ds ++ rest) b e)
          (omega (arith, length-append ds rest)))
      ∙ ap (λ n. (some (b.rpos + length (c ∷ cs)), record b { rpos = n }))
          (omega (arith, length-append cs (d ∷ ds)))

  up_to_line :
      (c : ℕ) (cs : Bytes)
      → unread b ≡ (c ∷ cs) ++ (d ∷ ds ++ rest)
      → up_to reader s (length (d ∷ ds)) (some (length (c ∷ cs))) b
        ≡ ok ((true, c ∷ cs), advanced (length ((c ∷ cs) ++ d ∷ ds)) b)
  up_to_line c cs e =
      let p = prefix_fits (c ∷ cs) (d ∷ ds ++ rest) e in
      rw (string_n_fits v s (length (c ∷ cs)) p.0, p.1, skip_delim c cs e)
        (rw (ne→== (length (c ∷ cs)) 0 (omega arith)))

  -- A string that is not empty is read, and the delimiter after it is skipped.
  pub string_string_line :
      (c : ℕ) (cs : Bytes)
      → HasNone (d ∷ ds) (c ∷ cs)
      → unread b ≡ (c ∷ cs) ++ (d ∷ ds ++ rest)
      → string_string reader s (d ∷ ds) b
        ≡ ok ((true, c ∷ cs), advanced (length ((c ∷ cs) ++ d ∷ ds)) b)
  unfolding string_string
  string_string_line c cs free e =
      let p = readable_delim (c ∷ cs) free e in
      rw (readable-eq v, le→ltb (length (unread b)) (length (d ∷ ds)) p.0, p.1) (up_to_line c cs e)

  -- `String(s, delim)` of an attached reader, on a valid buffer whose unread bytes begin with the
  -- delimiter, which is not empty: it returns true with the empty string in `s`, and leaves the
  -- delimiter unread.
  pub string_string_empty :
      unread b ≡ d ∷ ds ++ rest → string_string reader s (d ∷ ds) b ≡ ok ((true, []), b)
  unfolding string_string
  string_string_empty e =
      let p = readable_delim [] tt e in
      rw (readable-eq v, le→ltb (length (unread b)) (length (d ∷ ds)) p.0, p.1)

  -- `String(s, delim)` of an attached reader that does not flush, on a valid buffer whose unread
  -- bytes begin with a line that is not empty and holds none of the bytes of the delimiter, and
  -- then the delimiter, which is not empty: it returns true with the line in `s`, and the reading
  -- position moves behind the delimiter.
  pub read_line :
      (line : Bytes)
      → 0 < length line
      → HasNone (d ∷ ds) line
      → unread b ≡ (line ++ d ∷ ds) ++ rest
      → string_string reader s (d ∷ ds) b ≡ ok ((true, line), advanced (length (line ++ d ∷ ds)) b)
  read_line [] pos free e = absurd (omega arith)
  read_line (c ∷ cs) pos free e =
      string_string_line c cs free (e ∙ append_assoc (c ∷ cs) (d ∷ ds) rest)

-- `String(s, delim)` of an attached reader that does not flush, on a valid buffer whose unread
-- bytes hold none of the bytes of the delimiter: it returns false, and `s` and the buffer stay as
-- they are.
pub string_string_none :
    {b : StreamBuffer} (v : IsValid b) (s delim : Bytes)
    → HasNone delim (unread b)
    → string_string reader s delim b ≡ ok ((false, s), b)
unfolding string_string
string_string_none {b} v s delim free =
    ground (
      arith,
      readable-eq v,
      readable_string-eq v delim,
      find-none (is_one_of delim) (unread b) free,
    )
