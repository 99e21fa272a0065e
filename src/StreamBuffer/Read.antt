-- ===== src/StreamBuffer/Read.antt =====
-- Sequential reading, random access and the searches for a delimiter on a valid buffer.
use netb.Prelude.{
  max_size, ℕ, ◌+◌, ◌-◌, ◌≤◌, ◌<◌, ◌≡◌, length, take, drop, overwrite, slice, true, false, none,
  some, arith, ok, add_size-eq, sub_size-eq, sym, ap, ◌∙◌, length-take, length-drop,
  length-overwrite, take-drop-take, drop-overwrite, take-overwrite_in, Bool, [], ◌∷◌, refl, ◌==◌,
  drop-drop, take_all,
}
use netb.Memory.{Bytes, load, store}
use netb.StreamBuffer.{
  StreamBuffer, readable, pending, find, is_one_of, readable_char, readable_string, read, peekable,
  peek, update, advance_read,
}
use netb.StreamBuffer.Valid.{IsValid, contents, unread, advanced}

find-short : (p : ℕ → Bool) (bs : Bytes) → length bs < 1 → find p bs ≡ none
unfolding find
find-short p [] h = refl
find-short p (x ∷ bs) h = absurd (omega arith)

module _ {b : StreamBuffer} (v : IsValid b) where
  pub length-unread : length (unread b) ≡ b.wpos - b.rpos
  length-unread =
      omega (arith, v, length-drop b.rpos (take b.wpos b.bytes), length-take b.wpos b.bytes)

  pub length-contents : length (contents b) ≡ b.wpos - b.opos
  length-contents =
      omega (arith, v, length-drop b.opos (take b.wpos b.bytes), length-take b.wpos b.bytes)

  -- `Readable()` is the length of the unread data.
  pub readable-eq : readable b ≡ length (unread b)
  unfolding readable
  readable-eq = sub_size-eq b.wpos b.rpos (omega (arith, v)) (omega (arith, v)) ∙ sym length-unread

  -- `Read(p, n)` on a valid buffer, with `n` at most the number of unread bytes, hands out the
  -- next `n` unread bytes and moves the reading position on by `n`.
  pub read_fits :
      (n : ℕ) → n ≤ length (unread b) → read n b ≡ ok (some (take n (unread b)), advanced n b)
  unfolding read load
  read_fits n h = ground (
    arith,
    v,
    length-unread,
    sub_size-eq b.wpos b.rpos,
    add_size-eq b.rpos n,
    take-drop-take n b.rpos b.wpos b.bytes,
  )

  -- `Read(p, n)` on a valid buffer, with `n` more than the number of unread bytes, fails and
  -- leaves the buffer as it is.
  pub read_short : (n : ℕ) → length (unread b) < n → read n b ≡ ok (none, b)
  unfolding read
  read_short n h = ground (arith, v, length-unread, sub_size-eq b.wpos b.rpos)

  pub load_unread : (n : ℕ) → n ≤ length (unread b) → load b.bytes b.rpos n ≡ ok (take n (unread b))
  unfolding load
  load_unread n h = ground (arith, v, length-unread, take-drop-take n b.rpos b.wpos b.bytes)

  pub advance_read_fits :
      (n : ℕ) → n ≤ length (unread b) → advance_read n b ≡ (some b.rpos, advanced n b)
  unfolding advance_read
  advance_read_fits n h = ground (arith, v, length-unread, add_size-eq b.rpos n)

  pub advance_read_short :
      (n : ℕ) → n ≤ max_size → length (unread b) < n → advance_read n b ≡ (none, b)
  unfolding advance_read
  advance_read_short n small h = ground (arith, v, length-unread, add_size-eq b.rpos n)

  pub pending-eq : pending b ≡ ok (unread b)
  unfolding load
  pending-eq = ground (
    arith,
    v,
    sub_size-eq b.wpos b.rpos,
    take-drop-take (b.wpos - b.rpos) b.rpos b.wpos b.bytes,
    take_all (b.wpos - b.rpos) (unread b),
    length-unread,
  )

  -- `Readable(delim)` looks for the delimiter in the unread data.
  pub readable_char-eq : (d : ℕ) → readable_char d b ≡ ok (find (λ c. c == d) (unread b))
  unfolding readable_char
  readable_char-eq d =
      ground (arith, readable-eq, pending-eq, find-short (λ (c : ℕ). c == d) (unread b))

  pub readable_string-eq :
      (d : Bytes)
      → length d ≤ length (unread b)
      → readable_string d b ≡ ok (find (is_one_of d) (unread b))
  unfolding readable_string
  readable_string-eq d h = ground (arith, readable-eq, pending-eq)

  -- A string that is longer than the unread data is not looked for.
  pub readable_string-short :
      (d : Bytes) → length (unread b) < length d → readable_string d b ≡ ok none
  unfolding readable_string
  readable_string-short d h = ground (arith, readable-eq)

  pub peekable_lem : (offset : ℕ) → peekable offset b ≡ length (contents b) - offset
  unfolding peekable
  peekable_lem offset =
      ground
        (arith, v, length-contents, sub_size-eq b.wpos b.opos, sub_size-eq (b.wpos - b.opos) offset)

  -- `Peek(offset, p, n)` on a valid buffer hands out the `n` bytes of the contents from `offset`
  -- on, where these lie inside the contents.
  pub peek_fits :
      (offset n : ℕ)
      → offset + n ≤ length (contents b)
      → peek offset n b ≡ ok (some (slice (contents b) offset n))
  unfolding peek load
  peek_fits offset n h = ground (
    arith,
    v,
    length-contents,
    sub_size-eq b.wpos b.opos,
    sub_size-eq (b.wpos - b.opos) offset,
    add_size-eq b.opos offset,
    drop-drop offset b.opos (take b.wpos b.bytes),
    take-drop-take n (b.opos + offset) b.wpos b.bytes,
  )

  -- `Peek(offset, p, n)` over the end fails.
  pub peek_short :
      (offset n : ℕ) → 0 < n → length (contents b) < offset + n → peek offset n b ≡ ok none
  unfolding peek
  peek_short offset n pos h = ground (arith, peekable_lem offset)

  -- `Update(offset, p, n)` writes the bytes over those of the contents from `offset` on.
  pub update_fits :
      (offset : ℕ) (p : Bytes)
      → offset + length p ≤ length (contents b)
      → update offset p b ≡ ok (true, record b { bytes = overwrite b.bytes (b.opos + offset) p })
  unfolding update store
  update_fits offset p h = ground (
    arith,
    v,
    length-contents,
    sub_size-eq b.wpos b.opos,
    sub_size-eq (b.wpos - b.opos) offset,
    add_size-eq b.opos offset,
  )

  pub update_short :
      (offset : ℕ) (p : Bytes)
      → 0 < length p
      → length (contents b) < offset + length p
      → update offset p b ≡ ok (false, b)
  unfolding update
  update_short offset p pos h = ground (arith, peekable_lem offset)

pub contents-update :
    (b : StreamBuffer) (offset : ℕ) (p : Bytes)
    → contents (record b { bytes = overwrite b.bytes (b.opos + offset) p })
      ≡ overwrite (contents b) offset p
contents-update b offset p =
    ap (λ t. drop b.opos t) (take-overwrite_in b.wpos b.bytes (b.opos + offset) p)
    ∙ drop-overwrite b.opos (take b.wpos b.bytes) offset p

-- `Update(offset, p, n)` of bytes that lie inside the contents of a valid buffer returns true,
-- overwrites them in the contents, and keeps the buffer valid.
pub update_overwrites :
    (offset : ℕ) (p : Bytes) {b : StreamBuffer}
    → IsValid b
    → offset + length p ≤ length (contents b)
    → (b' : StreamBuffer) × (update offset p b ≡ ok (true, b'))
      × (contents b' ≡ overwrite (contents b) offset p)
      × IsValid b'
update_overwrites offset p {b} v h = (
  record b { bytes = overwrite b.bytes (b.opos + offset) p },
  update_fits v offset p h,
  contents-update b offset p,
  ground (arith, v, length-contents v, length-overwrite b.bytes (b.opos + offset) p),
)
