-- ===== src/StreamBuffer/Write.antt =====
-- Sequential writing: what `Writable(n)` and `Write(p, n)` do where no flushed data has to be
-- reclaimed, and where the data would pass the limit.
use netb.Prelude.{
  ℕ, ◌+◌, ◌-◌, ◌≤◌, ◌<◌, ◌≡◌, ◌++◌, length, true, false, none, some, max_size, arith, ok,
  add_size-eq, sub_size-eq, length-overwrite,
}
use netb.Memory.{Bytes, resize, store}
use netb.StreamBuffer.{StreamBuffer, writable, write}
use netb.StreamBuffer.Valid.{
  IsValid, HasRoom, contents, unread, spaced, appended, length-resized, length-spaced,
  appended-IsValid, contents-appended, unread-appended,
}

-- Writable(n) makes the space, and changes nothing else.
pub writable_fits :
    (n : ℕ) {b : StreamBuffer}
    → HasRoom n b
    → writable n b ≡ ok (true, record b { bytes = spaced n b })
unfolding writable spaced resize
writable_fits n {b} h = ground (
  arith,
  h.valid,
  h.room,
  h.under,
  sub_size-eq (length b.bytes) b.wpos,
  sub_size-eq b.wpos b.opos,
  add_size-eq (b.wpos - b.opos) n,
  add_size-eq b.wpos n,
  sub_size-eq (b.wpos + n) b.wpos,
  length-resized b.bytes (b.wpos + n),
)

-- `Write` of bytes for which there is room succeeds, returns the position they stand at, and
-- leaves the buffer with them appended.
pub write_fits :
    (p : Bytes) {b : StreamBuffer}
    → HasRoom (length p) b
    → write p b ≡ ok (some b.wpos, appended p b)
unfolding write store appended
write_fits p {b} h = rw (writable_fits (length p) h) (
    ground (
      arith,
      h.valid,
      h.room,
      length-spaced h,
      add_size-eq b.wpos (length p),
      length-overwrite (spaced (length p) b) b.wpos p,
    ))

-- `Write` into a valid buffer that has room for the bytes behind its data, within the limit and
-- the largest size of a vector: it succeeds and returns the writing position, the contents and the
-- unread data grow by the bytes, and the buffer stays valid.
pub write_appends :
    (p : Bytes) {b : StreamBuffer}
    → HasRoom (length p) b
    → (b' : StreamBuffer) × (write p b ≡ ok (some b.wpos, b'))
      × (contents b' ≡ contents b ++ p)
      × (unread b' ≡ unread b ++ p)
      × IsValid b'
write_appends p {b} h =
    (appended p b, write_fits p h, contents-appended p h, unread-appended p h, appended-IsValid p h)

pub writable_overflow :
    (n : ℕ) {b : StreamBuffer}
    → IsValid b
    → n ≤ max_size
    → 0 < b.limit
    → b.limit < b.wpos - b.opos + n
    → writable n b ≡ ok (false, b)
unfolding writable
writable_overflow n {b} v small pos over = ground (
  arith,
  v,
  sub_size-eq (length b.bytes) b.wpos,
  sub_size-eq b.wpos b.opos,
  add_size-eq (b.wpos - b.opos) n,
)

-- `Write`, into a valid buffer with a limit, of bytes, at most as many as a vector can hold, that
-- together with the contents would pass the limit fails and leaves the buffer as it is.
pub write_overflow :
    (p : Bytes) {b : StreamBuffer}
    → IsValid b
    → length p ≤ max_size
    → 0 < b.limit
    → b.limit < b.wpos - b.opos + length p
    → write p b ≡ ok (none, b)
unfolding write
write_overflow p v small pos over = rw (writable_overflow (length p) v small pos over)
