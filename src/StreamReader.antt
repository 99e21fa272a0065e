-- ===== src/StreamReader.antt =====
-- netb/StreamReader.hpp and netb/StreamReader.cpp: sequential reading of numbers and strings from
-- the buffer that the reader is attached to. The buffer is the state of the actions.
pub mod Decodes
pub mod Lines
use netb.Prelude.{
  ℕ, [], ◌∷◌, length, Bool, true, false, ◌&&◌, Option, none, some, ok, fault, aborted, ◌▹◌, ltb,
  ◌==◌, if◌then◌else◌,
}
use netb.Memory.{Bytes, load}
use netb.Host.{Endian, value16, value32, htons, htonl}
use netb.StreamBuffer.{
  StreamBuffer, M, pure, ◌>>=◌, read, advance_read, readable, readable_char, readable_string, flush,
}

-- `_stream` is null or the buffer; `_flush` is true if what is read is flushed.
pub record StreamReader : Type 0 where
  pub attached : Bool
  pub flushes : Bool

-- StreamReader()
unfoldable pub detached : StreamReader
detached = record { attached = false; flushes = false }

-- StreamReader(buf, flush) and Attach(buf, flush)
unfoldable pub attach : Bool → StreamReader
attach flushes = record { attached = true; flushes = flushes }

-- `if(_flush) _stream->Flush();`
abbrev pub flushed : StreamReader → StreamBuffer → StreamBuffer
flushed r b = if r.flushes then (flush b).1 else b

-- The reads of `n` bytes, `none` for the result false.
abbrev pub take_bytes : StreamReader → ℕ → M (Option Bytes)
take_bytes r n b =
    if r.attached
    then (read n b ▹ λ (p, b').
        ok (elim p [ none ↦ (none, b') | some bs ↦ (some bs, flushed r b') ]))
    else ok (none, b)

-- Bytes(p, n)
unfoldable pub bytes : StreamReader → ℕ → M (Option Bytes)
bytes r n b = if r.attached && ltb (readable b) n then ok (none, b) else take_bytes r n b

-- A number from the bytes read. Where the result is false the argument keeps its value.
abbrev pub as_number : (Bytes → ℕ) → M (Option Bytes) → M (Option ℕ)
as_number value m = m >>= λ p. pure (elim p [ none ↦ none | some bs ↦ some (value bs) ])

abbrev pub value8 : Bytes → ℕ
value8 [] = 0
value8 (x ∷ bs) = x

-- Integer(v) of int8_t and of uint8_t
unfoldable pub integer8 : StreamReader → M (Option ℕ)
integer8 r = as_number value8 (take_bytes r 1)

-- Integer(v) of int16_t and of uint16_t
unfoldable pub integer16 : Endian → StreamReader → M (Option ℕ)
integer16 e r = as_number (λ bs. htons e (value16 e bs)) (take_bytes r 2)

-- Integer(v) of int32_t and of uint32_t
unfoldable pub integer32 : Endian → StreamReader → M (Option ℕ)
integer32 e r = as_number (λ bs. htonl e (value32 e bs)) (take_bytes r 4)

-- Integer(v) of int64_t and of uint64_t: assert(false)
unfoldable pub integer64 : StreamReader → M (Option ℕ)
integer64 r b = fault aborted

-- String(s, n): the result and what `s` then holds
unfoldable pub string_n : StreamReader → Bytes → ℕ → M (Bool × Bytes)
string_n r s n b =
    if r.attached
    then if ltb (readable b) n
      then ok ((false, s), b)
      else (load b.bytes b.rpos n ▹ λ s'.
          let (moved, b') = advance_read n b in
          ok (elim moved [ none ↦ ((false, s'), b') | some _ ↦ ((true, s'), flushed r b') ]))
    else ok ((false, s), b)

-- String(s)
unfoldable pub string : StreamReader → Bytes → M (Bool × Bytes)
string r s b =
    if r.attached
    then if readable b == 0 then ok ((false, s), b) else string_n r s (readable b) b
    else ok ((false, s), b)

-- The end of both searches for a delimiter of `width` bytes, at the distance `n` or not found:
-- an empty string leaves the delimiter unread.
abbrev pub up_to : StreamReader → Bytes → ℕ → Option ℕ → M (Bool × Bytes)
up_to r s width none b = ok ((false, s), b)
up_to r s width (some n) b =
    if n == 0
    then ok ((true, []), b)
    else (string_n r s n b ▹ λ (res, b').
        if res.0
        then (let (skipped, b'') = advance_read width b' in
            ok ((elim skipped [ none ↦ false | some _ ↦ true ], res.1), b''))
        else ok (res, b'))

-- String(s, delim) with a char
unfoldable pub string_char : StreamReader → Bytes → ℕ → M (Bool × Bytes)
string_char r s delim b =
    if r.attached then (readable_char delim b ▹ λ n. up_to r s 1 n b) else ok ((false, s), b)

-- String(s, delim) with a string
unfoldable pub string_string : StreamReader → Bytes → Bytes → M (Bool × Bytes)
string_string r s delim b =
    if r.attached
    then if ltb (readable b) (length delim)
      then ok ((false, s), b)
      else (readable_string delim b ▹ λ n. up_to r s (length delim) n b)
    else ok ((false, s), b)
