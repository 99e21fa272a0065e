-- ===== src/RandomReader.antt =====
-- netb/RandomReader.hpp and netb/RandomReader.cpp: reading at offsets into the contents of the
-- buffer that the reader is attached to.
use netb.Prelude.{
  ℕ, [], length, Bool, true, false, Option, none, some, Outcome, ok, fault, aborted, undefined, ◌▹◌,
  add_size, ltb, leb, ◌==◌, if◌then◌else◌,
}
use netb.Memory.{Bytes, load}
use netb.Host.{Endian, value16, value32, htons, htonl}
use netb.StreamBuffer.{StreamBuffer, M, size, peek, peek_at, peekable, peekable_delim, advance_read}
use netb.StreamReader.{value8}

-- `_stream` is null or the buffer.
pub record RandomReader : Type 0 where
  pub attached : Bool
  pub start : ℕ

-- RandomReader()
unfoldable pub detached : RandomReader
detached = record { attached = false; start = 0 }

-- RandomReader(buf, offset) and Attach(buf, offset)
unfoldable pub attach : ℕ → StreamBuffer → Outcome RandomReader
attach offset b =
    if leb offset (size b) then ok (record { attached = true; start = offset }) else fault aborted

-- Bytes(offset, p, n): `none` is the result false
unfoldable pub bytes : RandomReader → ℕ → ℕ → StreamBuffer → Outcome (Option Bytes)
bytes r offset n b =
    if r.attached
    then if ltb (peekable 0 b) (add_size (add_size r.start offset) n)
      then ok none
      else peek (add_size r.start offset) n b
    else ok none

-- The reads of a number of `width` bytes: they pass the offset on as it is.
abbrev pub number : (Bytes → ℕ) → ℕ → RandomReader → ℕ → StreamBuffer → Outcome (Option ℕ)
number value width r offset b =
    if r.attached
    then (peek offset width b ▹ λ p. ok (elim p [ none ↦ none | some bs ↦ some (value bs) ]))
    else ok none

-- Integer(offset, v) of int8_t
unfoldable pub signed8 : RandomReader → ℕ → StreamBuffer → Outcome (Option ℕ)
signed8 = number value8 1

-- Integer(offset, v) of uint8_t, which peeks three times
unfoldable pub unsigned8 : RandomReader → ℕ → StreamBuffer → Outcome (Option ℕ)
unsigned8 r offset b =
    if r.attached
    then (peek offset 1 b ▹ λ first. peek offset 1 b ▹ λ second. number value8 1 r offset b)
    else ok none

-- Integer(offset, v) of int16_t and of uint16_t
unfoldable pub integer16 : Endian → RandomReader → ℕ → StreamBuffer → Outcome (Option ℕ)
integer16 e = number (λ bs. htons e (value16 e bs)) 2

-- Integer(offset, v) of int32_t and of uint32_t
unfoldable pub integer32 : Endian → RandomReader → ℕ → StreamBuffer → Outcome (Option ℕ)
integer32 e = number (λ bs. htonl e (value32 e bs)) 4

-- Integer(offset, v) of int64_t and of uint64_t: assert(false)
unfoldable pub integer64 : RandomReader → ℕ → StreamBuffer → Outcome (Option ℕ)
integer64 r offset b = fault aborted

-- String(offset, s, n): the result and what `s` then holds
unfoldable pub string_n : RandomReader → ℕ → Bytes → ℕ → StreamBuffer → Outcome (Bool × Bytes)
string_n r offset s n b =
    if r.attached
    then if ltb (peekable 0 b) (add_size (add_size r.start offset) n)
      then ok (false, s)
      else elim (peek_at (add_size r.start offset) b) [
        | none ↦ if n == 0 then ok (true, []) else fault undefined
        | some i ↦ load b.bytes i n ▹ λ s'. ok (true, s')
      ]
    else ok (false, s)

-- String(offset, s)
unfoldable pub string : RandomReader → ℕ → Bytes → StreamBuffer → Outcome (Bool × Bytes)
string r offset s b =
    if r.attached
    then if ltb (peekable 0 b) (add_size r.start offset)
      then ok (false, s)
      else if peekable (add_size r.start offset) b == 0
      then ok (false, s)
      else string_n r offset s (peekable (add_size r.start offset) b) b
    else ok (false, s)

-- String(offset, s, delim) with a char or a string; after the string it moves the sequential
-- reading position by the width of the delimiter.
unfoldable pub string_delim : RandomReader → ℕ → Bytes → Bytes → M (Bool × Bytes)
string_delim r offset s delim b =
    if r.attached
    then if ltb (peekable 0 b) (add_size (add_size r.start offset) (length delim))
      then ok ((false, s), b)
      else (peekable_delim (add_size r.start offset) delim b ▹ λ n. elim n [
        | none ↦ ok ((false, s), b)
        | some k ↦
            if k == 0
            then ok ((true, []), b)
            else (string_n r offset s k b ▹ λ res.
                if res.0
                then (let (skipped, b') = advance_read (length delim) b in
                    ok ((elim skipped [ none ↦ false | some _ ↦ true ], res.1), b'))
                else ok (res, b))
      ])
    else ok ((false, s), b)
