-- ===== src/RandomWriter.antt =====
-- netb/RandomWriter.hpp and netb/RandomWriter.cpp: writing over the contents of the buffer that the
-- writer is attached to, at offsets.
use netb.Prelude.{
  ℕ, ◌%◌, ◌∷◌, [], ◌++◌, length, Bool, true, false, none, some, Outcome, ok, fault, aborted,
  undefined, add_size, ltb, leb, ◌==◌, if◌then◌else◌,
}
use netb.Memory.{Bytes}
use netb.Host.{Endian, bytes16, bytes32, htons, htonl}
use netb.StreamBuffer.{StreamBuffer, M, pure, size, peekable, update}
use netb.StreamWriter.{last?}

-- `_stream` is null or the buffer.
pub record RandomWriter : Type 0 where
  pub attached : Bool
  pub start : ℕ

-- RandomWriter()
unfoldable pub detached : RandomWriter
detached = record { attached = false; start = 0 }

-- RandomWriter(buf, offset) and Attach(buf, offset)
unfoldable pub attach : ℕ → StreamBuffer → Outcome RandomWriter
attach offset b =
    if leb offset (size b) then ok (record { attached = true; start = offset }) else fault aborted

-- The writes of bytes: they test against the bound, and count from the writer's own offset.
abbrev pub put : (StreamBuffer → ℕ) → RandomWriter → ℕ → Bytes → M Bool
put bound w offset p b =
    if w.attached
    then if ltb (bound b) (add_size (add_size w.start offset) (length p))
      then ok (false, b)
      else update (add_size w.start offset) p b
    else ok (false, b)

-- Bytes(offset, p, n)
unfoldable pub bytes : RandomWriter → ℕ → Bytes → M Bool
bytes = put (peekable 0)

-- The writes of a number: they pass the offset on as it is.
abbrev pub number : Bytes → RandomWriter → ℕ → M Bool
number p w offset = if w.attached then update offset p else pure false

-- Integer(offset, v) of int8_t and of uint8_t
unfoldable pub integer8 : RandomWriter → ℕ → ℕ → M Bool
integer8 w offset v = number (v % 256 ∷ []) w offset

-- Integer(offset, v) of int16_t and of uint16_t
unfoldable pub integer16 : Endian → RandomWriter → ℕ → ℕ → M Bool
integer16 e w offset v = number (bytes16 e (htons e v)) w offset

-- Integer(offset, v) of int32_t and of uint32_t
unfoldable pub integer32 : Endian → RandomWriter → ℕ → ℕ → M Bool
integer32 e w offset v = number (bytes32 e (htonl e v)) w offset

-- Integer(offset, v) of int64_t and of uint64_t: assert(false)
unfoldable pub integer64 : RandomWriter → ℕ → ℕ → M Bool
integer64 w offset v b = fault aborted

-- String(offset, s)
unfoldable pub string : RandomWriter → ℕ → Bytes → M Bool
string = put (peekable 0)

-- String(offset, s, delim) with a char
unfoldable pub string_char : RandomWriter → ℕ → Bytes → ℕ → M Bool
string_char w offset s delim b =
    if w.attached
    then elim (last? s) [
      | none ↦ fault undefined
      | some c ↦ if c == delim then fault aborted else put (peekable 0) w offset (s ++ delim ∷ []) b
    ]
    else ok (false, b)

-- String(offset, s, delim) with a string, which tests against Size()
unfoldable pub string_string : RandomWriter → ℕ → Bytes → Bytes → M Bool
string_string w offset s delim = put size w offset (s ++ delim)
