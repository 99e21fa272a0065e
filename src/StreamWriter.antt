-- ===== src/StreamWriter.antt =====
-- netb/StreamWriter.hpp and netb/StreamWriter.cpp: sequential writing of numbers and strings into
-- the buffer that the writer is attached to. The buffer is the state of the actions.
pub mod Encodes
use netb.Prelude.{
  ℕ, ◌%◌, ◌^◌, [], ◌∷◌, ◌++◌, Bool, true, false, Option, none, some, fault, undefined, aborted,
  ◌==◌, if◌then◌else◌,
}
use netb.Memory.{Bytes}
use netb.Host.{Endian, bytes16, bytes32, htons, htonl}
use netb.StreamBuffer.{StreamBuffer, M, pure, ◌>>=◌, write, clear}

-- `_stream` is null or the buffer.
pub record StreamWriter : Type 0 where
  pub attached : Bool

-- StreamWriter()
unfoldable pub detached : StreamWriter
detached = record { attached = false }

-- StreamWriter(buf, clear) and Attach(buf, clear): the writer and the buffer that they leave
unfoldable pub attach : Bool → StreamBuffer → StreamWriter × StreamBuffer
attach clears b = (record { attached = true }, if clears then clear b else b)

-- The bool result of an action whose result is an offset.
abbrev pub succeeds : M (Option ℕ) → M Bool
succeeds m = m >>= λ r. pure (elim r [ none ↦ false | some _ ↦ true ])

-- `if(!_stream) return false;`
abbrev pub on_stream : StreamWriter → M (Option ℕ) → M (Option ℕ)
on_stream w m = if w.attached then m else pure none

-- Bytes(p, n, offset); `none` is the result false, else the offset
unfoldable pub bytes : StreamWriter → Bytes → M (Option ℕ)
bytes w p = on_stream w (write p)

-- Integer(v) of int8_t and of uint8_t
unfoldable pub integer8 : StreamWriter → ℕ → M (Option ℕ)
integer8 w v = on_stream w (write (v % 256 ∷ []))

-- Integer(v) of int16_t and of uint16_t
unfoldable pub integer16 : Endian → StreamWriter → ℕ → M (Option ℕ)
integer16 e w v = on_stream w (write (bytes16 e (htons e v)))

-- Integer(v) of int32_t
unfoldable pub signed32 : Endian → StreamWriter → ℕ → M (Option ℕ)
signed32 e w v = on_stream w (write (bytes32 e (htonl e v)))

-- Integer(v) of uint32_t: the converted number is kept in a `uint16_t`, and two bytes are written
unfoldable pub unsigned32 : Endian → StreamWriter → ℕ → M (Option ℕ)
unsigned32 e w v = on_stream w (write (bytes16 e (htonl e v % 2 ^ 16)))

-- Integer(v) of int64_t and of uint64_t: assert(false)
unfoldable pub integer64 : StreamWriter → ℕ → M (Option ℕ)
integer64 w v b = fault aborted

-- String(s, offset)
unfoldable pub string : StreamWriter → Bytes → M (Option ℕ)
string w s = on_stream w (write s)

-- The last byte of a string.
abbrev pub last? : Bytes → Option ℕ
last? [] = none
last? (x ∷ []) = some x
last? (x ∷ y ∷ s) = last? (y ∷ s)

-- String(s, delim, offset) with a char: `s[s.length() - 1]` is outside an empty string
unfoldable pub string_char : StreamWriter → Bytes → ℕ → M (Option ℕ)
string_char w s delim = on_stream w (λ b. elim (last? s) [
  | none ↦ fault undefined
  | some c ↦ if c == delim then fault aborted else write (s ++ delim ∷ []) b
])

-- String(s, delim, offset) with a string
unfoldable pub string_string : StreamWriter → Bytes → Bytes → M (Option ℕ)
string_string w s delim = on_stream w (write (s ++ delim))
