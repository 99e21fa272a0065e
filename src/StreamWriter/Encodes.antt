-- ===== src/StreamWriter/Encodes.antt =====
-- Which bytes an attached writer appends for a number or a string.
use netb.Prelude.{ℕ, ◌%◌, ◌^◌, ◌<◌, ◌≡◌, [], ◌∷◌, ◌++◌, true, arith, some, ap, ne→==, ◌≢◌}
use mathlib.Core.Path.{subst}
use netb.Memory.{Bytes}
use netb.Host.{
  Endian, bytes16, bytes32, htons, htonl, wire16, wire32, half_wire32, bytes16-htons, bytes32-htonl,
  bytes16-htonl,
}
use netb.StreamBuffer.{write}
use netb.StreamWriter.{
  StreamWriter, succeeds, bytes, integer8, integer16, signed32, unsigned32, string, string_char,
  string_string, last?,
}
use netb.Wire.{Writes, write-Writes}

-- A writer on a buffer.
abbrev pub writer : StreamWriter
writer = record { attached = true }

encodes : (bs cs : Bytes) → bs ≡ cs → Writes (succeeds (write bs)) true cs
encodes bs cs e = subst (λ t. Writes (succeeds (write bs)) true t) e (write-Writes bs)

pub integer8-Writes : (v : ℕ) → v < 256 → Writes (succeeds (integer8 writer v)) true (v ∷ [])
unfolding integer8
integer8-Writes v h = encodes (v % 256 ∷ []) (v ∷ []) (ap (λ (t : ℕ). t ∷ []) (omega arith))

pub integer16-Writes :
    (e : Endian) (v : ℕ) → v < 2 ^ 16 → Writes (succeeds (integer16 e writer v)) true (wire16 v)
unfolding integer16
integer16-Writes e v h = encodes (bytes16 e (htons e v)) (wire16 v) (bytes16-htons e v h)

pub signed32-Writes :
    (e : Endian) (v : ℕ) → v < 2 ^ 32 → Writes (succeeds (signed32 e writer v)) true (wire32 v)
unfolding signed32
signed32-Writes e v h = encodes (bytes32 e (htonl e v)) (wire32 v) (bytes32-htonl e v h)

-- Only two of the four bytes.
pub unsigned32-Writes :
    (e : Endian) (v : ℕ)
    → v < 2 ^ 32
    → Writes (succeeds (unsigned32 e writer v)) true (half_wire32 e v)
unfolding unsigned32
unsigned32-Writes e v h =
    encodes (bytes16 e (htonl e v % 2 ^ 16)) (half_wire32 e v) (bytes16-htonl e v h)

pub string-Writes : (s : Bytes) → Writes (succeeds (string writer s)) true s
unfolding string
string-Writes s = write-Writes s

pub bytes-Writes : (s : Bytes) → Writes (succeeds (bytes writer s)) true s
unfolding bytes
bytes-Writes s = write-Writes s

pub string_string-Writes :
    (s delim : Bytes) → Writes (succeeds (string_string writer s delim)) true (s ++ delim)
unfolding string_string
string_string-Writes s delim = write-Writes (s ++ delim)

-- A string that is not empty and does not end in the delimiter.
pub string_char-Writes :
    (s : Bytes) (delim c : ℕ)
    → last? s ≡ some c
    → c ≢ delim
    → Writes (succeeds (string_char writer s delim)) true (s ++ delim ∷ [])
unfolding string_char
string_char-Writes s delim c e ne = rw (e, ne→== c delim ne) (write-Writes (s ++ delim ∷ []))
