-- ===== src/Roundtrip.antt =====
-- Values that a writer puts into a buffer and a reader takes from it: StreamWriter and StreamReader
-- of netb/StreamWriter.cpp and netb/StreamReader.cpp, DomainName and Header of netb/DnsRecord.cpp
-- and netb/DnsMessage.hpp, in this order on the same buffer.
use netb.Prelude.{
  ℕ, ◌^◌, ◌<◌, ◌≡◌, List, [], ◌++◌, length, true, none, some, ok, ap, ◌∙◌, arith, refl,
}
use netb.Memory.{Bytes}
use netb.Host.{Endian, little, big, half_wire32}
use netb.StreamBuffer.{StreamBuffer, ◌>>=◌}
use netb.StreamBuffer.Valid.{IsValid, HasRoom, unread}
use netb.StreamWriter
use netb.StreamWriter.{succeeds}
use netb.StreamWriter.Encodes.{writer, integer16-Writes, signed32-Writes, unsigned32-Writes}
use netb.StreamReader
use netb.StreamReader.Decodes.{reader, integer16-Reads, integer32-Reads, integer32_short}
use netb.Wire.{Reads-Writes, HasRoom-le, bind_ok}
use netb.Dns.Header.{Header, write_header, read_header}
use netb.Dns.Header.Encoding.{HeaderInRange, wire_header, write_header-Writes, read_header-Reads}
use netb.Dns.Name.{add16, write_name, read_name}
use netb.Dns.Name.Encoding.{AllLabels, wire_name, write_name-Writes, read_name-Reads}

-- A number below 2^16 that is written as an `uint16_t` into a valid buffer with room for two bytes
-- and nothing unread is read back, in either byte order of the host; nothing is left unread and
-- the buffer stays valid.
pub integer16-integer16 :
    (e : Endian) (v : ℕ) (b : StreamBuffer)
    → v < 2 ^ 16
    → HasRoom 2 b
    → unread b ≡ []
    → (b' : StreamBuffer) × ((succeeds (StreamWriter.integer16 e writer v) >>= λ _.
            StreamReader.integer16 e reader)
          b
        ≡ ok (some v, b'))
      × (unread b' ≡ [])
      × IsValid b'
integer16-integer16 e v b lt room none' =
    Reads-Writes (integer16-Writes e v lt) (integer16-Reads e v lt) room none'

-- An `int32_t`, given as its value modulo 2^32, that is written into a valid buffer with room for
-- four bytes and nothing unread is read back, in either byte order of the host; nothing is left
-- unread and the buffer stays valid.
pub integer32-signed32 :
    (e : Endian) (v : ℕ) (b : StreamBuffer)
    → v < 2 ^ 32
    → HasRoom 4 b
    → unread b ≡ []
    → (b' : StreamBuffer) × ((succeeds (StreamWriter.signed32 e writer v) >>= λ _.
            StreamReader.integer32 e reader)
          b
        ≡ ok (some v, b'))
      × (unread b' ≡ [])
      × IsValid b'
integer32-signed32 e v b lt room none' =
    Reads-Writes (signed32-Writes e v lt) (integer32-Reads e v lt) room none'

length-half : (e : Endian) (v : ℕ) → length (half_wire32 e v) ≡ 2
unfolding half_wire32
length-half little v = refl
length-half big v = refl

-- A number below 2^32 that is written as an `uint32_t` into a valid buffer with room for two bytes
-- and nothing unread leaves two bytes unread, which `half_wire32` names, and reading an `uint32_t`
-- back fails.
pub integer32-unsigned32 :
    (e : Endian) (v : ℕ) (b : StreamBuffer)
    → v < 2 ^ 32
    → HasRoom 2 b
    → unread b ≡ []
    → (b' : StreamBuffer) × ((succeeds (StreamWriter.unsigned32 e writer v) >>= λ _.
            StreamReader.integer32 e reader)
          b
        ≡ ok (none, b'))
      × (unread b' ≡ half_wire32 e v)
integer32-unsigned32 e v b lt room none' =
    let (b₁, e₁, p) =
      (unsigned32-Writes e v lt).run b
        (HasRoom-le (length (half_wire32 e v)) room (omega (arith, length-half e v))) in
    let u = p.unread ∙ ap (λ t. t ++ half_wire32 e v) none' in
    (
      b₁,
      bind_ok (succeeds (StreamWriter.unsigned32 e writer v)) _ e₁
          ∙ integer32_short e p.valid
              (omega (arith, length-half e v, ap (λ (t : Bytes). length t) u)),
      u,
    )

-- A domain name whose labels have 1 to 63 bytes and are not a lone dot, written into a valid
-- buffer with room for it and nothing unread, is read back behind the labels that the object held,
-- and `*rlen` grows by the length on the wire, modulo 2^16; nothing is left unread and the buffer
-- stays valid.
pub read_name-write_name :
    (parts old : List Bytes) (wlen rlen : ℕ) (b : StreamBuffer)
    → AllLabels parts
    → HasRoom (length (wire_name parts)) b
    → unread b ≡ []
    → (b' : StreamBuffer) × ((write_name writer parts wlen >>= λ _. read_name reader old rlen) b
        ≡ ok ((true, old ++ parts, add16 rlen (length (wire_name parts))), b'))
      × (unread b' ≡ [])
      × IsValid b'
read_name-write_name parts old wlen rlen b all room none' =
    Reads-Writes (write_name-Writes parts wlen all) (read_name-Reads parts old rlen all) room none'

-- A DNS header whose fields fit their bits, written into a valid buffer with room for it and
-- nothing unread, is read back, whatever the object held, in either byte order of the host;
-- nothing is left unread and the buffer stays valid.
pub read_header-write_header :
    (e : Endian) (h old : Header) (b : StreamBuffer)
    → HeaderInRange h
    → HasRoom (length (wire_header h)) b
    → unread b ≡ []
    → (b' : StreamBuffer) × ((write_header e writer h >>= λ _. read_header e reader old) b
        ≡ ok ((true, h), b'))
      × (unread b' ≡ [])
      × IsValid b'
read_header-write_header e h old b k room none' =
    Reads-Writes (write_header-Writes e k) (read_header-Reads e old k) room none'
