-- ===== src/Dns/Flags.antt =====
-- `Header::FLAGS` of netb/DnsMessage.hpp: the two bytes of DNS flags and their fields.
pub mod Laws
use netb.Prelude.{
  ℕ, ◌*◌, ◌/◌, ◌%◌, ◌^◌, bit_and, bit_or, Bool, true, false, none, some, if◌then◌else◌,
}
use netb.StreamBuffer.{M, pure, ◌>>=◌, ◌&&>◌}
use netb.StreamReader
use netb.StreamReader.{StreamReader}
use netb.StreamWriter
use netb.StreamWriter.{StreamWriter, succeeds}

pub record Flags : Type 0 where
  pub qr : ℕ
  pub opcode : ℕ
  pub aa : ℕ
  pub tc : ℕ
  pub rd : ℕ
  pub ra : ℕ
  pub z : ℕ
  pub rcode : ℕ

-- FLAGS()
abbrev pub no_flags : Flags
no_flags = record { qr = 0; opcode = 0; aa = 0; tc = 0; rd = 0; ra = 0; z = 0; rcode = 0 }

-- Decode(flags)
unfoldable pub decode : ℕ → ℕ → Flags
decode b0 b1 = record {
  qr = bit_and b0 0x80 / 2 ^ 7;
  opcode = bit_and b0 0x78 / 2 ^ 3;
  aa = bit_and b0 0x04 / 2 ^ 2;
  tc = bit_and b0 0x02 / 2 ^ 1;
  rd = bit_and b0 0x01;
  ra = bit_and b1 0x80 / 2 ^ 7;
  z = bit_and b1 0x70 / 2 ^ 4;
  rcode = bit_and b1 0x0f;
}

-- The byte flags[0] of Encode(flags), from rd, tc, aa, opcode and qr.
unfoldable pub encode0 : ℕ → ℕ → ℕ → ℕ → ℕ → ℕ
encode0 rd tc aa opcode qr =
    bit_or (bit_or (bit_or (bit_or rd (tc * 2 ^ 1)) (aa * 2 ^ 2)) (opcode * 2 ^ 3)) (qr * 2 ^ 7)
    % 256

-- The byte flags[1] of Encode(flags), from rcode, z and ra.
unfoldable pub encode1 : ℕ → ℕ → ℕ → ℕ
encode1 rcode z ra = bit_or (bit_or rcode (z * 2 ^ 4)) (ra * 2 ^ 7) % 256

-- Encode(flags)
abbrev pub encode : Flags → ℕ × ℕ
encode f = (encode0 f.rd f.tc f.aa f.opcode f.qr, encode1 f.rcode f.z f.ra)

-- Serialize(writer)
unfoldable pub write_flags : StreamWriter → Flags → M Bool
write_flags w f =
    succeeds (StreamWriter.integer8 w (encode f).0)
    &&> succeeds (StreamWriter.integer8 w (encode f).1)

-- Serialize(reader): the flags change only if both bytes are read
unfoldable pub read_flags : StreamReader → Flags → M (Bool × Flags)
read_flags r f = StreamReader.integer8 r >>= λ first. elim first [
  | none ↦ pure (false, f)
  | some b0 ↦ StreamReader.integer8 r >>= λ second.
      pure (elim second [ none ↦ (false, f) | some b1 ↦ (true, decode b0 b1) ])
]
