-- ===== src/Dns/Flags/Laws.antt =====
-- Encoding and decoding the flags are inverse to one another.
use netb.Prelude.{
  ℕ, ◌+◌, ◌*◌, ◌<◌, ◌≡◌, refl, bit_and, ◌&&◌, ◌==◌, every, every-at, arith, List, [], ◌∷◌, true,
  some, Bool, ◌/◌, ◌^◌,
}
use mathlib.Core.Path.{subst}
use netb.Dns.Flags.{Flags, decode, encode, encode0, encode1, write_flags, read_flags}
use netb.StreamWriter.Encodes.{writer, integer8-Writes}
use netb.StreamReader.Decodes.{reader, integer8-Reads}
use netb.Wire.{Writes, Reads, Writes-and, Reads-bind, Reads-pure}

-- Each field fits its bits.
pub record IsInRange (f : Flags) : Type 0 where
  pub qr : f.qr < 2
  pub opcode : f.opcode < 16
  pub aa : f.aa < 2
  pub tc : f.tc < 2
  pub rd : f.rd < 2
  pub ra : f.ra < 2
  pub z : f.z < 8
  pub rcode : f.rcode < 16

-- The first byte as the sum of its fields.
sum0 : ℕ → ℕ → ℕ → ℕ → ℕ → ℕ
sum0 rd tc aa opcode qr = rd + tc * 2 + aa * 4 + opcode * 8 + qr * 128

check0 : ℕ → ℕ → ℕ → ℕ → ℕ → Bool
check0 rd tc aa opcode qr =
    let b = encode0 rd tc aa opcode qr in
    (bit_and b 0x80 / 2 ^ 7 == qr)
    && (bit_and b 0x78 / 2 ^ 3 == opcode)
    && (bit_and b 0x04 / 2 ^ 2 == aa)
    && (bit_and b 0x02 / 2 ^ 1 == tc)
    && (bit_and b 0x01 == rd)

table0 :
    every
      (λ rd.
        every
          (λ tc. every (λ aa. every (λ opcode. every (λ qr. check0 rd tc aa opcode qr) 2) 16) 2)
          2)
      2
    ≡ true
unfolding every check0 encode0
table0 = refl

check0_sound :
    (rd tc aa opcode qr : ℕ)
    → rd < 2
    → tc < 2
    → aa < 2
    → opcode < 16
    → qr < 2
    → check0 rd tc aa opcode qr ≡ true
check0_sound rd tc aa opcode qr h1 h2 h3 h4 h5 =
    every-at _ 2 qr h5 (
      every-at _ 16 opcode h4 (every-at _ 2 aa h3 (every-at _ 2 tc h2 (every-at _ 2 rd h1 table0))))

check1 : ℕ → ℕ → ℕ → Bool
check1 rcode z ra =
    let b = encode1 rcode z ra in
    (bit_and b 0x80 / 2 ^ 7 == ra) && (bit_and b 0x70 / 2 ^ 4 == z) && (bit_and b 0x0f == rcode)

table1 : every (λ rcode. every (λ z. every (λ ra. check1 rcode z ra) 2) 8) 16 ≡ true
unfolding every check1 encode1
table1 = refl

check1_sound : (rcode z ra : ℕ) → rcode < 16 → z < 8 → ra < 2 → check1 rcode z ra ≡ true
check1_sound rcode z ra h1 h2 h3 =
    every-at _ 2 ra h3 (every-at _ 8 z h2 (every-at _ 16 rcode h1 table1))

-- Decoding the two bytes that flags with every field in its range encode to gives the flags back.
pub decode-encode : {f : Flags} → IsInRange f → decode (encode f).0 (encode f).1 ≡ f
unfolding decode check0 check1
decode-encode {f} h = ground (
  arith,
  check0_sound f.rd f.tc f.aa f.opcode f.qr h.rd h.tc h.aa h.opcode h.qr,
  check1_sound f.rcode f.z f.ra h.rcode h.z h.ra,
)

-- Encoding what was decoded from two bytes gives the bytes back.
check_bytes : ℕ → Bool
check_bytes b = ((encode (decode b b)).0 == b) && ((encode (decode b b)).1 == b)

bytes_table : every check_bytes 256 ≡ true
unfolding every check_bytes decode encode0 encode1
bytes_table = refl

-- Encoding the flags that were decoded from any two bytes gives the bytes back.
pub encode-decode : (b0 b1 : ℕ) → b0 < 256 → b1 < 256 → encode (decode b0 b1) ≡ (b0, b1)
unfolding decode check_bytes
encode-decode b0 b1 h0 h1 =
    ground (
      arith,
      every-at check_bytes 256 b0 h0 bytes_table,
      every-at check_bytes 256 b1 h1 bytes_table,
    )

encode-lt : (f : Flags) → ((encode f).0 < 256) × ((encode f).1 < 256)
unfolding encode0 encode1
encode-lt f = omega arith

-- The flags on the wire.
abbrev pub wire_flags : Flags → List ℕ
wire_flags f = (encode f).0 ∷ (encode f).1 ∷ []

pub write_flags-Writes : (f : Flags) → Writes (write_flags writer f) true (wire_flags f)
unfolding write_flags
write_flags-Writes f =
    Writes-and ((encode f).0 ∷ []) ((encode f).1 ∷ [])
      (integer8-Writes (encode f).0 (encode-lt f).0) (integer8-Writes (encode f).1 (encode-lt f).1)

pub read_flags-Reads :
    {f : Flags} (old : Flags) → IsInRange f → Reads (read_flags reader old) (true, f) (wire_flags f)
unfolding read_flags
read_flags-Reads {f} old h =
    subst (λ g. Reads (read_flags reader old) (true, g) (wire_flags f)) (decode-encode h)
      (Reads-bind _ (some (encode f).0) ((encode f).0 ∷ []) ((encode f).1 ∷ [])
        (integer8-Reads (encode f).0) (Reads-pure _ (integer8-Reads (encode f).1)))
