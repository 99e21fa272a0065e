-- ===== src/Dns/Header/Encoding.antt =====
-- The twelve bytes of a header, that writing produces them, and that reading takes them back.
use netb.Prelude.{ℕ, ◌^◌, ◌<◌, ◌++◌, true}
use netb.Memory.{Bytes}
use netb.Host.{Endian, wire16}
use netb.StreamWriter.Encodes.{writer, integer16-Writes}
use netb.StreamReader.Decodes.{reader, integer16-Reads}
use netb.Wire.{Writes, Reads, Writes-and, Reads-pure}
use netb.Fields.{field, Fills, field-Fills, and-Fills}
use netb.Dns.Flags.{Flags}
use netb.Dns.Flags.Laws.{IsInRange, wire_flags, write_flags-Writes, read_flags-Reads}
use netb.StreamReader
use netb.Dns.Header.{
  Header, set_id, set_qdcount, set_ancount, set_nscount, set_arcount, read_header_flags,
  write_header, read_header,
}

-- Every field fits its bits.
pub record HeaderInRange (h : Header) : Type 0 where
  pub id : h.id < 2 ^ 16
  pub flags : IsInRange h.flags
  pub qdcount : h.qdcount < 2 ^ 16
  pub ancount : h.ancount < 2 ^ 16
  pub nscount : h.nscount < 2 ^ 16
  pub arcount : h.arcount < 2 ^ 16

-- RFC 1035, 4.1.1.
abbrev pub wire_header : Header → Bytes
wire_header h =
    wire16 h.id
    ++ (wire_flags h.flags
        ++ (wire16 h.qdcount ++ (wire16 h.ancount ++ (wire16 h.nscount ++ wire16 h.arcount))))

-- An attached writer writes the wire form of a header.
pub write_header-Writes :
    (e : Endian) {h : Header}
    → HeaderInRange h
    → Writes (write_header e writer h) true (wire_header h)
unfolding write_header
write_header-Writes e {h} k = Writes-and (wire16 h.id) _ (integer16-Writes e h.id k.id) (
    Writes-and (wire_flags h.flags) _ (write_flags-Writes h.flags) (
      Writes-and (wire16 h.qdcount) _ (integer16-Writes e h.qdcount k.qdcount) (
        Writes-and (wire16 h.ancount) _ (integer16-Writes e h.ancount k.ancount) (
          Writes-and (wire16 h.nscount) (wire16 h.arcount) (integer16-Writes e h.nscount k.nscount)
            (integer16-Writes e h.arcount k.arcount)))))

header_flags-Fills :
    {f : Flags} (old : Header)
    → IsInRange f
    → Fills (read_header_flags reader) old (record old { flags = f }) (wire_flags f)
header_flags-Fills old k = record { reads = Reads-pure _ (read_flags-Reads old.flags k) }

-- An attached reader takes the wire form of a header back, whatever the object held before.
pub read_header-Reads :
    (e : Endian) {h : Header} (old : Header)
    → HeaderInRange h
    → Reads (read_header e reader old) (true, h) (wire_header h)
unfolding read_header
read_header-Reads e {h} old k = all.reads
  where
    number :
        (set : ℕ → Header → Header) (g : Header) {v : ℕ}
        → v < 2 ^ 16
        → Fills (field (StreamReader.integer16 e reader) set) g (set v g) (wire16 v)
    number set g {v} lt = field-Fills set g (integer16-Reads e v lt)

    all : Fills (read_header e reader) old h (wire_header h)
    all = and-Fills (wire16 h.id) _ (number set_id old k.id) (
        and-Fills (wire_flags h.flags) _ (header_flags-Fills _ k.flags) (
          and-Fills (wire16 h.qdcount) _ (number set_qdcount _ k.qdcount) (
            and-Fills (wire16 h.ancount) _ (number set_ancount _ k.ancount) (
              and-Fills (wire16 h.nscount) (wire16 h.arcount) (number set_nscount _ k.nscount)
                (number set_arcount _ k.arcount)))))
