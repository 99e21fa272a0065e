-- ===== src/Dns/Record/Decoding.antt =====
-- Resource records as they arrive: addresses, mail exchanges and texts are taken from the wire.
use netb.Prelude.{
  ℕ, ◌+◌, ◌^◌, ◌<◌, ◌≡◌, [], ◌∷◌, ◌++◌, append_assoc, length, Bool, true, none, some, ◌==◌, arith,
  ==_refl,
}
use netb.Memory.{Bytes}
use netb.Host.{Endian, wire16, wire32}
use netb.StreamReader.Decodes.{
  reader, integer8-Reads, integer16-Reads, integer32-Reads, string_n-Reads,
}
use netb.Wire.{Reads, Reads-bind, Reads-pure, Reads-value, Reads-bytes}
use netb.Fields.{Fills, field-Fills, and-Fills}
use netb.Dns.Name.{DomainName, no_name, add16}
use netb.Dns.Name.Encoding.{AllLabels, wire_name, read_name-Reads}
use netb.Dns.Record.{
  RecordData, a, cname, soa, mx, txt, create, read_data, ResourceRecord, no_record, set_rtype,
  set_rclass, set_ttl, set_rdlen, read_record_name, read_fixed, read_rest, read_record,
}

-- TYPE, RDLENGTH and RDATA of a record with this data.
abbrev pub type_of : RecordData → ℕ
type_of (a ip) = 1
type_of (cname name) = 5
type_of soa = 6
type_of (mx preference exchange) = 15
type_of (txt text) = 16

abbrev pub wire_data : RecordData → Bytes
wire_data (a ip) = wire32 ip
wire_data (cname name) = wire_name name.parts
wire_data soa = []
wire_data (mx preference exchange) = wire16 preference ++ wire_name exchange.parts
wire_data (txt text) = length text ∷ text

abbrev pub rdlen_of : RecordData → ℕ
rdlen_of (a ip) = 4
rdlen_of (cname name) = length (wire_name name.parts)
rdlen_of soa = 0
rdlen_of (mx preference exchange) = 2 + length (wire_name exchange.parts)
rdlen_of (txt text) = length text + 1

-- The data that can be taken: that of an SOA is not read at all, and a CNAME is compared with a
-- length that is counted up from nothing.
abbrev pub IsDecodable : RecordData → Type 0
IsDecodable (a ip) = ip < 2 ^ 32
IsDecodable (cname name) = ⊥
IsDecodable soa = ⊥
IsDecodable (mx preference exchange) =
    (preference < 2 ^ 16)
    × AllLabels exchange.parts
    × (2 + length (wire_name exchange.parts) < 2 ^ 16)
IsDecodable (txt text) = length text < 256

-- What arrives in a record.
pub record Arrival : Type 0 where
  pub name : DomainName
  pub rclass : ℕ
  pub ttl : ℕ
  pub rdata : RecordData

pub record IsArriving (x : Arrival) : Type 0 where
  pub name : AllLabels x.name.parts
  pub rclass : x.rclass < 2 ^ 16
  pub ttl : x.ttl < 2 ^ 32
  pub rdata : IsDecodable x.rdata

-- The record with it, and its wire form.
abbrev pub resource : Arrival → ResourceRecord
resource x = record {
  name = x.name;
  rtype = type_of x.rdata;
  rclass = x.rclass;
  ttl = x.ttl;
  rdlen = rdlen_of x.rdata;
  rdata = some x.rdata;
}

abbrev pub wire_record : Arrival → Bytes
wire_record x =
    wire_name x.name.parts
    ++ (wire16 (type_of x.rdata)
        ++ (wire16 x.rclass ++ (wire32 x.ttl ++ (wire16 (rdlen_of x.rdata) ++ wire_data x.rdata))))

module _ (e : Endian) (garbage : ℕ) where
  read_a :
      (ip : ℕ) → ip < 2 ^ 32 → Reads (read_data e garbage reader (a 0) 4) (true, a ip) (wire32 ip)
  unfolding read_data
  read_a ip h = Reads-pure _ (integer32-Reads e ip h)

  read_mx :
      (p : ℕ) (x : DomainName)
      → IsDecodable (mx p x)
      → Reads
          (read_data e garbage reader (mx 0 no_name) (rdlen_of (mx p x)))
          (true, mx p x)
          (wire_data (mx p x))
  unfolding read_data
  read_mx p x (lp, all, l) =
      Reads-bind _ (some p) (wire16 p) (wire_name x.parts) (integer16-Reads e p lp) (
        Reads-value (same (length (wire_name x.parts)) l)
          (Reads-pure _ (read_name-Reads x.parts [] 0 all)))
    where
      same :
          (n : ℕ)
          → 2 + n < 2 ^ 16
          → ◌≡◌ {A = Bool × RecordData} (2 + n == 2 + add16 0 n, mx p x) (true, mx p x)
      same n lt = ground arith

  read_txt :
      (t : Bytes)
      → length t < 256
      → Reads (read_data e garbage reader (txt []) (length t + 1)) (true, txt t) (length t ∷ t)
  unfolding read_data
  read_txt t h =
      Reads-bind _ (some (length t)) (length t ∷ []) t (integer8-Reads (length t))
        (rw (==_refl (length t + 1)) (Reads-pure _ (string_n-Reads [] t)))

  -- The fields before RDATA.
  before : Arrival → ResourceRecord
  before x = record (resource x) { rdata = none }

  data-Fills :
      (n : DomainName) (c t : ℕ) (d : RecordData)
      → IsDecodable d
      → (let x : Arrival = record { name = n; rclass = c; ttl = t; rdata = d } in
          Fills (read_rest e garbage reader) (before x) (resource x) (wire_data d))
  unfolding before create
  data-Fills n c t (a ip) h = record { reads = Reads-pure _ (read_a ip h) }
  data-Fills n c t (cname x) h = absurd h
  data-Fills n c t soa h = absurd h
  data-Fills n c t (mx p x) h = record { reads = Reads-pure _ (read_mx p x h) }
  data-Fills n c t (txt s) h = record { reads = Reads-pure _ (read_txt s h) }

  type_small : (d : RecordData) → type_of d < 2 ^ 16
  type_small (a ip) = omega arith
  type_small (cname x) = omega arith
  type_small soa = omega arith
  type_small (mx p x) = omega arith
  type_small (txt t) = omega arith

  rdlen_small : (d : RecordData) → IsDecodable d → rdlen_of d < 2 ^ 16
  rdlen_small (a ip) h = omega arith
  rdlen_small (cname x) h = absurd h
  rdlen_small soa h = omega arith
  rdlen_small (mx p x) h = h.2
  rdlen_small (txt t) h = omega arith

  fixed-Fills :
      (x : Arrival)
      → IsArriving x
      → Fills (read_fixed e reader) no_record (before x) (
          wire_name x.name.parts
          ++ (wire16 (type_of x.rdata)
              ++ (wire16 x.rclass ++ (wire32 x.ttl ++ wire16 (rdlen_of x.rdata)))))
  unfolding before
  fixed-Fills x k = and-Fills (wire_name x.name.parts) _ named (
      and-Fills (wire16 (type_of x.rdata)) _
        (field-Fills set_rtype _ (integer16-Reads e (type_of x.rdata) (type_small x.rdata)))
        (and-Fills (wire16 x.rclass) _
          (field-Fills set_rclass _ (integer16-Reads e x.rclass k.rclass))
          (and-Fills (wire32 x.ttl) (wire16 (rdlen_of x.rdata))
            (field-Fills set_ttl _ (integer32-Reads e x.ttl k.ttl))
            (field-Fills set_rdlen _
              (integer16-Reads e (rdlen_of x.rdata) (rdlen_small x.rdata k.rdata))))))
    where
      named :
          Fills
            (read_record_name reader)
            no_record
            (record no_record { name = x.name })
            (wire_name x.name.parts)
      named = record { reads = Reads-pure _ (read_name-Reads x.name.parts [] 0 k.name) }

  -- A record is taken as it arrives.
  pub read_record-Reads :
      (x : Arrival)
      → IsArriving x
      → Reads (read_record e garbage reader no_record) (true, resource x) (wire_record x)
  unfolding read_record
  read_record-Reads x k =
      Reads-bytes (simp append_assoc)
        (and-Fills _ (wire_data x.rdata) (fixed-Fills x k)
          (data-Fills x.name x.rclass x.ttl x.rdata k.rdata)).reads
