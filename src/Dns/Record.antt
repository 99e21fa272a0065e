-- ===== src/Dns/Record.antt =====
-- `ResourceRecord` and the subclasses of `RecordData` of netb/DnsRecord.hpp and netb/DnsRecord.cpp.
pub mod Decoding
use netb.Prelude.{
  ℕ, ◌+◌, [], length, Bool, true, false, Option, none, some, fault, aborted, ltb, ◌==◌,
  if◌then◌else◌,
}
use netb.Memory.{Bytes}
use netb.Host.{Endian}
use netb.StreamBuffer.{M, pure, ◌>>=◌, ◌&&>◌}
use netb.StreamReader
use netb.StreamReader.{StreamReader}
use netb.StreamWriter
use netb.StreamWriter.{StreamWriter, succeeds}
use netb.RandomWriter
use netb.Fields.{field, ◌&>◌}
use netb.Dns.Name.{DomainName, no_name, add16, write_name, read_name}

-- The subclasses of `RecordData`.
pub data RecordData : Type 0 where
  a : ℕ → RecordData
  cname : DomainName → RecordData
  soa : RecordData
  mx : ℕ → DomainName → RecordData
  txt : Bytes → RecordData

-- RecordData::Create(type)
unfoldable pub create : ℕ → Option RecordData
create type =
    if type == 1
    then some (a 0)
    else if type == 5
    then some (cname no_name)
    else if type == 6
    then some soa
    else if type == 15
    then some (mx 0 no_name)
    else if type == 16
    then some (txt [])
    else none

-- Serialize(writer, rdlen) of each subclass: the result and what `rdlen` then holds
unfoldable pub write_data : Endian → StreamWriter → RecordData → ℕ → M (Bool × ℕ)
write_data e w (a ip) rdlen = succeeds (StreamWriter.unsigned32 e w ip) >>= λ done. pure (done, 4)
write_data e w (cname name) rdlen = write_name w name.parts rdlen
write_data e w soa rdlen = pure (true, rdlen)
write_data e w (mx preference exchange) rdlen =
    succeeds (StreamWriter.integer16 e w preference) >>= λ first.
    if first
    then (write_name w exchange.parts 0 >>= λ res.
        pure (if res.0 then (true, add16 (add16 rdlen 2) res.1) else (false, add16 rdlen 2)))
    else pure (false, rdlen)
write_data e w (txt text) rdlen =
    if ltb 256 (length text)
    then (λ b. fault aborted)
    else (succeeds (StreamWriter.integer8 w (length text)) >>= λ first.
        if first
        then (succeeds (StreamWriter.string w text) >>= λ second. pure (
            if second then (true, add16 (add16 rdlen 1) (length text)) else (false, add16 rdlen 1)))
        else pure (false, rdlen))

-- Serialize(reader, rdlen) of each subclass. `garbage` is what the length variable of a CNAME holds
-- before anything is assigned to it.
unfoldable pub read_data : Endian → ℕ → StreamReader → RecordData → ℕ → M (Bool × RecordData)
read_data e garbage r (a ip) rdlen =
    if rdlen == 4
    then field (StreamReader.integer32 e r) (λ v d. a v) (a ip)
    else pure (false, a ip)
read_data e garbage r (cname name) rdlen = read_name r name.parts garbage >>= λ (done, parts, len).
    pure (
      if done
      then (len == rdlen, cname (record { parts = parts }))
      else (false, cname (record { parts = parts })))
read_data e garbage r soa rdlen = pure (true, soa)
read_data e garbage r (mx preference exchange) rdlen = StreamReader.integer16 e r >>= λ v. elim v [
  | none ↦ pure (false, mx preference exchange)
  | some p ↦ read_name r exchange.parts 0 >>= λ (done, parts, len). pure (
      if done
      then (rdlen == 2 + len, mx p (record { parts = parts }))
      else (false, mx p (record { parts = parts })))
]
read_data e garbage r (txt text) rdlen = StreamReader.integer8 r >>= λ v. elim v [
  | none ↦ pure (false, txt text)
  | some len ↦
      if len + 1 == rdlen
      then (StreamReader.string_n r text len >>= λ res. pure (res.0, txt res.1))
      else pure (false, txt text)
]

pub record ResourceRecord : Type 0 where
  pub name : DomainName
  pub rtype : ℕ
  pub rclass : ℕ
  pub ttl : ℕ
  pub rdlen : ℕ
  pub rdata : Option RecordData

-- ResourceRecord()
abbrev pub no_record : ResourceRecord
no_record = record { name = no_name; rtype = 0; rclass = 0; ttl = 0; rdlen = 0; rdata = none }

abbrev pub set_rtype : ℕ → ResourceRecord → ResourceRecord
set_rtype v rr = record rr { rtype = v }

abbrev pub set_rclass : ℕ → ResourceRecord → ResourceRecord
set_rclass v rr = record rr { rclass = v }

abbrev pub set_ttl : ℕ → ResourceRecord → ResourceRecord
set_ttl v rr = record rr { ttl = v }

abbrev pub set_rdlen : ℕ → ResourceRecord → ResourceRecord
set_rdlen v rr = record rr { rdlen = v }

-- `_name.Serialize(reader)` of a record
abbrev pub read_record_name : StreamReader → ResourceRecord → M (Bool × ResourceRecord)
read_record_name r rr = read_name r rr.name.parts 0 >>= λ res.
    pure (res.0, record rr { name = record { parts = res.1 } })

-- The fields before RDATA.
abbrev pub read_fixed : Endian → StreamReader → ResourceRecord → M (Bool × ResourceRecord)
read_fixed e r =
    read_record_name r
    &> field (StreamReader.integer16 e r) set_rtype
    &> field (StreamReader.integer16 e r) set_rclass
    &> field (StreamReader.integer32 e r) set_ttl
    &> field (StreamReader.integer16 e r) set_rdlen

-- `if(!_rdata) _rdata = RecordData::Create(_type);`
abbrev pub data_of : ResourceRecord → Option RecordData
data_of rr = elim rr.rdata [ none ↦ create rr.rtype | some d ↦ some d ]

-- What Serialize(reader) does after the fields before RDATA.
abbrev pub read_rest : Endian → ℕ → StreamReader → ResourceRecord → M (Bool × ResourceRecord)
read_rest e garbage r rr = elim (data_of rr) [
  | none ↦ pure (false, rr)
  | some d ↦
      read_data e garbage r d rr.rdlen >>= λ res. pure (res.0, record rr { rdata = some res.1 })
]

-- Serialize(reader)
unfoldable pub read_record : Endian → ℕ → StreamReader → ResourceRecord → M (Bool × ResourceRecord)
read_record e garbage r = read_fixed e r &> read_rest e garbage r

-- The fields before RDLENGTH: the TTL goes through Integer(uint32_t)
abbrev pub write_fixed : Endian → StreamWriter → ResourceRecord → M Bool
write_fixed e w rr =
    (write_name w rr.name.parts 0 >>= λ res. pure res.0)
    &&> succeeds (StreamWriter.integer16 e w rr.rtype)
    &&> succeeds (StreamWriter.integer16 e w rr.rclass)
    &&> succeeds (StreamWriter.unsigned32 e w rr.ttl)

-- Serialize(writer): the result and the record with the RDLENGTH that it then has. The offset of
-- RDLENGTH, a position in the vector, is given to a RandomWriter, which counts from `_opos`.
unfoldable pub write_record : Endian → StreamWriter → ResourceRecord → M (Bool × ResourceRecord)
write_record e w rr = elim rr.rdata [
  | none ↦ pure (false, rr)
  | some d ↦ write_fixed e w rr >>= λ fixed.
      if fixed
      then (StreamWriter.integer16 e w rr.rdlen >>= λ offset. elim offset [
        | none ↦ pure (false, rr)
        | some o ↦ write_data e w d rr.rdlen >>= λ res.
            if res.0
            then (RandomWriter.integer16 e (record { attached = w.attached; start = 0 }) o res.1
                >>= λ done. pure (done, record rr { rdlen = res.1 }))
            else pure (false, record rr { rdlen = res.1 })
      ])
      else pure (false, rr)
]
