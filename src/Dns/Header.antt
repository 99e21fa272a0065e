-- ===== src/Dns/Header.antt =====
-- `Header` of netb/DnsMessage.hpp and netb/DnsMessage.cpp: the fixed part of a DNS message.
pub mod Encoding
use netb.Prelude.{ℕ, ◌%◌, Bool, true, false, if◌then◌else◌, ◌==◌}
use netb.Host.{Endian}
use netb.StreamBuffer.{M, pure, ◌>>=◌, ◌&&>◌}
use netb.StreamReader
use netb.StreamReader.{StreamReader}
use netb.StreamWriter
use netb.StreamWriter.{StreamWriter, succeeds}
use netb.Fields.{field, ◌&>◌}
use netb.Dns.Flags.{Flags, no_flags, write_flags, read_flags}

pub record Header : Type 0 where
  pub id : ℕ
  pub flags : Flags
  pub qdcount : ℕ
  pub ancount : ℕ
  pub nscount : ℕ
  pub arcount : ℕ

-- Header()
abbrev pub no_header : Header
no_header = record { id = 0; flags = no_flags; qdcount = 0; ancount = 0; nscount = 0; arcount = 0 }

-- Question() const
unfoldable pub is_question : Header → Bool
is_question h = h.flags.qr == 0

-- Question(q), where `random` is the result of rand()
unfoldable pub set_question : ℕ → Bool → Header → Header
set_question random q h =
    if q
    then record h { id = random % 65536; flags = record h.flags { qr = 0; rd = 1 } }
    else record h { flags = record h.flags { qr = 1 } }

-- Serialize(writer)
unfoldable pub write_header : Endian → StreamWriter → Header → M Bool
write_header e w h =
    succeeds (StreamWriter.integer16 e w h.id)
    &&> write_flags w h.flags
    &&> succeeds (StreamWriter.integer16 e w h.qdcount)
    &&> succeeds (StreamWriter.integer16 e w h.ancount)
    &&> succeeds (StreamWriter.integer16 e w h.nscount)
    &&> succeeds (StreamWriter.integer16 e w h.arcount)

-- `_flags.Serialize(reader)` of a header
abbrev pub read_header_flags : StreamReader → Header → M (Bool × Header)
read_header_flags r h = read_flags r h.flags >>= λ res. pure (res.0, record h { flags = res.1 })

abbrev pub set_id : ℕ → Header → Header
set_id v h = record h { id = v }

-- QuestionCount(n)
abbrev pub set_qdcount : ℕ → Header → Header
set_qdcount v h = record h { qdcount = v }

-- AnswerCount(n)
abbrev pub set_ancount : ℕ → Header → Header
set_ancount v h = record h { ancount = v }

-- AuthorityCount(n)
abbrev pub set_nscount : ℕ → Header → Header
set_nscount v h = record h { nscount = v }

-- AdditionalCount(n)
abbrev pub set_arcount : ℕ → Header → Header
set_arcount v h = record h { arcount = v }

-- Serialize(reader)
unfoldable pub read_header : Endian → StreamReader → Header → M (Bool × Header)
read_header e r =
    field (StreamReader.integer16 e r) set_id
    &> read_header_flags r
    &> field (StreamReader.integer16 e r) set_qdcount
    &> field (StreamReader.integer16 e r) set_ancount
    &> field (StreamReader.integer16 e r) set_nscount
    &> field (StreamReader.integer16 e r) set_arcount
