-- ===== src/Dns/Question.antt =====
-- `Question` of netb/DnsMessage.hpp and netb/DnsMessage.cpp.
pub mod Encoding
use netb.Prelude.{ℕ, List, Bool, Outcome, ok, ◌▹◌}
use netb.Memory.{Bytes}
use netb.Host.{Endian}
use netb.StreamBuffer.{M, pure, ◌>>=◌, ◌&&>◌}
use netb.StreamReader
use netb.StreamReader.{StreamReader}
use netb.StreamWriter
use netb.StreamWriter.{StreamWriter, succeeds}
use netb.Fields.{field, ◌&>◌}
use netb.Dns.Name.{DomainName, no_name, from_string, write_name, read_name}

pub record Question : Type 0 where
  pub name : DomainName
  pub qtype : ℕ
  pub qclass : ℕ

-- Question()
abbrev pub no_question : Question
no_question = record { name = no_name; qtype = 0; qclass = 0 }

-- Question(name, qtype, qclass) with a string: a name that is refused stays empty
unfoldable pub question : Bytes → ℕ → ℕ → Outcome Question
question s qtype qclass =
    from_string s no_name ▹ λ (done, n). ok (record { name = n; qtype = qtype; qclass = qclass })

-- Serialize(writer)
unfoldable pub write_question : Endian → StreamWriter → Question → M Bool
write_question e w q =
    (write_name w q.name.parts 0 >>= λ res. pure res.0)
    &&> succeeds (StreamWriter.integer16 e w q.qtype)
    &&> succeeds (StreamWriter.integer16 e w q.qclass)

-- `_name.Serialize(reader)` of a question
abbrev pub read_question_name : StreamReader → Question → M (Bool × Question)
read_question_name r q =
    read_name r q.name.parts 0 >>= λ res. pure (res.0, record q { name = record { parts = res.1 } })

abbrev pub set_qtype : ℕ → Question → Question
set_qtype v q = record q { qtype = v }

abbrev pub set_qclass : ℕ → Question → Question
set_qclass v q = record q { qclass = v }

-- Serialize(reader)
unfoldable pub read_question : Endian → StreamReader → Question → M (Bool × Question)
read_question e r =
    read_question_name r
    &> field (StreamReader.integer16 e r) set_qtype
    &> field (StreamReader.integer16 e r) set_qclass
