-- ===== src/Dns/Message.antt =====
-- `Message`, `Query` and `Response` of netb/DnsMessage.hpp and netb/DnsMessage.cpp.
pub mod Encoding
pub mod Records
use netb.Prelude.{
  ℕ, zero, suc, List, [], ◌∷◌, ◌++◌, Bool, true, false, Outcome, ok, ◌▹◌, if◌then◌else◌,
}
use netb.Memory.{Bytes}
use netb.Host.{Endian}
use netb.StreamBuffer.{StreamBuffer, M, pure, ◌>>=◌, ◌&&>◌, flush}
use netb.StreamReader.{StreamReader}
use netb.StreamWriter.{StreamWriter}
use netb.Fields.{◌&>◌}
use netb.Dns.Header.{Header, no_header, set_question, set_qdcount, write_header, read_header}
use netb.Dns.Question.{Question, no_question, question, write_question, read_question}
use netb.Dns.Record.{ResourceRecord, no_record, write_record, read_record}

pub record Message : Type 0 where
  pub header : Header
  pub questions : List Question
  pub answers : List ResourceRecord
  pub authorities : List ResourceRecord
  pub additionals : List ResourceRecord

-- Response()
abbrev pub response : Message
response = record {
  header = no_header;
  questions = [];
  answers = [];
  authorities = [];
  additionals = [];
}

-- Query(), where `random` is the result of rand()
unfoldable pub empty_query : ℕ → Message
empty_query random = record response { header = set_question random true no_header }

-- Query(name, qtype); QCLASS is IN
unfoldable pub query : ℕ → Bytes → ℕ → Outcome Message
query random name qtype = question name qtype 1 ▹ λ q. ok (record response {
  header = set_qdcount 1 (set_question random true no_header);
  questions = q ∷ [];
})

-- The loop over the questions of ToBuffer.
unfoldable pub write_questions : Endian → StreamWriter → List Question → M Bool
write_questions e w [] = pure true
write_questions e w (q ∷ qs) = write_question e w q &&> write_questions e w qs

-- A loop over records of ToBuffer: the result and the records with their new RDLENGTH.
unfoldable pub write_records :
    Endian → StreamWriter → List ResourceRecord → M (Bool × List ResourceRecord)
write_records e w [] = pure (true, [])
write_records e w (rr ∷ rest) = write_record e w rr >>= λ res. elim res.0 [
  | true ↦ write_records e w rest >>= λ others. pure (others.0, res.1 ∷ others.1)
  | false ↦ pure (false, res.1 ∷ rest)
]

abbrev pub write_answers : Endian → StreamWriter → Message → M (Bool × Message)
write_answers e w m =
    write_records e w m.answers >>= λ res. pure (res.0, record m { answers = res.1 })

abbrev pub write_authorities : Endian → StreamWriter → Message → M (Bool × Message)
write_authorities e w m =
    write_records e w m.authorities >>= λ res. pure (res.0, record m { authorities = res.1 })

abbrev pub write_additionals : Endian → StreamWriter → Message → M (Bool × Message)
write_additionals e w m =
    write_records e w m.additionals >>= λ res. pure (res.0, record m { additionals = res.1 })

-- The header and the questions of ToBuffer.
abbrev pub write_front : Endian → StreamWriter → Message → M (Bool × Message)
write_front e w m =
    (write_header e w m.header &&> write_questions e w m.questions) >>= λ done. pure (done, m)

-- ToBuffer(buf): the result and the message that is left
unfoldable pub to_buffer : Endian → Message → M (Bool × Message)
to_buffer e =
    write_front e (record { attached = true })
    &> write_answers e (record { attached = true })
    &> write_authorities e (record { attached = true })
    &> write_additionals e (record { attached = true })

-- The loop over the questions of FromBuffer, with the count of those that are left.
unfoldable pub read_questions : Endian → StreamReader → ℕ → List Question → M (Bool × List Question)
read_questions e r zero qs = pure (true, qs)
read_questions e r (suc n) qs = read_question e r no_question >>= λ res. elim res.0 [
  | true ↦ read_questions e r n (qs ++ res.1 ∷ [])
  | false ↦ pure (false, qs)
]

-- A loop over records of FromBuffer.
unfoldable pub read_records :
    Endian → ℕ → StreamReader → ℕ → List ResourceRecord → M (Bool × List ResourceRecord)
read_records e garbage r zero rrs = pure (true, rrs)
read_records e garbage r (suc n) rrs = read_record e garbage r no_record >>= λ res. elim res.0 [
  | true ↦ read_records e garbage r n (rrs ++ res.1 ∷ [])
  | false ↦ pure (false, rrs)
]

abbrev pub read_message_header : Endian → StreamReader → Message → M (Bool × Message)
read_message_header e r m =
    read_header e r m.header >>= λ res. pure (res.0, record m { header = res.1 })

abbrev pub read_message_questions : Endian → StreamReader → Message → M (Bool × Message)
read_message_questions e r m = read_questions e r m.header.qdcount m.questions >>= λ res.
    pure (res.0, record m { questions = res.1 })

abbrev pub read_answers : Endian → ℕ → StreamReader → Message → M (Bool × Message)
read_answers e garbage r m = read_records e garbage r m.header.ancount m.answers >>= λ res.
    pure (res.0, record m { answers = res.1 })

abbrev pub read_authorities : Endian → ℕ → StreamReader → Message → M (Bool × Message)
read_authorities e garbage r m = read_records e garbage r m.header.nscount m.authorities >>= λ res.
    pure (res.0, record m { authorities = res.1 })

abbrev pub read_additionals : Endian → ℕ → StreamReader → Message → M (Bool × Message)
read_additionals e garbage r m = read_records e garbage r m.header.arcount m.additionals >>= λ res.
    pure (res.0, record m { additionals = res.1 })

-- The five sections of FromBuffer.
unfoldable pub read_sections : Endian → ℕ → StreamReader → Message → M (Bool × Message)
read_sections e garbage r =
    read_message_header e r
    &> read_message_questions e r
    &> read_answers e garbage r
    &> read_authorities e garbage r
    &> read_additionals e garbage r

-- `buf->Flush(); return true;`, where no section failed.
abbrev pub flush_if_done : Bool × Message → M (Bool × Message)
flush_if_done res b = ok (res, if res.0 then (flush b).1 else b)

-- FromBuffer(buf): what is read is flushed once all sections are
unfoldable pub from_buffer : Endian → ℕ → Message → M (Bool × Message)
from_buffer e garbage m =
    read_sections e garbage (record { attached = true; flushes = false }) m >>= flush_if_done
