-- ===== src/Dns/Question/Encoding.antt =====
-- The wire form of a question, that writing produces it, and that reading takes it back.
use netb.Prelude.{◌^◌, ◌<◌, [], ◌++◌, true}
use netb.Memory.{Bytes}
use netb.Host.{Endian, wire16}
use netb.StreamWriter.Encodes.{writer, integer16-Writes}
use netb.StreamReader.Decodes.{reader, integer16-Reads}
use netb.Wire.{Writes, Reads, Writes-and, Writes-map, Reads-pure}
use netb.Fields.{Fills, field-Fills, and-Fills}
use netb.Dns.Name.Encoding.{AllLabels, wire_name, write_name-Writes, read_name-Reads}
use netb.Dns.Question.{
  Question, read_question_name, set_qtype, set_qclass, no_question, write_question, read_question,
}

-- The name can be written, and the numbers fit.
pub record IsEncodable (q : Question) : Type 0 where
  pub name : AllLabels q.name.parts
  pub qtype : q.qtype < 2 ^ 16
  pub qclass : q.qclass < 2 ^ 16

abbrev pub wire_question : Question → Bytes
wire_question q = wire_name q.name.parts ++ (wire16 q.qtype ++ wire16 q.qclass)

pub write_question-Writes :
    (e : Endian) {q : Question}
    → IsEncodable q
    → Writes (write_question e writer q) true (wire_question q)
unfolding write_question
write_question-Writes e {q} k =
    Writes-and (wire_name q.name.parts) _ (Writes-map _ (write_name-Writes q.name.parts 0 k.name)) (
      Writes-and (wire16 q.qtype) (wire16 q.qclass) (integer16-Writes e q.qtype k.qtype)
        (integer16-Writes e q.qclass k.qclass))

pub read_question-Reads :
    (e : Endian) {q : Question}
    → IsEncodable q
    → Reads (read_question e reader no_question) (true, q) (wire_question q)
unfolding read_question
read_question-Reads e {q} k = all.reads
  where
    named :
        Fills
          (read_question_name reader)
          no_question
          (record no_question { name = q.name })
          (wire_name q.name.parts)
    named = record { reads = Reads-pure _ (read_name-Reads q.name.parts [] 0 k.name) }

    all : Fills (read_question e reader) no_question q (wire_question q)
    all = and-Fills (wire_name q.name.parts) _ named (
        and-Fills (wire16 q.qtype) (wire16 q.qclass)
          (field-Fills set_qtype _ (integer16-Reads e q.qtype k.qtype))
          (field-Fills set_qclass _ (integer16-Reads e q.qclass k.qclass)))
