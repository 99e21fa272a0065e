-- ===== src/Dns/Message/Records.antt =====
-- A message with records, as it arrives.
use mathlib.Core.Path.{subst}
use netb.Prelude.{
  ℕ, ◌≡◌, List, [], ◌∷◌, ◌++◌, append_assoc, append-nil, map, length, true, sym, ap, ok,
}
use netb.Memory.{Bytes}
use netb.Host.{Endian}
use netb.StreamBuffer.{StreamBuffer}
use netb.StreamBuffer.Valid.{IsValid, contents, unread}
use netb.StreamReader.Decodes.{reader}
use netb.Wire.{Reads, Reads-bind, Reads-pure, Reads-done, Reads-value}
use netb.Fields.{Fills, and-Fills}
use netb.Dns.Header.{Header}
use netb.Dns.Header.Encoding.{HeaderInRange, wire_header, read_header-Reads}
use netb.Dns.Question.{Question}
use netb.Dns.Record.{ResourceRecord}
use netb.Dns.Record.Decoding.{Arrival, IsArriving, resource, wire_record, read_record-Reads}
use netb.Dns.Message.{
  Message, response, read_records, read_questions, read_sections, from_buffer, read_message_header,
  read_message_questions, read_answers, read_authorities, read_additionals,
}
use netb.Dns.Message.Encoding.{
  AllEncodable, wire_questions, read_questions-Reads, from_buffer-Reads,
}

abbrev pub AllArriving : List Arrival → Type 0
AllArriving [] = Unit
AllArriving (x ∷ xs) = IsArriving x × AllArriving xs

abbrev pub wire_records : List Arrival → Bytes
wire_records [] = []
wire_records (x ∷ xs) = wire_record x ++ wire_records xs

-- The sections of a message on the wire.
pub record Sections : Type 0 where
  pub header : Header
  pub questions : List Question
  pub answers : List Arrival
  pub authorities : List Arrival
  pub additionals : List Arrival

-- The header counts the others.
pub record IsCounted (m : Sections) : Type 0 where
  pub header : HeaderInRange m.header
  pub questions : AllEncodable m.questions
  pub answers : AllArriving m.answers
  pub authorities : AllArriving m.authorities
  pub additionals : AllArriving m.additionals
  pub qdcount : m.header.qdcount ≡ length m.questions
  pub ancount : m.header.ancount ≡ length m.answers
  pub nscount : m.header.nscount ≡ length m.authorities
  pub arcount : m.header.arcount ≡ length m.additionals

abbrev pub wire_sections : Sections → Bytes
wire_sections m =
    wire_header m.header
    ++ (wire_questions m.questions
        ++ (wire_records m.answers ++ (wire_records m.authorities ++ wire_records m.additionals)))

-- The message with these sections.
abbrev pub arrived : Sections → Message
arrived m = record response {
  header = m.header;
  questions = m.questions;
  answers = map resource m.answers;
  authorities = map resource m.authorities;
  additionals = map resource m.additionals;
}

-- The message after each of the first sections.
abbrev after_header : Sections → Message
after_header m = record response { header = m.header }

abbrev after_questions : Sections → Message
after_questions m = record (after_header m) { questions = m.questions }

abbrev after_answers : Sections → Message
after_answers m = record (after_questions m) { answers = map resource m.answers }

abbrev after_authorities : Sections → Message
after_authorities m = record (after_answers m) { authorities = map resource m.authorities }

module _ (e : Endian) (garbage : ℕ) where
  records-Reads :
      (xs : List Arrival) (old : List ResourceRecord)
      → AllArriving xs
      → Reads
          (read_records e garbage reader (length xs) old)
          (true, old ++ map resource xs)
          (wire_records xs)
  unfolding read_records
  records-Reads [] old h =
      Reads-value (ap (λ t. (true, t)) (sym (append-nil old))) (Reads-done (true, old))
  records-Reads (x ∷ xs) old h =
      Reads-bind _ (true, resource x) (wire_record x) (wire_records xs)
        (read_record-Reads e garbage x h.0)
        (Reads-value (ap (λ t. (true, t)) (append_assoc old (resource x ∷ []) (map resource xs)))
          (records-Reads xs (old ++ resource x ∷ []) h.1))

  counted :
      {n : ℕ} (xs : List Arrival)
      → n ≡ length xs
      → AllArriving xs
      → Reads (read_records e garbage reader n []) (true, map resource xs) (wire_records xs)
  counted xs p h =
      subst
        (λ n. Reads (read_records e garbage reader n []) (true, map resource xs) (wire_records xs))
        (sym p) (records-Reads xs [] h)

  sections-Reads :
      (m : Sections)
      → IsCounted m
      → Reads (read_sections e garbage reader response) (true, arrived m) (wire_sections m)
  unfolding read_sections
  sections-Reads m k =
      (and-Fills (wire_header m.header) _ head (
        and-Fills (wire_questions m.questions) _ asked (
          and-Fills (wire_records m.answers) _ answers (
            and-Fills (wire_records m.authorities) (wire_records m.additionals) authorities
              additionals)))).reads
    where
      head : Fills (read_message_header e reader) response (after_header m) (wire_header m.header)
      head = record { reads = Reads-pure _ (read_header-Reads e _ k.header) }

      asked :
          Fills
            (read_message_questions e reader)
            (after_header m)
            (after_questions m)
            (wire_questions m.questions)
      asked = record {
        reads = Reads-pure _ (
            subst
              (λ n.
                Reads (read_questions e reader n []) (true, m.questions)
                  (wire_questions m.questions))
              (sym k.qdcount) (read_questions-Reads e m.questions [] k.questions));
      }

      answers :
          Fills
            (read_answers e garbage reader)
            (after_questions m)
            (after_answers m)
            (wire_records m.answers)
      answers = record { reads = Reads-pure _ (counted m.answers k.ancount k.answers) }

      authorities :
          Fills
            (read_authorities e garbage reader)
            (after_answers m)
            (after_authorities m)
            (wire_records m.authorities)
      authorities = record { reads = Reads-pure _ (counted m.authorities k.nscount k.authorities) }

      additionals :
          Fills
            (read_additionals e garbage reader)
            (after_authorities m)
            (arrived m)
            (wire_records m.additionals)
      additionals = record { reads = Reads-pure _ (counted m.additionals k.arcount k.additionals) }

-- `FromBuffer` of a fresh `Response`, on a valid buffer whose unread bytes begin with the wire
-- form of a message of a header, questions and records in all three sections, returns true with
-- that message, and leaves a valid buffer whose contents and unread bytes are what followed it.
-- The header fits its fields and counts the sections; the names are written out, with labels of 1
-- to 63 bytes other than a lone dot; the types, classes and TTLs fit their widths; and each record
-- holds an address, a mail exchange or a text of at most 255 bytes, with its length in RDLENGTH.
pub from_buffer_records :
    (e : Endian) (garbage : ℕ) (m : Sections) (b : StreamBuffer) (rest : Bytes)
    → IsCounted m
    → IsValid b
    → unread b ≡ wire_sections m ++ rest
    → (b' : StreamBuffer) × (from_buffer e garbage response b ≡ ok ((true, arrived m), b'))
      × (contents b' ≡ rest)
      × (unread b' ≡ rest)
      × IsValid b'
from_buffer_records e garbage m b rest k v u =
    from_buffer-Reads e garbage b rest (sections-Reads e garbage m k) v u
