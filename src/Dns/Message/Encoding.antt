-- ===== src/Dns/Message/Encoding.antt =====
-- A message without records goes to a buffer and comes back.
use mathlib.Core.Path.{subst}
use netb.StreamBuffer.Flush.{flush_lem}
use netb.Prelude.{
  ℕ, ◌≡◌, List, [], ◌∷◌, ◌++◌, append_assoc, append-nil, length, true, sym, ap, ◌∙◌, ok,
}
use netb.Memory.{Bytes}
use netb.Host.{Endian}
use netb.StreamBuffer.{StreamBuffer, ◌>>=◌, flush}
use netb.StreamBuffer.Valid.{IsValid, contents, unread, HasRoom, advanced}
use netb.StreamWriter.Encodes.{writer}
use netb.StreamReader.Decodes.{reader}
use netb.Wire.{
  Writes, Reads, Writes-and, Writes-map, Writes-pure, Reads-bind, Reads-pure, Reads-done,
  Reads-value, Reads-bytes, Writes-bytes, bind_ok, advanced-IsValid, unread-advanced_append,
}
use netb.Fields.{Fills, and-Fills, Emits, and-Emits}
use netb.Dns.Header.{Header}
use netb.Dns.Header.Encoding.{HeaderInRange, wire_header, write_header-Writes, read_header-Reads}
use netb.Dns.Question.{Question}
use netb.Dns.Question.Encoding.{
  IsEncodable, wire_question, write_question-Writes, read_question-Reads,
}
use netb.Dns.Message.{
  Message, response, write_questions, write_records, to_buffer, read_questions, read_records,
  read_sections, from_buffer, read_message_header, read_message_questions, write_front,
  flush_if_done, write_answers, write_authorities, write_additionals, read_answers,
  read_authorities, read_additionals,
}

abbrev pub AllEncodable : List Question → Type 0
AllEncodable [] = Unit
AllEncodable (q ∷ qs) = IsEncodable q × AllEncodable qs

abbrev pub wire_questions : List Question → Bytes
wire_questions [] = []
wire_questions (q ∷ qs) = wire_question q ++ wire_questions qs

-- A message of a header and questions.
abbrev pub asking : Header → List Question → Message
asking h qs = record response { header = h; questions = qs }

-- The header counts the questions, and no records.
pub record IsQuery (h : Header) (qs : List Question) : Type 0 where
  pub header : HeaderInRange h
  pub questions : AllEncodable qs
  pub qdcount : h.qdcount ≡ length qs
  pub ancount : h.ancount ≡ 0
  pub nscount : h.nscount ≡ 0
  pub arcount : h.arcount ≡ 0

abbrev pub wire_message : Header → List Question → Bytes
wire_message h qs = wire_header h ++ wire_questions qs

write_questions-Writes :
    (e : Endian) (qs : List Question)
    → AllEncodable qs
    → Writes (write_questions e writer qs) true (wire_questions qs)
unfolding write_questions
write_questions-Writes e [] h = Writes-pure true
write_questions-Writes e (q ∷ qs) h =
    Writes-and (wire_question q) (wire_questions qs) (write_question-Writes e h.0)
      (write_questions-Writes e qs h.1)

-- The questions are taken back, behind those that are there.
pub read_questions-Reads :
    (e : Endian) (qs old : List Question)
    → AllEncodable qs
    → Reads (read_questions e reader (length qs) old) (true, old ++ qs) (wire_questions qs)
unfolding read_questions
read_questions-Reads e [] old h =
    Reads-value (ap (λ t. (true, t)) (sym (append-nil old))) (Reads-done (true, old))
read_questions-Reads e (q ∷ qs) old h =
    Reads-bind _ (true, q) (wire_question q) (wire_questions qs) (read_question-Reads e h.0)
      (Reads-value (ap (λ t. (true, t)) (append_assoc old (q ∷ []) qs))
        (read_questions-Reads e qs (old ++ q ∷ []) h.1))

no_records-Writes : (e : Endian) → Writes (write_records e writer []) (true, []) []
unfolding write_records
no_records-Writes e = Writes-pure (true, [])

-- `ToBuffer` appends the header and the questions, and leaves the message as it is.
pub to_buffer-Writes :
    (e : Endian) {h : Header} {qs : List Question}
    → IsQuery h qs
    → Writes (to_buffer e (asking h qs)) (true, asking h qs) (wire_message h qs)
unfolding to_buffer
to_buffer-Writes e {h} {qs} k = Writes-bytes (append-nil (wire_message h qs)) all.writes
  where
    front : Emits (write_front e writer) (asking h qs) (asking h qs) (wire_message h qs)
    front = record {
      writes = Writes-map _ (
          Writes-and (wire_header h) (wire_questions qs) (write_header-Writes e k.header)
            (write_questions-Writes e qs k.questions));
    }

    answers : Emits (write_answers e writer) (asking h qs) (asking h qs) []
    answers = record { writes = Writes-map _ (no_records-Writes e) }

    authorities : Emits (write_authorities e writer) (asking h qs) (asking h qs) []
    authorities = record { writes = Writes-map _ (no_records-Writes e) }

    additionals : Emits (write_additionals e writer) (asking h qs) (asking h qs) []
    additionals = record { writes = Writes-map _ (no_records-Writes e) }

    all : Emits (to_buffer e) (asking h qs) (asking h qs) (wire_message h qs ++ [])
    all =
        and-Emits (wire_message h qs) [] front
          (and-Emits [] [] answers (and-Emits [] [] authorities additionals))

no_records-Reads :
    (e : Endian) (garbage : ℕ) {n : ℕ}
    → n ≡ 0
    → Reads (read_records e garbage reader n []) (true, []) []
unfolding read_records
no_records-Reads e garbage p =
    subst (λ n. Reads (read_records e garbage reader n []) (true, []) []) (sym p) (Reads-done _)

read_sections-Reads :
    (e : Endian) (garbage : ℕ) {h : Header} {qs : List Question}
    → IsQuery h qs
    → Reads (read_sections e garbage reader response) (true, asking h qs) (wire_message h qs)
unfolding read_sections
read_sections-Reads e garbage {h} {qs} k =
    Reads-bytes (ap (λ t. wire_header h ++ t) (append-nil (wire_questions qs))) all.reads
  where
    questions : Reads (read_questions e reader h.qdcount []) (true, qs) (wire_questions qs)
    questions =
        subst (λ n. Reads (read_questions e reader n []) (true, qs) (wire_questions qs))
          (sym k.qdcount) (read_questions-Reads e qs [] k.questions)

    head :
        Fills
          (read_message_header e reader)
          response
          (record response { header = h })
          (wire_header h)
    head = record { reads = Reads-pure _ (read_header-Reads e _ k.header) }

    asked :
        Fills
          (read_message_questions e reader)
          (record response { header = h })
          (asking h qs)
          (wire_questions qs)
    asked = record { reads = Reads-pure _ questions }

    answers : Fills (read_answers e garbage reader) (asking h qs) (asking h qs) []
    answers = record { reads = Reads-pure _ (no_records-Reads e garbage k.ancount) }

    authorities : Fills (read_authorities e garbage reader) (asking h qs) (asking h qs) []
    authorities = record { reads = Reads-pure _ (no_records-Reads e garbage k.nscount) }

    additionals : Fills (read_additionals e garbage reader) (asking h qs) (asking h qs) []
    additionals = record { reads = Reads-pure _ (no_records-Reads e garbage k.arcount) }

    all :
        Fills
          (read_sections e garbage reader)
          response
          (asking h qs)
          (wire_header h ++ (wire_questions qs ++ []))
    all = and-Fills (wire_header h) _ head (
        and-Fills (wire_questions qs) [] asked
          (and-Fills [] [] answers (and-Fills [] [] authorities additionals)))

-- What the sections take from the wire is what `FromBuffer` leaves, with the rest in the buffer.
pub from_buffer-Reads :
    (e : Endian) (garbage : ℕ) {m : Message} {bs : Bytes} (b : StreamBuffer) (rest : Bytes)
    → Reads (read_sections e garbage reader response) (true, m) bs
    → IsValid b
    → unread b ≡ bs ++ rest
    → (b' : StreamBuffer) × (from_buffer e garbage response b ≡ ok ((true, m), b'))
      × (contents b' ≡ rest)
      × (unread b' ≡ rest)
      × IsValid b'
unfolding from_buffer
from_buffer-Reads e garbage {m} {bs} b rest r v u =
    let c = advanced (length bs) b in
    let left = unread-advanced_append bs rest b u in
    let f = flush_lem (advanced-IsValid bs rest v u) in
    (
      (flush c).1,
      bind_ok (read_sections e garbage reader response) flush_if_done (r.run b rest v u),
      f.1 ∙ left,
      f.2 ∙ left,
      f.3,
    )

-- `FromBuffer` of a fresh `Response`, on a valid buffer whose unread bytes begin with the wire
-- form of a message of a header and questions (the header fits its fields and counts the questions
-- and no records, the names have labels of 1 to 63 bytes other than a lone dot, the question types
-- and classes are below 2^16), returns true with that message, and leaves a valid buffer whose
-- contents and unread bytes are what followed the message.
pub from_buffer_lem :
    (e : Endian) (garbage : ℕ) {h : Header} {qs : List Question} (b : StreamBuffer) (rest : Bytes)
    → IsQuery h qs
    → IsValid b
    → unread b ≡ wire_message h qs ++ rest
    → (b' : StreamBuffer) × (from_buffer e garbage response b ≡ ok ((true, asking h qs), b'))
      × (contents b' ≡ rest)
      × (unread b' ≡ rest)
      × IsValid b'
from_buffer_lem e garbage b rest k v u =
    from_buffer-Reads e garbage b rest (read_sections-Reads e garbage k) v u

-- A message of a header and questions, whose header fits its fields and counts the questions and
-- no records, whose question names have labels of 1 to 63 bytes other than a lone dot and whose
-- question types and classes are below 2^16, is put by `ToBuffer` into a valid buffer with room
-- for it and nothing unread, and comes back equal from `FromBuffer` of a fresh `Response`, in
-- either byte order; the buffer is left valid and with empty contents.
pub from_buffer-to_buffer :
    (e : Endian) (garbage : ℕ) {h : Header} {qs : List Question} (b : StreamBuffer)
    → IsQuery h qs
    → HasRoom (length (wire_message h qs)) b
    → unread b ≡ []
    → (b' : StreamBuffer) × ((to_buffer e (asking h qs) >>= λ _. from_buffer e garbage response) b
        ≡ ok ((true, asking h qs), b'))
      × (contents b' ≡ [])
      × IsValid b'
from_buffer-to_buffer e garbage {h} {qs} b k room none' =
    let (b₁, e₁, p) = (to_buffer-Writes e k).run b room in
    let u =
      p.unread ∙ ap (λ t. t ++ wire_message h qs) none' ∙ sym (append-nil (wire_message h qs)) in
    let (b₂, e₂, c₂, u₂, v₂) = from_buffer_lem e garbage b₁ [] k p.valid u in
    (b₂, bind_ok (to_buffer e (asking h qs)) _ e₁ ∙ e₂, c₂, v₂)
