-- ===== src/Http/Request/Text.antt =====
-- What `ToBuffer` of a request appends to a buffer.
use netb.Prelude.{
  ℕ, ◌<◌, ◌≤◌, ◌≡◌, ◌≢◌, [], ◌∷◌, ◌++◌, length, take, true, some, ok, refl, ap, arith, ne→==,
  le→leb,
}
use netb.Memory.{Bytes}
use netb.StreamBuffer.{StreamBuffer, is_one_of}
use netb.StreamBuffer.Valid.{IsValid, HasRoom, contents}
use netb.StreamWriter
use netb.StreamWriter.{last?, string}
use netb.StreamWriter.Encodes.{writer, string_char-Writes, string_string-Writes, bytes-Writes}
use netb.Wire.{Writes, Writes-and, Writes-pure, Writes-bytes, Writes-after_write}
use netb.Http.Headers.{Headers}
use netb.Http.Request.{HttpRequest, crlf, start_line, write_headers, write_body, to_buffer}
use netb.Http.Request.Parse.{IsKey, wire_headers}

-- Each header has a key that is not empty and holds no colon.
abbrev pub AllNamed : Headers → Type 0
AllNamed [] = Unit
AllNamed ((k, v) ∷ hs) = (IsKey k × (0 < length k)) × AllNamed hs

last-IsKey : (k : Bytes) → IsKey k → 0 < length k → (c : ℕ) × (last? k ≡ some c) × (c ≢ b':')
unfolding is_one_of
last-IsKey [] h pos = absurd (omega arith)
last-IsKey (c ∷ []) h pos = (c, refl, λ e. ground arith)
last-IsKey (c ∷ d ∷ k) h pos = last-IsKey (d ∷ k) h.1 (omega arith)

header_text :
    (k v t : Bytes) → (k ++ b':' ∷ []) ++ ((v ++ crlf) ++ t) ≡ ((k ++ b':' ∷ v) ++ crlf) ++ t
header_text [] v t = refl
header_text (c ∷ k) v t = ap (λ s. c ∷ s) (header_text k v t)

write_headers-Writes :
    (hs : Headers) → AllNamed hs → Writes (write_headers writer hs) true (wire_headers hs)
unfolding write_headers
write_headers-Writes [] h = Writes-pure true
write_headers-Writes ((k, v) ∷ hs) h =
    let (c, e, ne) = last-IsKey k h.0.0 h.0.1 in
    Writes-bytes (header_text k v (wire_headers hs)) (
      Writes-and (k ++ b':' ∷ []) _ (string_char-Writes k b':' c e ne) (
        Writes-and (v ++ crlf) (wire_headers hs) (string_string-Writes v crlf)
          (write_headers-Writes hs h.1)))

write_body-Writes :
    (r : HttpRequest) (d : Bytes)
    → r.body_data ≡ some d
    → 0 < r.body_len
    → r.body_len ≤ length d
    → Writes (write_body writer r) true (take r.body_len d)
write_body-Writes r d e pos le = rw (e) (
    rw (ne→== r.body_len 0 (omega arith), le→leb r.body_len (length d) le)
      (bytes-Writes (take r.body_len d)))

-- `ToBuffer` of a request with a body of `_body_len` bytes or more, `_body_len` above zero, whose
-- header keys are not empty and hold no CR, LF, colon or NUL, into a valid buffer with room for
-- its text: it returns true, the contents grow by the start line, the header lines, the blank line
-- and the first `_body_len` bytes of the body, and the buffer stays valid.
pub to_buffer_lem :
    (r : HttpRequest) (d : Bytes) (b : StreamBuffer)
    → AllNamed r.headers
    → r.body_data ≡ some d
    → 0 < r.body_len
    → r.body_len ≤ length d
    → HasRoom
        (length ((start_line r ++ crlf) ++ (wire_headers r.headers ++ (crlf ++ take r.body_len d))))
        b
    → (b' : StreamBuffer) × (to_buffer r b ≡ ok (true, b'))
      × (contents b'
          ≡ contents b
            ++ ((start_line r ++ crlf) ++ (wire_headers r.headers ++ (crlf ++ take r.body_len d))))
      × IsValid b'
unfolding to_buffer StreamWriter.string
to_buffer_lem r d b named e pos le room =
    let (b', done, p) = all.run b room in (b', done, p.contents, p.valid)
  where
    all :
        Writes
          (to_buffer r)
          true
          ((start_line r ++ crlf) ++ (wire_headers r.headers ++ (crlf ++ take r.body_len d)))
    all = Writes-and (start_line r ++ crlf) _ (string_string-Writes (start_line r) crlf) (
        Writes-and (wire_headers r.headers) _ (write_headers-Writes r.headers named)
          (Writes-after_write crlf (take r.body_len d) (write_body-Writes r d e pos le)))
