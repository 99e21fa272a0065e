-- ===== src/Http/Request/Reused.antt =====
-- `FromBuffer` of a request object that was used before.
use netb.Prelude.{
  ◌<◌, ◌≤◌, ◌≡◌, ◌++◌, length, some, fault, undefined, ap, ◌∙◌, arith, if◌then◌else◌, lt→ltb,
}
use netb.Memory.{Bytes}
use netb.StreamBuffer.{StreamBuffer}
use netb.StreamBuffer.Valid.{IsValid, unread, advanced}
use netb.StreamReader.Decodes.{reader}
use netb.StreamReader.Lines.{HasNone}
use netb.Wire.{bind_fault}
use netb.Http.Headers.{Headers, get_header}
use netb.Http.Number.{parse_size}
use netb.Http.Request.{reset, HttpRequest, read_body, crlf, content_length, from_buffer, body, done}
use netb.Http.Request.Parse.{AllHeaders}
use netb.Http.Request.Steps.{
  read_body_over, reset-body, started, parsed, wire_head, finish, parsed-body,
}
use netb.Http.Request.Whole.{from_buffer-sized, head-IsValid, unread_head}

module _ (line : Bytes) (hs : Headers) (pos : 0 < length line) (free : HasNone crlf line)
    (all : AllHeaders hs) (r : HttpRequest) {b : StreamBuffer} (v : IsValid b) (rest : Bytes)
    (e : unread b ≡ wire_head line hs ++ (crlf ++ rest)) where
  from_buffer_over :
      (value d : Bytes)
      → get_header content_length (parsed line hs r).headers ≡ some value
      → parse_size value ≤ length (crlf ++ rest)
      → r.body_data ≡ some d
      → length d < parse_size value
      → from_buffer (started r) b ≡ fault undefined
  from_buffer_over value d has enough old over =
      from_buffer-sized line hs pos free all r v rest e value has
      ∙ ap
          (λ t.
            finish
              (record (parsed line hs r) {
                body_len = parse_size value;
                state = if t then body else done;
              })
              (advanced (length (wire_head line hs)) b))
          (lt→ltb 0 (parse_size value) (omega arith))
      ∙ bind_fault
          (read_body reader
            (record (parsed line hs r) { body_len = parse_size value; state = body }))
          _
          (read_body_over (record (parsed line hs r) { body_len = parse_size value; state = body })
            d (head-IsValid line hs pos free all r v rest e) (parsed-body line hs r ∙ old) over
            (omega
              (arith, ap (λ (t : Bytes). length t) (unread_head line hs pos free all r v rest e))))

-- `FromBuffer` of a request object that had a body before `Reset()`, on a valid buffer whose
-- unread bytes are a start line that is not empty and holds neither CR nor LF, header lines (no
-- key with CR, LF, a colon or NUL, no value with CR, LF or NUL) with a Content-Length above the
-- length of the old body, a blank line and at least that many bytes from the blank line's CRLF on:
-- it is undefined, since the new body is written into the allocation of the old one.
pub from_buffer-reset :
    (line : Bytes) (hs : Headers) (r : HttpRequest) (d value rest : Bytes) {b : StreamBuffer}
    → 0 < length line
    → HasNone crlf line
    → AllHeaders hs
    → IsValid b
    → unread b ≡ wire_head line hs ++ (crlf ++ rest)
    → get_header content_length (parsed line hs (reset r)).headers ≡ some value
    → parse_size value ≤ length (crlf ++ rest)
    → r.body_data ≡ some d
    → length d < parse_size value
    → from_buffer (reset r) b ≡ fault undefined
unfolding reset
from_buffer-reset line hs r d value rest pos free all v e has enough old over =
    from_buffer_over line hs pos free all (reset r) v rest e value d has enough (reset-body r d old)
      over
