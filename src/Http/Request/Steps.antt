-- ===== src/Http/Request/Steps.antt =====
-- What the steps of `FromBuffer` do: the end of the headers, and the body.
use netb.Prelude.{
  ◌<◌, fault, undefined, ℕ, ◌≤◌, ◌≡◌, [], ◌∷◌, ◌++◌, length, length-append, take, overwrite,
  replicate, length-replicate, Bool, none, some, ok, fault, undefined, refl, ap, ◌∙◌, arith,
  if◌then◌else◌, le→leb, lt→leb, length-take, ltb,
}
use netb.Memory.{Bytes}
use netb.StreamBuffer.{StreamBuffer, M, ◌>>=◌}
use netb.StreamBuffer.Valid.{IsValid, unread, advanced}
use netb.StreamBuffer.Read.{readable-eq, read_fits}
use netb.StreamReader
use netb.StreamReader.Decodes.{reader}
use netb.Wire.{bind_ok}
use netb.Http.Headers.{Headers, set_header, get_header}
use netb.Http.Number.{parse_size}
use netb.Http.Request.{
  HttpRequest, reset, read_body, fill_body, allocation, crlf, content_length, end_headers, leaving,
  parse_start_line, on_body, on_done, ready, header, body, done,
}
use netb.Http.Request.Parse.{wire_headers, with_headers}

-- A request object that is ready for a message.
abbrev pub started : HttpRequest → HttpRequest
started r = record r { state = ready }

-- The object once the start line and the headers are parsed.
abbrev pub parsed : Bytes → Headers → HttpRequest → HttpRequest
parsed line hs r = with_headers hs (record (parse_start_line line (started r)).1 { state = header })

-- The text up to the blank line.
abbrev pub wire_head : Bytes → Headers → Bytes
wire_head line hs = (line ++ crlf) ++ wire_headers hs

-- The steps after the headers.
abbrev pub finish : HttpRequest → M (Bool × HttpRequest)
finish r = on_body reader r r.state >>= λ r'. on_done r' r'.state

pub wire_headers-length : (hs : Headers) → length hs ≤ length (wire_headers hs)
wire_headers-length [] = omega arith
wire_headers-length ((k, v) ∷ hs) = omega (
  arith,
  wire_headers-length hs,
  length-append ((k ++ b':' ∷ v) ++ crlf) (wire_headers hs),
  length-append (k ++ b':' ∷ v) crlf,
)

pub end_headers-none :
    (q : HttpRequest) → get_header content_length q.headers ≡ none → end_headers q ≡ fault undefined
unfolding end_headers
end_headers-none q missing = rw (missing, end_headers)

pub end_headers-some :
    (q : HttpRequest) (value : Bytes)
    → get_header content_length q.headers ≡ some value
    → end_headers q
      ≡ ok (record q {
        body_len = parse_size value;
        state = if ltb 0 (parse_size value) then body else done;
      })
unfolding end_headers
end_headers-some q value has = rw (has, end_headers)

pub overwrite_all : (xs p : Bytes) → length p ≡ length xs → overwrite xs 0 p ≡ p
overwrite_all [] [] h = refl
overwrite_all [] (y ∷ p) h = absurd (omega arith)
overwrite_all (x ∷ xs) [] h = absurd (omega arith)
overwrite_all (x ∷ xs) (y ∷ p) h = ap (λ t. y ∷ t) (overwrite_all xs p (omega arith))

pub bytes_fits :
    (n : ℕ) {c : StreamBuffer}
    → IsValid c
    → n ≤ length (unread c)
    → StreamReader.bytes reader n c ≡ ok (some (take n (unread c)), advanced n c)
unfolding StreamReader.bytes
bytes_fits n v h = ground (arith, readable-eq v, read_fits v n h)

pub fill_fresh :
    (q : HttpRequest) (p : Bytes)
    → q.body_data ≡ none
    → length p ≡ q.body_len
    → fill_body (allocation q) p q ≡ ok (record q { body_data = some p; state = done })
fill_fresh q p fresh size = rw (fresh) (
    rw (
      le→leb (length p) (length (replicate {A = ℕ} q.body_len 0))
          (omega (arith, size, length-replicate {A = ℕ} q.body_len 0)),
      overwrite_all (replicate q.body_len 0) p
          (omega (arith, size, length-replicate {A = ℕ} q.body_len 0)),
    ))

-- A body that the buffer holds whole is read into a fresh allocation.
pub read_body_fits :
    (q : HttpRequest) {c : StreamBuffer}
    → IsValid c
    → q.body_data ≡ none
    → q.body_len ≤ length (unread c)
    → read_body reader q c
      ≡ ok (
        record q { body_data = some (take q.body_len (unread c)); state = done },
        advanced q.body_len c,
      )
unfolding read_body
read_body_fits q {c} v fresh h =
    bind_ok (StreamReader.bytes reader q.body_len) _ (bytes_fits q.body_len v h)
    ∙ ap (leaving (advanced q.body_len c)) (
        fill_fresh q (take q.body_len (unread c)) fresh
          (omega (arith, length-take q.body_len (unread c))))

pub with_headers-body :
    (hs : Headers) (r : HttpRequest) → (with_headers hs r).body_data ≡ r.body_data
with_headers-body [] r = refl
with_headers-body ((k, v) ∷ hs) r =
    with_headers-body hs (record r { headers = set_header k v r.headers })

pub parse_start_line-body :
    (line : Bytes) (r : HttpRequest) → (parse_start_line line r).1.body_data ≡ r.body_data
unfolding parse_start_line
parse_start_line-body [] r = refl
parse_start_line-body (c ∷ s) r = ground arith

pub parsed-body :
    (line : Bytes) (hs : Headers) (r : HttpRequest) → (parsed line hs r).body_data ≡ r.body_data
parsed-body line hs r =
    with_headers-body hs (record (parse_start_line line (started r)).1 { state = header })
    ∙ parse_start_line-body line (started r)

-- Bytes that are read into an allocation of less than their number are written past its end.
pub read_body_over :
    (q : HttpRequest) (d : Bytes) {c : StreamBuffer}
    → IsValid c
    → q.body_data ≡ some d
    → length d < q.body_len
    → q.body_len ≤ length (unread c)
    → read_body reader q c ≡ fault undefined
unfolding read_body
read_body_over q d {c} v old over h =
    bind_ok (StreamReader.bytes reader q.body_len) _ (bytes_fits q.body_len v h)
    ∙ rw (old) (
        rw (
          lt→leb (length (take q.body_len (unread c))) (length d)
            (omega (arith, length-take q.body_len (unread c)))))

pub reset-body : (r : HttpRequest) (d : Bytes) → r.body_data ≡ some d → (reset r).body_data ≡ some d
unfolding reset
reset-body r d e = rw (e)
