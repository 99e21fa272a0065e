-- ===== src/Http/Request.antt =====
-- `HttpMessage` and `HttpRequest` of netb/HttpMessage.hpp and netb/HttpMessage.cpp.
pub mod Parse
pub mod Reused
pub mod Steps
pub mod Text
pub mod Whole
use netb.Prelude.{
  ℕ, zero, suc, ◌+◌, List, [], ◌∷◌, ◌++◌, length, take, overwrite, replicate, Bool, true, false,
  ◌&&◌, Option, none, some, Outcome, ok, fault, undefined, aborted, starved, ◌▹◌, leb, ltb, ◌==◌,
  if◌then◌else◌,
}
use netb.Memory.{Bytes}
use netb.StreamBuffer.{StreamBuffer, M, pure, ◌>>=◌, ◌&&>◌, readable, flush}
use netb.StreamReader
use netb.StreamReader.{StreamReader}
use netb.StreamWriter
use netb.StreamWriter.{StreamWriter, succeeds}
use netb.Http.Headers.{Headers, set_header, get_header}
use netb.Http.Number.{next_word, parse_size}

-- HttpMessage::PARSING
pub data Parsing : Type 0 where
  ready header body done : Parsing

-- `body_data` is what `_body` points to, with the length that was allocated.
pub record HttpRequest : Type 0 where
  pub version : Bytes
  pub headers : Headers
  pub body_len : ℕ
  pub body_data : Option Bytes
  pub state : Parsing
  pub method : Bytes
  pub url : Bytes

-- HttpMessage::CRLF
abbrev pub crlf : Bytes
crlf = 13 ∷ 10 ∷ []

-- "HTTP/1.1"
abbrev pub http_1_1 : Bytes
http_1_1 = b'H' ∷ b'T' ∷ b'T' ∷ b'P' ∷ b'/' ∷ b'1' ∷ b'.' ∷ b'1' ∷ []

-- "GET"
abbrev pub get_method : Bytes
get_method = b'G' ∷ b'E' ∷ b'T' ∷ []

-- "Content-Length"
abbrev pub content_length : Bytes
content_length =
    b'C' ∷ b'o' ∷ b'n' ∷ b't' ∷ b'e' ∷ b'n' ∷ b't' ∷ b'-' ∷ b'L' ∷ b'e' ∷ b'n' ∷ b'g' ∷ b't' ∷ b'h'
    ∷ []

-- HttpRequest(method, url, version)
abbrev pub request : Bytes → Bytes → Bytes → HttpRequest
request m u v = record {
  version = v;
  headers = [];
  body_len = 0;
  body_data = none;
  state = ready;
  method = m;
  url = u;
}

-- HttpRequest(version)
abbrev pub empty_request : Bytes → HttpRequest
empty_request v = request get_method [] v

-- Reset(): `if(!_body)` frees and forgets a body only where there is none
unfoldable pub reset : HttpRequest → HttpRequest
reset r = record r {
  headers = [];
  body_data = elim r.body_data [ none ↦ none | some d ↦ some d ];
  body_len = 0;
  version = http_1_1;
  state = ready;
  method = get_method;
  url = [];
}

-- `iss >> _method >> _url >> _version`
abbrev pub read_words : Bytes → HttpRequest → HttpRequest
read_words line r = elim (next_word line) [
  | none ↦ r
  | some (m, rest) ↦ elim (next_word rest) [
    | none ↦ record r { method = m }
    | some (u, rest') ↦ elim (next_word rest') [
      | none ↦ record r { method = m; url = u }
      | some (v, rest'') ↦ record r { method = m; url = u; version = v }
    ]
  ]
]

-- StartLine(line)
unfoldable pub parse_start_line : Bytes → HttpRequest → Bool × HttpRequest
parse_start_line [] r = (false, r)
parse_start_line (c ∷ s) r = (true, read_words (c ∷ s) r)

-- StartLine() const
unfoldable pub start_line : HttpRequest → Bytes
start_line r = r.method ++ (b' ' ∷ (r.url ++ (b' ' ∷ r.version)))

-- s.c_str() as the C string that a `const char*` stands for: up to the first NUL
unfoldable pub c_str : Bytes → Bytes
c_str [] = []
c_str (c ∷ s) = let rest = c_str s in if c == 0 then [] else c ∷ rest

-- The parts of a header line before and after the first colon.
unfoldable pub split_colon : Bytes → Option (Bytes × Bytes)
split_colon [] = none
split_colon (c ∷ s) =
    let rest = split_colon s in
    if c == b':' then some ([], s) else elim rest [ none ↦ none | some (k, v) ↦ some (c ∷ k, v) ]

-- ReadStartLine(stream)
unfoldable pub read_start_line : StreamReader → HttpRequest → M HttpRequest
read_start_line s r = StreamReader.string_string s [] crlf >>= λ (found, line).
    pure (if found then record (parse_start_line line r).1 { state = header } else r)

-- The blank line in ReadHeader(stream): without a Content-Length, a string of a null pointer
unfoldable pub end_headers : HttpRequest → Outcome HttpRequest
end_headers r = elim (get_header content_length r.headers) [
  | none ↦ fault undefined
  | some value ↦ ok (record r {
    body_len = parse_size value;
    state = if ltb 0 (parse_size value) then body else done;
  })
]

-- A request beside the buffer as it stands.
abbrev pub leaving : StreamBuffer → Outcome HttpRequest → Outcome (HttpRequest × StreamBuffer)
leaving b o = o ▹ λ r. ok (r, b)

-- A line in ReadHeader(stream), and `next` for the lines after a header.
abbrev pub use_line : (HttpRequest → M HttpRequest) → Bytes → HttpRequest → M HttpRequest
use_line next [] r = λ b. leaving b (end_headers r)
use_line next (c ∷ cs) r = elim (split_colon (c ∷ cs)) [
  | none ↦ λ b. fault aborted
  | some (k, v) ↦ next (record r { headers = set_header (c_str k) (c_str v) r.headers })
]

-- ReadHeader(stream), with fuel for its loop
unfoldable pub read_header : ℕ → StreamReader → Bytes → HttpRequest → M HttpRequest
read_header zero s line r = λ b. fault starved
read_header (suc fuel) s line r = StreamReader.string_string s line crlf >>= λ res. elim res.0 [
  | false ↦ pure r
  | true ↦ use_line (read_header fuel s res.1) res.1 r
]

-- `stream.Bytes(_body, _body_len)` into `data'`: past the end of the allocation it is undefined
abbrev pub fill_body : Bytes → Bytes → HttpRequest → Outcome HttpRequest
fill_body data' bs r =
    if leb (length bs) (length data')
    then ok (record r { body_data = some (overwrite data' 0 bs); state = done })
    else fault undefined

-- `if(!_body) _body = new char[_body_len];`, with zeros for the bytes that are not initialised
abbrev pub allocation : HttpRequest → Bytes
allocation r = elim r.body_data [ none ↦ replicate r.body_len 0 | some d ↦ d ]

-- ReadBody(stream)
unfoldable pub read_body : StreamReader → HttpRequest → M HttpRequest
read_body s r = StreamReader.bytes s r.body_len >>= λ bs b. elim bs [
  | none ↦ ok (record r { body_data = some (allocation r) }, b)
  | some p ↦ leaving b (fill_body (allocation r) p r)
]

abbrev pub on_ready : StreamReader → HttpRequest → Parsing → M HttpRequest
on_ready s r ready = read_start_line s r
on_ready s r _ = pure r

abbrev pub on_header : StreamReader → HttpRequest → Parsing → M HttpRequest
on_header s r header b = read_header (suc (readable b)) s [] r b
on_header s r _ b = pure r b

abbrev pub on_body : StreamReader → HttpRequest → Parsing → M HttpRequest
on_body s r body = read_body s r
on_body s r _ = pure r

abbrev pub on_done : HttpRequest → Parsing → M (Bool × HttpRequest)
on_done r done b = ok ((true, r), (flush b).1)
on_done r _ b = pure (false, r) b

-- FromBuffer(buf)
unfoldable pub from_buffer : HttpRequest → M (Bool × HttpRequest)
from_buffer r = on_ready (record { attached = true; flushes = false }) r r.state >>= λ r₁.
    on_header (record { attached = true; flushes = false }) r₁ r₁.state >>= λ r₂.
    on_body (record { attached = true; flushes = false }) r₂ r₂.state >>= λ r₃. on_done r₃ r₃.state

-- The loop over the headers of ToBuffer.
unfoldable pub write_headers : StreamWriter → Headers → M Bool
write_headers w [] = pure true
write_headers w ((k, v) ∷ hs) =
    succeeds (StreamWriter.string_char w k b':')
    &&> succeeds (StreamWriter.string_string w v crlf)
    &&> write_headers w hs

-- The body in ToBuffer: `_body_len` bytes from `_body`
abbrev pub write_body : StreamWriter → HttpRequest → M Bool
write_body w r = elim r.body_data [
  | none ↦ pure true
  | some d ↦
      if r.body_len == 0
      then pure true
      else if leb r.body_len (length d)
      then succeeds (StreamWriter.bytes w (take r.body_len d))
      else (λ b. fault undefined)
]

-- ToBuffer(buf): the result of writing the blank line is not looked at
unfoldable pub to_buffer : HttpRequest → M Bool
to_buffer r =
    succeeds (StreamWriter.string_string (record { attached = true }) (start_line r) crlf)
    &&> write_headers (record { attached = true }) r.headers
    &&> (StreamWriter.string (record { attached = true }) crlf >>= λ _.
        write_body (record { attached = true }) r)
