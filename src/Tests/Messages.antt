-- ===== src/Tests/Messages.antt =====
-- The theorems on DNS messages and HTTP requests at concrete inputs.
use netb.Prelude.{ℕ, ◌≡◌, [], ◌∷◌, ◌++◌, true, false, some, ok, fault, undefined, arith, refl}
use netb.Memory.{Bytes}
use netb.Host.{little}
use netb.StreamBuffer.{StreamBuffer, ◌>>=◌, is_one_of}
use netb.StreamBuffer.Valid.{IsValid, contents, unread}
use netb.Dns.Message
use netb.Dns.Message.{response, to_buffer}
use netb.Dns.Message.Encoding.{asking, from_buffer-to_buffer}
use netb.Dns.Message.Records.{Sections, IsCounted, wire_sections, arrived, from_buffer_records}
use netb.Dns.Record.{a, mx, txt}
use netb.Http.Headers.{Headers, same, set_header, get_header}
use netb.Http.Number.{next_word, parse_size, skip_spaces, break_word, is_space, decimal}
use netb.Http.Request
use netb.Http.Request.{
  reset, HttpRequest, Parsing, done, crlf, http_1_1, empty_request, content_length,
  parse_start_line, read_header, end_headers, leaving,
}
use netb.Http.Request.Parse.{AllHeaders, wire_headers}
use netb.Http.Request.Steps.{started, parsed, wire_head}
use netb.Http.Request.Reused.{from_buffer-reset}
use netb.Http.Request.Whole.{from_buffer_no_length, from_buffer_no_body, from_buffer_body}
use netb.Tests.Fixtures.{
  holding, holding-IsValid, unlimited, unlimited-HasRoom, asked, for_www, asked-IsQuery, www,
  www-AllLabels, standard_query-IsInRange,
}

-- The answer to that question: an address and a mail exchange, and a text beside them.
abbrev answered : Sections
answered = record {
  header = record asked { ancount = 2; arcount = 1 };
  questions = for_www;
  answers =
      record { name = record { parts = www }; rclass = 1; ttl = 3600; rdata = a 16909060 }
      ∷ record {
        name = record { parts = www };
        rclass = 1;
        ttl = 3600;
        rdata = mx 10 (record { parts = www });
      }
      ∷ [];
  authorities = [];
  additionals =
      record { name = record { parts = www }; rclass = 1; ttl = 60; rdata = txt (7 ∷ []) } ∷ [];
}

answered-IsCounted : IsCounted answered
answered-IsCounted = record {
  header = record {
    id = omega arith;
    flags = standard_query-IsInRange;
    qdcount = omega arith;
    ancount = omega arith;
    nscount = omega arith;
    arcount = omega arith;
  };
  questions = asked-IsQuery.questions;
  answers = (
    record { name = www-AllLabels; rclass = omega arith; ttl = omega arith; rdata = omega arith },
    (
      record {
        name = www-AllLabels;
        rclass = omega arith;
        ttl = omega arith;
        rdata = (omega arith, www-AllLabels, omega arith);
      },
      tt,
    ),
  );
  authorities = tt;
  additionals = (
    record { name = www-AllLabels; rclass = omega arith; ttl = omega arith; rdata = omega arith },
    tt,
  );
  qdcount = refl;
  ancount = refl;
  nscount = refl;
  arcount = refl;
}

from_buffer_records_example :
    (b' : StreamBuffer) × (Message.from_buffer little 0 response
        (holding (wire_sections answered ++ 1 ∷ []))
      ≡ ok ((true, arrived answered), b'))
    × (contents b' ≡ 1 ∷ [])
    × (unread b' ≡ 1 ∷ [])
    × IsValid b'
from_buffer_records_example =
    from_buffer_records little 0 answered (holding (wire_sections answered ++ 1 ∷ [])) (1 ∷ [])
      answered-IsCounted (holding-IsValid (wire_sections answered ++ 1 ∷ []) (omega arith)) refl

from_buffer-to_buffer_example :
    (b' : StreamBuffer) × ((to_buffer little (asking asked for_www) >>= λ _.
    Message.from_buffer little 0 response)
        unlimited
      ≡ ok ((true, asking asked for_www), b'))
    × (contents b' ≡ [])
    × IsValid b'
from_buffer-to_buffer_example =
    from_buffer-to_buffer little 0 unlimited asked-IsQuery (unlimited-HasRoom 23 (omega arith)) refl

-- `a: 1` and `b: 2`
abbrev two_headers : Headers
two_headers = (b'a' ∷ [], b'1' ∷ []) ∷ (b'b' ∷ [], b'2' ∷ []) ∷ []

two_headers-AllHeaders : AllHeaders two_headers
unfolding is_one_of
two_headers-AllHeaders = (((refl, tt), (refl, tt)), (((refl, tt), (refl, tt)), tt))

-- The text of these headers, the blank line and one more byte.
abbrev header_text : Bytes
header_text = wire_headers two_headers ++ (crlf ++ 7 ∷ [])

-- `GET / X`
abbrev request_line : Bytes
request_line = b'G' ∷ b'E' ∷ b'T' ∷ b' ' ∷ b'/' ∷ b' ' ∷ b'X' ∷ []

-- A text with these headers and five bytes after the blank line.
abbrev text_with : Headers → Bytes
text_with hs = wire_head request_line hs ++ (crlf ++ 1 ∷ 2 ∷ 3 ∷ 4 ∷ 5 ∷ [])

-- `Content-Length` of one digit.
abbrev sized_as : ℕ → Headers
sized_as d = (content_length, d ∷ []) ∷ []

from_buffer_no_length_example :
    Request.from_buffer (started (empty_request http_1_1)) (holding (text_with two_headers))
    ≡ fault undefined
unfolding is_one_of get_header set_header same parse_start_line next_word skip_spaces break_word
    is_space
from_buffer_no_length_example =
    from_buffer_no_length request_line two_headers (omega arith)
      (refl, (refl, (refl, (refl, (refl, (refl, (refl, tt))))))) two_headers-AllHeaders
      (empty_request http_1_1) (holding-IsValid (text_with two_headers) (omega arith))
      (1 ∷ 2 ∷ 3 ∷ 4 ∷ 5 ∷ []) refl refl

sized_as-AllHeaders : (d : ℕ) → is_one_of (13 ∷ 10 ∷ 0 ∷ []) d ≡ false → AllHeaders (sized_as d)
unfolding is_one_of
sized_as-AllHeaders d h = (
  (
    (
      refl,
      (
        refl,
        (
          refl,
          (
            refl,
            (refl, (refl, (refl, (refl, (refl, (refl, (refl, (refl, (refl, (refl, tt)))))))))),
          ),
        ),
      ),
    ),
    (h, tt),
  ),
  tt,
)

from_buffer_no_body_example :
    (b' : StreamBuffer) × (Request.from_buffer
        (started (empty_request http_1_1))
        (holding (text_with (sized_as b'0')))
      ≡ ok (
        (
          true,
          record (parsed request_line (sized_as b'0') (empty_request http_1_1)) {
            body_len = 0;
            state = done;
          },
        ),
        b',
      ))
    × (contents b' ≡ 13 ∷ 10 ∷ 1 ∷ 2 ∷ 3 ∷ 4 ∷ 5 ∷ [])
    × IsValid b'
unfolding is_one_of get_header set_header same parse_start_line next_word skip_spaces break_word
    is_space parse_size decimal
from_buffer_no_body_example =
    from_buffer_no_body request_line (sized_as b'0') (omega arith)
      (refl, (refl, (refl, (refl, (refl, (refl, (refl, tt))))))) (sized_as-AllHeaders b'0' refl)
      (empty_request http_1_1) (holding-IsValid (text_with (sized_as b'0')) (omega arith))
      (1 ∷ 2 ∷ 3 ∷ 4 ∷ 5 ∷ []) refl (b'0' ∷ []) refl refl

from_buffer_body_example :
    (b' : StreamBuffer) × (Request.from_buffer
        (started (empty_request http_1_1))
        (holding (text_with (sized_as b'5')))
      ≡ ok (
        (
          true,
          record (parsed request_line (sized_as b'5') (empty_request http_1_1)) {
            body_len = 5;
            body_data = some (13 ∷ 10 ∷ 1 ∷ 2 ∷ 3 ∷ []);
            state = done;
          },
        ),
        b',
      ))
    × (contents b' ≡ 4 ∷ 5 ∷ [])
unfolding is_one_of get_header set_header same parse_start_line next_word skip_spaces break_word
    is_space parse_size decimal
from_buffer_body_example =
    from_buffer_body request_line (sized_as b'5') (omega arith)
      (refl, (refl, (refl, (refl, (refl, (refl, (refl, tt))))))) (sized_as-AllHeaders b'5' refl)
      (empty_request http_1_1) (holding-IsValid (text_with (sized_as b'5')) (omega arith))
      (1 ∷ 2 ∷ 3 ∷ 4 ∷ 5 ∷ []) refl (b'5' ∷ []) refl (omega arith) (omega arith) refl

-- A request that had a body of one byte.
abbrev used : HttpRequest
used = record (empty_request http_1_1) { body_len = 1; body_data = some (9 ∷ []) }

from_buffer-reset_example :
    Request.from_buffer (reset used) (holding (text_with (sized_as b'5'))) ≡ fault undefined
unfolding is_one_of get_header set_header same parse_start_line next_word skip_spaces break_word
    is_space parse_size decimal reset
from_buffer-reset_example =
    from_buffer-reset request_line (sized_as b'5') used (9 ∷ []) (b'5' ∷ [])
      (1 ∷ 2 ∷ 3 ∷ 4 ∷ 5 ∷ []) (omega arith)
      (refl, (refl, (refl, (refl, (refl, (refl, (refl, tt))))))) (sized_as-AllHeaders b'5' refl)
      (holding-IsValid (text_with (sized_as b'5')) (omega arith)) refl refl (omega arith) refl
      (omega arith)
