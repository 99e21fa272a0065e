-- ===== src/Tests/Texts.antt =====
-- The theorems on the texts of messages at concrete messages.
use netb.Prelude.{◌≡◌, [], ◌∷◌, true, some, ok, refl, arith}
use netb.StreamBuffer.{StreamBuffer, is_one_of}
use netb.StreamBuffer.Valid.{IsValid, contents}
use netb.Http.Request.{HttpRequest, start_line, request, to_buffer}
use netb.Http.Request.Text.{to_buffer_lem}
use netb.Memory.{Bytes}
use netb.Http.Response.{HttpResponse, response, codes, get_phrase, lookup_phrase, parse_start_line}
use netb.Http.Response.StatusLine.{parse_start_line-start_line}
use netb.Tests.Fixtures.{unlimited, unlimited-HasRoom}

-- `P /` with a header `a:1` and a body of two bytes, of three that are allocated.
abbrev posted : HttpRequest
posted = record (request (b'P' ∷ []) (b'/' ∷ []) (b'X' ∷ [])) {
  headers = (b'a' ∷ [], b'1' ∷ []) ∷ [];
  body_len = 2;
  body_data = some (7 ∷ 8 ∷ 9 ∷ []);
}

to_buffer_lem_example :
    (b' : StreamBuffer) × (to_buffer posted unlimited ≡ ok (true, b'))
    × (contents b'
        ≡ b'P' ∷ b' ' ∷ b'/' ∷ b' ' ∷ b'X' ∷ 13 ∷ 10 ∷ b'a' ∷ b':' ∷ b'1' ∷ 13 ∷ 10 ∷ 13 ∷ 10 ∷ 7
          ∷ 8 ∷ [])
    × IsValid b'
unfolding is_one_of start_line
to_buffer_lem_example =
    to_buffer_lem posted (7 ∷ 8 ∷ 9 ∷ []) unlimited (((refl, tt), omega arith), tt) refl
      (omega arith) (omega arith) (unlimited-HasRoom 16 (omega arith))

-- A response with a phrase of two words.
abbrev not_found : HttpResponse
not_found = record { version = b'X' ∷ []; code = 404; phrase = [] }

parse_start_line-start_line_example :
    (line : Bytes) × (netb.Http.Response.start_line not_found ≡ ok line)
    × (parse_start_line line (response [])
        ≡ ok (true, record not_found { phrase = codes "Not Found" }))
unfolding get_phrase lookup_phrase
parse_start_line-start_line_example =
    parse_start_line-start_line not_found (response []) (codes "Not Found")
      ((λ e. absurd (omega (arith, e))), tt) (omega arith) refl
