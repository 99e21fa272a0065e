-- ===== src/Http/Request/Whole.antt =====
-- `FromBuffer` on the text of a whole request: the start line, the headers, the blank line, and
-- what follows it.
use netb.Prelude.{
  ℕ, suc, ◌<◌, ◌≤◌, ◌≡◌, [], ◌∷◌, ◌++◌, append_assoc, length, length-append, take, drop, true, none,
  some, ok, fault, undefined, ap, ◌∙◌, arith, if◌then◌else◌, lt→ltb, ltb,
}
use netb.Memory.{Bytes}
use netb.StreamBuffer.{StreamBuffer, ◌>>=◌, readable, flush}
use netb.StreamBuffer.Valid.{IsValid, contents, unread, advanced, unread-advanced}
use netb.StreamBuffer.Read.{readable-eq, length-unread}
use netb.StreamBuffer.Flush.{flush_lem}
use netb.StreamReader
use netb.StreamReader.Decodes.{reader}
use netb.StreamReader.Lines.{HasNone, read_line}
use netb.Wire.{bind_ok, advanced-IsValid, unread-advanced_append}
use netb.Http.Headers.{Headers, get_header}
use netb.Http.Number.{parse_size}
use netb.Http.Request.{
  HttpRequest, read_body, crlf, content_length, end_headers, leaving, parse_start_line,
  read_start_line, from_buffer, on_header, header, body, done,
}
use netb.Http.Request.Parse.{AllHeaders, wire_headers, moved_to, read_header_lem}
use netb.Http.Request.Steps.{
  started, parsed, wire_head, finish, wire_headers-length, end_headers-none, end_headers-some,
  read_body_fits, parsed-body,
}

module _ (line : Bytes) (hs : Headers) (pos : 0 < length line) (free : HasNone crlf line)
    (all : AllHeaders hs) (r : HttpRequest) {b : StreamBuffer} (v : IsValid b) (rest : Bytes)
    (e : unread b ≡ wire_head line hs ++ (crlf ++ rest)) where
  abbrev first : HttpRequest
  first = record (parse_start_line line (started r)).1 { state = header }

  abbrev behind : StreamBuffer
  behind = advanced (length (line ++ crlf)) b

  line_first : unread b ≡ (line ++ crlf) ++ (wire_headers hs ++ (crlf ++ rest))
  line_first = e ∙ append_assoc (line ++ crlf) (wire_headers hs) (crlf ++ rest)

  behind-IsValid : IsValid behind
  behind-IsValid = advanced-IsValid (line ++ crlf) _ v line_first

  unread-behind : unread behind ≡ wire_headers hs ++ (crlf ++ rest)
  unread-behind = unread-advanced_append (line ++ crlf) _ b line_first

  start_read : read_start_line reader (started r) b ≡ ok (first, behind)
  unfolding read_start_line
  start_read =
      bind_ok (StreamReader.string_string reader [] crlf) _
        (read_line v [] 13 (10 ∷ []) (wire_headers hs ++ (crlf ++ rest)) line pos free line_first)

  headers_read :
      on_header reader first header behind
      ≡ leaving (advanced (length (wire_head line hs)) b) (end_headers (parsed line hs r))
  headers_read =
      read_header_lem (suc (readable behind)) hs [] first behind rest
        (omega (
          arith,
          readable-eq behind-IsValid,
          ap (λ (t : Bytes). length t) unread-behind,
          length-append (wire_headers hs) (crlf ++ rest),
          wire_headers-length hs,
        ))
        all behind-IsValid unread-behind
      ∙ moved_to (end_headers (parsed line hs r)) b
          (omega (arith, length-append (line ++ crlf) (wire_headers hs)))

  from_buffer_head :
      from_buffer (started r) b
      ≡ ((λ (_ : StreamBuffer).
              leaving (advanced (length (wire_head line hs)) b) (end_headers (parsed line hs r)))
            >>= finish)
          b
  unfolding from_buffer
  from_buffer_head =
      bind_ok (read_start_line reader (started r)) _ start_read
      ∙ ap (λ o. ((λ (_ : StreamBuffer). o) >>= finish) b) headers_read

  -- The header's text ends in front of the blank line.
  pub unread_head : unread (advanced (length (wire_head line hs)) b) ≡ crlf ++ rest
  unread_head = unread-advanced_append (wire_head line hs) (crlf ++ rest) b e

  pub head-IsValid : IsValid (advanced (length (wire_head line hs)) b)
  head-IsValid = advanced-IsValid (wire_head line hs) (crlf ++ rest) v e

  -- `FromBuffer` of a request object that is ready, on a valid buffer whose unread bytes are a
  -- start line that is not empty and holds neither CR nor LF, header lines (no key with CR, LF, a
  -- colon or NUL, no value with CR, LF or NUL) without a Content-Length, a blank line and more: it
  -- is undefined, since `GetHeaderAsInt` makes a string of the null pointer that `GetHeader`
  -- returns.
  pub from_buffer_no_length :
      get_header content_length (parsed line hs r).headers ≡ none
      → from_buffer (started r) b ≡ fault undefined
  from_buffer_no_length missing =
      from_buffer_head
      ∙ ap
          (λ o.
            ((λ (_ : StreamBuffer). leaving (advanced (length (wire_head line hs)) b) o) >>= finish)
              b)
          (end_headers-none (parsed line hs r) missing)

  -- The request once its Content-Length is parsed.
  abbrev pub sized : ℕ → HttpRequest
  sized n = record (parsed line hs r) { body_len = n; state = if ltb 0 n then body else done }

  pub from_buffer-sized :
      (value : Bytes)
      → get_header content_length (parsed line hs r).headers ≡ some value
      → from_buffer (started r) b
        ≡ finish (sized (parse_size value)) (advanced (length (wire_head line hs)) b)
  from_buffer-sized value has =
      from_buffer_head
      ∙ ap
          (λ o.
            ((λ (_ : StreamBuffer). leaving (advanced (length (wire_head line hs)) b) o) >>= finish)
              b)
          (end_headers-some (parsed line hs r) value has)

  -- `FromBuffer` of a request object that is ready, on a valid buffer whose unread bytes are a
  -- start line that is not empty and holds neither CR nor LF, header lines (no key with CR, LF, a
  -- colon or NUL, no value with CR, LF or NUL) with a Content-Length that parses to zero, a blank
  -- line and more: it returns true with the start line and headers parsed, and leaves a valid
  -- buffer whose contents are the blank line's CRLF and what follows it.
  pub from_buffer_no_body :
      (value : Bytes)
      → get_header content_length (parsed line hs r).headers ≡ some value
      → parse_size value ≡ 0
      → (b' : StreamBuffer) × (from_buffer (started r) b
          ≡ ok ((true, record (parsed line hs r) { body_len = 0; state = done }), b'))
        × (contents b' ≡ crlf ++ rest)
        × IsValid b'
  from_buffer_no_body value has zero' =
      let kept = flush_lem head-IsValid in
      (
        (flush (advanced (length (wire_head line hs)) b)).1,
        from_buffer-sized value has
            ∙ ap (λ n. finish (sized n) (advanced (length (wire_head line hs)) b)) zero',
        kept.1 ∙ unread_head,
        kept.3,
      )

  -- `FromBuffer` of a request object that is ready and has no body, on a valid buffer whose unread
  -- bytes are a start line that is not empty and holds neither CR nor LF, header lines (no key
  -- with CR, LF, a colon or NUL, no value with CR, LF or NUL) with a Content-Length above zero, a
  -- blank line and at least that many bytes from the blank line's CRLF on: it returns true with
  -- the start line and headers parsed, the body is taken from the blank line's CRLF on, so that it
  -- begins with this CRLF, and the contents left are what is behind the body.
  pub from_buffer_body :
      (value : Bytes)
      → get_header content_length (parsed line hs r).headers ≡ some value
      → 0 < parse_size value
      → parse_size value ≤ length (crlf ++ rest)
      → r.body_data ≡ none
      → (b' : StreamBuffer) × (from_buffer (started r) b
          ≡ ok (
            (
              true,
              record (parsed line hs r) {
                body_len = parse_size value;
                body_data = some (take (parse_size value) (crlf ++ rest));
                state = done;
              },
            ),
            b',
          ))
        × (contents b' ≡ drop (parse_size value) (crlf ++ rest))
  from_buffer_body value has more enough fresh =
      let kept = flush_lem behind_body-IsValid in
      ((flush behind_body).1, run, kept.1 ∙ unread-advanced n c ∙ ap (drop n) unread_head)
    where
      n : ℕ
      n = parse_size value

      c : StreamBuffer
      c = advanced (length (wire_head line hs)) b

      behind_body : StreamBuffer
      behind_body = advanced n c

      held : n ≤ length (unread c)
      held = omega (arith, ap (λ (t : Bytes). length t) unread_head)

      behind_body-IsValid : IsValid behind_body
      behind_body-IsValid = ground (arith, head-IsValid, length-unread head-IsValid, held)

      waiting : HttpRequest
      waiting = record (parsed line hs r) { body_len = n; state = body }

      run :
          from_buffer (started r) b
          ≡ ok (
            (
              true,
              record (parsed line hs r) {
                body_len = n;
                body_data = some (take n (crlf ++ rest));
                state = done;
              },
            ),
            (flush behind_body).1,
          )
      run =
          from_buffer-sized value has
          ∙ ap
              (λ t.
                finish
                  (record (parsed line hs r) { body_len = n; state = if t then body else done }) c)
              (lt→ltb 0 n more)
          ∙ bind_ok (read_body reader waiting) _
              (read_body_fits waiting head-IsValid (parsed-body line hs r ∙ fresh) held)
          ∙ ap
              (λ t. ok (
                (true, record waiting { body_data = some (take n t); state = done }),
                (flush behind_body).1,
              ))
              unread_head
