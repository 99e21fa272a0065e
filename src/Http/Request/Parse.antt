-- ===== src/Http/Request/Parse.antt =====
-- What `FromBuffer` does with the text of a whole request.
use netb.Prelude.{
  ℕ, zero, suc, ◌+◌, ◌<◌, ◌≡◌, [], ◌∷◌, ◌++◌, append_assoc, length, length-append, some, Outcome,
  refl, ap, ◌∙◌, arith,
}
use netb.Memory.{Bytes}
use netb.StreamBuffer.{StreamBuffer, M, is_one_of}
use netb.StreamBuffer.Valid.{IsValid, unread, advanced}
use netb.StreamReader
use netb.StreamReader.Decodes.{reader}
use netb.StreamReader.Lines.{HasNone, string_string_empty, read_line}
use netb.Wire.{bind_ok, advanced-IsValid, unread-advanced_append}
use netb.Http.Headers.{Headers, set_header}
use netb.Http.Request.{
  HttpRequest, crlf, c_str, split_colon, end_headers, leaving, use_line, read_header,
}

-- No byte of a key ends the line, the key or the C string that it becomes.
abbrev pub IsKey : Bytes → Type 0
IsKey k = HasNone (13 ∷ 10 ∷ b':' ∷ 0 ∷ []) k

-- No byte of a value ends the line or the C string that it becomes.
abbrev pub IsValue : Bytes → Type 0
IsValue v = HasNone (13 ∷ 10 ∷ 0 ∷ []) v

abbrev pub AllHeaders : Headers → Type 0
AllHeaders [] = Unit
AllHeaders ((k, v) ∷ hs) = (IsKey k × IsValue v) × AllHeaders hs

-- `key:value` for each header, with a line break after it.
abbrev pub wire_headers : Headers → Bytes
wire_headers [] = []
wire_headers ((k, v) ∷ hs) = ((k ++ b':' ∷ v) ++ crlf) ++ wire_headers hs

-- The request with these headers set, one after the other.
abbrev pub with_headers : Headers → HttpRequest → HttpRequest
with_headers [] r = r
with_headers ((k, v) ∷ hs) r = with_headers hs (record r { headers = set_header k v r.headers })

value-HasNone : (v : Bytes) → IsValue v → HasNone crlf v
unfolding is_one_of
value-HasNone [] h = tt
value-HasNone (c ∷ v) h = (ground arith, value-HasNone v h.1)

line-HasNone : (k v : Bytes) → IsKey k → IsValue v → HasNone crlf (k ++ b':' ∷ v)
unfolding is_one_of
line-HasNone [] v hk hv = (refl, value-HasNone v hv)
line-HasNone (c ∷ k) v hk hv = (ground arith, line-HasNone k v hk.1 hv)

split_colon-append : (k v : Bytes) → IsKey k → split_colon (k ++ b':' ∷ v) ≡ some (k, v)
unfolding is_one_of split_colon
split_colon-append [] v h = refl
split_colon-append (c ∷ k) v h = ground (arith, split_colon-append k v h.1)

c_str-key : (k : Bytes) → IsKey k → c_str k ≡ k
unfolding is_one_of c_str
c_str-key [] h = refl
c_str-key (c ∷ k) h = ground (arith, c_str-key k h.1)

c_str-value : (v : Bytes) → IsValue v → c_str v ≡ v
unfolding is_one_of c_str
c_str-value [] h = refl
c_str-value (c ∷ v) h = ground (arith, c_str-value v h.1)

-- A header line sets its header.
use_line-header :
    (next : HttpRequest → M HttpRequest) (k v : Bytes) (r : HttpRequest)
    → IsKey k
    → IsValue v
    → use_line next (k ++ b':' ∷ v) r ≡ next (record r { headers = set_header k v r.headers })
use_line-header next [] v r hk hv =
    rw (split_colon-append [] v hk, use_line, c_str-key [] hk, c_str-value v hv)
use_line-header next (c ∷ k) v r hk hv =
    rw (split_colon-append (c ∷ k) v hk, use_line, c_str-key (c ∷ k) hk, c_str-value v hv)

-- Positions that are equal as numbers.
pub moved_to :
    (o : Outcome HttpRequest) (b : StreamBuffer) {n m : ℕ}
    → n ≡ m
    → leaving (record b { rpos = n }) o ≡ leaving (record b { rpos = m }) o
moved_to o b e = ap (λ k. leaving (record b { rpos = k }) o) e

-- The loop of `ReadHeader`, with more fuel than there are headers, on a valid buffer whose unread
-- bytes are header lines `key:value`, a blank line and more, where no key holds CR, LF, a colon or
-- NUL and no value holds CR, LF or NUL: it sets these headers in their order, goes on as
-- `ReadHeader` does at a blank line, and leaves the reading position in front of the blank line's
-- CRLF.
pub read_header_lem :
    (fuel : ℕ) (hs : Headers) (line : Bytes) (r : HttpRequest) (b : StreamBuffer) (rest : Bytes)
    → length hs < fuel
    → AllHeaders hs
    → IsValid b
    → unread b ≡ wire_headers hs ++ (crlf ++ rest)
    → read_header fuel reader line r b
      ≡ leaving (advanced (length (wire_headers hs)) b) (end_headers (with_headers hs r))
unfolding read_header
read_header_lem zero hs line r b rest h all v e = absurd (omega arith)
read_header_lem (suc fuel) [] line r b rest h all v e =
    bind_ok (StreamReader.string_string reader line crlf) _
      (string_string_empty v line 13 (10 ∷ []) rest e)
    ∙ moved_to (end_headers r) b {n = b.rpos} {m = b.rpos + 0} (omega arith)
read_header_lem (suc fuel) ((k, value) ∷ hs) line r b rest h all v e =
    bind_ok (StreamReader.string_string reader line crlf) _ (
      read_line v line 13 (10 ∷ []) (wire_headers hs ++ (crlf ++ rest)) text
        (omega (arith, length-append k (b':' ∷ value))) (line-HasNone k value all.0.0 all.0.1) e')
    ∙ ap (λ (m : M HttpRequest). m c)
        (use_line-header (read_header fuel reader text) k value r all.0.0 all.0.1)
    ∙ read_header_lem fuel hs text _ c rest (omega arith) all.1
        (advanced-IsValid (text ++ crlf) _ v e') (unread-advanced_append (text ++ crlf) _ b e')
    ∙ moved_to (end_headers (with_headers ((k, value) ∷ hs) r)) b
        (omega (arith, length-append (text ++ crlf) (wire_headers hs)))
  where
    text : Bytes
    text = k ++ b':' ∷ value

    c : StreamBuffer
    c = advanced (length (text ++ crlf)) b

    e' : unread b ≡ (text ++ crlf) ++ (wire_headers hs ++ (crlf ++ rest))
    e' = e ∙ append_assoc (text ++ crlf) (wire_headers hs) (crlf ++ rest)
