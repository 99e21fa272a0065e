-- ===== src/Http/Response/StatusLine.antt =====
-- Status lines that are printed and parsed, and the one that cannot be printed.
use netb.Prelude.{
  ℕ, ◌^◌, ◌<◌, ◌≡◌, [], ◌∷◌, ◌++◌, true, none, some, ok, ◌▹◌, fault, undefined, refl, ◌∙◌,
}
use netb.Memory.{Bytes}
use netb.Http.Response.{
  HttpResponse, get_phrase, show_int, parse_status, parse_start_line, start_line, lookup_phrase,
  default_phrases,
}
use netb.Http.Response.Printing.{NoBlank, NoBlank-show_int, split_blank-append, atoi-show_int}

parse_status_lem :
    (c : ℕ) (p : Bytes) (r : HttpResponse)
    → c < 2 ^ 32
    → parse_status (show_int c ++ b' ' ∷ p) r ≡ ok (record r { code = c; phrase = p })
unfolding parse_status
parse_status_lem c p r h =
    rw (parse_status, split_blank-append (show_int c) p (NoBlank-show_int c), atoi-show_int c h)
      refl

parse_line :
    (v s : Bytes) (r : HttpResponse)
    → NoBlank v
    → parse_start_line (v ++ b' ' ∷ s) r
      ≡ (parse_status s (record r { version = v }) ▹ λ r'. ok (true, r'))
unfolding parse_start_line
parse_line [] s r h = refl
parse_line (c ∷ v) s r h = rw (parse_start_line, split_blank-append (c ∷ v) s h) refl

-- The start line of a response whose version has no blank, whose code is any `int`, and whose
-- phrase, its own or the default one of its code, is known, is printed without a fault and parsed
-- into the same version, code and phrase, whatever the parsing object held; the phrase may have
-- blanks.
pub parse_start_line-start_line :
    (r old : HttpResponse) (p : Bytes)
    → NoBlank r.version
    → r.code < 2 ^ 32
    → get_phrase r ≡ some p
    → (line : Bytes) × (start_line r ≡ ok line)
      × (parse_start_line line old ≡ ok (true, record r { phrase = p }))
unfolding start_line
parse_start_line-start_line r old p nb h e = (
  r.version ++ (b' ' ∷ (show_int r.code ++ (b' ' ∷ p))),
  rw (e, start_line) refl,
  parse_line r.version (show_int r.code ++ (b' ' ∷ p)) old nb
      ∙ rw (parse_status_lem r.code p (record old { version = r.version }) h) refl,
)

pub start_line-unknown :
    (r : HttpResponse)
    → r.phrase ≡ []
    → lookup_phrase r.code default_phrases ≡ none
    → start_line r ≡ fault undefined
unfolding start_line get_phrase
start_line-unknown r e u = rw (start_line, get_phrase, e, u) refl
