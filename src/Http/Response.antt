-- ===== src/Http/Response.antt =====
-- The status line of `HttpResponse` of netb/HttpMessage.hpp and netb/HttpMessage.cpp. The headers and
-- the body are those of any message. A code is an `int`, as a number modulo 2^32.
pub mod Printing
pub mod StatusLine
use Prim.Native.Char.{code}
use Prim.Native.String.{String}
use netb.Prelude.{
  ℕ, zero, suc, ◌+◌, ◌-◌, ◌/◌, ◌%◌, ◌^◌, List, [], ◌∷◌, ◌++◌, Bool, true, false, Option, none, some,
  Outcome, ok, fault, undefined, ◌▹◌, ltb, ◌==◌, if◌then◌else◌,
}
use netb.Memory.{Bytes}
use netb.Http.Number.{skip_spaces, decimal}
use netb.Http.Request.{http_1_1}

-- `_version`, `_code` and `_phrase`
pub record HttpResponse : Type 0 where
  pub version : Bytes
  pub code : ℕ
  pub phrase : Bytes

-- The bytes of a text in ASCII.
abbrev pub codes : String → Bytes
codes String.[] = []
codes (String.◌∷◌ c s) = code c ∷ codes s

-- `s_default_phrases`, without its null entry at 0
abbrev pub default_phrases : List (ℕ × Bytes)
default_phrases =
    (100, codes "Continue")
    ∷ (200, codes "OK")
    ∷ (201, codes "Created")
    ∷ (250, codes "Low on Storage Space")
    ∷ (300, codes "Multiple Choices")
    ∷ (301, codes "Moved Permanently")
    ∷ (302, codes "Moved Temporarily")
    ∷ (303, codes "See Other")
    ∷ (304, codes "Not Modified")
    ∷ (305, codes "Use Proxy")
    ∷ (400, codes "Bad Request")
    ∷ (401, codes "Unauthorized")
    ∷ (402, codes "Payment Required")
    ∷ (403, codes "Forbidden")
    ∷ (404, codes "Not Found")
    ∷ (405, codes "Method Not Allowed")
    ∷ (406, codes "Not Acceptable")
    ∷ (407, codes "Proxy Authentication Required")
    ∷ (408, codes "Request Time-out")
    ∷ (410, codes "Gone")
    ∷ (411, codes "Length Required")
    ∷ (412, codes "Precondition Failed")
    ∷ (413, codes "Request Entity Too Large")
    ∷ (414, codes "Request-URI Too Large")
    ∷ (415, codes "Unsupported Media Type")
    ∷ (451, codes "Parameter Not Understood")
    ∷ (452, codes "Conference Not Found")
    ∷ (453, codes "Not Enough Bandwidth")
    ∷ (454, codes "Session Not Found")
    ∷ (455, codes "Method Not Valid in This State")
    ∷ (456, codes "Header Field Not Valid for Resource")
    ∷ (457, codes "Invalid Range")
    ∷ (458, codes "Parameter Is Read-Only")
    ∷ (459, codes "Aggregate operation not allowed")
    ∷ (460, codes "Only aggregate operation allowed")
    ∷ (461, codes "Unsupported transport")
    ∷ (462, codes "Destination unreachable")
    ∷ (500, codes "Internal Server Error")
    ∷ (501, codes "Not Implemented")
    ∷ (502, codes "Bad Gateway")
    ∷ (503, codes "Service Unavailable")
    ∷ (504, codes "Gateway Time-out")
    ∷ (505, codes "Rtsp Version not supported")
    ∷ (551, codes "Option not supported")
    ∷ []

-- `s_default_phrases[code]`, where a missing code makes a null pointer
unfoldable pub lookup_phrase : ℕ → List (ℕ × Bytes) → Option Bytes
lookup_phrase c [] = none
lookup_phrase c ((k, p) ∷ rest) = if c == k then some p else lookup_phrase c rest

-- HttpResponse(version)
abbrev pub response : Bytes → HttpResponse
response v = record { version = v; code = 200; phrase = [] }

-- What Reset() does to these fields
unfoldable pub reset : HttpResponse → HttpResponse
reset r = record { version = http_1_1; code = 200; phrase = codes "OK" }

-- SetStatus(code, phrase)
unfoldable pub set_status : ℕ → Bytes → HttpResponse → HttpResponse
set_status c p r = record r { code = c; phrase = p }

-- GetPhrase(): `none` is the null pointer
unfoldable pub get_phrase : HttpResponse → Option Bytes
unfolding lookup_phrase
get_phrase r = elim r.phrase [ [] ↦ lookup_phrase r.code default_phrases | c ∷ s ↦ some (c ∷ s) ]

-- The decimal digits of a number; `fuel` is above the number.
unfoldable pub digits : ℕ → ℕ → Bytes
digits zero n = []
digits (suc fuel) n =
    let front = digits fuel (n / 10) in
    if ltb n 10 then (48 + n) ∷ [] else front ++ (48 + n % 10) ∷ []

-- `oss << _code`
unfoldable pub show_int : ℕ → Bytes
unfolding digits
show_int c =
    if ltb c (2 ^ 31) then digits (suc c) c else b'-' ∷ digits (suc (2 ^ 32 - c)) (2 ^ 32 - c)

-- ::atoi, which is undefined for a number that is no `int`
abbrev pub as_int : Bool → ℕ → Outcome ℕ
as_int negative n =
    if negative
    then if ltb (2 ^ 31) n then fault undefined else ok ((2 ^ 32 - n) % 2 ^ 32)
    else if ltb n (2 ^ 31)
    then ok n
    else fault undefined

unfoldable pub atoi : Bytes → Outcome ℕ
unfolding skip_spaces decimal
atoi s = elim (skip_spaces s) [
  | [] ↦ ok 0
  | c ∷ rest ↦
      if c == b'-'
      then as_int true (decimal 0 false rest).0
      else if c == b'+'
      then as_int false (decimal 0 false rest).0
      else as_int false (decimal 0 false (c ∷ rest)).0
]

-- The parts before and after the first blank: `find_first_of(" ")` and the two `substr`
unfoldable pub split_blank : Bytes → Option (Bytes × Bytes)
split_blank [] = none
split_blank (c ∷ s) =
    let rest = split_blank s in
    if c == b' ' then some ([], s) else elim rest [ none ↦ none | some (a, b) ↦ some (c ∷ a, b) ]

-- The rest of StartLine(line) behind the version
unfoldable pub parse_status : Bytes → HttpResponse → Outcome HttpResponse
unfolding split_blank atoi
parse_status s r = elim (split_blank s) [
  | none ↦ ok r
  | some (digits, p) ↦ atoi digits ▹ λ c. ok (record r { code = c; phrase = p })
]

-- StartLine(line)
unfoldable pub parse_start_line : Bytes → HttpResponse → Outcome (Bool × HttpResponse)
unfolding split_blank parse_status
parse_start_line [] r = ok (false, r)
parse_start_line (c ∷ s) r = elim (split_blank (c ∷ s)) [
  | none ↦ ok (true, r)
  | some (v, rest) ↦ parse_status rest (record r { version = v }) ▹ λ r'. ok (true, r')
]

-- StartLine() const: the phrase of a code without one is a string of a null pointer
unfoldable pub start_line : HttpResponse → Outcome Bytes
unfolding get_phrase show_int
start_line r = elim (get_phrase r) [
  | none ↦ fault undefined
  | some p ↦ ok (r.version ++ (b' ' ∷ (show_int r.code ++ (b' ' ∷ p))))
]
