-- ===== src/Dns/Name.antt =====
-- `DomainName` of netb/DnsRecord.hpp and netb/DnsRecord.cpp: the labels of a name, and their text
-- and wire forms. A name that is read or parsed is added to the labels that the object has.
pub mod Encoding
use netb.Prelude.{
  ℕ, zero, suc, ◌+◌, ◌*◌, ◌-◌, ◌%◌, ◌^◌, bit_and, List, [], ◌∷◌, ◌++◌, map, length, Bool, true,
  false, not, ◌&&◌, none, some, Outcome, ok, fault, undefined, aborted, starved, ◌▹◌, leb, ltb,
  ◌==◌, if◌then◌else◌,
}
use netb.Memory.{Bytes}
use netb.StreamBuffer.{StreamBuffer, M, pure, ◌>>=◌, is_one_of, readable, peekable}
use netb.StreamReader
use netb.StreamReader.{StreamReader}
use netb.StreamWriter
use netb.StreamWriter.{StreamWriter, succeeds, last?}
use netb.RandomReader
use netb.RandomReader.{RandomReader}

pub record DomainName : Type 0 where
  pub parts : List Bytes

-- DomainName()
abbrev pub no_name : DomainName
no_name = record { parts = [] }

abbrev pub dot : ℕ
dot = b'.'

-- ::tolower in the "C" locale
unfoldable pub to_lower : ℕ → ℕ
to_lower c = if leb b'A' c && leb c b'Z' then c + 32 else c

-- DomainName::s_valid_chars: "0123456789abcdefghijklmnopqrstuvwxyz-_/."
unfoldable pub is_valid_char : ℕ → Bool
is_valid_char c =
    if leb b'0' c && leb c b'9'
    then true
    else if leb b'a' c && leb c b'z'
    then true
    else is_one_of (b'-' ∷ b'_' ∷ b'/' ∷ b'.' ∷ []) c

-- find_first_not_of(s_valid_chars) == npos
unfoldable pub all_valid : Bytes → Bool
all_valid [] = true
all_valid (c ∷ s) = is_valid_char c && all_valid s

-- The parts that end at a dot; `part` is what stands between the last dot and here.
unfoldable pub divide : Bytes → Bytes → List Bytes
divide part [] = []
divide part (c ∷ s) =
    let rest = divide [] s in
    let longer = divide (part ++ c ∷ []) s in if c == dot then part ∷ rest else longer

-- `if(name[name.length() - 1] != '.') name += '.'`
unfoldable pub with_dot : Bytes → ℕ → Bytes
with_dot name c = if c == dot then name else name ++ dot ∷ []

-- FromString(s): of an empty string the last character is looked at, which is undefined
unfoldable pub from_string : Bytes → DomainName → Outcome (Bool × DomainName)
from_string s n =
    if ltb 256 (length s)
    then ok (false, n)
    else let name = map to_lower s in
      if all_valid name
      then elim (last? name) [
        | none ↦ fault undefined
        | some c ↦ ok (true, record n { parts = n.parts ++ divide [] (with_dot name c) })
      ]
      else ok (false, n)

-- String()
unfoldable pub to_string : List Bytes → Bytes
to_string [] = []
to_string (s ∷ parts) = s ++ dot ∷ to_string parts

-- `!s.empty() && s != "."`
unfoldable pub is_label : Bytes → Bool
is_label [] = false
is_label (c ∷ []) = not (c == dot)
is_label (c ∷ d ∷ s) = true

-- `*wlen += n` of an `unsigned short`
abbrev pub add16 : ℕ → ℕ → ℕ
add16 a n = (a + n) % 2 ^ 16

-- Serialize(writer, wlen): the result and what `*wlen` then holds
unfoldable pub write_name : StreamWriter → List Bytes → ℕ → M (Bool × ℕ)
write_name w [] wlen = succeeds (StreamWriter.integer8 w 0) >>= λ done.
    pure (if done then (true, add16 wlen 1) else (false, wlen))
write_name w (s ∷ parts) wlen =
    let rest = write_name w parts (add16 wlen (1 + length s)) in
    let others = write_name w parts wlen in
    if is_label s
    then (succeeds (StreamWriter.integer8 w (length s)) >>= λ first.
        if first
        then (succeeds (StreamWriter.string w s) >>= λ second.
            if second then rest else pure (false, wlen))
        else pure (false, wlen))
    else others

-- The second loop of Serialize(reader, rlen), over the labels that a pointer leads to.
unfoldable pub read_pointed : ℕ → ℕ → List Bytes → StreamBuffer → Outcome (Bool × List Bytes)
read_pointed zero offset parts b = fault starved
read_pointed (suc fuel) offset parts b =
    RandomReader.unsigned8 (record { attached = true; start = 0 }) offset b ▹ λ len. elim len [
      | none ↦ ok (false, parts)
      | some n ↦ elim (n == 0) [
        | true ↦ ok (true, parts)
        | false ↦ elim (ltb 63 n) [
          | true ↦ fault aborted
          | false ↦
              RandomReader.string_n (record { attached = true; start = 0 }) (offset + 1) [] n b
              ▹ λ (done, s). elim done [
                | true ↦ read_pointed fuel (offset + 1 + n) (parts ++ s ∷ []) b
                | false ↦ ok (false, parts)
              ]
        ]
      ]
    ]

-- (len & 63 << 8) + off: the shift binds first
unfoldable pub pointer_offset : ℕ → ℕ → ℕ
pointer_offset len off = bit_and len (63 * 2 ^ 8) + off

-- What Serialize(reader, rlen) does after a length byte over 63.
unfoldable pub read_pointer : StreamReader → ℕ → List Bytes → ℕ → M (Bool × List Bytes × ℕ)
read_pointer r len parts rlen = StreamReader.integer8 r >>= λ off. elim off [
  | none ↦ pure (false, parts, rlen)
  | some o ↦ λ b.
      read_pointed (suc (peekable 0 b)) (pointer_offset len o) parts b ▹ λ (done, parts').
      ok ((done, parts', add16 rlen 1), b)
]

-- Serialize(reader, rlen): the result, the labels and what `*rlen` then holds
unfoldable pub read_labels : ℕ → StreamReader → List Bytes → ℕ → M (Bool × List Bytes × ℕ)
read_labels zero r parts rlen = λ b. fault starved
read_labels (suc fuel) r parts rlen = StreamReader.integer8 r >>= λ len. elim len [
  | none ↦ pure (false, parts, rlen)
  | some n ↦ elim (n == 0) [
    | true ↦ pure (true, parts, add16 rlen 1)
    | false ↦ elim (ltb 63 n) [
      | true ↦ read_pointer r n parts (add16 rlen 1)
      | false ↦ StreamReader.string_n r [] n >>= λ res. elim res.0 [
        | true ↦ read_labels fuel r (parts ++ res.1 ∷ []) (add16 (add16 rlen 1) n)
        | false ↦ pure (false, parts, add16 rlen 1)
      ]
    ]
  ]
]

unfoldable pub read_name : StreamReader → List Bytes → ℕ → M (Bool × List Bytes × ℕ)
read_name r parts rlen b = read_labels (suc (readable b)) r parts rlen b
