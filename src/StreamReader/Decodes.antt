-- ===== src/StreamReader/Decodes.antt =====
-- What an attached reader that does not flush takes from the front of the unread bytes.
use netb.Prelude.{
  Option, ℕ, ◌^◌, ◌<◌, ◌≡◌, [], ◌∷◌, ◌++◌, true, false, arith, none, some, ap, refl, length, ◌∙◌,
  ok, length-append, ◌≤◌, take, take-append, lt→ltb, le→ltb,
}
use mathlib.Core.Path.{subst}
use netb.Memory.{Bytes}
use netb.Host.{Endian, value16, value32, htons, htonl, wire16, wire32, ntohs-value16, ntohl-value32}
use netb.StreamBuffer.{StreamBuffer}
use netb.StreamBuffer.Valid.{IsValid, unread, advanced}
use netb.StreamReader.{
  StreamReader, take_bytes, as_number, value8, integer8, integer16, integer32, string_n,
}
use netb.StreamBuffer.Read.{readable-eq, read_short, load_unread, advance_read_fits}
use netb.Wire.{Reads, Reads-pure, read-Reads, bind_ok}

-- A reader on a buffer.
abbrev pub reader : StreamReader
reader = record { attached = true; flushes = false }

take_bytes-Reads : (bs : Bytes) → Reads (take_bytes reader (length bs)) (some bs) bs
take_bytes-Reads bs = record { run = λ b rest v e. rw ((read-Reads bs).run b rest v e) refl }

number-Reads :
    (value : Bytes → ℕ) (bs : Bytes) {v : ℕ}
    → value bs ≡ v
    → Reads (as_number value (take_bytes reader (length bs))) (some v) bs
number-Reads value bs e =
    subst (λ t. Reads (as_number value (take_bytes reader (length bs))) (some t) bs) e
      (Reads-pure _ (take_bytes-Reads bs))

pub integer8-Reads : (v : ℕ) → Reads (integer8 reader) (some v) (v ∷ [])
unfolding integer8
integer8-Reads v = number-Reads value8 (v ∷ []) refl

pub integer16-Reads :
    (e : Endian) (v : ℕ) → v < 2 ^ 16 → Reads (integer16 e reader) (some v) (wire16 v)
unfolding integer16
integer16-Reads e v h = number-Reads (λ bs. htons e (value16 e bs)) (wire16 v) (ntohs-value16 e v h)

pub integer32-Reads :
    (e : Endian) (v : ℕ) → v < 2 ^ 32 → Reads (integer32 e reader) (some v) (wire32 v)
unfolding integer32
integer32-Reads e v h = number-Reads (λ bs. htonl e (value32 e bs)) (wire32 v) (ntohl-value32 e v h)

take_bytes_short :
    (n : ℕ) {b : StreamBuffer}
    → IsValid b
    → length (unread b) < n
    → take_bytes reader n b ≡ ok (none, b)
take_bytes_short n v h = rw (read_short v n h) refl

-- Where fewer than four bytes are unread, nothing is read.
pub integer32_short :
    (e : Endian) {b : StreamBuffer}
    → IsValid b
    → length (unread b) < 4
    → integer32 e reader b ≡ ok (none, b)
unfolding integer32
integer32_short e v h = bind_ok (take_bytes reader 4) _ (take_bytes_short 4 v h)

module _ {b : StreamBuffer} (v : IsValid b) (s : Bytes) where
  pub string_n_fits :
      (n : ℕ)
      → n ≤ length (unread b)
      → string_n reader s n b ≡ ok ((true, take n (unread b)), advanced n b)
  unfolding string_n
  string_n_fits n h =
      rw (readable-eq v, le→ltb (length (unread b)) n h, load_unread v n h, advance_read_fits v n h)
        (ap (λ (t : Option ℕ × StreamBuffer). ok ((true, take n (unread b)), t.1))
          (advance_read_fits v n h))

  pub string_n_short : (n : ℕ) → length (unread b) < n → string_n reader s n b ≡ ok ((false, s), b)
  unfolding string_n
  string_n_short n h = rw (readable-eq v, lt→ltb (length (unread b)) n h)

pub prefix_fits :
    (bs rest : Bytes) {u : Bytes}
    → u ≡ bs ++ rest
    → (length bs ≤ length u) × (take (length bs) u ≡ bs)
prefix_fits bs rest e = (
  omega (arith, ap (λ (t : Bytes). length t) e, length-append bs rest),
  ap (λ t. take (length bs) t) e ∙ take-append (length bs) bs rest refl,
)

pub string_n-Reads : (s bs : Bytes) → Reads (string_n reader s (length bs)) (true, bs) bs
string_n-Reads s bs = record {
  run = λ b rest v e.
      let p = prefix_fits bs rest e in
      string_n_fits v s (length bs) p.0 ∙ ap (λ t. ok ((true, t), advanced (length bs) b)) p.1;
}
