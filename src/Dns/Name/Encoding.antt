-- ===== src/Dns/Name/Encoding.antt =====
-- The wire form of a name, that writing produces it, and that reading takes it back.
use netb.Prelude.{
  refl, ℕ, every, every-at, ◌==◌, true, zero, suc, ◌+◌, ◌≤◌, ◌<◌, ◌≡◌, List, [], ◌∷◌, ◌++◌,
  append_assoc, append-nil, length, length-append, true, some, sym, ap, ◌∙◌, arith, ne→==, le→ltb,
}
use netb.Memory.{Bytes}
use netb.StreamBuffer.{StreamBuffer, readable}
use netb.StreamBuffer.Valid.{IsValid, unread}
use netb.StreamBuffer.Read.{readable-eq}
use netb.StreamWriter.Encodes.{writer, integer8-Writes, string-Writes}
use netb.StreamReader.Decodes.{reader, integer8-Reads, string_n-Reads}
use netb.Wire.{
  Writes, Reads, Writes-bind, Writes-map, Reads-bind, Reads-value, Writes-value, Reads-done,
}
use netb.Dns.Name.{is_label, add16, pointer_offset, write_name, read_labels, read_name}

-- A label as a name on the wire can have it.
abbrev pub IsLabel : Bytes → Type 0
IsLabel s = (is_label s ≡ true) × (0 < length s) × (length s ≤ 63)

abbrev pub AllLabels : List Bytes → Type 0
AllLabels [] = Unit
AllLabels (s ∷ parts) = IsLabel s × AllLabels parts

-- Each label after its length, and the length 0 at the end.
abbrev pub wire_name : List Bytes → Bytes
wire_name [] = 0 ∷ []
wire_name (s ∷ parts) = (length s ∷ s) ++ wire_name parts

add16-add16 : (a b c : ℕ) → add16 (add16 a b) c ≡ add16 a (b + c)
add16-add16 a b c = omega arith

lengths :
    (s : Bytes) (parts : List Bytes) (a : ℕ)
    → add16 (add16 a (1 + length s)) (length (wire_name parts))
      ≡ add16 a (length (wire_name (s ∷ parts)))
lengths s parts a =
    add16-add16 a (1 + length s) (length (wire_name parts))
    ∙ ap (λ n. add16 a n) (omega (arith, length-append s (wire_name parts)))

-- An attached writer writes the wire form, and adds its length to `*wlen`.
pub write_name-Writes :
    (parts : List Bytes) (wlen : ℕ)
    → AllLabels parts
    → Writes
        (write_name writer parts wlen)
        (true, add16 wlen (length (wire_name parts)))
        (wire_name parts)
unfolding write_name
write_name-Writes [] wlen h = Writes-map _ (integer8-Writes 0 (omega arith))
write_name-Writes (s ∷ parts) wlen h = rw h.0.0 (
    Writes-bind _ true (length s ∷ []) (s ++ wire_name parts)
      (integer8-Writes (length s) (omega arith))
      (Writes-bind _ true s (wire_name parts) (string-Writes s) (
        Writes-value (ap (λ n. (true, n)) (lengths s parts wlen))
          (write_name-Writes parts (add16 wlen (1 + length s)) h.1))))

length-wire_name : (parts : List Bytes) → length parts < length (wire_name parts)
length-wire_name [] = omega arith
length-wire_name (s ∷ parts) =
    omega (arith, length-wire_name parts, length-append s (wire_name parts))

read_labels-Reads :
    (fuel : ℕ) (parts old : List Bytes) (rlen : ℕ)
    → length parts < fuel
    → AllLabels parts
    → Reads
        (read_labels fuel reader old rlen)
        (true, old ++ parts, add16 rlen (length (wire_name parts)))
        (wire_name parts)
unfolding read_labels
read_labels-Reads zero parts old rlen h all = absurd (omega arith)
read_labels-Reads (suc fuel) [] old rlen h all =
    Reads-value (ap (λ ps. (true, ps, add16 rlen 1)) (sym (append-nil old)))
      (Reads-bind _ (some 0) (0 ∷ []) [] (integer8-Reads 0) (Reads-done _))
read_labels-Reads (suc fuel) (s ∷ parts) old rlen h all =
    Reads-bind _ (some (length s)) (length s ∷ []) (s ++ wire_name parts)
      (integer8-Reads (length s))
      (rw (ne→== (length s) 0 (omega arith), le→ltb 63 (length s) (omega arith))
        (Reads-bind _ (true, s) s (wire_name parts) (string_n-Reads [] s)
          (Reads-value (λ i. (true, append_assoc old (s ∷ []) parts i, read_lengths i))
            (read_labels-Reads fuel parts (old ++ s ∷ []) (add16 (add16 rlen 1) (length s))
              (omega arith) all.1))))
  where
    read_lengths :
        add16 (add16 (add16 rlen 1) (length s)) (length (wire_name parts))
        ≡ add16 rlen (length (wire_name (s ∷ parts)))
    read_lengths =
        ap (λ n. add16 n (length (wire_name parts))) (add16-add16 rlen 1 (length s))
        ∙ lengths s parts rlen

-- An attached reader takes the wire form back, and adds its length to `*rlen`.
pub read_name-Reads :
    (parts old : List Bytes) (rlen : ℕ)
    → AllLabels parts
    → Reads
        (read_name reader old rlen)
        (true, old ++ parts, add16 rlen (length (wire_name parts)))
        (wire_name parts)
unfolding read_name
read_name-Reads parts old rlen all = record {
  run = λ b rest v e.
      (read_labels-Reads (suc (readable b)) parts old rlen (enough b rest v e) all).run b rest v e;
}
  where
    enough :
        (b : StreamBuffer) (rest : Bytes)
        → IsValid b
        → unread b ≡ wire_name parts ++ rest
        → length parts < suc (readable b)
    enough b rest v e = omega (
      arith,
      readable-eq v,
      ap (λ (t : Bytes). length t) e,
      length-append (wire_name parts) rest,
      length-wire_name parts,
    )

low_table : every (λ len. pointer_offset len 0 == 0) 256 ≡ true
unfolding every pointer_offset
low_table = refl

-- The offset to which a compression pointer leads is its second byte alone, whatever its first
-- byte (below 256) is: the six high bits of the offset are lost.
pub pointer_offset-low : (len off : ℕ) → len < 256 → pointer_offset len off ≡ off
unfolding pointer_offset
pointer_offset-low len off lt =
    ground (arith, every-at (λ len. pointer_offset len 0 == 0) 256 len lt low_table)
