-- ===== src/Memory.antt =====
-- A `std::vector<char>` as the list of its bytes, and what the buffer does with it: `memcpy` out of
-- it and into it, `resize` and `std::rotate`. A range that passes the end is undefined behaviour.
use netb.Prelude.{
  ℕ, ◌+◌, ◌-◌, List, ◌++◌, length, take, drop, replicate, overwrite, slice, max_size, Outcome, ok,
  fault, undefined, thrown, leb, ltb, ◌&&◌, if◌then◌else◌,
}

abbrev pub Bytes : Type 0
Bytes = List ℕ

-- memcpy(p, begin + i, n)
unfoldable pub load : Bytes → ℕ → ℕ → Outcome Bytes
load bs i n = if leb (i + n) (length bs) then ok (slice bs i n) else fault undefined

-- memcpy(begin + i, src, length src)
unfoldable pub store : Bytes → ℕ → Bytes → Outcome Bytes
store bs i src =
    if leb (i + length src) (length bs) then ok (overwrite bs i src) else fault undefined

-- The bytes of a vector after `resize(n)`: cut, or filled up with zeros.
abbrev pub resized : Bytes → ℕ → Bytes
resized bs n = take n bs ++ replicate (n - length bs) 0

-- bytes.resize(n), and the constructor bytes(n) on no bytes: `std::length_error` over `max_size`
unfoldable pub resize : Bytes → ℕ → Outcome Bytes
resize bs n = if ltb max_size n then fault thrown else ok (resized bs n)

-- The bytes after std::rotate(begin, begin + middle, begin + last).
abbrev pub rotated : Bytes → ℕ → ℕ → Bytes
rotated bs middle last = slice bs middle (last - middle) ++ (take middle bs ++ drop last bs)

-- std::rotate wants begin ≤ middle ≤ last ≤ end.
unfoldable pub rotate : Bytes → ℕ → ℕ → Outcome Bytes
rotate bs middle last =
    if leb middle last && leb last (length bs) then ok (rotated bs middle last) else fault undefined
