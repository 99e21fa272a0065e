-- ===== src/Http/Number.antt =====
-- The numbers and words that `std::istringstream` takes from a text.
use netb.Prelude.{
  ℕ, ◌+◌, ◌-◌, ◌*◌, ◌%◌, ◌^◌, [], ◌∷◌, Bool, true, false, ◌&&◌, ◌||◌, Option, none, some, leb, ltb,
  ◌==◌, if◌then◌else◌,
}
use netb.Memory.{Bytes}

-- Blank in the "C" locale.
unfoldable pub is_space : ℕ → Bool
is_space c = c == b' ' || (leb 9 c && leb c 13)

unfoldable pub skip_spaces : Bytes → Bytes
skip_spaces [] = []
skip_spaces (c ∷ s) = let rest = skip_spaces s in if is_space c then rest else c ∷ s

-- The bytes before the first blank, and those from there on.
unfoldable pub break_word : Bytes → Bytes × Bytes
break_word [] = ([], [])
break_word (c ∷ s) =
    let (w, rest) = break_word s in if is_space c then ([], c ∷ s) else (c ∷ w, rest)

-- `iss >> word`: `none` where nothing but blanks is left, which leaves the variable as it is
unfoldable pub next_word : Bytes → Option (Bytes × Bytes)
unfolding skip_spaces break_word is_space
next_word s = elim (skip_spaces s) [ [] ↦ none | c ∷ rest ↦ some (break_word (c ∷ rest)) ]

-- The decimal number at the front of a text, and whether there is a digit.
unfoldable pub decimal : ℕ → Bool → Bytes → ℕ × Bool
decimal n seen [] = (n, seen)
decimal n seen (c ∷ s) =
    let longer = decimal (n * 10 + (c - 48)) true s in
    if leb b'0' c && leb c b'9' then longer else (n, seen)

-- A `long` with its sign, held within its range, as a `size_t`.
abbrev pub as_size : Bool → ℕ → ℕ
as_size negative n =
    if negative
    then (2 ^ 64 - (if ltb (2 ^ 63) n then 2 ^ 63 else n)) % 2 ^ 64
    else if ltb (2 ^ 63 - 1) n
    then 2 ^ 63 - 1
    else n

abbrev pub signed_size : Bool → Bytes → ℕ
signed_size negative s = let (n, seen) = decimal 0 false s in if seen then as_size negative n else 0

-- `long v = 0; iss >> v;` and the conversion to `size_t`
unfoldable pub parse_size : Bytes → ℕ
unfolding skip_spaces is_space decimal
parse_size s = elim (skip_spaces s) [
  | [] ↦ 0
  | c ∷ rest ↦
      if c == b'-'
      then signed_size true rest
      else if c == b'+'
      then signed_size false rest
      else signed_size false (c ∷ rest)
]
