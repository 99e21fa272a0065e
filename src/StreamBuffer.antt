-- ===== src/StreamBuffer.antt =====
-- netb/StreamBuffer.hpp and netb/StreamBuffer.cpp: a byte buffer with sequential writing and
-- reading and random peeking and updating. Positions are offsets into the vector of bytes.
-- An action takes the buffer and returns its result beside the buffer that it leaves.
pub mod Valid
pub mod Read
pub mod Reclaim
pub mod Copy
pub mod Flush
pub mod Search
pub mod Write
pub mod Unflushed
pub mod Sequential
pub mod External
use netb.Prelude.{
  ℕ, suc, [], ◌∷◌, length, Bool, true, false, ◌&&◌, ◌||◌, Option, none, some, add_size, sub_size,
  Outcome, ok, fault, undefined, aborted, ◌▹◌, ltb, leb, ◌==◌, if◌then◌else◌,
}
use netb.Memory.{Bytes, load, store, resize, rotate}

pub record StreamBuffer : Type 0 where
  pub bytes : Bytes
  pub limit : ℕ
  pub opos : ℕ
  pub rpos : ℕ
  pub wpos : ℕ

abbrev pub M : Type 0 → Type 0
M A = StreamBuffer → Outcome (A × StreamBuffer)

abbrev pub pure : {A : Type 0} → A → M A
pure a b = ok (a, b)

infixl 5 ◌>>=◌
abbrev pub ◌>>=◌ : {A B : Type 0} → M A → (A → M B) → M B
◌>>=◌ m f b = elim (m b) [ ok (a, b') ↦ f a b' | fault e ↦ fault e ]

-- `a && b`, and `if(!a) return false;` before `b`
infixr 34 ◌&&>◌
abbrev pub ◌&&>◌ : M Bool → M Bool → M Bool
m &&> k = m >>= λ r. elim r [ true ↦ k | false ↦ pure false ]

-- StreamBuffer(init, limit)
pub create : ℕ → ℕ → Outcome StreamBuffer
create init limit = resize [] init ▹ λ bs.
    if leb init limit
    then ok (record { bytes = bs; limit = limit; opos = 0; rpos = 0; wpos = 0 })
    else fault aborted

-- StreamBuffer(p, n, init, limit), where `p` is the `n` bytes
pub create_with : Bytes → ℕ → ℕ → Outcome StreamBuffer
create_with p init limit = resize [] init ▹ λ bs.
    if leb (length p) init && leb init limit
    then (store bs 0 p ▹ λ bs'.
        ok (record { bytes = bs'; limit = limit; opos = 0; rpos = 0; wpos = length p }))
    else fault aborted

-- Size()
pub size : StreamBuffer → ℕ
size b = sub_size (length b.bytes) b.opos

-- Empty()
unfoldable pub is_empty : StreamBuffer → Bool
is_empty b = b.opos == b.wpos

-- Both copy constructors.
pub copy : StreamBuffer → Outcome StreamBuffer
unfolding size
copy b = resize [] (size b) ▹ λ bs. load b.bytes b.opos (sub_size b.wpos b.opos) ▹ λ data'.
    store bs 0 data' ▹ λ bs'.
    ok (record { bytes = bs'; limit = b.limit; opos = 0; rpos = 0; wpos = sub_size b.wpos b.opos })

-- a = b, for two distinct buffers; the source address is that of b's bytes plus a's `_opos`
pub assign : StreamBuffer → StreamBuffer → Outcome StreamBuffer
unfolding size
assign a b = resize a.bytes (size b) ▹ λ bs. load b.bytes a.opos (sub_size b.wpos b.opos) ▹ λ data'.
    store bs 0 data' ▹ λ bs'. ok (record {
      bytes = bs';
      limit = b.limit;
      opos = 0;
      rpos = sub_size b.rpos b.opos;
      wpos = sub_size b.wpos b.opos;
    })

-- Both overloads of a.Swap(b): the two buffers afterwards.
pub swap : StreamBuffer → StreamBuffer → StreamBuffer × StreamBuffer
swap a b = (
  record { bytes = b.bytes; limit = b.limit; opos = b.opos; rpos = b.rpos; wpos = b.wpos },
  record { bytes = a.bytes; limit = a.limit; opos = a.opos; rpos = a.rpos; wpos = a.wpos },
)

-- Clear()
unfoldable pub clear : StreamBuffer → StreamBuffer
clear b = record b { opos = 0; rpos = 0; wpos = 0 }

-- `if(_opos == _wpos) _wpos = _rpos = _opos = 0;`
abbrev pub rewind_if_empty : StreamBuffer → StreamBuffer
rewind_if_empty b = if b.opos == b.wpos then record b { opos = 0; rpos = 0; wpos = 0 } else b

-- Flush(n): `none` is the result -1
pub flush_n : ℕ → StreamBuffer → Option ℕ × StreamBuffer
flush_n n b =
    if ltb (sub_size b.wpos b.opos) n
    then (none, b)
    else let b' = rewind_if_empty (record b { opos = add_size b.opos n }) in
      (some (sub_size b'.wpos b'.opos), b')

-- Flush()
unfoldable pub flush : StreamBuffer → ℕ × StreamBuffer
flush b = let b' = rewind_if_empty (record b { opos = b.rpos }) in (sub_size b'.wpos b'.opos, b')

-- Reclaim(): the third argument of `std::rotate` is `begin + _wpos - _opos`
pub reclaim : StreamBuffer → Outcome StreamBuffer
reclaim b = rotate b.bytes b.opos (sub_size b.wpos b.opos) ▹ λ bs. ok (record b {
  bytes = bs;
  opos = 0;
  rpos = sub_size b.rpos b.opos;
  wpos = sub_size b.wpos b.opos;
})

-- Writable()
unfoldable pub writable_size : StreamBuffer → ℕ
writable_size b = sub_size (length b.bytes) b.wpos

-- The end of Writable(n): `_bytes.resize(_wpos + n); return _bytes.size() - _wpos >= n;`
abbrev pub grow : ℕ → M Bool
grow n b = resize b.bytes (add_size b.wpos n) ▹ λ bs.
    ok (leb n (sub_size (length bs) b.wpos), record b { bytes = bs })

-- Writable(n)
unfoldable pub writable : ℕ → M Bool
unfolding writable_size reclaim
writable n b =
    if n == 0 || leb n (writable_size b)
    then ok (true, b)
    else if ltb 0 b.limit
    then if ltb b.limit (add_size (sub_size b.wpos b.opos) n)
      then ok (false, b)
      else if ltb b.limit (add_size b.wpos n)
      then (reclaim b ▹ grow n)
      else grow n b
    else grow n b

-- Write(n, offset): `none` is the result false, else the offset
unfoldable pub advance_write : ℕ → StreamBuffer → Option ℕ × StreamBuffer
advance_write n b =
    if ltb (length b.bytes) (add_size b.wpos n)
    then (none, b)
    else (some b.wpos, record b { wpos = add_size b.wpos n })

-- Write(p, n, offset), where `p` is the `n` bytes
unfoldable pub write : Bytes → M (Option ℕ)
unfolding writable advance_write
write p b = writable (length p) b ▹ λ (r, b').
    if r
    then (store b'.bytes b'.wpos p ▹ λ bs. ok (advance_write (length p) (record b' { bytes = bs })))
    else ok (none, b')

-- Write(p, n, delim, offset) with a delimiting char or string, as bytes; the offset is the first
-- write's, and it is set also where only the second write fails
pub write_delim : Bytes → Bytes → M (Bool × Option ℕ)
unfolding write
write_delim p delim b = write p b ▹ λ (offset, b'). elim offset [
  | none ↦ ok ((false, none), b')
  | some o ↦ write delim b' ▹ λ (second, b'').
      ok ((elim second [ none ↦ false | some _ ↦ true ], some o), b'')
]

-- Readable()
unfoldable pub readable : StreamBuffer → ℕ
readable b = sub_size b.wpos b.rpos

-- The bytes that Read() const and Write() const delimit: from `_rpos` up to `_wpos`.
abbrev pub pending : StreamBuffer → Outcome Bytes
pending b = load b.bytes b.rpos (sub_size b.wpos b.rpos)

-- `c` is one of the bytes of `set`.
unfoldable pub is_one_of : Bytes → ℕ → Bool
is_one_of [] c = false
is_one_of (d ∷ set) c = c == d || is_one_of set c

-- std::find and std::find_first_of, as the distance from the first byte; `none` is the end
unfoldable pub find : (ℕ → Bool) → Bytes → Option ℕ
find p [] = none
find p (x ∷ xs) =
    let rest = find p xs in
    if p x then some 0 else elim rest [ none ↦ none | some i ↦ some (suc i) ]

-- Readable(delim) with a char: `none` is the result -1
pub readable_char : ℕ → StreamBuffer → Outcome (Option ℕ)
unfolding readable find
readable_char delim b =
    if ltb (readable b) 1 then ok none else (pending b ▹ λ bs. ok (find (λ c. c == delim) bs))

-- Readable(delim) with a string
pub readable_string : Bytes → StreamBuffer → Outcome (Option ℕ)
unfolding readable find is_one_of
readable_string delim b =
    if ltb (readable b) (length delim)
    then ok none
    else (pending b ▹ λ bs. ok (find (is_one_of delim) bs))

-- Read(n, offset): `none` is the result false, else the offset
unfoldable pub advance_read : ℕ → StreamBuffer → Option ℕ × StreamBuffer
advance_read n b =
    if ltb b.wpos (add_size b.rpos n)
    then (none, b)
    else (some b.rpos, record b { rpos = add_size b.rpos n })

-- Read(p, n, offset): `none` is the result false, which leaves `p` as it is; else the bytes copied
-- to `p`. The result of the inner Read(n, offset) is the outer one.
pub read : ℕ → M (Option Bytes)
unfolding readable advance_read
read n b =
    if ltb (readable b) n
    then ok (none, b)
    else (load b.bytes b.rpos n ▹ λ p.
        let (r, b') = advance_read n b in ok (elim r [ none ↦ none | some _ ↦ some p ], b'))

-- Peekable(offset): the `false` that it returns out of range is 0
unfoldable pub peekable : ℕ → StreamBuffer → ℕ
peekable offset b =
    if ltb (sub_size b.wpos b.opos) offset then 0 else sub_size (sub_size b.wpos b.opos) offset

-- Peekable(offset, delim) with a char or string: it makes a pointer of the length that
-- Peekable(offset) returns, and searches from there.
pub peekable_delim : ℕ → Bytes → StreamBuffer → Outcome (Option ℕ)
unfolding peekable
peekable_delim offset delim b =
    if ltb (peekable offset b) (length delim) then ok none else fault undefined

-- Peek(offset): `none` is the null pointer, else the index of the byte
unfoldable pub peek_at : ℕ → StreamBuffer → Option ℕ
peek_at offset b =
    if ltb (sub_size b.wpos b.opos) offset then none else some (add_size b.opos offset)

-- Peek(offset, p, n): `none` is the result false, which leaves `p` as it is
pub peek : ℕ → ℕ → StreamBuffer → Outcome (Option Bytes)
unfolding peekable peek_at
peek offset n b = if ltb (peekable offset b) n then ok none else elim (peek_at offset b) [
  | none ↦ if n == 0 then ok (some []) else fault undefined
  | some i ↦ load b.bytes i n ▹ λ p. ok (some p)
]

-- Update(offset, p, n), where `p` is the `n` bytes
pub update : ℕ → Bytes → M Bool
unfolding peekable peek_at
update offset p b =
    if ltb (peekable offset b) (length p) then ok (false, b) else elim (peek_at offset b) [
      | none ↦ if length p == 0 then ok (true, b) else fault undefined
      | some i ↦ store b.bytes i p ▹ λ bs. ok (true, record b { bytes = bs })
    ]
