-- ===== src/StreamBuffer/External.antt =====
-- Writing from outside: `Writable(n)` makes space, a call fills memory from `Write()` on, and
-- `Write(n)` counts what was filled in.
use netb.Prelude.{
  ℕ, ◌-◌, ◌≤◌, ◌≡◌, ◌++◌, length, drop, arith, Outcome, ok, ◌▹◌, ap, ◌∙◌, add_size-eq, sub_size-eq,
  length-overwrite,
}
use netb.Memory.{Bytes, store}
use netb.StreamBuffer.{StreamBuffer, writable_size, advance_write}
use netb.StreamBuffer.Valid.{
  IsValid, HasRoom, contents, unread, spaced, appended, length-spaced, spaced_fits, take-spaced,
  appended-IsValid, contents-appended, unread-appended,
}

-- The bytes `p` put at Write(), and Write(n) for their number
unfoldable pub fill : Bytes → StreamBuffer → Outcome StreamBuffer
unfolding advance_write
fill p b = store b.bytes b.wpos p ▹ λ bs. ok (advance_write (length p) (record b { bytes = bs })).1

-- The buffer with space for `n` more bytes.
abbrev pub with_space : ℕ → StreamBuffer → StreamBuffer
with_space n b = record b { bytes = spaced n b }

-- What filling in `p` leaves.
pub record IsFilled (p : Bytes) (b b' : StreamBuffer) : Type 0 where
  pub contents_eq : contents b' ≡ contents b ++ p
  pub unread_eq : unread b' ≡ unread b ++ p
  pub valid : IsValid b'

spaced_enough : (n : ℕ) (b : StreamBuffer) → n ≤ length b.bytes - b.wpos → spaced n b ≡ b.bytes
unfolding spaced
spaced_enough n b le = ground arith

fill-appended :
    (p : Bytes) {b : StreamBuffer}
    → HasRoom (length p) b
    → length p ≤ length b.bytes - b.wpos
    → fill p b ≡ ok (appended p b)
unfolding fill store appended
fill-appended p {b} h fits = ground (
  arith,
  h.valid,
  h.room,
  spaced_enough (length p) b,
  add_size-eq b.wpos (length p),
  length-overwrite b.bytes b.wpos p,
)

module _ {n : ℕ} {b : StreamBuffer} (h : HasRoom n b) where
  pub writable_size-space : writable_size (with_space n b) ≡ length (spaced n b) - b.wpos
  unfolding writable_size
  writable_size-space =
      sub_size-eq (length (spaced n b)) b.wpos (ground (arith, length-spaced h)) (spaced_fits h).0

  space-HasRoom :
      (p : Bytes) → length p ≤ length (spaced n b) - b.wpos → HasRoom (length p) (with_space n b)
  space-HasRoom p fits = record {
    valid = ground (arith, h.valid, length-spaced h, spaced_fits h);
    room = ground (arith, h.valid, length-spaced h, spaced_fits h);
    under = ground (arith, h.valid, length-spaced h, spaced_fits h);
  }

  pub fill_lem :
      (p : Bytes)
      → length p ≤ length (spaced n b) - b.wpos
      → (b' : StreamBuffer) × (fill p (with_space n b) ≡ ok b') × IsFilled p b b'
  fill_lem p fits =
      let r = space-HasRoom p fits in
      (
        appended p (with_space n b),
        fill-appended p r fits,
        record {
          contents_eq =
              contents-appended p r ∙ ap (λ (t : Bytes). drop b.opos t ++ p) (take-spaced h);
          unread_eq = unread-appended p r ∙ ap (λ (t : Bytes). drop b.rpos t ++ p) (take-spaced h);
          valid = appended-IsValid p r;
        },
      )
