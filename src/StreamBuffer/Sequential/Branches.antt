-- ===== src/StreamBuffer/Sequential/Branches.antt =====
-- `Peek`, `Update` and `Flush()` on every branch.
use netb.Prelude.{
  ℕ, suc, zero, ◌+◌, ◌-◌, ◌≡◌, [], ◌∷◌, length, slice, overwrite, true, false, none, some, arith,
  ok, ltb, leb, if◌then◌else◌, refl, ap, inl, inr, Bool-cases, sub_size-eq,
}
use netb.Memory.{Bytes}
use netb.StreamBuffer.{StreamBuffer, peek, update, flush, peekable, peek_at}
use netb.StreamBuffer.Valid.{IsValid, contents}
use netb.StreamBuffer.Read.{
  peek_fits, peek_short, peekable_lem, update_fits, update_short, length-contents,
}

overwrite-nil : (bs : Bytes) (i : ℕ) → overwrite bs i [] ≡ bs
overwrite-nil [] i = refl
overwrite-nil (x ∷ bs) zero = refl
overwrite-nil (x ∷ bs) (suc i) = ap (λ t. x ∷ t) (overwrite-nil bs i)

module _ {b : StreamBuffer} (v : IsValid b) where
  -- `Peek` on every branch.
  pub peek_lem :
      (i k : ℕ)
      → peek i k b
        ≡ ok (if ltb (length (contents b) - i) k then none else some (slice (contents b) i k))
  unfolding peek peekable peek_at
  peek_lem i zero = elim (Bool-cases (leb i (length (contents b)))) [
    | inl t ↦ rw (peek_fits v i 0 (ground arith)) (ground arith)
    | inr t ↦ ground (arith, v, length-contents v, sub_size-eq b.wpos b.opos, peekable_lem v i)
  ]
  peek_lem i (suc k) =
      ground (arith, peekable_lem v i, peek_fits v i (suc k), peek_short v i (suc k))

  -- `Update` on every branch.
  pub update_lem :
      (i : ℕ) (p : Bytes)
      → update i p b
        ≡ ok (
            if ltb (length (contents b) - i) (length p)
            then (false, b)
            else (true, record b { bytes = overwrite b.bytes (b.opos + i) p }))
  unfolding update peekable peek_at
  update_lem i [] = elim (Bool-cases (leb i (length (contents b)))) [
    | inl t ↦ rw (update_fits v i [] (ground arith)) (ground arith)
    | inr t ↦ ground (
      arith,
      v,
      length-contents v,
      sub_size-eq b.wpos b.opos,
      peekable_lem v i,
      overwrite-nil b.bytes (b.opos + i),
    )
  ]
  update_lem i (x ∷ p) =
      ground (arith, peekable_lem v i, update_fits v i (x ∷ p), update_short v i (x ∷ p))

pub flush-start : (b : StreamBuffer) → (flush b).1.rpos ≡ (flush b).1.opos
unfolding flush
flush-start b = ground arith

pub flush-limit : (b : StreamBuffer) → (flush b).1.limit ≡ b.limit
unfolding flush
flush-limit b = ground arith
