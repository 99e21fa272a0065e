-- ===== src/StreamBuffer/Valid.antt =====
-- The invariant of `StreamBuffer`, the data that a client sees in one, and the effect of an append.
use netb.Prelude.{
  ℕ, ◌+◌, ◌-◌, ◌≤◌, ◌≡◌, ◌⊎◌, ◌++◌, length, take, drop, replicate, overwrite, max_size, arith, leb,
  if◌then◌else◌, sym, ap, ◌∙◌, length-append, length-take, length-replicate, length-overwrite,
  take-overwrite, drop-append, drop-drop, take-append_le, take-take,
}
use netb.Memory.{Bytes, resized}
use netb.StreamBuffer.{StreamBuffer}

-- The positions stand in order inside the vector, and the vector within its limits.
pub record IsValid (b : StreamBuffer) : Type 0 where
  pub opos_le : b.opos ≤ b.wpos
  pub rpos_le : b.rpos ≤ b.wpos
  pub wpos_le : b.wpos ≤ length b.bytes
  pub fits : length b.bytes ≤ max_size
  pub bounded : (b.limit ≡ 0) ⊎ (length b.bytes ≤ b.limit)

-- The accessible data: what was written and not flushed.
abbrev pub contents : StreamBuffer → Bytes
contents b = drop b.opos (take b.wpos b.bytes)

-- The data after the reading position.
abbrev pub unread : StreamBuffer → Bytes
unread b = drop b.rpos (take b.wpos b.bytes)

-- A valid buffer that takes `n` more bytes without moving its data.
pub record HasRoom (n : ℕ) (b : StreamBuffer) : Type 0 where
  pub valid : IsValid b
  pub room : b.wpos + n ≤ max_size
  pub under : (b.limit ≡ 0) ⊎ (b.wpos + n ≤ b.limit)

-- The vector once it has space for `n` more bytes.
unfoldable pub spaced : ℕ → StreamBuffer → Bytes
spaced n b = if leb n (length b.bytes - b.wpos) then b.bytes else resized b.bytes (b.wpos + n)

-- The buffer with `p` written behind its data.
unfoldable pub appended : Bytes → StreamBuffer → StreamBuffer
appended p b = record b {
  bytes = overwrite (spaced (length p) b) b.wpos p;
  wpos = b.wpos + length p;
}

-- The buffer with `n` more bytes read.
abbrev pub advanced : ℕ → StreamBuffer → StreamBuffer
advanced n b = record b { rpos = b.rpos + n }

pub length-resized : (bs : Bytes) (n : ℕ) → length (resized bs n) ≡ n
length-resized bs n = omega (
  arith,
  length-append (take n bs) (replicate (n - length bs) 0),
  length-take n bs,
  length-replicate {A = ℕ} (n - length bs) 0,
)

pub take-resized :
    (w : ℕ) (bs : Bytes) (n : ℕ) → w ≤ length bs → w ≤ n → take w (resized bs n) ≡ take w bs
take-resized w bs n h k =
    take-append_le w (take n bs) (replicate (n - length bs) 0) (omega (arith, length-take n bs))
    ∙ take-take w n bs k

module _ {n : ℕ} {b : StreamBuffer} (h : HasRoom n b) where
  pub length-spaced : b.wpos + n ≤ length (spaced n b)
  unfolding spaced
  length-spaced = ground (arith, h.valid, h.room, length-resized b.bytes (b.wpos + n))

  pub spaced_fits :
      (length (spaced n b) ≤ max_size) × ((b.limit ≡ 0) ⊎ (length (spaced n b) ≤ b.limit))
  unfolding spaced
  spaced_fits = ground (arith, h.valid, h.room, h.under, length-resized b.bytes (b.wpos + n))

  pub take-spaced : take b.wpos (spaced n b) ≡ take b.wpos b.bytes
  unfolding spaced
  take-spaced = ground (arith, h.valid, take-resized b.wpos b.bytes (b.wpos + n))

module _ (p : Bytes) {b : StreamBuffer} (h : HasRoom (length p) b) where
  take-appended :
      take (b.wpos + length p) (overwrite (spaced (length p) b) b.wpos p) ≡ take b.wpos b.bytes ++ p
  take-appended =
      take-overwrite (spaced (length p) b) b.wpos p (length-spaced h)
      ∙ ap (λ t. t ++ p) (take-spaced h)

  pub appended-IsValid : IsValid (appended p b)
  unfolding appended
  appended-IsValid = ground (
    arith,
    h.valid,
    length-spaced h,
    spaced_fits h,
    length-overwrite (spaced (length p) b) b.wpos p,
  )

  -- The new bytes stand behind the old contents.
  pub contents-appended : contents (appended p b) ≡ contents b ++ p
  unfolding appended
  contents-appended =
      ap (λ t. drop b.opos t) take-appended
      ∙ drop-append b.opos (take b.wpos b.bytes) p
          (omega (arith, h.valid, length-take b.wpos b.bytes))

  pub unread-appended : unread (appended p b) ≡ unread b ++ p
  unfolding appended
  unread-appended =
      ap (λ t. drop b.rpos t) take-appended
      ∙ drop-append b.rpos (take b.wpos b.bytes) p
          (omega (arith, h.valid, length-take b.wpos b.bytes))

-- What stays after `n` more bytes were read.
pub unread-advanced : (n : ℕ) (b : StreamBuffer) → unread (advanced n b) ≡ drop n (unread b)
unread-advanced n b = sym (drop-drop n b.rpos (take b.wpos b.bytes))
