-- ===== src/StreamBuffer/Flush.antt =====
-- Discarding data: `Flush(n)`, `Flush()` and `Clear()`, and the compaction `Reclaim()`.
use netb.Prelude.{
  ℕ, ◌+◌, ◌-◌, ◌≤◌, ◌<◌, ◌≡◌, length, take, drop, none, some, arith, add_size-eq, sub_size-eq,
  drop-drop, [], ◌∷◌, zero, suc, refl,
}
use netb.Memory.{Bytes}
use netb.StreamBuffer.{StreamBuffer, clear, flush_n, flush}
use netb.StreamBuffer.Valid.{IsValid, contents, unread}
use netb.StreamBuffer.Read.{length-contents, length-unread}

drop-short : (n : ℕ) (xs : Bytes) → length xs ≤ n → drop n xs ≡ []
drop-short zero [] h = refl
drop-short zero (x ∷ xs) h = absurd (omega arith)
drop-short (suc n) [] h = refl
drop-short (suc n) (x ∷ xs) h = drop-short n xs (omega arith)

module _ {b : StreamBuffer} (v : IsValid b) where
  -- `Flush(n)` on a valid buffer, with `n` at most the length of the contents, returns the length
  -- of what is left, drops the first `n` bytes of the contents, and keeps the buffer valid.
  pub flush_n_fits :
      (n : ℕ)
      → n ≤ length (contents b)
      → ((flush_n n b).0 ≡ some (length (contents b) - n))
        × (contents (flush_n n b).1 ≡ drop n (contents b))
        × IsValid (flush_n n b).1
  unfolding flush_n
  flush_n_fits n h = ground (
    arith,
    v,
    length-contents v,
    sub_size-eq b.wpos b.opos,
    add_size-eq b.opos n,
    sub_size-eq b.wpos (b.opos + n),
    sub_size-eq 0 0,
    drop-short n (contents b),
    drop-drop n b.opos (take b.wpos b.bytes),
  )

  pub flush_n_over : (n : ℕ) → length (contents b) < n → flush_n n b ≡ (none, b)
  unfolding flush_n
  flush_n_over n h = ground (arith, v, length-contents v, sub_size-eq b.wpos b.opos)

  -- `Flush(n)` on a valid buffer, with `n` less than the length of the contents, leaves the unread
  -- bytes as they were, also those that it discards from the contents.
  pub unread-flush_n : (n : ℕ) → n < length (contents b) → unread (flush_n n b).1 ≡ unread b
  unfolding flush_n
  unread-flush_n n h =
      ground (arith, v, length-contents v, sub_size-eq b.wpos b.opos, add_size-eq b.opos n)

  -- `Flush()` on a valid buffer returns the number of unread bytes, leaves exactly these as the
  -- contents and as the unread bytes, and keeps the buffer valid.
  pub flush_lem :
      ((flush b).0 ≡ length (unread b))
      × (contents (flush b).1 ≡ unread b)
      × (unread (flush b).1 ≡ unread b)
      × IsValid (flush b).1
  unfolding flush
  flush_lem = ground (
    arith,
    v,
    length-unread v,
    sub_size-eq b.wpos b.rpos,
    sub_size-eq 0 0,
    drop-short 0 (unread b),
  )

  -- `Clear()` leaves an empty buffer.
  pub clear_lem : (contents (clear b) ≡ []) × (unread (clear b) ≡ []) × IsValid (clear b)
  unfolding clear
  clear_lem = ground (arith, v)
