-- ===== src/TcpSocket/Receiving.antt =====
-- Receiving into a buffer.
use netb.Prelude.{
  ℕ, zero, suc, ◌+◌, ◌-◌, ◌≤◌, ◌<◌, ◌≡◌, length, take, drop, [], Option, none, some, ok, arith,
  refl, sym, ap, ◌∙◌, append-nil, lt→ltb, length-take,
}
use netb.Memory.{Bytes}
use netb.Socket.{State, Action}
use netb.Errors.{set_error_of, runtime_error, enobufs}
use netb.StreamBuffer.{StreamBuffer}
use netb.StreamBuffer.Valid.{
  IsValid, HasRoom, contents, unread, spaced, take-spaced, length-spaced, spaced_fits,
}
use netb.StreamBuffer.Write.{writable_fits, writable_overflow}
use netb.StreamBuffer.External.{with_space, IsFilled, writable_size-space, fill_lem}
use netb.TcpSocket.{TcpEnv, receive_within, receive_buffer, take_in, receive_into, refused}

-- The bytes that a result of ::recv stands for.
abbrev pub arrived : Option ℕ → Bytes → Bytes
arrived none incoming = []
arrived (some n) incoming = take n incoming

-- The contract of ::recv: it returns at most the number of bytes that it was given room for, and has
-- put that many there.
abbrev pub IsWithin : Option ℕ → ℕ → Bytes → Type 0
IsWithin none room incoming = Unit {0}
IsWithin (some n) room incoming = (n ≤ room) × (n ≤ length incoming)

module _ {n : ℕ} {b : StreamBuffer} (h : HasRoom n b) (incoming : Bytes) where
  unfilled : IsFilled [] b (with_space n b)
  unfilled = record {
    contents_eq = ap (λ (t : Bytes). drop b.opos t) (take-spaced h) ∙ sym (append-nil (contents b));
    unread_eq = ap (λ (t : Bytes). drop b.rpos t) (take-spaced h) ∙ sym (append-nil (unread b));
    valid = ground (arith, h.valid, length-spaced h, spaced_fits h);
  }

  pub take_in_lem :
      (r : Option ℕ)
      → IsWithin r (length (spaced n b) - b.wpos) incoming
      → (b' : StreamBuffer) × (take_in incoming r (with_space n b) ≡ ok b')
        × IsFilled (arrived r incoming) b b'
  take_in_lem none w = (with_space n b, refl, unfilled)
  take_in_lem (some zero) w = (with_space n b, refl, unfilled)
  take_in_lem (some (suc k)) w =
      rw (lt→ltb 0 (suc k) (omega arith))
        (fill_lem h (take (suc k) incoming) (omega (arith, length-take (suc k) incoming, w)))

-- The same for any way of receiving.
pub receive_into_lem :
    (msg : Bytes) (recv : ℕ → Action (Option ℕ)) (incoming : Bytes) {b : StreamBuffer}
    (s s' : State) (r : Option ℕ)
    → HasRoom 2048 b
    → recv (length (spaced 2048 b) - b.wpos) s ≡ ok (r, s')
    → IsWithin r (length (spaced 2048 b) - b.wpos) incoming
    → (b' : StreamBuffer) × (receive_into msg recv incoming b s ≡ ok (r, b', s'))
      × IsFilled (arrived r incoming) b b'
unfolding receive_into
receive_into_lem msg recv incoming {b} s s' r h e w =
    let (b', p, f) = take_in_lem h incoming r w in
    (b', rw (writable_fits 2048 h, receive_into, writable_size-space h, e, p) refl, f)

-- A full buffer gets nothing, and the error argument says so.
pub receive_into-full :
    (msg : Bytes) (recv : ℕ → Action (Option ℕ)) (incoming : Bytes) {b : StreamBuffer} (s : State)
    → IsValid b
    → 0 < b.limit
    → b.limit < b.wpos - b.opos + 2048
    → receive_into msg recv incoming b s
      ≡ ok (none, b, record s { error = set_error_of runtime_error msg (some enobufs) s.error })
unfolding receive_into refused
receive_into-full msg recv incoming {b} s v pos over =
    rw (writable_overflow 2048 v (omega arith) pos over, receive_into) refl

-- Where a valid buffer has room for 2048 bytes and `Receive` of as many bytes as it then offers
-- ends with a result, `Receive(buf, timeout, e)` ends with the same result and state, and with the
-- received bytes, none where the result is -1 or 0, appended to the accessible and to the unread
-- bytes of the buffer, which stays valid. A result is at most the offered space, and stands for
-- that many bytes put there.
pub receive_buffer_lem :
    (env : TcpEnv) (timeout : Option ℕ) (incoming : Bytes) {b : StreamBuffer} (s s' : State)
    (r : Option ℕ)
    → HasRoom 2048 b
    → receive_within env timeout (length (spaced 2048 b) - b.wpos) s ≡ ok (r, s')
    → IsWithin r (length (spaced 2048 b) - b.wpos) incoming
    → (b' : StreamBuffer) × (receive_buffer env timeout incoming b s ≡ ok (r, b', s'))
      × IsFilled (arrived r incoming) b b'
unfolding receive_buffer receive_within
receive_buffer_lem env timeout incoming =
    receive_into_lem env.msg (receive_within env timeout) incoming
