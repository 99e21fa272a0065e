-- ===== src/TcpSocket/Sending.antt =====
-- Send of a connection, in both modes, and out of a buffer.
use netb.Prelude.{
  ℕ, zero, suc, ◌≤◌, ◌≡◌, List, [], ◌∷◌, ◌++◌, append_assoc, replicate, length, drop, true, false,
  Option, none, some, ok, fault, aborted, ltb, arith, refl, ◌∙◌,
}
use netb.Memory.{Bytes}
use netb.Errors.{eintr, eagain}
use netb.Socket.{State, Reply, failed, done, sys_get_flags, sys_set_flags, sys_send, value_or_error}
use netb.Socket.Modes.{block_lem}
use netb.Socket.Interrupts.{send_lem, send-would_block, is_final}
use netb.StreamBuffer.{StreamBuffer}
use netb.StreamBuffer.Valid.{IsValid, unread, advanced, unread-advanced}
use netb.StreamBuffer.Read.{length-unread, pending-eq, advance_read_fits}
use netb.TcpSocket.{TcpEnv, send_within, send_buffer}

module _ (env : TcpEnv) (f z k : ℕ) (rest : List Reply) (s : State) where
  -- `Send` without a timeout, where setting the mode succeeds and `::send` takes `n` bytes after
  -- `k` interruptions: the result is `n`, the socket was set to blocking before, `::send` was
  -- called `k + 1` times with all the bytes, and the error is as before.
  pub send_within-blocking :
      (p : Bytes) (n : ℕ)
      → s.replies ≡ done f ∷ done z ∷ replicate k (failed eintr) ++ done n ∷ rest
      → (s' : State) × (send_within env none p s ≡ ok (some n, s'))
        × (s'.calls
            ≡ s.calls
              ++ sys_get_flags s.fd
                ∷ sys_set_flags s.fd false
                ∷ replicate (suc k) (sys_send s.fd p 0))
        × (s'.error ≡ s.error)
        × (s'.replies ≡ rest)
  unfolding send_within value_or_error is_final
  send_within-blocking p n e =
      let s₁ = record s {
        calls = s.calls ++ sys_get_flags s.fd ∷ sys_set_flags s.fd false ∷ [];
        replies = replicate k (failed eintr) ++ done n ∷ rest;
      } in
      let (s', q, a) = send_lem env.msg k rest s₁ p 0 (done n) refl refl in
      (
        s',
        rw
            (
              send_within,
              block_lem env.msg s true f z (replicate k (failed eintr) ++ done n ∷ rest) e,
              q,
            )
            refl,
        a.calls
            ∙ append_assoc s.calls (sys_get_flags s.fd ∷ sys_set_flags s.fd false ∷ [])
                (replicate (suc k) (sys_send s.fd p 0)),
        a.error,
        a.replies,
      )

  -- `Send` with a timeout of 0, where setting the mode succeeds and `::send` answers EAGAIN after
  -- any number of interruptions: an assert fails, instead of a result that tells to try later.
  pub send_within-would_block :
      (p : Bytes)
      → s.replies ≡ done f ∷ done z ∷ replicate k (failed eintr) ++ failed eagain ∷ rest
      → send_within env (some 0) p s ≡ fault aborted
  unfolding send_within
  send_within-would_block p e =
      let s₁ = record s {
        calls = s.calls ++ sys_get_flags s.fd ∷ sys_set_flags s.fd true ∷ [];
        replies = replicate k (failed eintr) ++ failed eagain ∷ rest;
      } in
      rw
        (
          send_within,
          block_lem env.msg s false f z (replicate k (failed eintr) ++ failed eagain ∷ rest) e,
          send-would_block env.msg k rest s₁ p 0 refl,
        )
        refl

positive : (n : ℕ) → ltb 0 (suc n) ≡ true
positive n = ground arith

advanced-IsValid :
    {b : StreamBuffer} → IsValid b → (n : ℕ) → n ≤ length (unread b) → IsValid (advanced n b)
advanced-IsValid {b = b} v n le = record {
  opos_le = v.opos_le;
  rpos_le = omega (arith, v, length-unread v);
  wpos_le = v.wpos_le;
  fits = v.fits;
  bounded = v.bounded;
}

module _ (env : TcpEnv) (timeout : Option ℕ) (b : StreamBuffer) (s s' : State) where
  -- `Send` of a valid buffer, where sending its unread bytes gives `n`, at most their number: the
  -- result is `n`, exactly the first `n` unread bytes are taken from the buffer, and it stays
  -- valid.
  pub send_buffer_lem :
      (n : ℕ)
      → IsValid b
      → send_within env timeout (unread b) s ≡ ok (some n, s')
      → n ≤ length (unread b)
      → (b' : StreamBuffer) × (send_buffer env timeout b s ≡ ok (some n, b', s'))
        × (unread b' ≡ drop n (unread b))
        × IsValid b'
  unfolding send_buffer
  send_buffer_lem zero v e le = (b, rw (pending-eq v, e, send_buffer) refl, refl, v)
  send_buffer_lem (suc n) v e le = (
    advanced (suc n) b,
    rw (send_buffer, pending-eq v, e, advance_read_fits v (suc n) le, positive n) refl,
    unread-advanced (suc n) b,
    advanced-IsValid v (suc n) le,
  )
