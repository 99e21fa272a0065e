-- ===== src/AsyncTcpAcceptor/Handing.antt =====
-- What becomes of an incoming connection.
use netb.Prelude.{
  ℕ, suc, ◌≡◌, List, [], ◌∷◌, ◌++◌, replicate, Bool, true, false, Option, none, some, Outcome, ok,
  ◌▹◌, refl, not, ap, append-nil, Bool-cases, inl, inr, if◌then◌else◌, ◌∙◌,
}
use netb.Errors.{Errno, eintr, interrupted, classify, set_error}
use netb.Socket.{Reply, done, failed, accept, sys_accept, sys_close, value_or_error, report_error}
use netb.Socket.Interrupts.{uninterrupted_lem, is_final}
use netb.Socket.Descriptors.{close_socket_lem}
use netb.TcpAcceptor.Accepting.{value}
use netb.AsyncTcpAcceptor.{AsyncTcpAcceptor, AcceptorEnv, Accepted, on_read, close_incoming}

-- The rest of OnRead once ::accept has answered.
hand_on : AcceptorEnv → Accepted → AsyncTcpAcceptor → Option ℕ → Outcome AsyncTcpAcceptor
hand_on env accepted b none = ok b
hand_on env accepted b (some d) =
    accepted d b ▹ λ (taken, a₂). if taken then ok a₂ else close_incoming env.tcp_env.msg d a₂

close_incoming_lem :
    (env : AcceptorEnv) (d : ℕ) (a : AsyncTcpAcceptor) (q : Reply) (rest : List Reply)
    → a.socket.replies ≡ q ∷ rest
    → (a' : AsyncTcpAcceptor) × (close_incoming env.tcp_env.msg d a ≡ ok a')
      × (a'.socket.calls ≡ a.socket.calls ++ sys_close (some d) ∷ [])
      × (a'.socket.fd ≡ a.socket.fd)
unfolding close_incoming
close_incoming_lem env d a q rest e =
    let (b, s, p, f, c, r) =
      close_socket_lem env.tcp_env.msg (record (a.socket) { fd = some d; error = none }) q rest e in
    (
      record a { socket = record s { fd = a.socket.fd; error = a.socket.error } },
      rw (p, close_incoming) refl,
      c,
      refl,
    )

module _ (env : AcceptorEnv) (a : AsyncTcpAcceptor) (k : ℕ) (rest : List Reply)
    (set : a.accepted_callback ≡ true) where
  -- The acceptor once ::accept has answered.
  abbrev pub IsAnswered : AsyncTcpAcceptor → Type 0
  IsAnswered b =
      (b.socket.calls ≡ a.socket.calls ++ replicate (suc k) (sys_accept a.socket.fd))
      × (b.socket.replies ≡ rest)
      × (b.socket.fd ≡ a.socket.fd)
      × (b.socket.error ≡ a.socket.error)

  waited :
      (accepted : Accepted) (r : Reply)
      → is_final r ≡ true
      → a.socket.replies ≡ replicate k (failed eintr) ++ r ∷ rest
      → (b : AsyncTcpAcceptor) × (on_read env accepted a ≡ hand_on env accepted b (value r))
        × IsAnswered b
  unfolding on_read accept hand_on value_or_error report_error set_error classify
  waited accepted (failed y) fin e =
      let (s', p, x) =
        uninterrupted_lem k (sys_accept a.socket.fd) (failed y) rest
          (record (a.socket) { error = none }) fin e in
      (
        record a { socket = record s' { error = a.socket.error } },
        rw (set, on_read, p) refl,
        (x.calls, x.replies, x.fd, refl),
      )
  waited accepted (done d) fin e =
      let (s', p, x) =
        uninterrupted_lem k (sys_accept a.socket.fd) (done d) rest
          (record (a.socket) { error = none }) fin e in
      (
        record a { socket = record s' { error = a.socket.error } },
        rw (set, on_read, p) refl,
        (x.calls, x.replies, x.fd, refl),
      )

  -- Where ::accept, after any number of interruptions, gives a descriptor, the acceptor's `OnRead`
  -- calls the accepted callback with it, in the state right after those calls, and closes the
  -- descriptor exactly where the callback does not take it; the acceptor's own descriptor is the
  -- one that the callback leaves. The callback returns, and leaves an answer for closing.
  pub on_read-handed :
      (taken : ℕ → AsyncTcpAcceptor → Bool) (after : ℕ → AsyncTcpAcceptor → AsyncTcpAcceptor)
      (d : ℕ) (q : Reply) (later : List Reply)
      → a.socket.replies ≡ replicate k (failed eintr) ++ done d ∷ rest
      → ((b : AsyncTcpAcceptor) → IsAnswered b → (after d b).socket.replies ≡ q ∷ later)
      → (b : AsyncTcpAcceptor) × (a' : AsyncTcpAcceptor) × (on_read env
            (λ n c. ok (taken n c, after n c))
            a
          ≡ ok a')
        × IsAnswered b
        × (a'.socket.calls
            ≡ (after d b).socket.calls ++ (if taken d b then [] else sys_close (some d) ∷ []))
        × (a'.socket.fd ≡ (after d b).socket.fd)
  unfolding hand_on is_final
  on_read-handed taken after d q later e h =
      let (b, p, i) = waited (λ n c. ok (taken n c, after n c)) (done d) refl e in
      let (a', x, c, f) = close_incoming_lem env d (after d b) q later (h b i) in
      elim (Bool-cases (taken d b)) [
        | inl t ↦ (b, after d b, p ∙ rw t refl, i, rw (t, append-nil) refl, refl)
        | inr t ↦ (b, a', p ∙ rw (t, x) refl, i, rw t c, f)
      ]

  pub on_read-unaccepted :
      (accepted : Accepted) (x : Errno)
      → interrupted x ≡ false
      → a.socket.replies ≡ replicate k (failed eintr) ++ failed x ∷ rest
      → (b : AsyncTcpAcceptor) × (on_read env accepted a ≡ ok b) × IsAnswered b
  unfolding hand_on is_final
  on_read-unaccepted accepted x n e = waited accepted (failed x) (ap not n) e
