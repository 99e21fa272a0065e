-- ===== src/TcpAcceptor/Accepting.antt =====
-- Accepting a connection.
use netb.Prelude.{
  ℕ, suc, ◌≡◌, List, [], ◌∷◌, ◌++◌, append_assoc, replicate, true, false, Option, none, some, ok,
  refl, ◌∙◌,
}
use netb.Memory.{Bytes}
use netb.Errors.{no_error, throw_error, eintr, accept_call, set_error, classify}
use netb.Socket.{
  State, Reply, failed, done, accept, sys_accept, sys_get_flags, sys_set_flags, value_or_error,
  report_error,
}
use netb.Socket.Modes.{block_lem}
use netb.Socket.Interrupts.{is_final, uninterrupted_lem}
use netb.TcpSocket.{TcpEnv}
use netb.Socket.Throwing.{throwing_value, raised}
use netb.TcpAcceptor.{accept_within, accept_within_or_throw}

-- A descriptor, or INVALID_SOCKET.
abbrev pub value : Reply → Option ℕ
value (failed x) = none
value (done n) = some n

-- Accept::SetError leaves every error as it is.
pub unreported :
    (msg : Bytes) (r : Reply) (s : State) → value_or_error accept_call msg r s ≡ ok (value r, s)
unfolding value_or_error report_error set_error classify
unreported msg (failed x) s = refl
unreported msg (done n) s = refl

module _ (env : TcpEnv) (f z k : ℕ) (rest : List Reply) (s : State) where
  -- The blocking `Accept` sets the blocking mode, calls ::accept until it is not interrupted, and
  -- returns the descriptor or, where ::accept fails, none; the error argument stays what it was in
  -- both cases, so that a failure says nothing about itself.
  pub accept_within_lem :
      (r : Reply)
      → is_final r ≡ true
      → s.replies ≡ done f ∷ done z ∷ replicate k (failed eintr) ++ r ∷ rest
      → (s' : State) × (accept_within env none s ≡ ok (value r, s'))
        × (s'.calls
            ≡ s.calls
              ++ sys_get_flags s.fd
                ∷ sys_set_flags s.fd false
                ∷ replicate (suc k) (sys_accept s.fd))
        × (s'.error ≡ s.error)
        × (s'.replies ≡ rest)
  unfolding accept_within
  accept_within_lem r fin e =
      let b = block_lem env.msg s true f z (replicate k (failed eintr) ++ r ∷ rest) e in
      let s₁ = record s {
        calls = s.calls ++ sys_get_flags s.fd ∷ sys_set_flags s.fd false ∷ [];
        replies = replicate k (failed eintr) ++ r ∷ rest;
      } in
      let (s', q, a) = uninterrupted_lem k (sys_accept s.fd) r rest s₁ fin refl in
      (
        s',
        rw (b, accept_within, accept, q) (unreported env.msg r s'),
        a.calls
            ∙ append_assoc s.calls (sys_get_flags s.fd ∷ sys_set_flags s.fd false ∷ [])
                (replicate (suc k) (sys_accept s.fd)),
        a.error,
        a.replies,
      )

-- The Accept that throws throws nothing, and returns no descriptor where ::accept fails.
pub accept_within_or_throw_lem :
    (env : TcpEnv) (f z k : ℕ) (rest : List Reply) (s : State) (r : Reply)
    → is_final r ≡ true
    → s.replies ≡ done f ∷ done z ∷ replicate k (failed eintr) ++ r ∷ rest
    → (s' : State) × (accept_within_or_throw env none s ≡ ok (none, value r, s'))
      × (s'.error ≡ s.error)
      × (s'.replies ≡ rest)
unfolding accept_within_or_throw throwing_value raised throw_error
accept_within_or_throw_lem env f z k rest s (failed x) fin e =
    let (s', p, c, o, q) =
      accept_within_lem env f z k rest (record s { error = some no_error }) (failed x) fin e in
    (record s' { error = s.error }, rw (p, o) refl, refl, q)
accept_within_or_throw_lem env f z k rest s (done n) fin e =
    let (s', p, c, o, q) =
      accept_within_lem env f z k rest (record s { error = some no_error }) (done n) fin e in
    (record s' { error = s.error }, rw p refl, refl, q)
