-- ===== src/SocketPipe/Pairing.antt =====
-- What MakePair leaves where it succeeds, where binding fails, and where accepting fails.
use netb.Prelude.{
  ℕ, suc, ◌≡◌, List, [], ◌∷◌, ◌++◌, append_assoc, replicate, Bool, true, false, none, some, ok,
  refl,
}
use netb.Memory.{Bytes}
use netb.Host.{htonl}
use netb.SocketAddress.{
  SocketAddress, of_host, loopback, af_inet, inet, address_length, describe, HasLength,
}
use netb.Errors.{
  set_error_of, throw_error, Errno, eintr, no_error, bind_call, classify, sets, ErrorClass,
  general_error, logic_error, runtime_error,
}
use netb.Socket.{
  Descriptor, State, SystemCall, Reply, failed, done, sys_bind, sys_listen, sys_get_name,
  sys_connect, sys_accept, sys_close, accept, attach, close, uninterrupted, has_descriptor,
  is_other, bind, connect, system, report_described,
}
use netb.Socket.Descriptors.{report_error_sets, close_lem}
use netb.Socket.Interrupts.{connect_done, uninterrupted_lem, is_final}
use netb.Socket.Throwing.{
  raised, throwing, throwing_value, bind_or_throw, accept_or_throw, connect_or_throw,
}
use netb.TcpAcceptor.Accepting.{value, unreported}
use netb.SocketPipe.{SocketPipe, PipeEnv, connect_pair, make_pair, reclassify}

module _ (env : PipeEnv) where
  -- "loopback" with port 0
  abbrev pub loopback_address : SocketAddress
  loopback_address = inet 0 (htonl env.endian 2130706433)

  of_loopback : of_host env.endian env.pton loopback 0 af_inet ≡ ok loopback_address
  unfolding of_host
  of_loopback = refl

  -- ::bind fails on a socket with an error of its own.
  bind_fails :
      (x : Errno) (cls : ErrorClass) (rest : List Reply) (s : State)
      → classify bind_call x ≡ sets cls
      → s.replies ≡ failed x ∷ rest
      → bind env.msg loopback_address s
        ≡ ok (
          false,
          record s {
            errno = some x;
            calls = s.calls ++ sys_bind s.fd loopback_address ∷ [];
            replies = rest;
            error = set_error_of cls env.msg (some x) s.error;
          },
        )
  unfolding bind system report_described address_length describe
  bind_fails x cls rest s c e =
      rw (e, bind)
        (report_error_sets bind_call env.msg x cls
          (record s {
            errno = some x;
            calls = s.calls ++ sys_bind s.fd loopback_address ∷ [];
            replies = rest;
          })
          c)

  bind_throws :
      (x : Errno) (cls : ErrorClass) (rest : List Reply) (p : SocketPipe)
      → classify bind_call x ≡ sets cls
      → p.host.replies ≡ failed x ∷ rest
      → connect_pair env loopback_address p
        ≡ ok (
          raised (set_error_of cls env.msg (some x) (some no_error)),
          record p {
            host = record (p.host) {
              fd = p.reader;
              errno = some x;
              calls = p.host.calls ++ sys_bind p.reader loopback_address ∷ [];
              replies = rest;
            };
          },
        )
  unfolding connect_pair bind_or_throw throwing set_error_of
  bind_throws x general_error rest p c e =
      rw
        (
          bind_fails x general_error rest (record (p.host) { fd = p.reader; error = some no_error })
              c e,
          connect_pair,
        )
        refl
  bind_throws x logic_error rest p c e =
      rw
        (
          bind_fails x logic_error rest (record (p.host) { fd = p.reader; error = some no_error }) c
              e,
          connect_pair,
        )
        refl
  bind_throws x runtime_error rest p c e =
      rw
        (
          bind_fails x runtime_error rest (record (p.host) { fd = p.reader; error = some no_error })
              c e,
          connect_pair,
        )
        refl

  -- Where ::bind fails with an error code that becomes an error of a class, `MakePair` stops after
  -- it and sets the error argument, with that class; it returns false for a general error alone,
  -- and true for a logic and for a runtime error.
  pub make_pair-unbound :
      (x : Errno) (cls : ErrorClass) (rest : List Reply) (p : SocketPipe)
      → classify bind_call x ≡ sets cls
      → p.host.replies ≡ failed x ∷ rest
      → make_pair env p
        ≡ ok (
          elim cls [ general_error ↦ false | _ ↦ true ],
          reclassify cls env.msg (some x) (record p {
            host = record (p.host) {
              fd = p.reader;
              errno = some x;
              calls = p.host.calls ++ sys_bind p.reader loopback_address ∷ [];
              replies = rest;
            };
          }),
        )
  unfolding make_pair connect_pair bind raised
  make_pair-unbound x general_error rest p c e =
      rw (bind_throws x general_error rest p c e, make_pair) refl
  make_pair-unbound x logic_error rest p c e =
      rw (bind_throws x logic_error rest p c e, make_pair) refl
  make_pair-unbound x runtime_error rest p c e =
      rw (bind_throws x runtime_error rest p c e, make_pair) refl

-- The system calls of MakePair where nothing fails before accepting: `k` is how often ::connect is
-- interrupted, `j` how often ::accept.
abbrev pub pairing : PipeEnv → ℕ → ℕ → ℕ → ℕ → List SystemCall
pairing env rd w k j =
    (sys_bind (some rd) (loopback_address env)
      ∷ sys_listen (some rd) 1
      ∷ sys_get_name (some rd)
      ∷ [])
    ++ replicate (suc k) (sys_connect (some w) (env.known.name (some rd)))
    ++ replicate (suc j) (sys_accept (some rd))
    ++ sys_close (some rd) ∷ []

-- Accept() throws nothing, also where it fails.
accept_silently :
    (msg : Bytes) (r : Reply) (s s' : State)
    → uninterrupted (sys_accept s.fd) (record s { error = some no_error }) ≡ ok (r, s')
    → s'.error ≡ some no_error
    → accept_or_throw msg s ≡ ok (none, value r, record s' { error = s.error })
unfolding accept_or_throw throwing_value accept raised throw_error
accept_silently msg (failed x) s s' p e = rw (p, unreported msg (failed x) s', e) refl
accept_silently msg (done n) s s' p e = rw p refl

connect_silently :
    (msg : Bytes) (addr : SocketAddress) (s s' : State)
    → connect msg addr (record s { error = some no_error }) ≡ ok (true, s')
    → connect_or_throw msg addr s ≡ ok (none, true, record s' { error = s.error })
unfolding connect_or_throw throwing
connect_silently msg addr s s' p = rw p refl

attach_lem :
    (msg : Bytes) (new : Descriptor) (s s' : State) (t : Bool)
    → is_other s.fd new ≡ true
    → close msg (record s { error = none }) ≡ ok (t, s')
    → attach msg new s ≡ ok (has_descriptor new, record s' { fd = new; error = s.error })
unfolding attach
attach_lem msg new s s' t o p = rw (o, p, attach) refl

module _ (env : PipeEnv) (rd w a b c n k j : ℕ) (r q : Reply) (rest : List Reply) (h : State) where
  abbrev from_accept : List Reply
  from_accept = replicate j (failed eintr) ++ r ∷ q ∷ rest

  abbrev from_connect : List Reply
  from_connect = replicate k (failed eintr) ++ done n ∷ from_accept

  -- Where binding, listening, the inquiry of the reader's address and connecting succeed, that
  -- address has a family for which Length returns, connecting takes any number of interruptions,
  -- and ::accept ends after any number of them with a descriptor other than the reader's or with
  -- an error of its own, `MakePair` makes these calls in order, the writer connecting to the
  -- address that the reader got, closes the listening socket, and returns true; the reader is the
  -- accepted descriptor, or none where accepting failed, and the error argument is untouched in
  -- both cases.
  pub make_pair_lem :
      HasLength (env.known.name (some rd))
      → is_final r ≡ true
      → is_other (some rd) (value r) ≡ true
      → h.replies ≡ done a ∷ done b ∷ done c ∷ from_connect
      → (p' : SocketPipe) × (make_pair env (record { reader = some rd; writer = some w; host = h })
          ≡ ok (true, p'))
        × (p'.reader ≡ value r)
        × (p'.writer ≡ some w)
        × (p'.host.calls ≡ h.calls ++ pairing env rd w k j)
        × (p'.host.error ≡ h.error)
        × (p'.host.replies ≡ rest)
  unfolding make_pair connect_pair
  make_pair_lem len fin oth e =
      let s₀ : State = record h {
        fd = some w;
        calls =
            h.calls
            ++ sys_bind (some rd) (loopback_address env) ∷ []
            ++ sys_listen (some rd) 1 ∷ []
            ++ sys_get_name (some rd) ∷ [];
        replies = from_connect;
      } in
      let (s₁, p₁, a₁) =
        connect_done env.msg k from_accept (record s₀ { error = some no_error })
          (env.known.name (some rd)) n len refl in
      let s₁' : State = record s₁ { fd = some rd; error = h.error } in
      let (s₂, p₂, a₂) =
        uninterrupted_lem j (sys_accept (some rd)) r (q ∷ rest)
          (record s₁' { error = some no_error }) fin a₁.replies in
      let s₂' : State = record s₂ { error = none } in
      let (t, s₃, p₃, f₃, c₃, r₃) =
        close_lem env.msg (record s₂ { error = none }) rd q rest a₂.fd a₂.replies in
      (
        record {
          reader = value r;
          writer = s₁.fd;
          host = record s₃ { fd = value r; error = h.error };
        },
        rw
            (
              e,
              make_pair,
              connect_pair,
              connect_silently env.msg (env.known.name (some rd)) s₀ s₁ p₁,
              accept_silently env.msg r s₁' s₂ p₂ a₂.error,
              attach_lem env.msg (value r) s₂' s₃ t (rw a₂.fd oth) p₃,
            )
            refl,
        refl,
        a₁.fd,
        rw (c₃, a₂.fd, a₂.calls, a₁.calls) (simp append_assoc),
        refl,
        r₃,
      )
