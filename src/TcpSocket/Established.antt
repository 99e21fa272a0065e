-- ===== src/TcpSocket/Established.antt =====
-- Taking over a connection that was established elsewhere.
use netb.Prelude.{
  ℕ, ◌≡◌, List, [], ◌∷◌, ◌++◌, append_assoc, Bool, true, false, not, ◌&&◌, Option, none, some,
  Outcome, ok, ◌▹◌, refl, ◌∙◌, if◌then◌else◌, ==_refl, Bool-cases, inl, inr,
}
use netb.Memory.{Bytes}
use netb.SocketAddress.{SocketAddress, is_unspecified, not_equal, reset, af_unspec}
use netb.Errors.{
  Error, Call, set_error, Errno, ErrorClass, classify, name_call, sets, set_error_of, logic_error,
  einval, ebadf,
}
use netb.Socket.{
  State, SystemCall, Reply, failed, done, sys_get_option, sys_get_peer, system, checked, get_option,
}
use netb.Socket.Descriptors.{on_some}
use netb.Socket.Inquiry.{Known, silently, socket_type, connected_address}
use netb.TcpSocket.{TcpEnv, connected, is_stream, is_missing, refused}

not_missing :
    (a : SocketAddress) (e : Option Error) → is_unspecified a ≡ false → is_missing a e ≡ false
unfolding is_missing
not_missing a none p = refl
not_missing a (some e) p = p

-- Zeros are missing where an error argument is given.
zeros_missing :
    (e : Option Error) (cls : ErrorClass) (msg : Bytes) (x : Option Errno)
    → is_missing (reset af_unspec) (set_error_of cls msg x e)
      ≡ (elim e [ none ↦ false | some e' ↦ true ])
unfolding is_missing set_error_of reset
zeros_missing none cls msg x = refl
zeros_missing (some e) cls msg x = refl

set_error_sets :
    (c : Call) (msg : Bytes) (x : Errno) (cls : ErrorClass) (e : Option Error)
    → classify c x ≡ sets cls
    → set_error c msg x e ≡ ok (set_error_of cls msg (some x) e)
unfolding set_error
set_error_sets c msg x cls e p = rw (p, set_error) refl

-- False where an error argument is given.
by_argument :
    (e : Option Error) (s : State)
    → ◌≡◌ {A = Outcome (Bool × State)}
        (if◌then◌else◌ {A = Outcome (Bool × State)}
          (elim e [ none ↦ false | some e' ↦ true ])
          (ok (false, s))
          (ok (true, s)))
        (ok (elim e [ none ↦ true | some e' ↦ false ], s))
by_argument none s = refl
by_argument (some e) s = refl

module _ (env : TcpEnv) (known : Known) (d t : ℕ) (rest : List Reply) (s : State)
    (opened : s.fd ≡ some d) (stream : known.type (some d) ≡ env.stream) where
  -- The calls that Connected makes.
  abbrev pub inquiry : List SystemCall
  inquiry =
      sys_get_option (some d) known.socket_level known.type_option ∷ sys_get_peer (some d) ∷ []

  type_lem :
      (replies : List Reply)
      → s.replies ≡ done t ∷ replies
      → silently (socket_type known env.msg) s
        ≡ ok (
          some (known.type (some d)),
          record s {
            calls = s.calls ++ sys_get_option (some d) known.socket_level known.type_option ∷ [];
            replies = replies;
          },
        )
  unfolding socket_type get_option system checked
  type_lem replies e = rw (e, opened) refl

  -- The state before ::getpeername answers.
  abbrev asked : List Reply → State
  asked replies = record s {
    calls = s.calls ++ sys_get_option (some d) known.socket_level known.type_option ∷ [];
    replies = replies;
  }

  typed :
      (expected : SocketAddress) (replies : List Reply)
      → s.replies ≡ done t ∷ replies
      → connected env known expected s ≡ (
          connected_address known env.msg (asked replies) ▹ λ (addr, s₂).
          if is_missing addr s₂.error
          then ok (false, s₂)
          else if not (is_unspecified expected) && not_equal expected addr
          then refused env.msg logic_error einval s₂
          else ok (true, s₂))
  unfolding connected is_stream
  typed expected replies e =
      on_some (refused env.msg logic_error ebadf s) _ d s.fd opened
      ∙ rw (type_lem replies e, stream, ==_refl env.stream) refl

  pub connected_lem :
      (expected : SocketAddress) (u : ℕ)
      → is_unspecified (known.peer (some d)) ≡ false
      → s.replies ≡ done t ∷ done u ∷ rest
      → connected env known expected s ≡ (
          let mismatch =
            not (is_unspecified expected) && not_equal expected (known.peer (some d)) in
          ok (
            not mismatch,
            record s {
              calls = s.calls ++ inquiry;
              replies = rest;
              error =
                  if mismatch
                  then set_error_of logic_error env.msg (some einval) s.error
                  else s.error;
            },
          ))
  unfolding connected
  connected_lem expected u p e =
      typed expected (done u ∷ rest) e
      ∙ elim (Bool-cases
          (not (is_unspecified expected) && not_equal expected (known.peer (some d)))) [
            | inl m ↦
                rw (connected_address, opened, not_missing (known.peer (some d)) s.error p, m)
                  (rw append_assoc refl)
            | inr m ↦
                rw (connected_address, opened, not_missing (known.peer (some d)) s.error p, m)
                  (rw append_assoc refl)
          ]

  -- On an open stream socket where ::getpeername fails with an error code that becomes an error of
  -- a class, and no connected address is expected, `Connected` returns false where it was given an
  -- error argument, and sets it, and true where it was given none.
  pub connected-unnamed :
      (expected : SocketAddress) (x : Errno) (cls : ErrorClass)
      → classify name_call x ≡ sets cls
      → is_unspecified expected ≡ true
      → s.replies ≡ done t ∷ failed x ∷ rest
      → connected env known expected s
        ≡ ok (
          elim s.error [ none ↦ true | some e ↦ false ],
          record s {
            calls = s.calls ++ inquiry;
            replies = rest;
            errno = some x;
            error = set_error_of cls env.msg (some x) s.error;
          },
        )
  unfolding connected
  connected-unnamed expected x cls c p e =
      let s₁ : State = record s { calls = s.calls ++ inquiry; replies = rest; errno = some x } in
      typed expected (failed x ∷ rest) e
      ∙ rw
          (
            connected_address,
            opened,
            set_error_sets name_call env.msg x cls s.error c,
            zeros_missing s.error cls env.msg (some x),
            p,
          )
          (rw append_assoc (
            by_argument s.error
              (record s₁ { fd = some d; error = set_error_of cls env.msg (some x) s.error })))
