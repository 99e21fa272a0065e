-- ===== src/TcpAcceptor/Opening.antt =====
-- Opening an acceptor: the order of its system calls, and where it stops.
use netb.Prelude.{
  ℕ, ◌≡◌, List, [], ◌∷◌, ◌++◌, append_assoc, map, length, Bool, true, false, Option, none, some, ok,
  if◌then◌else◌, refl, ap, ◌∙◌,
}
use netb.SocketAddress.{SocketAddress, inet, inet6, other, family, is_unspecified, IsInternet}
use netb.Errors.{Call, Errno, bind_call, listen_call, option_call}
use netb.Socket.{
  Descriptor, State, SystemCall, Reply, failed, done, report_error, create, sys_socket, sys_bind,
  sys_listen, sys_set_option, Action, reuse, listen,
}
use netb.Socket.Modes.{create-closed, closed}
use netb.Socket.Checks.{
  Check, bind-checked, checks, call_of, and_then-fd, checked-last, checks_done, checks_stop,
}
use netb.TcpSocket.{TcpEnv, and_then}
use netb.TcpAcceptor.{TcpAcceptor, Options, open_if_closed, set_up, open_at}

IsInternet-specified : (addr : SocketAddress) → IsInternet addr → is_unspecified addr ≡ false
unfolding is_unspecified family
IsInternet-specified (inet port x) i = refl
IsInternet-specified (inet6 port flow x scope) i = refl
IsInternet-specified (other f x) i = absurd i

module _ (env : TcpEnv) (opts : Options) (addr : SocketAddress) (ra rp : Bool) where
  -- What an open acceptor has to do, in this order: both options, bind and listen.
  abbrev pub plan : Option ℕ → Descriptor → List Check
  plan backlog d =
      (option_call, sys_set_option d opts.level opts.addr_option (opts.flag ra))
      ∷ (option_call, sys_set_option d opts.level opts.port_option (opts.flag rp))
      ∷ (bind_call, sys_bind d addr)
      ∷ (listen_call, sys_listen d (elim backlog [ none ↦ opts.somaxconn | some n ↦ n ]))
      ∷ []

  set_up-checks :
      (backlog : Option ℕ) (s : State)
      → IsInternet addr
      → set_up env opts backlog addr ra rp s ≡ checks env.msg (plan backlog s.fd) s
  unfolding set_up checks
  set_up-checks backlog s i =
      ap
        (λ (m : Action Bool).
          and_then (reuse env.msg opts.level opts.addr_option opts.flag ra)
            (and_then (reuse env.msg opts.level opts.port_option opts.flag rp)
              (and_then m (listen env.msg opts.somaxconn backlog)))
            s)
        (bind-checked env.msg addr i)
      ∙ and_then-fd env.msg option_call _ _ _ s s.replies refl λ s₁ e₁. rw (← e₁) (
          and_then-fd env.msg option_call _ _ _ s₁ s₁.replies refl λ s₂ e₂. rw (← (e₂ ∙ e₁)) (
            and_then-fd env.msg bind_call _ _ _ s₂ s₂.replies refl λ s₃ e₃.
              rw (← (e₃ ∙ (e₂ ∙ e₁))) (checked-last env.msg listen_call _ s₃ s₃.replies refl)))

  module _ (a : TcpAcceptor) (d : ℕ) (s : State) (given : IsInternet addr)
      (shut : s.fd ≡ none) where
    -- ::socket with the family of the acceptor's own address, if it has one.
    abbrev pub socket_call : SystemCall
    socket_call =
        sys_socket (if is_unspecified a.local then family addr else family a.local) env.stream
          env.tcp

    open_lem :
        (rest : List Reply)
        → s.replies ≡ done d ∷ rest
        → open_if_closed env opts a addr s
          ≡ ok (true, record s { fd = some d; calls = s.calls ++ socket_call ∷ []; replies = rest })
    unfolding open_if_closed
    open_lem rest e =
        closed
          (create env.msg (if is_unspecified a.local then family addr else family a.local)
            env.stream env.tcp s)
          (ok (true, s)) s.fd shut
        ∙ create-closed env.msg s (if is_unspecified a.local then family addr else family a.local)
            env.stream env.tcp d rest shut e

    opened :
        (rest : List Reply)
        → s.replies ≡ done d ∷ rest
        → open_at env opts a addr ra rp s
          ≡ checks env.msg
              (plan a.backlog (some d))
              (record s { fd = some d; calls = s.calls ++ socket_call ∷ []; replies = rest })
    unfolding open_at
    opened rest e =
        rw (IsInternet-specified addr given, open_at, open_lem rest e)
          (set_up-checks a.backlog
            (record s { fd = some d; calls = s.calls ++ socket_call ∷ []; replies = rest }) given)

    pub open_at_done :
        (ns : List ℕ) (rest : List Reply)
        → length ns ≡ 4
        → s.replies ≡ done d ∷ map done ns ++ rest
        → open_at env opts a addr ra rp s
          ≡ ok (
            true,
            record s {
              fd = some d;
              calls = s.calls ++ socket_call ∷ map call_of (plan a.backlog (some d));
              replies = rest;
            },
          )
    open_at_done ns rest l e =
        opened (map done ns ++ rest) e
        ∙ checks_done env.msg (plan a.backlog (some d)) ns rest _ l refl
        ∙ rw append_assoc refl

    -- On a closed acceptor and an address of AF_INET or AF_INET6, `Open` makes ::socket, the two
    -- reuse options, ::bind and ::listen in this order; where the socket is made and any one of
    -- the other calls is the first to fail, `Open` ends with the report of that error, nothing
    -- that follows is called, and the new descriptor stays open.
    pub open_at_stops :
        (before later : List Check) (c : Call) (sys : SystemCall) (ns : List ℕ) (x : Errno)
        (rest : List Reply)
        → plan a.backlog (some d) ≡ before ++ (c, sys) ∷ later
        → length ns ≡ length before
        → s.replies ≡ done d ∷ map done ns ++ failed x ∷ rest
        → open_at env opts a addr ra rp s
          ≡ report_error c env.msg x (record s {
            fd = some d;
            calls = s.calls ++ socket_call ∷ (map call_of before ++ sys ∷ []);
            replies = rest;
            errno = some x;
          })
    open_at_stops before later c sys ns x rest p l e =
        opened (map done ns ++ failed x ∷ rest) e
        ∙ ap
            (λ ps. checks env.msg ps (record s {
              fd = some d;
              calls = s.calls ++ socket_call ∷ [];
              replies = map done ns ++ failed x ∷ rest;
            }))
            p
        ∙ checks_stop env.msg before c sys later ns x rest _ l refl
        ∙ rw append_assoc refl
