-- ===== src/AsyncTcpAcceptor.antt =====
-- `AsyncTcpAcceptor` of netb/AsyncTcpAcceptor.hpp and netb/AsyncTcpAcceptor.cpp: an acceptor with a
-- handler in an event loop. `inside` says whether the calling thread is the loop's; `new` does not fail.
pub mod Handing
use netb.Prelude.{
  ℕ, Bool, true, false, not, Option, none, some, Outcome, ok, fault, aborted, ◌▹◌, if◌then◌else◌,
  ◌==◌,
}
use netb.Memory.{Bytes}
use netb.SocketAddress.{SocketAddress}
use netb.Errors.{set_error_of, logic_error, einval, ebadf, eacces, Exception, logic_exception}
use netb.Socket.{State, block, accept, close_socket}
use netb.TcpSocket.{TcpEnv, refused}
use netb.TcpAcceptor.{TcpAcceptor, Options, open_at, close_acceptor}
use netb.EventLoop.{
  EventLoop, EventHandler, Env, create_handler, put_handler, enable_reading, detach,
}

-- The socket and the addresses of the base class, `_handler`, the loop, and whether the application
-- has set `_accepted_callback`
pub record AsyncTcpAcceptor : Type 0 where
  pub socket : State
  pub base : TcpAcceptor
  pub handler : Option ℕ
  pub loop : EventLoop
  pub accepted_callback : Bool

pub record AcceptorEnv : Type 0 where
  pub loop_env : Env
  pub tcp_env : TcpEnv
  pub options : Options
  pub next_handler : ℕ

-- The application's callback, which is given the new descriptor
abbrev pub Accepted : Type 0
Accepted = ℕ → AsyncTcpAcceptor → Outcome (Bool × AsyncTcpAcceptor)

abbrev pub BoolAction : Type 0
BoolAction = AsyncTcpAcceptor → Outcome (Bool × AsyncTcpAcceptor)

-- An action of the socket inside the whole, and the same with a null error argument.
abbrev pub on_socket :
    {A : Type 0} → (State → Outcome (A × State)) → AsyncTcpAcceptor → Outcome (A × AsyncTcpAcceptor)
on_socket m a = m a.socket ▹ λ (r, s). ok (r, record a { socket = s })

abbrev pub on_socket_silent :
    {A : Type 0} → (State → Outcome (A × State)) → AsyncTcpAcceptor → Outcome (A × AsyncTcpAcceptor)
on_socket_silent m a = m (record (a.socket) { error = none }) ▹ λ (r, s).
    ok (r, record a { socket = record s { error = a.socket.error } })

module _ (env : AcceptorEnv) (inside : Bool) where
  -- `if(!_handler) ...`
  unfoldable pub make_handler : ℕ → AsyncTcpAcceptor → Outcome (ℕ × AsyncTcpAcceptor)
  unfolding create_handler
  make_handler d a = elim a.handler [
    | some h ↦ ok (h, a)
    | none ↦ create_handler env.loop_env inside env.next_handler d a.loop ▹ λ l. ok (
      env.next_handler,
      record a {
        handler = some env.next_handler;
        loop =
            put_handler env.next_handler
              (record (l.objects env.next_handler) { read_callback = true }) l;
      },
    )
  ]

  -- EnableReading(e), with the loop set; what the handler's EnableReading returns is ignored
  unfoldable pub enable : BoolAction
  unfolding refused block make_handler enable_reading
  enable a =
      if a.accepted_callback
      then elim a.socket.fd [
        | none ↦ on_socket (refused env.tcp_env.msg logic_error ebadf) a
        | some d ↦ on_socket (block env.tcp_env.msg false) a ▹ λ (r, a₁).
            if r
            then (make_handler d a₁ ▹ λ (h, a₂).
                enable_reading env.loop_env inside h a₂.loop ▹ λ (b, l).
                ok (true, record a₂ { loop = l }))
            else ok (false, a₁)
      ]
      else on_socket (refused env.tcp_env.msg logic_error einval) a

  -- Close(e)
  unfoldable pub close_async : BoolAction
  unfolding close_acceptor
  close_async a =
      (elim a.handler [
        | none ↦ ok a
        | some h ↦
            detach env.loop_env inside h a.loop ▹ λ l. ok (record a { handler = none; loop = l })
      ])
      ▹ λ a'. on_socket (close_acceptor env.tcp_env) a'

  -- `Close();`, without an error argument, and `return false;`
  unfoldable pub clean_up : BoolAction
  unfolding close_async
  clean_up a = close_async (record a { socket = record (a.socket) { error = none } }) ▹ λ (b, a').
      ok (false, record a' { socket = record (a'.socket) { error = a.socket.error } })

  -- Open(addr, reuse_addr, reuse_port, e)
  unfoldable pub open_async : SocketAddress → Bool → Bool → BoolAction
  unfolding open_at enable clean_up
  open_async addr ra rp a =
      on_socket (open_at env.tcp_env env.options a.base addr ra rp) a ▹ λ (r, a').
      if r
      then (enable a' ▹ λ (b, a''). if b then ok (true, a'') else clean_up a'')
      else clean_up a'

-- Accept and AcceptFrom, which are not for this mode: with an error argument, and without one
unfoldable pub not_in_this_mode : Bytes → State → Outcome (Option ℕ × State)
unfolding refused
not_in_this_mode msg s = refused msg logic_error eacces s ▹ λ (b, s'). ok (none, s')

unfoldable pub thrown_in_this_mode : Bytes → Exception
thrown_in_this_mode msg = logic_exception msg (some eacces)

-- `CloseSocket(in_s)`, on a descriptor that is not the acceptor's own
unfoldable pub close_incoming : Bytes → ℕ → AsyncTcpAcceptor → Outcome AsyncTcpAcceptor
unfolding close_socket
close_incoming msg d a =
    close_socket msg (record (a.socket) { fd = some d; error = none }) ▹ λ (b, s).
    ok (record a { socket = record s { fd = a.socket.fd; error = a.socket.error } })

-- OnRead(s) on the acceptor's own socket
unfoldable pub on_read : AcceptorEnv → Accepted → AsyncTcpAcceptor → Outcome AsyncTcpAcceptor
unfolding accept close_incoming
on_read env accepted a =
    if a.accepted_callback
    then (on_socket_silent (accept env.tcp_env.msg) a ▹ λ (r, a₁). elim r [
      | none ↦ ok a₁
      | some d ↦ accepted d a₁ ▹ λ (taken, a₂).
          if taken then ok a₂ else close_incoming env.tcp_env.msg d a₂
    ])
    else fault aborted
