-- ===== src/AsyncTcpSocket/Incoming.antt =====
-- `AsyncTcpSocket`: establishing and closing a connection, and OnRead. The application's callbacks are
-- functions of the whole state; `inside` says whether the calling thread is the loop's.
use netb.Prelude.{
  ℕ, zero, suc, take, Bool, true, false, Option, none, some, Outcome, ok, fault, aborted, ◌▹◌,
  if◌then◌else◌,
}
use netb.Memory.{Bytes}
use netb.SocketAddress.{SocketAddress}
use netb.Errors.{eacces, logic_error}
use netb.Socket.{State, close, receive}
use netb.Socket.Inquiry.{Known}
use netb.StreamBuffer.{writable, writable_size}
use netb.StreamBuffer.External.{fill}
use netb.TcpSocket.{connect_within, connected, refused}
use netb.EventLoop.{detach, disable_reading}
use netb.AsyncTcpSocket.{
  AsyncTcpSocket, AsyncEnv, BoolAction, on_socket, on_socket_silent, enable_to_read,
}

-- `_received_callback` and `_connected_callback`
pub record Callbacks : Type 0 where
  pub on_received : AsyncTcpSocket → Outcome AsyncTcpSocket
  pub on_connected : Bool → AsyncTcpSocket → Outcome AsyncTcpSocket

module _ (env : AsyncEnv) (inside : Bool) where
  -- Close(e): the handler is detached and deleted before the socket is closed
  unfoldable pub close_async : BoolAction
  unfolding close
  close_async a =
      (elim a.handler [
        | none ↦ ok a
        | some h ↦
            detach env.loop_env inside h a.loop ▹ λ l. ok (record a { handler = none; loop = l })
      ])
      ▹ λ a'. on_socket (close env.tcp_env.msg) a'

  -- `Close();`, without an error argument, and `return false;`
  unfoldable pub clean_up : BoolAction
  unfolding close_async
  clean_up a = close_async (record a { socket = record (a.socket) { error = none } }) ▹ λ (b, a').
      ok (false, record a' { socket = record (a'.socket) { error = a.socket.error } })

  -- Connected(e)
  unfoldable pub connected_async : Known → SocketAddress → BoolAction
  unfolding connected enable_to_read
  connected_async known expected a = on_socket (connected env.tcp_env known expected) a ▹ λ (r, a').
      if r then enable_to_read env inside a' else ok (false, a')

  -- Connect(addr, timeout, e); Connect(addr, e) is that without a timeout
  unfoldable pub connect_async : Option ℕ → Option SocketAddress → SocketAddress → BoolAction
  unfolding connect_within enable_to_read clean_up
  connect_async timeout local addr a =
      on_socket (connect_within env.tcp_env timeout local addr) a ▹ λ (r, a').
      if r
      then (enable_to_read env inside a' ▹ λ (b, a''). if b then ok (true, a'') else clean_up a'')
      else clean_up a'

-- Send with a timeout and every Receive: -1
unfoldable pub not_in_this_mode : Bytes → State → Outcome (Option ℕ × State)
unfolding refused
not_in_this_mode msg s = refused msg logic_error eacces s ▹ λ (b, s'). ok (none, s')

-- `if(_received_callback) ...`
unfoldable pub notify : Callbacks → AsyncTcpSocket → Outcome AsyncTcpSocket
notify callbacks a = if a.received_callback then callbacks.on_received a else ok a

module _ (env : AsyncEnv) (callbacks : Callbacks) where
  -- The second branch of OnRead
  unfoldable pub lose : AsyncTcpSocket → Outcome AsyncTcpSocket
  unfolding disable_reading
  lose a = elim a.handler [
    | none ↦ fault aborted
    | some h ↦ disable_reading env.loop_env true h a.loop ▹ λ l.
        let a' = record a { loop = l } in
        if a.connected_callback then callbacks.on_connected false a' else ok a'
  ]

  -- `if(n > 0) ... else ...`, where `incoming` is what ::recv has put at _in_buffer.Write()
  unfoldable pub take_received : Bytes → Option ℕ → AsyncTcpSocket → Outcome AsyncTcpSocket
  unfolding lose notify fill
  take_received incoming none a = lose a
  take_received incoming (some zero) a = lose a
  take_received incoming (some (suc n)) a =
      fill (take (suc n) incoming) a.in_buffer ▹ λ b. notify callbacks (record a { in_buffer = b })

  -- OnRead(s)
  unfoldable pub on_read : Bytes → AsyncTcpSocket → Outcome AsyncTcpSocket
  unfolding writable writable_size receive take_received
  on_read incoming a = writable 2048 a.in_buffer ▹ λ (r, b).
      if r
      then (on_socket_silent (receive env.tcp_env.msg (writable_size b) 0)
            (record a { in_buffer = b })
          ▹ λ (n, a'). take_received incoming n a')
      else take_received incoming (some 0) (record a { in_buffer = b })
