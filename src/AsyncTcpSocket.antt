-- ===== src/AsyncTcpSocket.antt =====
-- `AsyncTcpSocket` of netb/AsyncTcpSocket.hpp and netb/AsyncTcpSocket.cpp: its handler, and sending
-- through the outgoing buffer; Incoming has the rest. Where no error argument is passed on, the error of the state is set
-- aside for the call.
pub mod Outgoing
pub mod Stream
pub mod Incoming
pub mod Reading
use netb.Prelude.{
  ℕ, zero, suc, List, Bool, true, false, not, Option, none, some, Outcome, ok, fault, aborted, ◌▹◌,
  if◌then◌else◌, ltb, ◌==◌, length, drop,
}
use netb.Memory.{Bytes}
use netb.Errors.{Error, set_error_of, logic_error, ebadf}
use netb.Socket.{State, block, send}
use netb.StreamBuffer.{StreamBuffer, is_empty, readable, pending, write, advance_read}
use netb.TcpSocket.{TcpEnv, send_within}
use netb.EventLoop.{
  EventLoop, EventHandler, Env, create_handler, put_handler, enable_reading, enable_writing,
  disable_writing,
}

-- The socket, `_handler`, the loop that it stands in, the buffers, and which callbacks are set
pub record AsyncTcpSocket : Type 0 where
  pub socket : State
  pub handler : Option ℕ
  pub loop : EventLoop
  pub in_buffer : StreamBuffer
  pub out_buffer : StreamBuffer
  pub received_callback : Bool
  pub connected_callback : Bool

-- What the loop and the socket take, and the address of the next handler that `new` makes.
pub record AsyncEnv : Type 0 where
  pub loop_env : Env
  pub tcp_env : TcpEnv
  pub next_handler : ℕ

abbrev pub BoolAction : Type 0
BoolAction = AsyncTcpSocket → Outcome (Bool × AsyncTcpSocket)

-- An action of the socket inside the whole.
abbrev pub on_socket :
    {A : Type 0} → (State → Outcome (A × State)) → AsyncTcpSocket → Outcome (A × AsyncTcpSocket)
on_socket m a = m a.socket ▹ λ (r, s). ok (r, record a { socket = s })

-- The same with a null error argument.
abbrev pub on_socket_silent :
    {A : Type 0} → (State → Outcome (A × State)) → AsyncTcpSocket → Outcome (A × AsyncTcpSocket)
on_socket_silent m a = m (record (a.socket) { error = none }) ▹ λ (r, s).
    ok (r, record a { socket = record s { error = a.socket.error } })

module _ (env : AsyncEnv) (inside : Bool) where
  -- `new EventHandler(_loop, GetSocket())` and its two callbacks
  unfoldable pub new_handler : ℕ → BoolAction
  unfolding create_handler
  new_handler d a = create_handler env.loop_env inside env.next_handler d a.loop ▹ λ l. ok (
    true,
    record a {
      handler = some env.next_handler;
      loop =
          put_handler env.next_handler
            (record (l.objects env.next_handler) { read_callback = true; write_callback = true }) l;
    },
  )

  -- `if(!_handler) ...`; `new` does not fail
  unfoldable pub make_handler : ℕ → BoolAction
  unfolding new_handler
  make_handler d a = elim a.handler [ none ↦ new_handler d a | some h ↦ ok (true, a) ]

  -- InitHandler(e), with the loop set
  unfoldable pub init_handler : BoolAction
  unfolding block make_handler
  init_handler a = elim a.socket.fd [
    | none ↦ ok (
      false,
      record a {
        socket = record (a.socket) {
          error = set_error_of logic_error env.tcp_env.msg (some ebadf) a.socket.error;
        };
      },
    )
    | some d ↦ on_socket (block env.tcp_env.msg false) a ▹ λ (r, a').
        if r then make_handler d a' else ok (false, a')
  ]

  -- `_handler->EnableWriting()`
  unfoldable pub enable_handler : BoolAction
  unfolding enable_writing
  enable_handler a = elim a.handler [
    | none ↦ fault aborted
    | some h ↦ enable_writing env.loop_env inside h a.loop ▹ λ (b, l). ok (b, record a { loop = l })
  ]

  -- EnableReading(e)
  unfoldable pub enable_to_read : BoolAction
  unfolding init_handler enable_reading
  enable_to_read a = init_handler a ▹ λ (r, a').
      if r
      then elim a'.handler [
        | none ↦ fault aborted
        | some h ↦
            enable_reading env.loop_env inside h a'.loop ▹ λ (b, l). ok (b, record a' { loop = l })
      ]
      else ok (false, a')

  -- EnableWriting(), without an error argument
  unfoldable pub enable : BoolAction
  unfolding init_handler enable_handler
  enable a = init_handler (record a { socket = record (a.socket) { error = none } }) ▹ λ (r, a').
      let a'' = record a' { socket = record (a'.socket) { error = a.socket.error } } in
      if r then enable_handler a'' else ok (false, a'')

-- `_out_buffer.Write(p, n)`
abbrev pub buffer : Bytes → BoolAction
buffer p a = write p a.out_buffer ▹ λ (r, b).
    ok (elim r [ none ↦ false | some o ↦ true ], record a { out_buffer = b })

-- `if(!_out_buffer.Empty()) EnableWriting();`
unfoldable pub enable_if_buffered : AsyncEnv → AsyncTcpSocket → Outcome AsyncTcpSocket
unfolding enable
enable_if_buffered env a =
    if is_empty a.out_buffer then ok a else (enable env true a ▹ λ (b, a'). ok a')

-- `sent < n`, which compares without sign, so that -1 is not less
unfoldable pub is_short : Option ℕ → ℕ → Bool
is_short none n = false
is_short (some k) n = ltb k n

-- The bytes from `off` on
unfoldable pub unsent : Option ℕ → Bytes → Bytes
unsent none p = p
unsent (some k) p = drop k p

-- The non-blocking send, made only while the buffer is empty
abbrev pub send_directly : AsyncEnv → Bytes → AsyncTcpSocket → Outcome (Option ℕ × AsyncTcpSocket)
send_directly env p a =
    if is_empty a.out_buffer
    then on_socket (send_within env.tcp_env (some 0) p) a
    else ok (some 0, a)

-- `if(sent < n)`: the rest is buffered, and the result is then `n`
unfoldable pub buffer_rest : Bytes → Option ℕ → AsyncTcpSocket → Outcome (Option ℕ × AsyncTcpSocket)
unfolding is_short unsent
buffer_rest p sent a =
    if is_short sent (length p)
    then (buffer (unsent sent p) a ▹ λ (r, a'). ok ((if r then some (length p) else sent), a'))
    else ok (sent, a)

-- Send(p, n, e) in the thread of the loop
unfoldable pub send_inside : AsyncEnv → Bytes → AsyncTcpSocket → Outcome (Option ℕ × AsyncTcpSocket)
unfolding send_within enable_if_buffered buffer_rest
send_inside env p a = send_directly env p a ▹ λ (sent, a₁).
    buffer_rest p sent a₁ ▹ λ (result, a₂). enable_if_buffered env a₂ ▹ λ a₃. ok (result, a₃)

-- Send(p, n, e) in another thread
unfoldable pub send_outside :
    AsyncEnv → Bytes → AsyncTcpSocket → Outcome (Option ℕ × AsyncTcpSocket)
unfolding enable
send_outside env p a = buffer p a ▹ λ (r, a₁).
    if r then (enable env false a₁ ▹ λ (b, a₂). ok (some (length p), a₂)) else ok (some 0, a₁)

-- `_out_buffer.Read(sent)` where something was sent
abbrev pub drop_sent : Option ℕ → AsyncTcpSocket → AsyncTcpSocket
drop_sent none a = a
drop_sent (some zero) a = a
drop_sent (some (suc k)) a = record a { out_buffer = (advance_read (suc k) a.out_buffer).1 }

-- The first half of OnWrite(s): ::send of what is unread
unfoldable pub send_buffered : AsyncEnv → AsyncTcpSocket → Outcome AsyncTcpSocket
unfolding send readable
send_buffered env a =
    if readable a.out_buffer == 0
    then ok a
    else (pending a.out_buffer ▹ λ p.
        on_socket_silent (send env.tcp_env.msg p 0) a ▹ λ (sent, a'). ok (drop_sent sent a'))

-- `_handler->DisableWriting()`
unfoldable pub disable : AsyncEnv → AsyncTcpSocket → Outcome AsyncTcpSocket
unfolding disable_writing
disable env a = elim a.handler [
  | none ↦ fault aborted
  | some h ↦ disable_writing env.loop_env true h a.loop ▹ λ l. ok (record a { loop = l })
]

-- OnWrite(s)
unfoldable pub on_write : AsyncEnv → AsyncTcpSocket → Outcome AsyncTcpSocket
unfolding send_buffered disable readable
on_write env a =
    send_buffered env a ▹ λ a'. if readable a'.out_buffer == 0 then disable env a' else ok a'
