-- ===== src/AsyncUdpSocket.antt =====
-- `AsyncUdpSocket` of netb/AsyncUdpSocket.hpp and netb/AsyncUdpSocket.cpp: a datagram socket with a
-- handler in an event loop and a queue of datagrams to send. `inside` says whether the calling
-- thread is the loop's; `new` does not fail.
pub mod Draining
use netb.Prelude.{
  ℕ, zero, suc, List, [], ◌∷◌, ◌++◌, take, length, Bool, true, false, Option, none, some, Outcome,
  ok, fault, aborted, ◌▹◌, if◌then◌else◌,
}
use netb.Memory.{Bytes}
use netb.SocketAddress.{SocketAddress, is_unspecified, reset}
use netb.Errors.{logic_error, ebadf, eacces}
use netb.Socket.{State, block, send, send_to, receive_from, close}
use netb.StreamBuffer.{StreamBuffer, create_with, pending, writable, writable_size}
use netb.StreamBuffer.External.{fill}
use netb.TcpSocket.{refused}
use netb.UdpSocket.{UdpEnv, open_at}
use netb.AsyncTcpSocket.{is_short}
use netb.EventLoop.{
  EventLoop, EventHandler, Env, create_handler, put_handler, enable_reading, enable_writing,
  disable_writing, detach,
}

-- BufferAddress; a connected socket's datagram has an empty address
pub record Datagram : Type 0 where
  pub buf : StreamBuffer
  pub addr : SocketAddress

-- The socket, `_address`, `_handler`, the loop, `_in_buffer`, `_out_buffers` and whether the
-- application has set `_received_callback`
pub record AsyncUdpSocket : Type 0 where
  pub socket : State
  pub local : SocketAddress
  pub handler : Option ℕ
  pub loop : EventLoop
  pub in_buffer : StreamBuffer
  pub out_buffers : List Datagram
  pub received_callback : Bool

-- What the loop and the socket take, the address of the next handler,
-- DEFAULT_BUFFER_SIZE and MAX_BUFFER_SIZE
pub record AsyncUdpEnv : Type 0 where
  pub loop_env : Env
  pub udp_env : UdpEnv
  pub next_handler : ℕ
  pub default_size : ℕ
  pub max_buffer : ℕ

abbrev pub BoolAction : Type 0
BoolAction = AsyncUdpSocket → Outcome (Bool × AsyncUdpSocket)

-- An action of the socket inside the whole.
abbrev pub on_socket :
    {A : Type 0} → (State → Outcome (A × State)) → AsyncUdpSocket → Outcome (A × AsyncUdpSocket)
on_socket m a = m a.socket ▹ λ (r, s). ok (r, record a { socket = s })

-- The same with a null error argument.
abbrev pub silent : {A : Type 0} → (State → Outcome (A × State)) → State → Outcome (A × State)
silent m s = m (record s { error = none }) ▹ λ (r, s'). ok (r, record s' { error = s.error })

module _ (env : AsyncUdpEnv) (inside : Bool) where
  -- `if(!_handler) ...` of InitHandler
  unfoldable pub make_handler : ℕ → AsyncUdpSocket → Outcome (ℕ × AsyncUdpSocket)
  unfolding create_handler
  make_handler d a = elim a.handler [
    | some h ↦ ok (h, a)
    | none ↦ create_handler env.loop_env inside env.next_handler d a.loop ▹ λ l. ok (
      env.next_handler,
      record a {
        handler = some env.next_handler;
        loop =
            put_handler env.next_handler
              (record (l.objects env.next_handler) { read_callback = true; write_callback = true })
              l;
      },
    )
  ]

  -- InitHandler(e), with the loop set, and then a function of the handler
  unfoldable pub with_handler : (ℕ → EventLoop → Outcome (Bool × EventLoop)) → BoolAction
  unfolding refused block make_handler
  with_handler f a = elim a.socket.fd [
    | none ↦ on_socket (refused env.udp_env.msg logic_error ebadf) a
    | some d ↦ on_socket (block env.udp_env.msg false) a ▹ λ (r, a₁).
        if r
        then (make_handler d a₁ ▹ λ (h, a₂). f h a₂.loop ▹ λ (b, l). ok (b, record a₂ { loop = l }))
        else ok (false, a₁)
  ]

  -- EnableReading(e)
  unfoldable pub enable_to_read : BoolAction
  unfolding with_handler enable_reading
  enable_to_read = with_handler (enable_reading env.loop_env inside)

  -- EnableWriting(), without an error argument
  unfoldable pub enable_to_write : BoolAction
  unfolding with_handler enable_writing
  enable_to_write a =
      with_handler (enable_writing env.loop_env inside)
        (record a { socket = record (a.socket) { error = none } })
      ▹ λ (b, a'). ok (b, record a' { socket = record (a'.socket) { error = a.socket.error } })

  -- Close(e), where UdpSocket::Close is that of Socket
  unfoldable pub close_async : BoolAction
  unfolding close
  close_async a =
      (elim a.handler [
        | none ↦ ok a
        | some h ↦
            detach env.loop_env inside h a.loop ▹ λ l. ok (record a { handler = none; loop = l })
      ])
      ▹ λ a'. on_socket (close env.udp_env.msg) a'

  -- `Close();`, without an error argument, and `return false;`
  unfoldable pub clean_up : BoolAction
  unfolding close_async
  clean_up a = close_async (record a { socket = record (a.socket) { error = none } }) ▹ λ (b, a').
      ok (false, record a' { socket = record (a'.socket) { error = a.socket.error } })

  -- Open(addr, reuse_addr, reuse_port, e)
  unfoldable pub open_async : SocketAddress → Bool → Bool → BoolAction
  unfolding open_at enable_to_read clean_up
  open_async addr ra rp a = on_socket (open_at env.udp_env a.local addr ra rp) a ▹ λ (r, a').
      if r
      then (enable_to_read a' ▹ λ (b, a''). if b then ok (true, a'') else clean_up a'')
      else clean_up a'

-- `_out_buffers.push(...)` of a new buffer; without an address, the one of BufferAddress is empty
unfoldable pub enqueue :
    AsyncUdpEnv → Bytes → Option SocketAddress → AsyncUdpSocket → Outcome AsyncUdpSocket
unfolding reset
enqueue env p to a = create_with p env.default_size env.max_buffer ▹ λ b.
    let addr : SocketAddress = elim to [ none ↦ reset 0 | some x ↦ x ] in
    ok (record a { out_buffers = a.out_buffers ++ record { buf = b; addr = addr } ∷ [] })

-- `_out_buffers.empty()`
unfoldable pub no_datagrams : List Datagram → Bool
no_datagrams [] = true
no_datagrams (d ∷ ds) = false

-- SendTo and Send with a timeout, ReceiveFrom and Receive, which are not for this mode: -1
unfoldable pub not_in_this_mode : Bytes → State → Outcome (Option ℕ × State)
unfolding refused
not_in_this_mode msg s = refused msg logic_error eacces s ▹ λ (b, s'). ok (none, s')

module _ (env : AsyncUdpEnv) where
  -- A queued datagram: Send where its address is empty, else SendTo
  unfoldable pub send_one : Bytes → SocketAddress → State → Outcome (Option ℕ × State)
  unfolding send send_to is_unspecified
  send_one p addr s =
      if is_unspecified addr then send env.udp_env.msg p 0 s else send_to env.udp_env.msg p 0 addr s

  -- SendTo(p, n, addr, e), and Send(p, n, e) without an address, in another thread
  unfoldable pub send_outside :
      Bytes → Option SocketAddress → AsyncUdpSocket → Outcome (Option ℕ × AsyncUdpSocket)
  unfolding enqueue enable_to_write
  send_outside p to a =
      enqueue env p to a ▹ λ a₁. enable_to_write env false a₁ ▹ λ (b, a₂). ok (some (length p), a₂)

  -- The direct sending in the loop, made only while nothing is queued
  unfoldable pub send_directly :
      Bytes → Option SocketAddress → AsyncUdpSocket → Outcome (Option ℕ × AsyncUdpSocket)
  unfolding send send_to no_datagrams
  send_directly p to a =
      if no_datagrams a.out_buffers
      then (elim to [
        | none ↦ on_socket (send env.udp_env.msg p 0) a
        | some addr ↦ on_socket (send_to env.udp_env.msg p 0 addr) a
      ])
      else ok (some 0, a)

  -- The same in the loop: what is returned is the number that was sent at once
  unfoldable pub send_inside :
      Bytes → Option SocketAddress → AsyncUdpSocket → Outcome (Option ℕ × AsyncUdpSocket)
  unfolding send_directly is_short enqueue enable_to_write
  send_inside p to a = send_directly p to a ▹ λ (sent, a₁).
      if is_short sent (length p)
      then (enqueue env p to a₁ ▹ λ a₂. enable_to_write env true a₂ ▹ λ (b, a₃). ok (sent, a₃))
      else ok (sent, a₁)

  -- The loop of OnWrite: a datagram leaves the queue once something of it is sent
  unfoldable pub drain : List Datagram → State → Outcome (List Datagram × State)
  unfolding send_one
  drain [] s = ok ([], s)
  drain (d ∷ ds) s = pending d.buf ▹ λ p. silent (send_one p d.addr) s ▹ λ (r, s'). elim r [
    | none ↦ ok (d ∷ ds, s')
    | some zero ↦ ok (d ∷ ds, s')
    | some (suc n) ↦ drain ds s'
  ]

  -- OnWrite(s) on the own socket
  unfoldable pub on_write : AsyncUdpSocket → Outcome AsyncUdpSocket
  unfolding drain no_datagrams disable_writing
  on_write a = drain a.out_buffers a.socket ▹ λ (ds, s).
      let a' = record a { out_buffers = ds; socket = s } in
      if no_datagrams ds
      then elim a.handler [
        | none ↦ fault aborted
        | some h ↦ disable_writing env.loop_env true h a.loop ▹ λ l. ok (record a' { loop = l })
      ]
      else ok a'

  -- OnRead(s) on the own socket, where `incoming` is what ::recvfrom has put at _in_buffer.Write()
  unfoldable pub on_read :
      (AsyncUdpSocket → Outcome AsyncUdpSocket) → Bytes → AsyncUdpSocket → Outcome AsyncUdpSocket
  unfolding writable writable_size receive_from fill
  on_read received incoming a = writable 2048 a.in_buffer ▹ λ (r, b).
      let a₁ = record a { in_buffer = b } in
      if r
      then (silent (receive_from env.udp_env.msg (writable_size b) 0) a.socket ▹ λ (n, s).
          let a₂ = record a₁ { socket = s } in
          elim n [
            | none ↦ ok a₂
            | some zero ↦ ok a₂
            | some (suc k) ↦ fill (take (suc k) incoming) b ▹ λ b'.
                let a₃ = record a₂ { in_buffer = b' } in
                if a.received_callback then received a₃ else ok a₃
          ])
      else ok a₁
