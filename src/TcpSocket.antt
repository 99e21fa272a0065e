-- ===== src/TcpSocket.antt =====
-- `TcpSocket` of netb/TcpSocket.hpp and netb/TcpSocket.cpp: connecting, sending and receiving. The given local
-- address is `none` where it is empty; a timeout below 0 is `none`. `stream` and `tcp`
-- are SOCK_STREAM and IPPROTO_TCP.
pub mod Connecting
pub mod Sending
pub mod Receiving
pub mod Established
use netb.Prelude.{
  ℕ, List, take, Bool, true, false, not, ◌&&◌, Option, none, some, Outcome, ok, fault, aborted, ◌▹◌,
  if◌then◌else◌, ltb, ◌==◌,
}
use netb.Memory.{Bytes}
use netb.SocketSelector.{event_read, event_write}
use netb.Errors.{
  ErrorClass, logic_error, runtime_error, set_error_of, ebadf, eprototype, einval, enobufs, Errno,
  in_progress, no_error, Error,
}
use netb.Socket.{
  Descriptor, State, Action, ◌⟫◌, give, Address, create, connect, block, send, receive, wait_for,
  attach, close,
}
use netb.Socket.Throwing.{Throws, throwing}
use netb.Socket.Inquiry.{Known, silently, socket_type, address, connected_address}
use netb.SocketAddress.{SocketAddress, family, is_unspecified, not_equal}
use netb.StreamBuffer.{StreamBuffer, pending, advance_read, writable, writable_size}
use netb.StreamBuffer.External.{fill}

-- What the functions take beside the state: std::make_heap, the text of messages, and the two
-- constants.
pub record TcpEnv : Type 0 where
  pub make_heap : List ℕ → List ℕ
  pub msg : Bytes
  pub stream : ℕ
  pub tcp : ℕ

-- `if(!a) return false;` before `b`
abbrev pub and_then : Action Bool → Action Bool → Action Bool
and_then a b = a ⟫ λ r. elim r [ true ↦ b | false ↦ give false ]

-- `if(!a) return -1;` before `b`
abbrev pub or_error : Action Bool → Action (Option ℕ) → Action (Option ℕ)
or_error a b = a ⟫ λ r. elim r [ true ↦ b | false ↦ give none ]

module _ (env : TcpEnv) where
  -- `!Valid() && !Create(...)`: an open socket is kept
  unfoldable pub open_if_closed : Option Address → Address → Action Bool
  unfolding create
  open_if_closed local addr s = elim s.fd [
    | some d ↦ ok (true, s)
    | none ↦
        create env.msg (elim local [ none ↦ family addr | some a ↦ family a ]) env.stream env.tcp s
  ]

  -- `!_address.Empty() && !_address.Any() && ...`, where Any() fails its assert
  unfoldable pub bind_local : Option Address → Action Bool
  bind_local local s = elim local [ none ↦ ok (true, s) | some a ↦ fault aborted ]

  -- DoConnect(addr, block, e)
  unfoldable pub do_connect : Option Address → Address → Bool → Action Bool
  unfolding open_if_closed bind_local block connect
  do_connect local addr b =
      and_then (open_if_closed local addr)
        (and_then (bind_local local) (and_then (block env.msg b) (connect env.msg addr)))

  -- WaitForWrite(timeout, e) and RESET_ERROR(e) after a failed DoConnect
  unfoldable pub await_connected : Action Bool
  unfolding in_progress wait_for
  await_connected s = elim s.errno [
    | none ↦ ok (false, s)
    | some x ↦
        if in_progress x
        then (and_then (wait_for env.msg env.make_heap event_write)
            (λ s'.
              ok (
                true,
                record s' { error = elim s'.error [ none ↦ none | some e ↦ some no_error ] },
              ))
            s)
        else ok (false, s)
  ]

  -- Connect(addr, timeout, e); Connect(addr, e) is that without a timeout
  unfoldable pub connect_within : Option ℕ → Option Address → Address → Action Bool
  unfolding do_connect await_connected
  connect_within none local addr = do_connect local addr true
  connect_within (some t) local addr = do_connect local addr false ⟫ λ r. elim r [
    | true ↦ give true
    | false ↦ if ltb 0 t then await_connected else give false
  ]

  -- Send(p, n, timeout, e); Send(p, n, e) is that without a timeout
  unfoldable pub send_within : Option ℕ → Bytes → Action (Option ℕ)
  unfolding block send wait_for
  send_within none p = or_error (block env.msg true) (send env.msg p 0)
  send_within (some t) p = or_error (block env.msg false) (
      if ltb 0 t
      then or_error (wait_for env.msg env.make_heap event_write) (send env.msg p 0)
      else send env.msg p 0)

  -- Send(buf, timeout, e)
  unfoldable pub send_buffer :
      Option ℕ → StreamBuffer → State → Outcome (Option ℕ × StreamBuffer × State)
  unfolding send_within
  send_buffer timeout b s = pending b ▹ λ p. send_within timeout p s ▹ λ (r, s').
      ok (r, elim r [ none ↦ b | some n ↦ if ltb 0 n then (advance_read n b).1 else b ], s')

-- SET_..._ERROR(e, msg, code)
unfoldable pub refused : Bytes → ErrorClass → Errno → Action Bool
unfolding set_error_of
refused msg cls x s = ok (false, record s { error = set_error_of cls msg (some x) s.error })

-- `addr.Empty() && e`
unfoldable pub is_missing : SocketAddress → Option Error → Bool
unfolding is_unspecified
is_missing addr none = false
is_missing addr (some e) = is_unspecified addr

-- `if(ret > 0) buf->Write(ret);`, where `incoming` is what ::recv has put at buf->Write()
abbrev pub take_in : Bytes → Option ℕ → StreamBuffer → Outcome StreamBuffer
take_in incoming none b = ok b
take_in incoming (some n) b = if ltb 0 n then fill (take n incoming) b else ok b

-- Receiving by `recv` into a buffer, which first gets space for RECEIVE_BUFFER_SIZE bytes
unfoldable pub receive_into :
    Bytes
    → (ℕ → Action (Option ℕ))
    → Bytes
    → StreamBuffer
    → State
    → Outcome (Option ℕ × StreamBuffer × State)
unfolding refused writable
receive_into msg recv incoming b s = writable 2048 b ▹ λ (r, b₁).
    if r
    then (recv (writable_size b₁) s ▹ λ (ret, s'). take_in incoming ret b₁ ▹ λ b₂. ok (ret, b₂, s'))
    else (refused msg runtime_error enobufs s ▹ λ (f, s'). ok (none, b₁, s'))

module _ (env : TcpEnv) where
  -- Receive(p, n, timeout, e); Receive(p, n, e) is that without a timeout
  unfoldable pub receive_within : Option ℕ → ℕ → Action (Option ℕ)
  unfolding block receive wait_for
  receive_within none n = or_error (block env.msg true) (receive env.msg n 0)
  receive_within (some t) n = or_error (block env.msg false) (
      if ltb 0 t
      then or_error (wait_for env.msg env.make_heap event_read) (receive env.msg n 0)
      else receive env.msg n 0)

  -- Receive(buf, timeout, e) and Receive(buf, e)
  unfoldable pub receive_buffer :
      Option ℕ → Bytes → StreamBuffer → State → Outcome (Option ℕ × StreamBuffer × State)
  unfolding receive_into receive_within
  receive_buffer timeout = receive_into env.msg (receive_within timeout)

  -- `Type() == SOCK_STREAM`
  unfoldable pub is_stream : Option ℕ → Bool
  is_stream none = false
  is_stream (some t) = t == env.stream

  module _ (known : Known) where
    -- Connected(e), with `_connected_address`
    unfoldable pub connected : SocketAddress → Action Bool
    unfolding is_stream socket_type connected_address refused is_missing is_unspecified not_equal
    connected expected s = elim s.fd [
      | none ↦ refused env.msg logic_error ebadf s
      | some d ↦ silently (socket_type known env.msg) s ▹ λ (type, s₁).
          if is_stream type
          then (connected_address known env.msg s₁ ▹ λ (addr, s₂).
              if is_missing addr s₂.error
              then ok (false, s₂)
              else if not (is_unspecified expected) && not_equal expected addr
              then refused env.msg logic_error einval s₂
              else ok (true, s₂))
          else refused env.msg logic_error eprototype s₁
    ]

    -- Address(e) and ConnectedAddress(e), with the addresses that the object keeps
    unfoldable pub tcp_address : SocketAddress → Action SocketAddress
    unfolding address
    tcp_address local s = elim s.fd [ none ↦ ok (local, s) | some d ↦ address known env.msg s ]

    unfoldable pub tcp_connected_address : SocketAddress → Action SocketAddress
    unfolding connected_address
    tcp_connected_address expected s = elim s.fd [
      | none ↦ ok (expected, s)
      | some d ↦ connected_address known env.msg s
    ]

  -- Connected(s, addr, e): the expected address afterwards is the given one, if there is one
  unfoldable pub connected_attached :
      Known
      → Descriptor
      → Option SocketAddress
      → SocketAddress
      → State
      → Outcome (Bool × SocketAddress × State)
  unfolding attach connected
  connected_attached known d given expected s = attach env.msg d s ▹ λ (b, s₁).
      let expected' : SocketAddress = elim given [ none ↦ expected | some a ↦ a ] in
      connected known expected' s₁ ▹ λ (r, s₂). ok (r, expected', s₂)

  -- Connect(addr, timeout) and Connect(addr), which throw
  unfoldable pub connect_within_or_throw : Option ℕ → Option Address → Address → Throws Bool
  unfolding throwing connect_within
  connect_within_or_throw timeout local addr = throwing (connect_within env timeout local addr)

  -- Connected(), which throws
  unfoldable pub connected_or_throw : Known → SocketAddress → Throws Bool
  unfolding throwing connected
  connected_or_throw known expected = throwing (connected known expected)
