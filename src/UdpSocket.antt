-- ===== src/UdpSocket.antt =====
-- `UdpSocket` of netb/UdpSocket.hpp and netb/UdpSocket.cpp: opening, connecting, sending and
-- receiving. `local` is `_address`; a timeout below 0 is `none`, and a result of -1, too. `incoming` is
-- what ::recv or ::recvfrom puts into a buffer.
pub mod Receiving
pub mod Modes
use netb.Prelude.{
  ℕ, List, Bool, true, false, Option, none, some, Outcome, ok, fault, aborted, ◌▹◌, if◌then◌else◌,
  ltb,
}
use netb.Memory.{Bytes}
use netb.SocketSelector.{event_read, event_write}
use netb.Errors.{Error, set_error_of, logic_error, einval}
use netb.SocketAddress.{family, is_unspecified, reset, af_inet}
use netb.Socket.{
  State, Action, ◌⟫◌, give, Address, create, connect, bind, reuse, block, send, send_to, receive,
  receive_from, wait_for,
}
use netb.StreamBuffer.{StreamBuffer, pending, advance_read}
use netb.TcpSocket.{and_then, or_error, receive_into}
use netb.Socket.Inquiry.{Known, address}
use netb.Socket.Throwing.{Throws, throwing}

-- What the functions take beside the state: std::make_heap, the text of messages, the system's
-- constants, and the bytes of an option's flag.
pub record UdpEnv : Type 0 where
  pub make_heap : List ℕ → List ℕ
  pub msg : Bytes
  pub dgram : ℕ
  pub udp : ℕ
  pub sol_socket : ℕ
  pub so_reuseaddr : ℕ
  pub so_reuseport : ℕ
  pub flag : Bool → Bytes

module _ (env : UdpEnv) where
  -- `!Valid() && !Create(...)`: an open socket is kept
  unfoldable pub open_if_closed : Address → Address → Action Bool
  unfolding create family is_unspecified
  open_if_closed local addr s = elim s.fd [
    | some d ↦ ok (true, s)
    | none ↦
        create env.msg (if is_unspecified local then family addr else family local) env.dgram
          env.udp s
  ]

  -- `SET_LOGIC_ERROR(e, ..., ErrorCode::INVAL);` for an empty address
  abbrev pub refuse : State → State
  refuse s = record s { error = set_error_of logic_error env.msg (some einval) s.error }

  -- Open(addr, reuse_addr, reuse_port, e)
  unfoldable pub open_at : Address → Address → Bool → Bool → Action Bool
  unfolding is_unspecified open_if_closed reuse bind
  open_at local addr reuse_addr reuse_port s =
      if is_unspecified addr
      then ok (false, refuse s)
      else and_then (open_if_closed local addr)
          (and_then (reuse env.msg env.sol_socket env.so_reuseaddr env.flag reuse_addr) (
            and_then (reuse env.msg env.sol_socket env.so_reuseport env.flag reuse_port)
              (bind env.msg addr)))
          s

  -- Open(e), beside `_address` after it
  unfoldable pub open_own : Address → Bool → Bool → State → Outcome (Bool × Address × State)
  unfolding is_unspecified reset open_at
  open_own local reuse_addr reuse_port s =
      let own = if is_unspecified local then reset af_inet else local in
      open_at own own reuse_addr reuse_port s ▹ λ (b, s'). ok (b, own, s')

  -- Connect(addr, e)
  unfoldable pub connect_to : Address → Address → Action Bool
  unfolding open_if_closed connect
  connect_to local addr = and_then (open_if_closed local addr) (connect env.msg addr)

  -- `if(timeout > 0 && !WaitFor...(timeout, e)) return -1;` before `k`
  abbrev pub ready : ℕ → ℕ → Action (Option ℕ) → Action (Option ℕ)
  ready t event k = if ltb 0 t then or_error (wait_for env.msg env.make_heap event) k else k

  -- `if(Socket::Block(false, e)) return -1;` before `k`
  abbrev pub unless_unblocked : Action (Option ℕ) → Action (Option ℕ)
  unless_unblocked k = block env.msg false ⟫ λ r. elim r [ true ↦ give none | false ↦ k ]

  -- The two tests in front of SendTo, which return `false`, that is 0
  abbrev pub addressed : Address → Address → Action (Option ℕ) → Action (Option ℕ)
  addressed local addr k s =
      if is_unspecified addr
      then ok (some 0, refuse s)
      else (open_if_closed local addr ⟫ λ r. elim r [ true ↦ k | false ↦ give (some 0) ]) s

  -- SendTo(p, n, addr, timeout, e); SendTo(p, n, addr, e) is that without a timeout
  unfoldable pub send_to_within : Option ℕ → Address → Address → Bytes → Action (Option ℕ)
  unfolding is_unspecified open_if_closed block send_to wait_for
  send_to_within none local addr p =
      addressed local addr (or_error (block env.msg true) (send_to env.msg p 0 addr))
  send_to_within (some t) local addr p =
      addressed local addr (unless_unblocked (ready t event_write (send_to env.msg p 0 addr)))

  -- Send(p, n, timeout, e); Send(p, n, e) is that without a timeout
  unfoldable pub send_within : Option ℕ → Bytes → Action (Option ℕ)
  unfolding block send wait_for
  send_within none p = or_error (block env.msg true) (send env.msg p 0)
  send_within (some t) p = unless_unblocked (ready t event_write (send env.msg p 0))

  -- ReceiveFrom(p, n, addr, timeout, e) with an address; without a timeout ReceiveFrom(p, n, addr, e)
  unfoldable pub receive_from_within : Option ℕ → ℕ → Action (Option ℕ)
  unfolding block receive_from wait_for
  receive_from_within none n = or_error (block env.msg true) (receive_from env.msg n 0)
  receive_from_within (some t) n =
      or_error (block env.msg false) (ready t event_read (receive_from env.msg n 0))

  -- `assert(p != NULL && n > 0);` before `k`
  abbrev pub checked_size : ℕ → Action (Option ℕ) → Action (Option ℕ)
  checked_size n k s = if ltb 0 n then k s else fault aborted

  -- Receive(p, n, e)
  unfoldable pub receive_blocking : ℕ → Action (Option ℕ)
  unfolding block receive
  receive_blocking n = checked_size n (or_error (block env.msg true) (receive env.msg n 0))

  -- Receive(p, n, timeout, e), where a timeout below 0 does not block either
  unfoldable pub receive_within : Option ℕ → ℕ → Action (Option ℕ)
  unfolding block receive wait_for
  receive_within none n = checked_size n (or_error (block env.msg false) (receive env.msg n 0))
  receive_within (some t) n =
      checked_size n (or_error (block env.msg false) (ready t event_read (receive env.msg n 0)))

  -- ReceiveFrom(buf, addr, timeout, e) and ReceiveFrom(buf, addr, e)
  unfoldable pub receive_from_buffer :
      Option ℕ → Bytes → StreamBuffer → State → Outcome (Option ℕ × StreamBuffer × State)
  unfolding receive_into receive_from_within
  receive_from_buffer timeout = receive_into env.msg (receive_from_within timeout)

  -- Receive(buf, e)
  unfoldable pub receive_buffer_blocking :
      Bytes → StreamBuffer → State → Outcome (Option ℕ × StreamBuffer × State)
  unfolding receive_into receive_blocking
  receive_buffer_blocking = receive_into env.msg receive_blocking

  -- Receive(buf, timeout, e)
  unfoldable pub receive_buffer_within :
      Option ℕ → Bytes → StreamBuffer → State → Outcome (Option ℕ × StreamBuffer × State)
  unfolding receive_into receive_within
  receive_buffer_within timeout = receive_into env.msg (receive_within timeout)

  -- Address(e)
  unfoldable pub udp_address : Known → Address → Action Address
  unfolding address
  udp_address known local s = elim s.fd [ none ↦ ok (local, s) | some d ↦ address known env.msg s ]

  -- Open(addr, reuse_addr, reuse_port) and Connect(addr), which throw
  unfoldable pub open_at_or_throw : Address → Address → Bool → Bool → Throws Bool
  unfolding throwing open_at
  open_at_or_throw local addr reuse_addr reuse_port =
      throwing (open_at local addr reuse_addr reuse_port)

  unfoldable pub connect_to_or_throw : Address → Address → Throws Bool
  unfolding throwing connect_to
  connect_to_or_throw local addr = throwing (connect_to local addr)

  -- Send(buf, timeout, e)
  unfoldable pub send_buffer :
      Option ℕ → StreamBuffer → State → Outcome (Option ℕ × StreamBuffer × State)
  unfolding send_within
  send_buffer timeout b s = pending b ▹ λ p. send_within timeout p s ▹ λ (r, s').
      ok (r, elim r [ none ↦ b | some n ↦ if ltb 0 n then (advance_read n b).1 else b ], s')
