-- ===== src/TcpAcceptor.antt =====
-- `TcpAcceptor` of netb/TcpAcceptor.hpp and netb/TcpAcceptor.cpp. The descriptor stands in the state of
-- its socket; a backlog or a timeout below 0 is `none`.
pub mod Opening
pub mod Accepting
use netb.Prelude.{ℕ, Bool, true, false, Option, none, some, Outcome, ok, ◌▹◌, if◌then◌else◌, ltb}
use netb.Memory.{Bytes}
use netb.SocketAddress.{SocketAddress, reset, family, is_unspecified, af_inet}
use netb.SocketSelector.{event_read}
use netb.Errors.{set_error_of, logic_error, einval}
use netb.Socket.{
  State, Action, ◌⟫◌, give, create, reuse, bind, listen, close, block, accept, wait_for,
}
use netb.Socket.Inquiry.{Known, address}
use netb.Socket.Throwing.{Throws, throwing, throwing_value}
use netb.TcpSocket.{TcpEnv, and_then, or_error}

-- `_address`, `_reuse_addr`, `_reuse_port` and `_backlog`
pub record TcpAcceptor : Type 0 where
  pub local : SocketAddress
  pub reuse_addr : Bool
  pub reuse_port : Bool
  pub backlog : Option ℕ

-- TcpAcceptor(), TcpAcceptor(family) and TcpAcceptor(addr, reuse_addr, reuse_port)
unfoldable pub new_acceptor : TcpAcceptor
unfolding reset
new_acceptor = record { local = reset 0; reuse_addr = false; reuse_port = false; backlog = none }

unfoldable pub new_of_family : ℕ → TcpAcceptor
unfolding reset
new_of_family f = record { local = reset f; reuse_addr = false; reuse_port = false; backlog = none }

unfoldable pub new_at : SocketAddress → Bool → Bool → TcpAcceptor
new_at addr ra rp = record { local = addr; reuse_addr = ra; reuse_port = rp; backlog = none }

-- SetBacklog(backlog)
unfoldable pub set_backlog : Option ℕ → TcpAcceptor → TcpAcceptor
set_backlog n a = record a { backlog = n }

-- SOL_SOCKET, SO_REUSEADDR, SO_REUSEPORT, SOMAXCONN, and a flag as the bytes of an int
pub record Options : Type 0 where
  pub level : ℕ
  pub addr_option : ℕ
  pub port_option : ℕ
  pub somaxconn : ℕ
  pub flag : Bool → Bytes

module _ (env : TcpEnv) (opts : Options) where
  -- SET_LOGIC_ERROR(e, "...", ErrorCode::INVAL); return false;
  unfoldable pub refuse : Action Bool
  unfolding set_error_of
  refuse s = ok (false, record s { error = set_error_of logic_error env.msg (some einval) s.error })

  -- `!Valid() && !Create(...)`: an open socket is kept
  unfoldable pub open_if_closed : TcpAcceptor → SocketAddress → Action Bool
  unfolding create family is_unspecified
  open_if_closed a addr s = elim s.fd [
    | some d ↦ ok (true, s)
    | none ↦
        create env.msg (if is_unspecified a.local then family addr else family a.local) env.stream
          env.tcp s
  ]

  -- What follows the opening: `||` of the two options, and `&&` of Bind and Listen
  unfoldable pub set_up : Option ℕ → SocketAddress → Bool → Bool → Action Bool
  unfolding reuse bind listen
  set_up backlog addr ra rp = and_then (reuse env.msg opts.level opts.addr_option opts.flag ra) (
      and_then (reuse env.msg opts.level opts.port_option opts.flag rp)
        (and_then (bind env.msg addr) (listen env.msg opts.somaxconn backlog)))

  -- Open(addr, reuse_addr, reuse_port, e); Open(addr, e) is that with both true
  unfoldable pub open_at : TcpAcceptor → SocketAddress → Bool → Bool → Action Bool
  unfolding refuse open_if_closed set_up is_unspecified
  open_at a addr ra rp =
      if is_unspecified addr
      then refuse
      else and_then (open_if_closed a addr) (set_up a.backlog addr ra rp)

  -- Open(e), which fixes the family of an acceptor without an address
  unfoldable pub open_own : TcpAcceptor → State → Outcome (Bool × TcpAcceptor × State)
  unfolding open_at is_unspecified reset
  open_own a s =
      let a' = if is_unspecified a.local then record a { local = reset af_inet } else a in
      open_at a' a'.local a'.reuse_addr a'.reuse_port s ▹ λ (b, s'). ok (b, a', s')

  -- Open(addr, reuse_addr, reuse_port), which throws
  unfoldable pub open_at_or_throw : TcpAcceptor → SocketAddress → Bool → Bool → Throws Bool
  unfolding throwing open_at
  open_at_or_throw a addr ra rp = throwing (open_at a addr ra rp)

module _ (env : TcpEnv) where
  -- Close(e)
  unfoldable pub close_acceptor : Action Bool
  unfolding close
  close_acceptor = close env.msg

  -- Address(e)
  unfoldable pub acceptor_address : Known → TcpAcceptor → Action SocketAddress
  unfolding address
  acceptor_address known a s = elim s.fd [
    | none ↦ ok (a.local, s)
    | some d ↦ address known env.msg s
  ]

  -- Accept(e) and Accept(timeout, e); AcceptFrom makes the same calls and fills its address
  unfoldable pub accept_within : Option ℕ → Action (Option ℕ)
  unfolding block accept wait_for
  accept_within none = or_error (block env.msg true) (accept env.msg)
  accept_within (some t) = or_error (block env.msg false) (
      if ltb 0 t
      then or_error (wait_for env.msg env.make_heap event_read) (accept env.msg)
      else accept env.msg)

  -- Accept(timeout) and Accept(), which throw
  unfoldable pub accept_within_or_throw : Option ℕ → Throws (Option ℕ)
  unfolding throwing_value accept_within
  accept_within_or_throw timeout = throwing_value (accept_within timeout)
