-- ===== src/Socket/Inquiry.antt =====
-- What `Socket` tells about itself: its addresses, its family and its type. The environment says
-- what ::getsockname, ::getpeername and ::getsockopt write.
use netb.Prelude.{ℕ, true, false, Option, none, some, ok, ◌▹◌}
use netb.Memory.{Bytes}
use netb.Errors.{name_call}
use netb.SocketAddress.{SocketAddress, reset, family, af_unspec}
use netb.Socket.{
  Descriptor, Action, ◌⟫◌, give, system, failed, done, report_error, SystemCall, sys_get_name,
  sys_get_peer, get_option,
}

-- What the system knows of a descriptor, and SOL_SOCKET and SO_TYPE.
pub record Known : Type 0 where
  pub name : Descriptor → SocketAddress
  pub peer : Descriptor → SocketAddress
  pub type : Descriptor → ℕ
  pub socket_level : ℕ
  pub type_option : ℕ

-- A call that is given no error argument
abbrev pub silently : {A : Type 0} → Action A → Action A
silently m s = m (record s { error = none }) ▹ λ (a, s'). ok (a, record s' { error = s.error })

-- The address that a call writes; where it fails, the zeros stay.
unfoldable pub named : Bytes → SystemCall → SocketAddress → Action SocketAddress
unfolding system report_error
named msg sys found = system sys ⟫ λ r. elim r [
  | failed x ↦ report_error name_call msg x ⟫ λ b. give (reset af_unspec)
  | done n ↦ give found
]

module _ (known : Known) (msg : Bytes) where
  -- Address(e)
  unfoldable pub address : Action SocketAddress
  unfolding named
  address s = named msg (sys_get_name s.fd) (known.name s.fd) s

  -- ConnectedAddress(e)
  unfoldable pub connected_address : Action SocketAddress
  unfolding named
  connected_address s = named msg (sys_get_peer s.fd) (known.peer s.fd) s

  -- Family(e) and Domain(e)
  unfoldable pub socket_family : Action ℕ
  unfolding address family
  socket_family s = (address ⟫ λ a. give (family a)) s

  -- Type(e): -1 is `none`
  unfoldable pub socket_type : Action (Option ℕ)
  unfolding get_option
  socket_type s =
      (get_option msg known.socket_level known.type_option ⟫ λ r. elim r [
        | true ↦ give (some (known.type s.fd))
        | false ↦ give none
      ])
        s
