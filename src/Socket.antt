-- ===== src/Socket.antt =====
-- `Socket` of netb/Socket.hpp and netb/Socket.cpp and `CloseSocket` of the latter. The system answers
-- the calls from a list; what was called is kept in order. A message stands for the text that a macro
-- builds, which the model leaves open.
pub mod Interrupts
pub mod Descriptors
pub mod Modes
pub mod Inquiry
pub mod Throwing
pub mod Checks
use netb.Prelude.{
  ℕ, zero, suc, ◌+◌, List, [], ◌∷◌, ◌++◌, Bool, true, false, not, ◌&&◌, ◌||◌, Option, none, some,
  Outcome, ok, fault, undefined, aborted, starved, ◌▹◌, if◌then◌else◌, ◌==◌, length,
}
use netb.Memory.{Bytes}
use netb.SocketSelector.{
  Answer, select_failed, timed_out, active, SocketEvents, Selected, SocketSelector, event_read,
  event_write, event_except, empty_selector, set, select,
}
use netb.SocketAddress.{SocketAddress, address_length, describe}
use netb.Errors.{
  Errno, Error, Call, set_error, interrupted, throw_error, no_error, Exception, set_error_of,
  general_error, open_call, close_call, shutdown_call, bind_call, connect_call, listen_call,
  select_call, accept_call, send_call, receive_call, control_call, option_call,
}

abbrev pub Address : Type 0
Address = SocketAddress

-- INVALID_SOCKET is `none`.
abbrev pub Descriptor : Type 0
Descriptor = Option ℕ

-- The system calls, each with what it is given.
pub data SystemCall : Type 0 where
  sys_socket : ℕ → ℕ → ℕ → SystemCall
  sys_close : Descriptor → SystemCall
  sys_shutdown : Descriptor → ℕ → SystemCall
  sys_bind sys_connect : Descriptor → Address → SystemCall
  sys_listen : Descriptor → ℕ → SystemCall
  sys_accept : Descriptor → SystemCall
  sys_send : Descriptor → Bytes → ℕ → SystemCall
  sys_send_to : Descriptor → Bytes → ℕ → Address → SystemCall
  sys_receive sys_receive_from : Descriptor → ℕ → ℕ → SystemCall
  sys_get_flags : Descriptor → SystemCall
  sys_set_flags : Descriptor → Bool → SystemCall
  sys_get_name sys_get_peer : Descriptor → SystemCall
  sys_get_option : Descriptor → ℕ → ℕ → SystemCall
  sys_set_option : Descriptor → ℕ → ℕ → Bytes → SystemCall

-- What a system call answers: -1 with errno, or a value.
pub data Reply : Type 0 where
  failed : Errno → Reply
  done : ℕ → Reply

-- `fd` is `_fd`, `error` what the argument `e` points to, `errno` the last code, `calls` the system
-- calls made, and `replies` and `answers` what the system and ::select are going to answer.
pub record State : Type 0 where
  pub fd : Descriptor
  pub error : Option Error
  pub errno : Option Errno
  pub calls : List SystemCall
  pub replies : List Reply
  pub answers : List Answer

-- A function takes the state and returns its result beside the state that it leaves.
abbrev pub Action : Type 0 → Type 0
Action A = State → Outcome (A × State)

infixl 5 ◌⟫◌
abbrev pub ◌⟫◌ : {A B : Type 0} → Action A → (A → Action B) → Action B
◌⟫◌ m f s = m s ▹ λ (a, s'). f a s'

abbrev pub give : {A : Type 0} → A → Action A
give a s = ok (a, s)

-- A system call
unfoldable pub system : SystemCall → Action Reply
system c s = elim s.replies [
  | [] ↦ fault starved
  | failed x ∷ rest ↦
      ok (failed x, record s { calls = s.calls ++ c ∷ []; replies = rest; errno = some x })
  | done n ∷ rest ↦ ok (done n, record s { calls = s.calls ++ c ∷ []; replies = rest })
]

-- SET_SOCKET_..._ERROR(e, msg)
unfoldable pub report_error : Call → Bytes → Errno → Action Bool
report_error c msg x s = set_error c msg x s.error ▹ λ e. ok (false, record s { error = e })

-- `if(::call(...) == SOCKET_ERROR) { SET_..._ERROR(e, msg); return false; } return true;`
unfoldable pub checked : Call → Bytes → SystemCall → Action Bool
unfolding system report_error
checked c msg sys =
    system sys ⟫ λ r. elim r [ failed x ↦ report_error c msg x | done n ↦ give true ]

-- `while((ret = ::call(...)) == SOCKET_ERROR) { if(!Interrupted()) ... }`: the last reply. Each
-- round takes a reply, and `fuel` is the number of rounds.
unfoldable pub repeat : ℕ → SystemCall → Action Reply
repeat zero sys s = fault starved
repeat (suc fuel) sys s = system sys s ▹ λ (r, s'). elim r [
  | failed x ↦ if interrupted x then repeat fuel sys s' else ok (failed x, s')
  | done n ↦ ok (done n, s')
]

-- The loop with as many rounds as there are replies.
abbrev pub uninterrupted : SystemCall → Action Reply
uninterrupted sys s = repeat (length s.replies) sys s

-- The value -1 is `none`.
unfoldable pub value_or_error : Call → Bytes → Reply → Action (Option ℕ)
unfolding report_error
value_or_error c msg r = elim r [
  | failed x ↦ report_error c msg x ⟫ λ b. give none
  | done n ↦ give (some n)
]

-- The first entry is for the descriptor.
unfoldable pub has_front : ℕ → List SocketEvents → Bool
has_front d [] = false
has_front d ((x, e) ∷ rest) = x == d

-- `errno` after the calls of ::select that one Select makes
unfoldable pub last_code : List Answer → Option Errno → Option Errno
unfolding interrupted
last_code [] c = c
last_code (select_failed x ∷ answers) c =
    let later = last_code answers (some x) in if interrupted x then later else some x
last_code (timed_out ∷ answers) c = c
last_code (active n r w x ∷ answers) c = c

-- What WaitForReady returns of a report: 0 where it is empty, else the events of its first entry,
-- for which two asserts hold where it is for the socket and has events
unfoldable pub front_events : ℕ → List SocketEvents → Outcome ℕ
front_events d [] = ok 0
front_events d ((x, e) ∷ rest) = if x == d && not (e == 0) then ok e else fault aborted

-- `_fd != INVALID_SOCKET && _fd != s`
unfoldable pub is_other : Descriptor → Descriptor → Bool
is_other none new = false
is_other (some d) none = true
is_other (some d) (some n) = not (d == n)

-- `_fd != INVALID_SOCKET`
unfoldable pub has_descriptor : Descriptor → Bool
has_descriptor none = false
has_descriptor (some d) = true

module _ (msg : Bytes) where
  -- CloseSocket(_fd, e)
  unfoldable pub close_socket : Action Bool
  unfolding system report_error
  close_socket s =
      (system (sys_close s.fd) ⟫ λ r s'. elim r [
        | failed x ↦ report_error close_call msg x (record s' { fd = none })
        | done n ↦ ok (true, record s' { fd = none })
      ])
        s

  -- Close(e)
  unfoldable pub close : Action Bool
  unfolding close_socket
  close s = elim s.fd [ none ↦ ok (true, s) | some d ↦ close_socket s ]

  -- InitSocket(domain, type, protocol, e)
  unfoldable pub init_socket : ℕ → ℕ → ℕ → Action Bool
  unfolding system report_error
  init_socket domain type protocol s = elim s.fd [
    | some d ↦ fault aborted
    | none ↦
        (system (sys_socket domain type protocol) ⟫ λ r s'. elim r [
          | failed x ↦ report_error open_call msg x s'
          | done d ↦ ok (true, record s' { fd = some d })
        ])
          s
  ]

  -- Create(domain, type, protocol, e), where Close() is given no error
  unfoldable pub create : ℕ → ℕ → ℕ → Action Bool
  unfolding init_socket close
  create domain type protocol s = close (record s { error = none }) ▹ λ (b, s').
      init_socket domain type protocol (record s' { error = s.error })

  -- Shutdown(how, e)
  unfoldable pub shutdown : ℕ → Action Bool
  unfolding checked
  shutdown how s = elim s.fd [
    | none ↦ ok (true, s)
    | some d ↦ checked shutdown_call msg (sys_shutdown (some d) how) s
  ]

  -- SET_SOCKET_..._ERROR(e, msg) with a text that holds `addr.String()`, with an error argument or not
  unfoldable pub report_described : Call → Address → Errno → Action Bool
  unfolding describe report_error
  report_described c addr x s = describe addr ▹ λ u. report_error c msg x s

  -- Bind(addr, e), which is given `addr.Length()`
  unfoldable pub bind : Address → Action Bool
  unfolding address_length system report_described
  bind addr s = address_length addr ▹ λ len.
      (system (sys_bind s.fd addr) ⟫ λ r. elim r [
        | failed x ↦ report_described bind_call addr x
        | done n ↦ give true
      ])
        s

  -- Listen(backlog, e), where a negative backlog is `none` and `somaxconn` its default
  unfoldable pub listen : ℕ → Option ℕ → Action Bool
  unfolding checked
  listen somaxconn backlog s =
      checked listen_call msg (sys_listen s.fd (elim backlog [ none ↦ somaxconn | some n ↦ n ])) s

  -- Accept(e); AcceptFrom(addr, e) makes the same calls and fills `addr`, which has a length
  unfoldable pub accept : Action (Option ℕ)
  unfolding repeat value_or_error
  accept s = (uninterrupted (sys_accept s.fd) ⟫ value_or_error accept_call msg) s

  -- Connect(addr, e), each of whose calls is given `addr.Length()`
  unfoldable pub connect : Address → Action Bool
  unfolding address_length repeat report_described
  connect addr s = address_length addr ▹ λ len.
      (uninterrupted (sys_connect s.fd addr) ⟫ λ r. elim r [
        | failed x ↦ report_described connect_call addr x
        | done n ↦ give true
      ])
        s

  -- Send(p, n, flags, e), where `p` is the `n` bytes
  unfoldable pub send : Bytes → ℕ → Action (Option ℕ)
  unfolding repeat value_or_error
  send p flags s = (uninterrupted (sys_send s.fd p flags) ⟫ value_or_error send_call msg) s

  -- Receive(p, n, flags, e); the bytes that are received are not modelled
  unfoldable pub receive : ℕ → ℕ → Action (Option ℕ)
  unfolding repeat value_or_error
  receive n flags s = (uninterrupted (sys_receive s.fd n flags) ⟫ value_or_error receive_call msg) s

  -- SendTo(p, n, addr, flags, e), each of whose calls is given `addr.Length()`
  unfoldable pub send_to : Bytes → ℕ → Address → Action (Option ℕ)
  unfolding address_length repeat value_or_error
  send_to p flags addr s = address_length addr ▹ λ len.
      (uninterrupted (sys_send_to s.fd p flags addr) ⟫ value_or_error send_call msg) s

  -- ReceiveFrom(p, n, addr, flags, e) with an address that has a length
  unfoldable pub receive_from : ℕ → ℕ → Action (Option ℕ)
  unfolding repeat value_or_error
  receive_from n flags s =
      (uninterrupted (sys_receive_from s.fd n flags) ⟫ value_or_error receive_call msg) s

  -- Block(block, e), where the flags that are set differ in O_NONBLOCK only
  unfoldable pub block : Bool → Action Bool
  unfolding system checked
  block b s =
      (system (sys_get_flags s.fd) ⟫ λ r s'.
      checked control_call msg (sys_set_flags s.fd (not b)) s')
        s

  -- SetOption(level, name, val, len, e)
  unfoldable pub set_option : ℕ → ℕ → Bytes → Action Bool
  unfolding checked
  set_option level name val s = checked option_call msg (sys_set_option s.fd level name val) s

  -- GetOption(level, name, val, len, e), without what is written to `val`
  unfoldable pub get_option : ℕ → ℕ → Action Bool
  unfolding checked
  get_option level name s = checked option_call msg (sys_get_option s.fd level name) s

  -- ReuseAddress(reuse, e) and ReusePort(reuse, e), with the option's name and its flag as bytes
  unfoldable pub reuse : ℕ → ℕ → (Bool → Bytes) → Bool → Action Bool
  unfolding checked
  reuse level name flag b s = checked option_call msg (sys_set_option s.fd level name (flag b)) s

  -- WaitForRead(timeout, e) and WaitForWrite(timeout, e), with their event. The asserts want the
  -- socket at the front of the report, and `events | SOCKET_EVENT_READ` is never 0.
  unfoldable pub wait_for : (List ℕ → List ℕ) → ℕ → Action Bool
  wait_for make_heap event s = elim s.fd [
    | none ↦ fault undefined
    | some d ↦ set make_heap d event empty_selector ▹ λ sel.
        select sel msg [] s.error s.answers ▹ λ r.
        let s' = record s {
          answers = r.answers;
          error = r.error;
          errno = last_code s.answers s.errno;
        } in
        elim r.result [
          | none ↦ ok (false, s')
          | some zero ↦ ok (false, s')
          | some (suc n) ↦ if has_front d r.events then ok (true, s') else fault aborted
        ]
  ]

  -- WaitForReady(timeout, e): -1 is `none`
  unfoldable pub wait_for_ready : (List ℕ → List ℕ) → Action (Option ℕ)
  wait_for_ready make_heap s = elim s.fd [
    | none ↦ fault undefined
    | some d ↦ set make_heap d 7 empty_selector ▹ λ sel. select sel msg [] s.error s.answers ▹ λ r.
        let s' = record s {
          answers = r.answers;
          error = r.error;
          errno = last_code s.answers s.errno;
        } in
        elim r.result [
          | none ↦ ok (none, s')
          | some n ↦ front_events d r.events ▹ λ e. ok (some e, s')
        ]
  ]

  -- Attach(s), where Close() is given no error
  unfoldable pub attach : Descriptor → Action Bool
  unfolding close
  attach new s =
      (if is_other s.fd new then close (record s { error = none }) else ok (true, s)) ▹ λ (b, s').
      ok (has_descriptor new, record s' { fd = new; error = s.error })

-- Detach()
unfoldable pub detach : Action Descriptor
detach s = ok (s.fd, record s { fd = none })
