-- ===== src/SocketPipe.antt =====
-- `SocketPipe` of netb/SocketPipe.hpp and netb/SocketPipe.cpp: a connection to oneself, made of two
-- sockets. `host` is what the two share: the error argument, errno, the calls and the answers.
pub mod Pairing
use netb.Prelude.{ℕ, List, Bool, true, false, Option, none, some, Outcome, ok, ◌▹◌, if◌then◌else◌}
use netb.Memory.{Bytes}
use netb.Host.{Endian}
use netb.SocketAddress.{SocketAddress, Parser, of_host, loopback, af_inet}
use netb.Errors.{
  Error, no_error, Errno, ErrorClass, general_error, logic_error, runtime_error, Exception,
  exception, logic_exception, runtime_exception, set_error_of, set_class,
}
use netb.Socket.{Descriptor, State, Action, create, attach, send, receive}
use netb.Socket.Inquiry.{Known, address}
use netb.Socket.Throwing.{
  raised, Throws, create_or_throw, bind_or_throw, listen_or_throw, connect_or_throw,
  accept_or_throw,
}

-- `_reader` and `_writer`
pub record SocketPipe : Type 0 where
  pub reader : Descriptor
  pub writer : Descriptor
  pub host : State

-- What making a pipe takes: std texts, the byte order, ::inet_pton, what ::getsockname writes, and
-- SOMAXCONN, PF_INET, SOCK_STREAM and IPPROTO_TCP.
pub record PipeEnv : Type 0 where
  pub msg : Bytes
  pub endian : Endian
  pub pton : Parser
  pub known : Known
  pub somaxconn : ℕ
  pub inet_domain : ℕ
  pub stream : ℕ
  pub tcp : ℕ

-- A statement in the `try` block: what it throws, and its value otherwise.
abbrev pub Statement : Type 0 → Type 0
Statement A = SocketPipe → Outcome (Option Exception × A × SocketPipe)

abbrev pub on_reader : {A : Type 0} → Throws A → Statement A
on_reader m p = m (record (p.host) { fd = p.reader }) ▹ λ (x, a, s).
    ok (x, a, record p { reader = s.fd; host = s })

abbrev pub on_writer : {A : Type 0} → Throws A → Statement A
on_writer m p = m (record (p.host) { fd = p.writer }) ▹ λ (x, a, s).
    ok (x, a, record p { writer = s.fd; host = s })

-- A function that throws nothing, without an error argument
abbrev pub silent : {A : Type 0} → Action A → Throws A
silent m s = m (record s { error = none }) ▹ λ (a, s'). ok (none, a, record s' { error = s.error })

-- The rest of the block, which an exception skips.
abbrev pub Block : Type 0
Block = SocketPipe → Outcome (Option Exception × SocketPipe)

infixr 5 ◌then_do◌
abbrev pub ◌then_do◌ : {A : Type 0} → Statement A → (A → Block) → Block
◌then_do◌ m f p = m p ▹ λ (x, a, p'). elim x [ none ↦ f a p' | some e ↦ ok (some e, p') ]

abbrev pub finish : Block
finish p = ok (none, p)

-- SET_ERROR and then SET_ERROR_CLASS with the error argument
unfoldable pub reclassify : ErrorClass → Bytes → Option Errno → SocketPipe → SocketPipe
unfolding set_error_of set_class
reclassify cls m c p = record p {
  host = record (p.host) {
    error = elim (set_error_of general_error m c p.host.error) [
      | none ↦ none
      | some e ↦ some (set_class cls e)
    ];
  };
}

-- The `catch` clauses of MakePair, and its result
unfoldable pub caught : Option Exception → SocketPipe → Bool × SocketPipe
unfolding reclassify
caught none p = (true, p)
caught (some (runtime_exception m c)) p = (true, reclassify runtime_error m c p)
caught (some (logic_exception m c)) p = (true, reclassify logic_error m c p)
caught (some (exception m c)) p = (false, reclassify general_error m c p)

module _ (env : PipeEnv) where
  -- The `try` block of MakePair: the reader listens at a loopback address, the writer connects to the
  -- address that it got, and the reader takes the accepted connection over.
  unfoldable pub connect_pair : SocketAddress → Block
  unfolding bind_or_throw listen_or_throw address connect_or_throw accept_or_throw attach
  connect_pair addr = on_reader (bind_or_throw env.msg addr) then_do λ _.
      on_reader (listen_or_throw env.msg env.somaxconn (some 1)) then_do λ _.
      on_reader (silent (address env.known env.msg)) then_do λ actual.
      on_writer (connect_or_throw env.msg actual) then_do λ _.
      on_reader (accept_or_throw env.msg) then_do λ s.
      on_reader (silent (attach env.msg s)) then_do λ _. finish

  -- MakePair(reader, writer, e)
  unfoldable pub make_pair : SocketPipe → Outcome (Bool × SocketPipe)
  unfolding of_host connect_pair caught
  make_pair p = of_host env.endian env.pton loopback 0 af_inet ▹ λ addr.
      connect_pair addr p ▹ λ (x, p'). ok (caught x p')

  -- SocketPipe(e) on sockets that are not open yet, where both creations are given the error
  unfoldable pub new_pipe : State → Outcome SocketPipe
  unfolding create make_pair
  new_pipe s =
      create env.msg env.inet_domain env.stream env.tcp (record s { fd = none }) ▹ λ (b, s₁).
      if b
      then (create env.msg env.inet_domain env.stream env.tcp (record s₁ { fd = none })
          ▹ λ (b', s₂).
              let p : SocketPipe = record { reader = s₁.fd; writer = s₂.fd; host = s₂ } in
              if b' then (make_pair p ▹ λ (b'', p'). ok p') else ok p)
      else ok (record { reader = s₁.fd; writer = none; host = s₁ })

  -- The rest of SocketPipe() after both creations: MakePair with an error of its own
  abbrev pub pair_or_throw : Block
  pair_or_throw p =
      make_pair (record p { host = record (p.host) { error = some no_error } }) ▹ λ (b, p'). ok (
        (if b then none else raised p'.host.error),
        record p' { host = record (p'.host) { error = p.host.error } },
      )

  -- SocketPipe(), which throws, on sockets that are not open yet
  unfoldable pub new_pipe_or_throw : State → Outcome (Option Exception × SocketPipe)
  unfolding create_or_throw make_pair raised
  new_pipe_or_throw s =
      (on_reader (create_or_throw env.msg env.inet_domain env.stream env.tcp) then_do λ _.
      on_writer (create_or_throw env.msg env.inet_domain env.stream env.tcp) then_do λ _.
      pair_or_throw)
        (record { reader = none; writer = none; host = s })

  -- Read(p, n, e) and Write(p, n, e), on the descriptors that the pipe holds
  unfoldable pub read_pipe : ℕ → SocketPipe → Outcome (Option ℕ × SocketPipe)
  unfolding receive
  read_pipe n p = receive env.msg n 0 (record (p.host) { fd = p.reader }) ▹ λ (r, s).
      ok (r, record p { host = s })

  unfoldable pub write_pipe : Bytes → SocketPipe → Outcome (Option ℕ × SocketPipe)
  unfolding send
  write_pipe bs p = send env.msg bs 0 (record (p.host) { fd = p.writer }) ▹ λ (r, s).
      ok (r, record p { host = s })
