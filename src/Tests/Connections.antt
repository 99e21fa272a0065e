-- ===== src/Tests/Connections.antt =====
-- The theorems on connections, acceptors and the pipe at concrete inputs.
use netb.Prelude.{◌≡◌, List, [], ◌∷◌, replicate, true, false, none, some, ok, refl}
use netb.Host.{little}
use netb.Errors.{
  eintr, ebadf, eaddrinuse, enotconn, no_error, logic_error, set_error_of, bind_call, option_call,
  listen_call, classify, interrupted,
}
use netb.SocketAddress.{address_length, inet, reset, family, is_unspecified}
use netb.Socket.{
  State, Reply, failed, done, is_other, report_error, sys_socket, sys_set_option, sys_bind,
  sys_accept, sys_get_flags, sys_set_flags, sys_get_option, sys_listen, sys_get_peer,
}
use netb.Socket.Checks.{Check}
use netb.Socket.Interrupts.{is_final}
use netb.Socket.Inquiry.{Known}
use netb.TcpSocket.{connected}
use netb.TcpSocket.Established.{connected-unnamed}
use netb.TcpAcceptor.{Options, new_acceptor, open_at, accept_within}
use netb.TcpAcceptor.Opening.{open_at_stops}
use netb.TcpAcceptor.Accepting.{accept_within_lem}
use netb.SocketPipe.{SocketPipe, PipeEnv, make_pair, reclassify}
use netb.SocketPipe.Pairing.{pairing, loopback_address, make_pair_lem, make_pair-unbound}
use netb.Tests.Sockets.{answering, shut, tcp_env}

-- The system knows every descriptor as a stream socket at port 80.
abbrev known : Known
known = record {
  name = λ d. inet 80 1;
  peer = λ d. inet 81 1;
  type = λ d. 1;
  socket_level = 1;
  type_option = 3;
}

connected-unnamed_example :
    connected tcp_env known
      (reset 0)
      (record (answering (done 0 ∷ failed enotconn ∷ [])) { error = none })
    ≡ ok (
      true,
      record (answering []) {
        error = none;
        errno = some enotconn;
        calls = sys_get_option (some 3) 1 3 ∷ sys_get_peer (some 3) ∷ [];
      },
    )
unfolding classify is_unspecified reset set_error_of
connected-unnamed_example =
    connected-unnamed tcp_env known 3 0 []
      (record (answering (done 0 ∷ failed enotconn ∷ [])) { error = none }) refl refl (reset 0)
      enotconn logic_error refl refl refl

abbrev accepting : List Reply
accepting = done 0 ∷ done 0 ∷ failed eintr ∷ failed ebadf ∷ []

accept_within_lem_example :
    (s' : State) × (accept_within tcp_env none (answering accepting) ≡ ok (none, s'))
    × (s'.calls
        ≡ sys_get_flags (some 3) ∷ sys_set_flags (some 3) false ∷ replicate 2 (sys_accept (some 3)))
    × (s'.error ≡ some no_error)
    × (s'.replies ≡ [])
unfolding is_final interrupted
accept_within_lem_example =
    accept_within_lem tcp_env 0 0 1 [] (answering accepting) (failed ebadf) refl refl

abbrev options : Options
options = record { level = 1; addr_option = 2; port_option = 15; somaxconn = 128; flag = λ b. [] }

-- The two options, and ::listen.
abbrev before : List Check
before =
    (option_call, sys_set_option (some 4) 1 2 [])
    ∷ (option_call, sys_set_option (some 4) 1 15 [])
    ∷ []

abbrev later : List Check
later = (listen_call, sys_listen (some 4) 128) ∷ []

-- ::bind fails after the two options.
abbrev opening : List Reply
opening = done 4 ∷ done 0 ∷ done 0 ∷ failed eaddrinuse ∷ []

open_at_stops_example :
    open_at tcp_env options new_acceptor (inet 80 1) true true (shut opening)
    ≡ report_error bind_call [] eaddrinuse (record (shut []) {
      fd = some 4;
      calls =
          sys_socket 2 1 6
          ∷ sys_set_option (some 4) 1 2 []
          ∷ sys_set_option (some 4) 1 15 []
          ∷ sys_bind (some 4) (inet 80 1)
          ∷ [];
      errno = some eaddrinuse;
    })
unfolding is_unspecified family new_acceptor reset
open_at_stops_example =
    open_at_stops tcp_env options (inet 80 1) true true new_acceptor 4 (shut opening) tt refl before
      later bind_call (sys_bind (some 4) (inet 80 1)) (0 ∷ 0 ∷ []) eaddrinuse [] refl refl refl

abbrev pipe_env : PipeEnv
pipe_env = record {
  msg = [];
  endian = little;
  pton = record { pton4 = λ t. none; pton6 = λ t. none };
  known = known;
  somaxconn = 128;
  inet_domain = 2;
  stream = 1;
  tcp = 6;
}

abbrev made : List Reply → SocketPipe
made replies = record { reader = some 3; writer = some 4; host = answering replies }

-- ::accept is interrupted once, and gives descriptor 5.
abbrev pairing_up : List Reply
pairing_up = done 0 ∷ done 0 ∷ done 0 ∷ done 0 ∷ failed eintr ∷ done 5 ∷ done 0 ∷ []

make_pair_lem_example :
    (p' : SocketPipe) × (make_pair pipe_env (made pairing_up) ≡ ok (true, p'))
    × (p'.reader ≡ some 5)
    × (p'.writer ≡ some 4)
    × (p'.host.calls ≡ pairing pipe_env 3 4 0 1)
    × (p'.host.error ≡ some no_error)
    × (p'.host.replies ≡ [])
unfolding is_final is_other address_length
make_pair_lem_example =
    make_pair_lem pipe_env 3 4 0 0 0 0 0 1 (done 5) (done 0) [] (answering pairing_up) (16, refl)
      refl refl refl

make_pair-unbound_example :
    make_pair pipe_env (made (failed eaddrinuse ∷ []))
    ≡ ok (
      true,
      reclassify logic_error [] (some eaddrinuse) (record (made []) {
        host = record (answering []) {
          errno = some eaddrinuse;
          calls = sys_bind (some 3) (loopback_address pipe_env) ∷ [];
        };
      }),
    )
unfolding classify
make_pair-unbound_example =
    make_pair-unbound pipe_env eaddrinuse logic_error [] (made (failed eaddrinuse ∷ [])) refl refl
