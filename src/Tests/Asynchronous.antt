-- ===== src/Tests/Asynchronous.antt =====
-- The theorems on what arrives at sockets, and on the asynchronous ones, at concrete inputs.
use netb.Prelude.{ℕ, ◌≡◌, ◌++◌, ◌∷◌, [], true, false, some, none, ok, refl, arith, inl, sub_size}
use netb.Memory.{load}
use netb.Errors.{eintr}
use netb.SocketAddress.{address_length, inet, reset, is_unspecified}
use netb.Socket.{failed, done, sys_get_flags, sys_set_flags, sys_receive, sys_close, sys_send_to}
use netb.StreamBuffer.{StreamBuffer}
use netb.StreamBuffer.Valid.{HasRoom, spaced}
use netb.StreamBuffer.External.{IsFilled}
use netb.TcpSocket.{receive_buffer, receive_within}
use netb.TcpSocket.Receiving.{receive_buffer_lem}
use netb.AsyncTcpSocket.{AsyncTcpSocket}
use netb.AsyncTcpSocket.Incoming.{Callbacks, on_read, notify}
use netb.AsyncTcpSocket.Reading.{IsReceived, on_read_lem, on_read-full}
use netb.AsyncTcpAcceptor.{AsyncTcpAcceptor, AcceptorEnv}
use netb.AsyncTcpAcceptor.Handing.{IsAnswered, on_read-handed}
use netb.AsyncUdpSocket.{AsyncUdpSocket, AsyncUdpEnv, Datagram, on_write}
use netb.AsyncUdpSocket.Draining.{call_for, on_write-refused}
use netb.TcpAcceptor.{new_acceptor}
use netb.EventLoop.{EventLoop, lookup}
use netb.EventLoop.Disabling.{IsSilenced}
use netb.Tests.Events.{idle, largest_first-IsHeapMaker, empty_selector-IsSelector}
use netb.Tests.Fixtures.{unlimited, unlimited-HasRoom, holding}
use netb.Tests.Sockets.{answering, tcp_env, outgoing-IsValid, connection, async_inet}

-- An empty buffer without a limit has room for what a read asks for.
unlimited-HasRoom_read : HasRoom 2048 unlimited
unlimited-HasRoom_read = record {
  valid = (unlimited-HasRoom 0 (omega arith)).valid;
  room = omega arith;
  under = inl refl;
}

receive_buffer_lem_example :
    (b' : StreamBuffer) × (receive_buffer tcp_env none
        (7 ∷ 8 ∷ 9 ∷ [])
        unlimited
        (answering (done 0 ∷ done 0 ∷ done 2 ∷ []))
      ≡ ok (
        some 2,
        b',
        record (answering []) {
          calls =
              sys_get_flags (some 3)
              ∷ sys_set_flags (some 3) false
              ∷ sys_receive (some 3) 2048 0
              ∷ [];
        },
      ))
    × IsFilled (7 ∷ 8 ∷ []) unlimited b'
unfolding receive_within spaced
receive_buffer_lem_example =
    receive_buffer_lem tcp_env none (7 ∷ 8 ∷ 9 ∷ []) (answering (done 0 ∷ done 0 ∷ done 2 ∷ []))
      (record (answering []) {
        calls =
            sys_get_flags (some 3)
            ∷ sys_set_flags (some 3) false
            ∷ sys_receive (some 3) 2048 0
            ∷ [];
      })
      (some 2) unlimited-HasRoom_read refl (omega arith, omega arith)

-- Callbacks that do nothing.
abbrev callbacks : Callbacks
callbacks = record { on_received = λ a. ok a; on_connected = λ b a. ok a }

-- ::recv is interrupted once, and then gives two bytes.
abbrev hearing : AsyncTcpSocket
hearing = record connection {
  in_buffer = unlimited;
  socket = answering (failed eintr ∷ done 2 ∷ []);
}

on_read_lem_example :
    (a' : AsyncTcpSocket) × (on_read async_inet callbacks (7 ∷ 8 ∷ 9 ∷ []) hearing
      ≡ notify callbacks a')
    × IsReceived (7 ∷ 8 ∷ []) 1 (sys_receive (some 3) 2048 0) [] hearing a'
unfolding spaced
on_read_lem_example =
    on_read_lem async_inet callbacks 1 [] (7 ∷ 8 ∷ 9 ∷ []) hearing 1 unlimited-HasRoom_read refl
      (omega arith) (omega arith)

on_read-full_example :
    (l : EventLoop) × (on_read async_inet callbacks (7 ∷ []) connection
      ≡ ok (record connection { loop = l }))
    × IsSilenced 1 connection.loop l
unfolding lookup
on_read-full_example =
    on_read-full async_inet callbacks (7 ∷ []) connection outgoing-IsValid (omega arith)
      (omega arith) largest_first-IsHeapMaker 1 1 refl (omega arith) (omega arith) refl refl
      (record { selector = empty_selector-IsSelector; registered = λ fd ne. absurd (ne refl) })

abbrev acceptor_env : AcceptorEnv
acceptor_env = record {
  loop_env = idle;
  tcp_env = tcp_env;
  options = record {
    level = 1;
    addr_option = 2;
    port_option = 15;
    somaxconn = 128;
    flag = λ b. [];
  };
  next_handler = 2;
}

-- ::accept is interrupted once, gives descriptor 5, and closing it succeeds.
abbrev hosting : AsyncTcpAcceptor
hosting = record {
  socket = answering (failed eintr ∷ done 5 ∷ done 0 ∷ []);
  base = new_acceptor;
  handler = some 1;
  loop = connection.loop;
  accepted_callback = true;
}

-- The application takes nothing.
on_read-handed_example :
    (b : AsyncTcpAcceptor) × (a' : AsyncTcpAcceptor) × (netb.AsyncTcpAcceptor.on_read acceptor_env
        (λ n c. ok (false, c))
        hosting
      ≡ ok a')
    × IsAnswered acceptor_env hosting 1 (done 0 ∷ []) refl b
    × (a'.socket.calls ≡ b.socket.calls ++ sys_close (some 5) ∷ [])
    × (a'.socket.fd ≡ b.socket.fd)
on_read-handed_example =
    on_read-handed acceptor_env hosting 1 (done 0 ∷ []) refl (λ n c. false) (λ n c. c) 5 (done 0) []
      refl (λ b i. i.1)

abbrev udp_env : AsyncUdpEnv
udp_env = record {
  loop_env = idle;
  udp_env = record {
    make_heap = λ xs. xs;
    msg = [];
    dgram = 2;
    udp = 17;
    sol_socket = 1;
    so_reuseaddr = 2;
    so_reuseport = 15;
    flag = λ b. [];
  };
  next_handler = 2;
  default_size = 4096;
  max_buffer = 1048576;
}

abbrev to_port : ℕ → Datagram
to_port n = record { buf = holding (7 ∷ []); addr = inet n 1 }

-- Three queued datagrams, the second of which the system does not take.
abbrev queueing : AsyncUdpSocket
queueing = record {
  socket = answering (done 1 ∷ done 0 ∷ []);
  local = reset 0;
  handler = some 1;
  loop = connection.loop;
  in_buffer = unlimited;
  out_buffers = to_port 53 ∷ to_port 54 ∷ to_port 55 ∷ [];
  received_callback = true;
}

on_write-refused_example :
    on_write udp_env queueing
    ≡ ok (record queueing {
      out_buffers = to_port 54 ∷ to_port 55 ∷ [];
      socket = record (answering []) {
        calls =
            sys_send_to (some 3) (7 ∷ []) 0 (inet 53 1)
            ∷ sys_send_to (some 3) (7 ∷ []) 0 (inet 54 1)
            ∷ [];
      };
    })
unfolding is_unspecified load sub_size call_for address_length
on_write-refused_example =
    on_write-refused udp_env queueing ((7 ∷ [], inet 53 1) ∷ []) (to_port 53 ∷ []) (to_port 55 ∷ [])
      (to_port 54) (7 ∷ []) (0 ∷ []) [] refl ((refl, refl, (16, refl)), tt) (16, refl) refl refl
      refl
