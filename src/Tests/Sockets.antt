-- ===== src/Tests/Sockets.antt =====
-- The theorems on errors and sockets at concrete inputs.
use netb.Prelude.{
  replicate, ◌+◌, ◌≤◌, ◌≡◌, List, [], ◌∷◌, true, false, not, none, some, ok, fault, aborted, arith,
  refl, inr, sub_size, add_size,
}
use netb.Memory.{load, store}
use netb.Errors.{classify, eintr, einprogress, enotconn, ebadf, no_error, send_call}
use netb.Errors.Documented.{classify-documented, documented, lists, is_general, is_matched}
use netb.Socket.{
  State, Reply, failed, done, repeat, create, sys_send, sys_close, sys_socket, sys_get_flags,
  sys_set_flags, sys_connect,
}
use netb.Socket.Interrupts.{IsAnswered, is_final, repeat_lem}
use netb.Socket.Descriptors.{create_lem}
use netb.SocketAddress.{address_length, family, inet, inet6, less}
use netb.SocketAddress.Order.{is_inet, is_inet6, less_trans}
use netb.TcpSocket.{TcpEnv, connect_within, send_within, send_buffer}
use netb.TcpSocket.Connecting.{connect_within_done, connect_within-in_progress}
use netb.TcpSocket.Sending.{send_buffer_lem}
use netb.StreamBuffer.{StreamBuffer, advance_read, is_empty, write}
use netb.StreamBuffer.Valid.{IsValid, unread}
use netb.EventLoop.{update, update_handler, lookup}
use netb.SocketSelector.{set}
use netb.AsyncTcpSocket.{AsyncTcpSocket, AsyncEnv, on_write, send_inside}
use netb.AsyncTcpSocket.Stream.{
  taken, Run, start, writes, sends_inside, IsUnflushed, IsGrown, Run-IsGrown, Run-limit,
}
use netb.Tests.Events.{idle, new_loop}

classify-documented_example :
    is_general (classify send_call enotconn) ≡ not (lists (documented send_call) enotconn)
unfolding is_matched
classify-documented_example = classify-documented send_call enotconn refl

-- The socket 3 with what the system is going to answer.
abbrev pub answering : List Reply → State
answering replies = record {
  fd = some 3;
  error = some no_error;
  errno = none;
  calls = [];
  replies = replies;
  answers = [];
}

abbrev pub shut : List Reply → State
shut replies = record {
  fd = none;
  error = some no_error;
  errno = none;
  calls = [];
  replies = replies;
  answers = [];
}

repeat_lem_example :
    (s : State) × (repeat 3
        (sys_send (some 3) (7 ∷ []) 0)
        (answering (failed eintr ∷ failed eintr ∷ done 1 ∷ []))
      ≡ ok (done 1, s))
    × IsAnswered
        (sys_send (some 3) (7 ∷ []) 0)
        2
        []
        (answering (failed eintr ∷ failed eintr ∷ done 1 ∷ []))
        s
unfolding is_final
repeat_lem_example =
    repeat_lem 2 3 (sys_send (some 3) (7 ∷ []) 0) (done 1) []
      (answering (failed eintr ∷ failed eintr ∷ done 1 ∷ [])) refl refl (omega arith)

create_lem_example :
    (s : State) × (create [] 2 1 6 (answering (failed ebadf ∷ done 4 ∷ [])) ≡ ok (true, s))
    × (s.fd ≡ some 4)
    × (s.calls ≡ sys_close (some 3) ∷ sys_socket 2 1 6 ∷ [])
    × (s.error ≡ some no_error)
    × (s.replies ≡ [])
create_lem_example =
    create_lem [] (answering (failed ebadf ∷ done 4 ∷ [])) 2 1 6 3 (failed ebadf) 4 [] refl refl

abbrev pub tcp_env : TcpEnv
tcp_env = record { make_heap = λ xs. xs; msg = []; stream = 1; tcp = 6 }

connect_within_done_example :
    (s : State) × (connect_within tcp_env
        (some 10)
        none
        (inet 80 1)
        (shut (done 4 ∷ done 0 ∷ done 0 ∷ failed eintr ∷ done 0 ∷ []))
      ≡ ok (true, s))
    × (s.fd ≡ some 4)
    × (s.calls
        ≡ sys_socket 2 1 6
          ∷ sys_get_flags (some 4)
          ∷ sys_set_flags (some 4) true
          ∷ sys_connect (some 4) (inet 80 1)
          ∷ sys_connect (some 4) (inet 80 1)
          ∷ [])
    × (s.error ≡ some no_error)
    × (s.replies ≡ [])
unfolding family address_length
connect_within_done_example =
    connect_within_done tcp_env (inet 80 1) 4 0 0 1 []
      (shut (done 4 ∷ done 0 ∷ done 0 ∷ failed eintr ∷ done 0 ∷ [])) refl (some 10) 0 (16, refl)
      refl

connect_within-in_progress_example :
    connect_within tcp_env
      (some 10)
      none
      (inet 80 1)
      (shut (done 4 ∷ done 0 ∷ done 0 ∷ failed einprogress ∷ []))
    ≡ fault aborted
connect_within-in_progress_example =
    connect_within-in_progress tcp_env (inet 80 1) 4 0 0 0 []
      (shut (done 4 ∷ done 0 ∷ done 0 ∷ failed einprogress ∷ [])) refl 10 refl

-- Two unread bytes of three, in a vector of four, with a limit of eight.
abbrev pub outgoing : StreamBuffer
outgoing = record { bytes = 1 ∷ 2 ∷ 3 ∷ 0 ∷ []; limit = 8; opos = 0; rpos = 1; wpos = 3 }

pub outgoing-IsValid : IsValid outgoing
outgoing-IsValid = record {
  opos_le = omega arith;
  rpos_le = omega arith;
  wpos_le = omega arith;
  fits = omega arith;
  bounded = inr (omega arith);
}

send_buffer_lem_example :
    (b : StreamBuffer) × (send_buffer tcp_env none outgoing
        (answering (done 0 ∷ done 0 ∷ done 1 ∷ []))
      ≡ ok (
        some 1,
        b,
        record (answering []) {
          calls =
              sys_get_flags (some 3)
              ∷ sys_set_flags (some 3) false
              ∷ sys_send (some 3) (2 ∷ 3 ∷ []) 0
              ∷ [];
        },
      ))
    × (unread b ≡ 3 ∷ [])
    × IsValid b
unfolding send_within
send_buffer_lem_example =
    send_buffer_lem tcp_env none outgoing (answering (done 0 ∷ done 0 ∷ done 1 ∷ []))
      (record (answering []) {
        calls =
            sys_get_flags (some 3)
            ∷ sys_set_flags (some 3) false
            ∷ sys_send (some 3) (2 ∷ 3 ∷ []) 0
            ∷ [];
      })
      1 outgoing-IsValid refl (omega arith)

-- A connection whose handler 1 stands in the loop and whose buffer holds `outgoing`.
abbrev pub connection : AsyncTcpSocket
connection = record {
  socket = answering (done 1 ∷ done 0 ∷ done 0 ∷ []);
  handler = some 1;
  loop = record new_loop {
    handlers = (7, 1) ∷ [];
    objects = λ h. record {
      socket = 7;
      events = 3;
      detached = false;
      read_callback = true;
      write_callback = true;
    };
  };
  in_buffer = outgoing;
  out_buffer = outgoing;
  received_callback = true;
  connected_callback = true;
}

abbrev pub async_inet : AsyncEnv
async_inet = record { loop_env = idle; tcp_env = tcp_env; next_handler = 2 }

outgoing-IsUnflushed : IsUnflushed outgoing
outgoing-IsUnflushed = record { valid = outgoing-IsValid; opos_eq = refl; full = omega arith }

abbrev written : AsyncTcpSocket
written = elim (on_write async_inet connection) [ ok a ↦ a | fault x ↦ connection ]

abbrev sent : AsyncTcpSocket
sent = elim (send_inside async_inet (9 ∷ []) written) [ ok (r, a) ↦ a | fault x ↦ connection ]

-- One byte is written, then one more is given to Send.
written_and_sent : Run async_inet connection (9 ∷ []) sent
unfolding on_write send_inside taken sub_size load advance_read add_size is_empty write store update
    update_handler lookup set
written_and_sent = sends_inside {r = some 1} (9 ∷ []) (writes start refl) (omega arith) refl

Run-IsGrown_example : IsGrown outgoing (9 ∷ []) sent.out_buffer
Run-IsGrown_example =
    Run-IsGrown async_inet connection sent (9 ∷ []) written_and_sent outgoing-IsUnflushed

Run-limit_example : 3 + 1 ≤ 8
Run-limit_example =
    Run-limit async_inet connection sent (9 ∷ []) written_and_sent outgoing-IsUnflushed
      (omega arith)

less_trans_example : less (inet 80 1) (inet6 7 0 (replicate 16 9) 0) ≡ true
unfolding less
less_trans_example =
    less_trans (inet 80 1) (inet 80 2) (inet6 7 0 (replicate 16 9) 0) is_inet is_inet
      (is_inet6 refl) refl refl
