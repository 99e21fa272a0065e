-- ===== src/AsyncTcpSocket/Reading.antt =====
-- What OnRead does with arriving bytes, at the end of the connection, and with a full buffer.
use netb.Prelude.{
  ℕ, suc, ◌+◌, ◌-◌, ◌≤◌, ◌<◌, ◌≡◌, ◌++◌, List, ◌∷◌, replicate, length, take, false, none, some, ok,
  if◌then◌else◌, arith, refl, ◌∙◌, length-take,
}
use netb.Memory.{Bytes}
use netb.Errors.{eintr}
use netb.Socket.{State, SystemCall, Reply, done, failed, sys_receive, value_or_error}
use netb.Socket.Interrupts.{receive_lem, is_final}
use netb.StreamBuffer.Valid.{IsValid, HasRoom, spaced}
use netb.StreamBuffer.Write.{writable_fits, writable_overflow}
use netb.StreamBuffer.External.{with_space, IsFilled, writable_size-space, fill_lem}
use netb.SocketSelector.{fd_setsize}
use netb.SocketSelector.Laws.{IsHeapMaker}
use netb.EventLoop.{EventLoop, lookup}
use netb.EventLoop.Registry.{IsLoop}
use netb.EventLoop.Disabling.{IsSilenced, disable_reading_lem}
use netb.AsyncTcpSocket.{AsyncTcpSocket, AsyncEnv}
use netb.AsyncTcpSocket.Incoming.{Callbacks, on_read, take_received, notify, lose}

-- What stays as it was when bytes arrive.
pub record IsReceived (p : Bytes) (k : ℕ) (sys : SystemCall) (rest : List Reply)
    (a a' : AsyncTcpSocket) : Type 0 where
  pub filled : IsFilled p a.in_buffer a'.in_buffer
  pub calls : a'.socket.calls ≡ a.socket.calls ++ replicate (suc k) sys
  pub replies : a'.socket.replies ≡ rest
  pub error : a'.socket.error ≡ a.socket.error
  pub handler : a'.handler ≡ a.handler
  pub loop : a'.loop ≡ a.loop
  pub out_buffer : a'.out_buffer ≡ a.out_buffer

module _ (env : AsyncEnv) (callbacks : Callbacks) (k : ℕ) (rest : List Reply) (incoming : Bytes)
    (a : AsyncTcpSocket) where
  -- The space that is handed to ::recv.
  abbrev pub space : ℕ
  space = length (spaced 2048 a.in_buffer) - a.in_buffer.wpos

  abbrev pub recv : SystemCall
  recv = sys_receive a.socket.fd space 0

  received :
      (n : ℕ)
      → HasRoom 2048 a.in_buffer
      → a.socket.replies ≡ replicate k (failed eintr) ++ done n ∷ rest
      → (s' : State) × (on_read env callbacks incoming a
          ≡ take_received env callbacks incoming (some n) (record a {
            in_buffer = with_space 2048 a.in_buffer;
            socket = record s' { error = a.socket.error };
          }))
        × (s'.calls ≡ a.socket.calls ++ replicate (suc k) recv)
        × (s'.replies ≡ rest)
  unfolding on_read is_final value_or_error
  received n h e =
      let (s', p, x) =
        receive_lem env.tcp_env.msg k rest (record (a.socket) { error = none }) space 0 (done n)
          refl e in
      (s', rw (writable_fits 2048 h, on_read, writable_size-space h, p) refl, x.calls, x.replies)

  -- Where the input buffer has room for 2048 bytes and ::recv, after any number of interruptions,
  -- returns at least one byte and at most the space that it was given, `OnRead` appends exactly
  -- these bytes to the accessible and to the unread bytes, keeps the buffer valid, and then calls
  -- the received callback if one is set; the error argument, the handler, the loop and the
  -- outgoing buffer are what they were when the callback is called.
  pub on_read_lem :
      (n : ℕ)
      → HasRoom 2048 a.in_buffer
      → a.socket.replies ≡ replicate k (failed eintr) ++ done (suc n) ∷ rest
      → suc n ≤ space
      → suc n ≤ length incoming
      → (a' : AsyncTcpSocket) × (on_read env callbacks incoming a ≡ notify callbacks a')
        × IsReceived (take (suc n) incoming) k recv rest a a'
  unfolding take_received
  on_read_lem n h e le len =
      let (s', p, c, r) = received (suc n) h e in
      let (b, q, f) =
        fill_lem h (take (suc n) incoming) (omega (arith, length-take (suc n) incoming)) in
      (
        record a { in_buffer = b; socket = record s' { error = a.socket.error } },
        p ∙ rw (q, take_received) refl,
        record {
          filled = f;
          calls = c;
          replies = r;
          error = refl;
          handler = refl;
          loop = refl;
          out_buffer = refl;
        },
      )

module _ (env : AsyncEnv) (callbacks : Callbacks) (incoming : Bytes) (a : AsyncTcpSocket)
    (v : IsValid a.in_buffer) (pos : 0 < a.in_buffer.limit)
    (over : a.in_buffer.limit < a.in_buffer.wpos - a.in_buffer.opos + 2048) where
  on_read-lose : on_read env callbacks incoming a ≡ lose env callbacks a
  unfolding on_read take_received
  on_read-lose = rw (writable_overflow 2048 v (omega arith) pos over, on_read) refl

  -- Where a valid input buffer with a limit cannot hold 2048 more bytes within it, `OnRead` makes
  -- no system call and changes no buffer: it disables reading and then calls the connected
  -- callback, if one is set, with false, in a state in which only the loop differs, by this: the
  -- selector watches the socket of the handler no longer for reading, and for writing and
  -- exceptions as the events of the handler say, every other socket as before, and the events of
  -- the handler are the same without the reading one. This holds for an attached handler whose
  -- socket is below FD_SETSIZE and has an entry in the map of handlers, with events among the
  -- three, in a loop with a well-formed selector in which each watched socket has an entry in that
  -- map, and a `make_heap` that keeps the items and puts the largest in front.
  pub on_read-full :
      (hm : IsHeapMaker env.loop_env.make_heap) (h g : ℕ)
      → a.handler ≡ some h
      → (a.loop.objects h).socket < fd_setsize
      → (a.loop.objects h).events < 8
      → (a.loop.objects h).detached ≡ false
      → lookup (a.loop.objects h).socket a.loop.handlers ≡ some g
      → IsLoop a.loop
      → (l : EventLoop) × (on_read env callbacks incoming a ≡ (
          if a.connected_callback
          then callbacks.on_connected false (record a { loop = l })
          else ok (record a { loop = l })))
        × IsSilenced h a.loop l
  unfolding lose
  on_read-full hm h g handled small bits there found w =
      let (l, e, q) = disable_reading_lem env.loop_env hm h g a.loop small bits there found w in
      (l, on_read-lose ∙ rw (handled, lose, e) (rw handled refl), q)
