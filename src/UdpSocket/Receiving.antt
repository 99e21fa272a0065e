-- ===== src/UdpSocket/Receiving.antt =====
-- Receiving datagrams into a buffer.
use netb.Prelude.{ℕ, ◌-◌, ◌≡◌, length, Option, ok}
use netb.Memory.{Bytes}
use netb.Socket.{State}
use netb.StreamBuffer.{StreamBuffer}
use netb.StreamBuffer.Valid.{HasRoom, spaced}
use netb.StreamBuffer.External.{IsFilled}
use netb.TcpSocket.Receiving.{arrived, IsWithin, receive_into_lem}
use netb.UdpSocket.{
  UdpEnv, receive_from_within, receive_from_buffer, receive_within, receive_buffer_within,
}

module _ (env : UdpEnv) (timeout : Option ℕ) (incoming : Bytes) {b : StreamBuffer} (s s' : State)
    (r : Option ℕ) (h : HasRoom 2048 b)
    (within : IsWithin r (length (spaced 2048 b) - b.wpos) incoming) where
  -- What ReceiveFrom receives is appended to the buffer.
  pub receive_from_buffer_lem :
      receive_from_within env timeout (length (spaced 2048 b) - b.wpos) s ≡ ok (r, s')
      → (b' : StreamBuffer) × (receive_from_buffer env timeout incoming b s ≡ ok (r, b', s'))
        × IsFilled (arrived r incoming) b b'
  unfolding receive_from_buffer
  receive_from_buffer_lem e =
      receive_into_lem env.msg (receive_from_within env timeout) incoming s s' r h e within

  -- The same from the connected address.
  pub receive_buffer_within_lem :
      receive_within env timeout (length (spaced 2048 b) - b.wpos) s ≡ ok (r, s')
      → (b' : StreamBuffer) × (receive_buffer_within env timeout incoming b s ≡ ok (r, b', s'))
        × IsFilled (arrived r incoming) b b'
  unfolding receive_buffer_within
  receive_buffer_within_lem e =
      receive_into_lem env.msg (receive_within env timeout) incoming s s' r h e within
