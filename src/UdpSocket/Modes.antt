-- ===== src/UdpSocket/Modes.antt =====
-- Sending with a timeout.
use netb.Prelude.{
  ℕ, ◌≡◌, List, [], ◌∷◌, ◌++◌, true, false, none, some, ok, refl, ◌∙◌, append_assoc, if◌then◌else◌,
}
use netb.Memory.{Bytes}
use netb.Socket.{
  State, Reply, SystemCall, Address, done, create, sys_get_flags, sys_set_flags, sys_socket,
}
use netb.Socket.Modes.{block_lem, create-closed, closed}
use netb.SocketAddress.{family, is_unspecified}
use netb.UdpSocket.{UdpEnv, send_within, send_to_within, open_if_closed}

pub send_within-unblocked :
    (env : UdpEnv) (t f z : ℕ) (p : Bytes) (rest : List Reply) (s : State)
    → s.replies ≡ done f ∷ done z ∷ rest
    → send_within env (some t) p s
      ≡ ok (
        none,
        record s {
          calls = s.calls ++ sys_get_flags s.fd ∷ sys_set_flags s.fd true ∷ [];
          replies = rest;
        },
      )
unfolding send_within
send_within-unblocked env t f z p rest s e =
    rw (send_within, block_lem env.msg s false f z rest e) refl

-- The family of the socket that is opened.
abbrev pub chosen : Address → Address → ℕ
chosen local addr = if is_unspecified local then family addr else family local

module _ (env : UdpEnv) (local addr : Address) (d f z : ℕ) (rest : List Reply) (s : State)
    (shut : s.fd ≡ none) (e : s.replies ≡ done d ∷ done f ∷ done z ∷ rest) where
  abbrev calls : List SystemCall
  calls =
      s.calls
      ++ sys_socket (chosen local addr) env.dgram env.udp
        ∷ sys_get_flags (some d)
        ∷ sys_set_flags (some d) true
        ∷ []

  opened :
      open_if_closed env local addr s
      ≡ ok (
        true,
        record s {
          fd = some d;
          calls = s.calls ++ sys_socket (chosen local addr) env.dgram env.udp ∷ [];
          replies = done f ∷ done z ∷ rest;
        },
      )
  unfolding open_if_closed
  opened =
      closed (create env.msg (chosen local addr) env.dgram env.udp s) (ok (true, s)) s.fd shut
      ∙ create-closed env.msg s (chosen local addr) env.dgram env.udp d (done f ∷ done z ∷ rest)
          shut e

  three :
      s.calls
        ++ sys_socket (chosen local addr) env.dgram env.udp ∷ []
        ++ sys_get_flags (some d) ∷ []
        ++ sys_set_flags (some d) true ∷ []
      ≡ calls
  three =
      append_assoc (s.calls ++ sys_socket (chosen local addr) env.dgram env.udp ∷ [])
        (sys_get_flags (some d) ∷ []) (sys_set_flags (some d) true ∷ [])
      ∙ append_assoc s.calls (sys_socket (chosen local addr) env.dgram env.udp ∷ [])
          (sys_get_flags (some d) ∷ sys_set_flags (some d) true ∷ [])

  -- `SendTo` with any timeout, of a closed UDP socket to an address that is not empty, where the
  -- system opens a descriptor and setting the mode succeeds: the result is -1, nothing is sent,
  -- the calls are only opening and setting the mode, and the error is as before.
  pub send_to_within-unblocked :
      (t : ℕ) (p : Bytes)
      → is_unspecified addr ≡ false
      → send_to_within env (some t) local addr p s
        ≡ ok (none, record s { fd = some d; calls = calls; replies = rest })
  unfolding send_to_within
  send_to_within-unblocked t p full = rw (full, send_to_within, opened, three) refl
