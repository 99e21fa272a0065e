-- ===== src/TcpSocket/Connecting.antt =====
-- Connect of a connection.
use netb.Prelude.{
  ℕ, suc, ◌≡◌, List, [], ◌∷◌, ◌++◌, append_assoc, replicate, Bool, true, false, not, Option, none,
  some, ok, fault, aborted, refl, ◌∙◌,
}
use netb.SocketAddress.{family, HasLength}
use netb.Errors.{eintr, einprogress}
use netb.Socket.{
  State, SystemCall, Reply, failed, done, Address, create, sys_socket, sys_get_flags, sys_set_flags,
  sys_connect,
}
use netb.Socket.Modes.{create-closed, closed}
use netb.Socket.Interrupts.{connect_done, connect-in_progress}
use netb.TcpSocket.{TcpEnv, open_if_closed, bind_local, do_connect, connect_within}

-- The calls that come before ::connect, on a closed socket.
abbrev pub opening : TcpEnv → Address → ℕ → Bool → List SystemCall
opening env addr d b =
    sys_socket (family addr) env.stream env.tcp
    ∷ sys_get_flags (some d)
    ∷ sys_set_flags (some d) (not b)
    ∷ []

three :
    {A : Type 0} (l : List A) (x y z : A) → l ++ x ∷ [] ++ y ∷ [] ++ z ∷ [] ≡ l ++ x ∷ y ∷ z ∷ []
three l x y z = append_assoc (l ++ x ∷ []) (y ∷ []) (z ∷ []) ∙ append_assoc l (x ∷ []) (y ∷ z ∷ [])

-- The state after them.
abbrev opened : TcpEnv → Address → ℕ → Bool → List Reply → State → State
opened env addr d b rest s = record s {
  fd = some d;
  calls = s.calls ++ opening env addr d b;
  replies = rest;
}

module _ (env : TcpEnv) (addr : Address) (d f z k : ℕ) (rest : List Reply) (s : State)
    (shut : s.fd ≡ none) where
  open_lem :
      (local : Option Address) (replies : List Reply)
      → s.replies ≡ done d ∷ replies
      → open_if_closed env local addr s
        ≡ ok (
          true,
          record s {
            fd = some d;
            calls =
                s.calls
                ++ sys_socket
                    (elim local [ none ↦ family addr | some a ↦ family a ])
                    env.stream
                    env.tcp
                  ∷ [];
            replies = replies;
          },
        )
  unfolding open_if_closed
  open_lem local replies e =
      closed
        (create env.msg (elim local [ none ↦ family addr | some a ↦ family a ]) env.stream env.tcp
          s)
        (ok (true, s)) s.fd shut
      ∙ create-closed env.msg s (elim local [ none ↦ family addr | some a ↦ family a ]) env.stream
          env.tcp d replies shut e

  do_connect_done :
      (b : Bool) (n : ℕ)
      → HasLength addr
      → s.replies ≡ done d ∷ done f ∷ done z ∷ replicate k (failed eintr) ++ done n ∷ rest
      → (s' : State) × (do_connect env none addr b s ≡ ok (true, s'))
        × (s'.fd ≡ some d)
        × (s'.calls
            ≡ s.calls ++ opening env addr d b ++ replicate (suc k) (sys_connect (some d) addr))
        × (s'.error ≡ s.error)
        × (s'.replies ≡ rest)
  unfolding do_connect bind_local
  do_connect_done b n h e =
      let replies = replicate k (failed eintr) ++ done n ∷ rest in
      let (s', q, a) = connect_done env.msg k rest (opened env addr d b replies s) addr n h refl in
      (
        s',
        rw
            (
              do_connect,
              open_lem none (done f ∷ done z ∷ replies) e,
              three s.calls (sys_socket (family addr) env.stream env.tcp) (sys_get_flags (some d))
                  (sys_set_flags (some d) (not b)),
              q,
            )
            refl,
        a.fd,
        a.calls,
        a.error,
        a.replies,
      )

  -- `Connect` of a closed socket without a local address to a remote one of a family for which
  -- Length returns, where the system opens a descriptor, sets its mode and connects after `k`
  -- interruptions: the result is true, the calls are socket with the family of the remote address,
  -- reading and writing the flags (blocking exactly without a timeout), and `k + 1` times connect
  -- on the new descriptor; the error is as before.
  pub connect_within_done :
      (timeout : Option ℕ) (n : ℕ)
      → HasLength addr
      → s.replies ≡ done d ∷ done f ∷ done z ∷ replicate k (failed eintr) ++ done n ∷ rest
      → (s' : State) × (connect_within env timeout none addr s ≡ ok (true, s'))
        × (s'.fd ≡ some d)
        × (s'.calls
            ≡ s.calls
              ++ opening env addr d (elim timeout [ none ↦ true | some t ↦ false ])
              ++ replicate (suc k) (sys_connect (some d) addr))
        × (s'.error ≡ s.error)
        × (s'.replies ≡ rest)
  unfolding connect_within
  connect_within_done none n h e = do_connect_done true n h e
  connect_within_done (some t) n h e =
      let r = do_connect_done false n h e in
      (r.0, rw (connect_within, r.1) refl, r.2, r.3, r.4, r.5)

  -- `Connect` with a timeout, of a closed socket without a local address, where `::connect`
  -- answers EINPROGRESS after any number of interruptions: an assert fails, whatever the timeout,
  -- before the waiting for the connection.
  pub connect_within-in_progress :
      (t : ℕ)
      → s.replies
        ≡ done d ∷ done f ∷ done z ∷ replicate k (failed eintr) ++ failed einprogress ∷ rest
      → connect_within env (some t) none addr s ≡ fault aborted
  unfolding connect_within do_connect bind_local
  connect_within-in_progress t e =
      let replies = replicate k (failed eintr) ++ failed einprogress ∷ rest in
      rw
        (
          connect_within,
          do_connect,
          open_lem none (done f ∷ done z ∷ replies) e,
          three s.calls (sys_socket (family addr) env.stream env.tcp) (sys_get_flags (some d))
              (sys_set_flags (some d) true),
          connect-in_progress env.msg k rest (opened env addr d false replies s) addr refl,
        )
        refl

  pub connect_within-bound :
      (timeout : Option ℕ) (local : Address)
      → s.replies ≡ done d ∷ rest
      → connect_within env timeout (some local) addr s ≡ fault aborted
  unfolding connect_within do_connect bind_local
  connect_within-bound none local e = rw (do_connect, open_lem (some local) rest e) refl
  connect_within-bound (some t) local e = rw (do_connect, open_lem (some local) rest e) refl
