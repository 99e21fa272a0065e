-- ===== src/AsyncUdpSocket/Draining.antt =====
-- In which order queued datagrams are sent, and which stay queued.
use netb.Prelude.{
  ℕ, suc, ◌≡◌, List, [], ◌∷◌, ◌++◌, append_assoc, append-nil, map, map-append, sym, ap, length,
  true, none, some, ok, fault, aborted, ◌▹◌, arith, refl, ◌∙◌, Bool-cases, inl, inr, if◌then◌else◌,
}
use netb.Memory.{Bytes}
use netb.SocketAddress.{SocketAddress, is_unspecified, HasLength}
use netb.Socket.{
  Descriptor, State, SystemCall, Reply, done, sys_send, sys_send_to, send, send_to, repeat, system,
  value_or_error,
}
use netb.StreamBuffer.{pending}
use netb.EventLoop.{disable_writing}
use netb.AsyncUdpSocket.{
  AsyncUdpSocket, AsyncUdpEnv, Datagram, send_one, drain, on_write, silent, no_datagrams,
}

-- What a datagram holds and where it goes.
abbrev pub Payload : Type 0
Payload = Bytes × SocketAddress

-- The queued datagrams hold these payloads, and their addresses have lengths.
abbrev pub Hold : List Payload → List Datagram → Type 0
Hold [] [] = Unit {0}
Hold [] (d ∷ ds) = ⊥
Hold (p ∷ ps) [] = ⊥
Hold ((p, addr) ∷ ps) (d ∷ ds) =
    ((pending d.buf ≡ ok p) × (d.addr ≡ addr) × HasLength addr) × Hold ps ds

-- The system call that sends a payload.
unfoldable pub call_for : Descriptor → Payload → SystemCall
unfolding is_unspecified
call_for fd (p, addr) = if is_unspecified addr then sys_send fd p 0 else sys_send_to fd p 0 addr

module _ (env : AsyncUdpEnv) where
  send_one_lem :
      (p : Bytes) (addr : SocketAddress) (n : ℕ) (rest : List Reply) (s : State)
      → HasLength addr
      → s.replies ≡ done n ∷ rest
      → silent (send_one env p addr) s
        ≡ ok (some n, record s { calls = s.calls ++ call_for s.fd (p, addr) ∷ []; replies = rest })
  unfolding send_one send send_to repeat system value_or_error call_for
  send_one_lem p addr n rest s h e = elim (Bool-cases (is_unspecified addr)) [
    | inl u ↦ rw (u, e) refl
    | inr u ↦ rw (u, e, h.1) refl
  ]

  -- The state once the calls for some payloads were answered.
  abbrev sent : List Payload → List Reply → State → State
  sent ps rest s = record s { calls = s.calls ++ map (call_for s.fd) ps; replies = rest }

  drain_before :
      (ps : List Payload) (ds later : List Datagram) (ns : List ℕ) (rest : List Reply) (s : State)
      → Hold ps ds
      → length ns ≡ length ps
      → s.replies ≡ map (λ n. done (suc n)) ns ++ rest
      → drain env (ds ++ later) s ≡ drain env later (sent ps rest s)
  unfolding drain
  drain_before [] [] later [] rest s h l e =
      rw append-nil (ap (λ rs. drain env later (record s { replies = rs })) e)
  drain_before [] [] later (n ∷ ns) rest s h l e = absurd (omega (arith, l))
  drain_before [] (d ∷ ds) later ns rest s h l e = absurd h
  drain_before (p ∷ ps) [] later ns rest s h l e = absurd h
  drain_before (p ∷ ps) (d ∷ ds) later [] rest s h l e = absurd (omega (arith, l))
  drain_before ((p, addr) ∷ ps) (d ∷ ds) later (n ∷ ns) rest s ((hp, ha, hl), h) l e =
      let replies = map (λ (m : ℕ). done (suc m)) ns ++ rest in
      let s₁ : State = record s {
        calls = s.calls ++ call_for s.fd (p, addr) ∷ [];
        replies = replies;
      } in
      rw (drain, hp, ha, send_one_lem p addr (suc n) replies s hl e)
        (drain_before ps ds later ns rest s₁ h (omega (arith, l)) refl ∙ rw append_assoc refl)

  drain_refused :
      (d : Datagram) (later : List Datagram) (p : Bytes) (rest : List Reply) (s : State)
      → HasLength d.addr
      → pending d.buf ≡ ok p
      → s.replies ≡ done 0 ∷ rest
      → drain env (d ∷ later) s ≡ ok (d ∷ later, sent ((p, d.addr) ∷ []) rest s)
  unfolding drain
  drain_refused d later p rest s hl h e = rw (h, drain, send_one_lem p d.addr 0 rest s hl e) refl

  drain_all :
      (ps : List Payload) (ds : List Datagram) (ns : List ℕ) (rest : List Reply) (s : State)
      → Hold ps ds
      → length ns ≡ length ps
      → s.replies ≡ map (λ n. done (suc n)) ns ++ rest
      → drain env ds s ≡ ok ([], sent ps rest s)
  unfolding drain
  drain_all ps ds ns rest s h l e =
      ap (λ q. drain env q s) (sym (append-nil ds)) ∙ drain_before ps ds [] ns rest s h l e

  -- Where the system takes something of each of the first queued datagrams and nothing of the next
  -- one, `OnWrite` has sent them in the order of the queue, each to its address or, without one,
  -- over the connection; the refused datagram stays at the front with all that follow it, none of
  -- which is tried, and the handler stays as it is. Length returns for the addresses of all of
  -- these.
  pub on_write-refused :
      (a : AsyncUdpSocket) (ps : List Payload) (ds later : List Datagram) (d : Datagram) (p : Bytes)
      (ns : List ℕ) (rest : List Reply)
      → a.out_buffers ≡ ds ++ d ∷ later
      → Hold ps ds
      → HasLength d.addr
      → pending d.buf ≡ ok p
      → length ns ≡ length ps
      → a.socket.replies ≡ map (λ n. done (suc n)) ns ++ done 0 ∷ rest
      → on_write env a
        ≡ ok (record a {
          out_buffers = d ∷ later;
          socket = sent (ps ++ (p, d.addr) ∷ []) rest a.socket;
        })
  unfolding on_write no_datagrams
  on_write-refused a ps ds later d p ns rest q h hl hp l e =
      let s₁ : State = sent ps (done 0 ∷ rest) a.socket in
      rw
        (
          q,
          on_write,
          drain_before ps ds (d ∷ later) ns (done 0 ∷ rest) a.socket h l e,
          drain_refused d later p rest s₁ hl hp refl,
        )
        (rw (map-append, append_assoc) refl)

  pub on_write-drained :
      (a : AsyncUdpSocket) (ps : List Payload) (ns : List ℕ) (rest : List Reply)
      → Hold ps a.out_buffers
      → length ns ≡ length ps
      → a.socket.replies ≡ map (λ n. done (suc n)) ns ++ rest
      → (let b : AsyncUdpSocket = record a { out_buffers = []; socket = sent ps rest a.socket } in
          on_write env a ≡ (elim (a.handler) [
            | none ↦ fault aborted
            | some h ↦ disable_writing env.loop_env true h a.loop ▹ λ l. ok (record b { loop = l })
          ]))
  unfolding on_write no_datagrams
  on_write-drained a ps ns rest h l e =
      rw (on_write, drain_all ps a.out_buffers ns rest a.socket h l e) refl
