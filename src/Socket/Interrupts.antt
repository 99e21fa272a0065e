-- ===== src/Socket/Interrupts.antt =====
-- The loops that make a system call again after EINTR.
use netb.Prelude.{
  ℕ, zero, suc, ◌<◌, ◌≡◌, List, [], ◌∷◌, ◌++◌, replicate, append_assoc, length, length-append,
  length-replicate, Bool, true, false, not, some, ok, fault, aborted, arith, refl, ◌∙◌, Bool-cases,
  inl, inr, ◌==◌,
}
use netb.Memory.{Bytes}
use netb.SocketAddress.{inet, inet6, other, af_unspec, address_length, describe, HasLength}
use netb.Errors.{
  eintr, eagain, einprogress, interrupted, set_error, classify, send_call, receive_call,
}
use netb.Socket.{
  State, SystemCall, Reply, failed, done, system, repeat, uninterrupted, value_or_error,
  report_error, send, receive, connect, Address, sys_send, sys_receive, sys_connect,
}

-- A reply that ends the loop.
unfoldable pub is_final : Reply → Bool
is_final (failed x) = not (interrupted x)
is_final (done n) = true

-- What is left after `k` interrupted calls and one with the reply `r`.
pub record IsAnswered (sys : SystemCall) (k : ℕ) (rest : List Reply) (s s' : State) : Type 0 where
  pub calls : s'.calls ≡ s.calls ++ replicate (suc k) sys
  pub replies : s'.replies ≡ rest
  pub error : s'.error ≡ s.error
  pub fd : s'.fd ≡ s.fd

not-true : (b : Bool) → not b ≡ true → b ≡ false
not-true b e = ground arith

repeat_final :
    (fuel : ℕ) (sys : SystemCall) (r : Reply) (rest : List Reply) (s : State)
    → is_final r ≡ true
    → s.replies ≡ r ∷ rest
    → (s' : State) × (repeat (suc fuel) sys s ≡ ok (r, s')) × IsAnswered sys 0 rest s s'
unfolding repeat system is_final
repeat_final fuel sys (failed x) rest s f e = (
  record s { calls = s.calls ++ sys ∷ []; replies = rest; errno = some x },
  rw (e, repeat, not-true (interrupted x) f) refl,
  record { calls = refl; replies = refl; error = refl; fd = refl },
)
repeat_final fuel sys (done n) rest s f e = (
  record s { calls = s.calls ++ sys ∷ []; replies = rest },
  rw (e, repeat) refl,
  record { calls = refl; replies = refl; error = refl; fd = refl },
)

repeat_again :
    (fuel : ℕ) (sys : SystemCall) (rest : List Reply) (s : State)
    → s.replies ≡ failed eintr ∷ rest
    → repeat (suc fuel) sys s
      ≡ repeat fuel sys
          (record s { calls = s.calls ++ sys ∷ []; replies = rest; errno = some eintr })
unfolding repeat system interrupted
repeat_again fuel sys rest s e = rw (e, repeat) refl

-- The loop around a system call that is interrupted `k` times and then gets a reply that is no
-- EINTR ends, within any fuel above `k`: its result is that reply, it has made the call `k + 1`
-- times, and the error, the socket and the replies after it are left alone.
pub repeat_lem :
    (k : ℕ) (fuel : ℕ) (sys : SystemCall) (r : Reply) (rest : List Reply) (s : State)
    → is_final r ≡ true
    → s.replies ≡ replicate k (failed eintr) ++ r ∷ rest
    → k < fuel
    → (s' : State) × (repeat fuel sys s ≡ ok (r, s')) × IsAnswered sys k rest s s'
repeat_lem zero zero sys r rest s f e lt = absurd (omega arith)
repeat_lem zero (suc fuel) sys r rest s f e lt = repeat_final fuel sys r rest s f e
repeat_lem (suc k) zero sys r rest s f e lt = absurd (omega arith)
repeat_lem (suc k) (suc fuel) sys r rest s f e lt =
    let (s', p, a) =
      repeat_lem k fuel sys r rest
        (record s {
          calls = s.calls ++ sys ∷ [];
          replies = replicate k (failed eintr) ++ r ∷ rest;
          errno = some eintr;
        })
        f refl (omega arith) in
    (
      s',
      repeat_again fuel sys (replicate k (failed eintr) ++ r ∷ rest) s e ∙ p,
      record {
        calls = a.calls ∙ append_assoc s.calls (sys ∷ []) (replicate (suc k) sys);
        replies = a.replies;
        error = a.error;
        fd = a.fd;
      },
    )

pub uninterrupted_lem :
    (k : ℕ) (sys : SystemCall) (r : Reply) (rest : List Reply) (s : State)
    → is_final r ≡ true
    → s.replies ≡ replicate k (failed eintr) ++ r ∷ rest
    → (s' : State) × (uninterrupted sys s ≡ ok (r, s')) × IsAnswered sys k rest s s'
uninterrupted_lem k sys r rest s f e = repeat_lem k (length s.replies) sys r rest s f e (
    rw (e, length-append (replicate k (failed eintr)) (r ∷ rest), length-replicate k (failed eintr))
      (omega arith))

module _ (msg : Bytes) (k : ℕ) (rest : List Reply) (s : State) where
  pub send_lem :
      (p : Bytes) (flags : ℕ) (r : Reply)
      → is_final r ≡ true
      → s.replies ≡ replicate k (failed eintr) ++ r ∷ rest
      → (s' : State) × (send msg p flags s ≡ value_or_error send_call msg r s')
        × IsAnswered (sys_send s.fd p flags) k rest s s'
  unfolding send
  send_lem p flags r f e =
      let (s', q, a) = uninterrupted_lem k (sys_send s.fd p flags) r rest s f e in
      (s', rw (q, send) refl, a)

  pub send-would_block :
      (p : Bytes) (flags : ℕ)
      → s.replies ≡ replicate k (failed eintr) ++ failed eagain ∷ rest
      → send msg p flags s ≡ fault aborted
  unfolding value_or_error report_error set_error classify is_final interrupted
  send-would_block p flags e = (send_lem p flags (failed eagain) refl e).1

  pub receive_lem :
      (n : ℕ) (flags : ℕ) (r : Reply)
      → is_final r ≡ true
      → s.replies ≡ replicate k (failed eintr) ++ r ∷ rest
      → (s' : State) × (receive msg n flags s ≡ value_or_error receive_call msg r s')
        × IsAnswered (sys_receive s.fd n flags) k rest s s'
  unfolding receive
  receive_lem n flags r f e =
      let (s', q, a) = uninterrupted_lem k (sys_receive s.fd n flags) r rest s f e in
      (s', rw (q, receive) refl, a)

  pub receive-would_block :
      (n : ℕ) (flags : ℕ)
      → s.replies ≡ replicate k (failed eintr) ++ failed eagain ∷ rest
      → receive msg n flags s ≡ fault aborted
  unfolding value_or_error report_error set_error classify is_final interrupted
  receive-would_block n flags e = (receive_lem n flags (failed eagain) refl e).1

  pub connect_done :
      (addr : Address) (n : ℕ)
      → HasLength addr
      → s.replies ≡ replicate k (failed eintr) ++ done n ∷ rest
      → (s' : State) × (connect msg addr s ≡ ok (true, s'))
        × IsAnswered (sys_connect s.fd addr) k rest s s'
  unfolding connect is_final
  connect_done addr n h e =
      let (s', q, a) = uninterrupted_lem k (sys_connect s.fd addr) (done n) rest s refl e in
      (s', rw (h.1, connect, q) refl, a)

  pub connect-in_progress :
      (addr : Address)
      → s.replies ≡ replicate k (failed eintr) ++ failed einprogress ∷ rest
      → connect msg addr s ≡ fault aborted
  unfolding connect address_length describe report_error set_error classify is_final interrupted
  connect-in_progress (inet port x) e =
      let (s', q, a) =
        uninterrupted_lem k (sys_connect s.fd (inet port x)) (failed einprogress) rest s refl e in
      rw (q, connect) refl
  connect-in_progress (inet6 port flow x scope) e =
      let (s', q, a) =
        uninterrupted_lem k (sys_connect s.fd (inet6 port flow x scope)) (failed einprogress) rest s
          refl e in
      rw (q, connect) refl
  connect-in_progress (other f x) e =
      let (s', q, a) =
        uninterrupted_lem k (sys_connect s.fd (other f x)) (failed einprogress) rest s refl e in
      elim (Bool-cases (f == af_unspec)) [
        | inl p ↦ rw (p, connect, q) refl
        | inr p ↦ rw (p, connect) refl
      ]
