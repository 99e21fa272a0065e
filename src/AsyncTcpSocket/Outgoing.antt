-- ===== src/AsyncTcpSocket/Outgoing.antt =====
-- What the functions of the socket do to the outgoing buffer.
use mathlib.Core.Path.{subst}
use netb.Prelude.{
  ℕ, zero, suc, ◌≤◌, ◌≡◌, ◌==◌, ◌⊎◌, inl, inr, length, max_size, Bool, true, false, Option, none,
  some, Outcome, ok, refl, ap, sym, ◌∙◌, bind-ok, fault≢ok, ok-injective, Bool-cases, Option-cases,
  if◌then◌else◌, ltb,
}
use netb.Memory.{Bytes}
use netb.Socket.{State, block, send}
use netb.EventLoop.{create_handler, enable_writing, disable_writing}
use netb.StreamBuffer.{StreamBuffer, is_empty, readable, pending, write}
use netb.StreamBuffer.Valid.{IsValid}
use netb.StreamBuffer.Unflushed.{IsAppended, IsSameData, write_unflushed, advance_read-IsSameData}
use netb.AsyncTcpSocket.{
  AsyncTcpSocket, AsyncEnv, new_handler, make_handler, init_handler, enable_handler, disable,
  enable, enable_if_buffered, buffer, buffer_rest, on_socket, on_socket_silent, send_inside,
  send_outside, drop_sent, send_buffered, on_write, is_short, unsent,
}

module _ (env : AsyncEnv) (inside : Bool) (a a' : AsyncTcpSocket) (b : Bool) where
  new_handler-out : (d : ℕ) → new_handler env inside d a ≡ ok (b, a') → a'.out_buffer ≡ a.out_buffer
  unfolding new_handler
  new_handler-out d e =
      let (l, p, q) = bind-ok (create_handler env.loop_env inside env.next_handler d a.loop) _ e in
      ap (λ t. t.1.out_buffer) (sym (ok-injective q))

  make_handler-out :
      (d : ℕ) → make_handler env inside d a ≡ ok (b, a') → a'.out_buffer ≡ a.out_buffer
  unfolding make_handler
  make_handler-out d e = elim (Option-cases a.handler) [
    | inl h ↦ new_handler-out d (rw (h, make_handler) at e)
    | inr (k, h) ↦ ap (λ t. t.1.out_buffer) (sym (ok-injective (rw (h, make_handler) at e)))
  ]

  enable_handler-out : enable_handler env inside a ≡ ok (b, a') → a'.out_buffer ≡ a.out_buffer
  unfolding enable_handler
  enable_handler-out e = elim (Option-cases a.handler) [
    | inl h ↦ absurd (fault≢ok (rw (h, enable_handler) at e))
    | inr (k, h) ↦
        let (l, p, q) =
          bind-ok (enable_writing env.loop_env inside k a.loop) _ (rw (h, enable_handler) at e) in
        ap (λ t. t.1.out_buffer) (sym (ok-injective q))
  ]

socket-out :
    {A : Type 0} (m : State → Outcome (A × State)) (a a' : AsyncTcpSocket) (r : A)
    → on_socket m a ≡ ok (r, a')
    → a'.out_buffer ≡ a.out_buffer
socket-out m a a' r e =
    let (x, p, q) = bind-ok (m a.socket) _ e in ap (λ t. t.1.out_buffer) (sym (ok-injective q))

silent-out :
    {A : Type 0} (m : State → Outcome (A × State)) (a a' : AsyncTcpSocket) (r : A)
    → on_socket_silent m a ≡ ok (r, a')
    → a'.out_buffer ≡ a.out_buffer
silent-out m a a' r e =
    let (x, p, q) = bind-ok (m (record (a.socket) { error = none })) _ e in
    ap (λ t. t.1.out_buffer) (sym (ok-injective q))

module _ (env : AsyncEnv) (inside : Bool) (a a' : AsyncTcpSocket) (b : Bool) where
  make_if :
      (d : ℕ) (r : Bool) (c : AsyncTcpSocket)
      → (if r then make_handler env inside d c else ok (false, c)) ≡ ok (b, a')
      → a'.out_buffer ≡ c.out_buffer
  make_if d true c e = make_handler-out env inside c a' b d e
  make_if d false c e = ap (λ t. t.1.out_buffer) (sym (ok-injective e))

  enable_if :
      (r : Bool) (c : AsyncTcpSocket)
      → (if r then enable_handler env inside c else ok (false, c)) ≡ ok (b, a')
      → a'.out_buffer ≡ c.out_buffer
  enable_if true c e = enable_handler-out env inside c a' b e
  enable_if false c e = ap (λ t. t.1.out_buffer) (sym (ok-injective e))

  init_handler-out : init_handler env inside a ≡ ok (b, a') → a'.out_buffer ≡ a.out_buffer
  unfolding init_handler
  init_handler-out e = elim (Option-cases a.socket.fd) [
    | inl f ↦ ap (λ t. t.1.out_buffer) (sym (ok-injective (rw (f, init_handler) at e)))
    | inr (d, f) ↦
        let (x, p, q) =
          bind-ok (on_socket (block env.tcp_env.msg false) a) _ (rw (f, init_handler) at e) in
        make_if d x.0 x.1 q ∙ socket-out (block env.tcp_env.msg false) a x.1 x.0 p
  ]

module _ (env : AsyncEnv) (inside : Bool) (a a' : AsyncTcpSocket) where
  enable-out : (b : Bool) → enable env inside a ≡ ok (b, a') → a'.out_buffer ≡ a.out_buffer
  unfolding enable
  enable-out b e =
      let a₀ = record a { socket = record (a.socket) { error = none } } in
      let (x, p, q) = bind-ok (init_handler env inside a₀) _ e in
      enable_if env inside a₀ a' b x.0
        (record (x.1) { socket = record (x.1.socket) { error = a.socket.error } }) q
      ∙ init_handler-out env inside a₀ x.1 x.0 p

module _ (env : AsyncEnv) (a a' : AsyncTcpSocket) where
  enable_if_buffered-out : enable_if_buffered env a ≡ ok a' → a'.out_buffer ≡ a.out_buffer
  unfolding enable_if_buffered
  enable_if_buffered-out e = elim (Bool-cases (is_empty a.out_buffer)) [
    | inl t ↦ ap (λ t. t.out_buffer) (sym (ok-injective (rw (t, enable_if_buffered) at e)))
    | inr t ↦
        let (x, p, q) = bind-ok (enable env true a) _ (rw (t, enable_if_buffered) at e) in
        ap (λ t. t.out_buffer) (sym (ok-injective q)) ∙ enable-out env true a x.1 x.0 p
  ]

-- The bytes are behind the others and the result is their number, or the buffer is as before and
-- the result is 0.
abbrev pub IsAccepted : Bytes → Option ℕ → StreamBuffer → StreamBuffer → Type 0
IsAccepted p r b b' = ((r ≡ some (length p)) × IsAppended p b b') ⊎ ((r ≡ some 0) × (b' ≡ b))

module _ (p : Bytes) (a a' : AsyncTcpSocket) (v : IsValid a.out_buffer) (o : a.out_buffer.opos ≡ 0)
    (small : length p ≤ max_size) where
  buffer_lem :
      (r : Bool)
      → buffer p a ≡ ok (r, a')
      → ((r ≡ true) × IsAppended p a.out_buffer a'.out_buffer)
        ⊎ ((r ≡ false) × (a'.out_buffer ≡ a.out_buffer))
  buffer_lem r e =
      let (x, w, q) = bind-ok (write p a.out_buffer) _ e in
      let u = sym (ok-injective q) in
      elim (write_unflushed p x.0 v o small w) [
        | inl (n, i) ↦ inl (
          ap (λ t. t.0) u ∙ ap (λ y. elim y [ none ↦ false | some k ↦ true ]) n,
          subst (IsAppended p a.out_buffer) (sym (ap (λ t. t.1.out_buffer) u)) i,
        )
        | inr (n, i) ↦ inr (
          ap (λ t. t.0) u ∙ ap (λ y. elim y [ none ↦ false | some k ↦ true ]) n,
          ap (λ t. t.1.out_buffer) u ∙ i,
        )
      ]

  buffer_accepts :
      (r : Bool)
      → buffer p a ≡ ok (r, a')
      → IsAccepted p (if r then some (length p) else some 0) a.out_buffer a'.out_buffer
  buffer_accepts r e = elim (buffer_lem r e) [
    | inl (t, i) ↦ inl (rw t refl, i)
    | inr (t, i) ↦ inr (rw t refl, i)
  ]

accept_as :
    (p : Bytes) (r r' : Option ℕ) (b b₁ b' : StreamBuffer)
    → IsAccepted p r b b₁
    → r' ≡ r
    → b' ≡ b₁
    → IsAccepted p r' b b'
accept_as p r r' b b₁ b' (inl (t, i)) e f = inl (e ∙ t, subst (IsAppended p b) (sym f) i)
accept_as p r r' b b₁ b' (inr (t, i)) e f = inr (e ∙ t, f ∙ i)

module _ (p : Bytes) (a a' : AsyncTcpSocket) (v : IsValid a.out_buffer) (o : a.out_buffer.opos ≡ 0)
    (small : length p ≤ max_size) where
  buffer_rest_lem :
      (r : Option ℕ)
      → buffer_rest p (some 0) a ≡ ok (r, a')
      → IsAccepted p r a.out_buffer a'.out_buffer
  unfolding buffer_rest is_short unsent
  buffer_rest_lem r e = elim (Bool-cases (ltb 0 (length p))) [
    | inl t ↦
        let (x, w, q) = bind-ok (buffer p a) _ (rw (t, buffer_rest) at e) in
        let u = sym (ok-injective q) in
        accept_as p (if x.0 then some (length p) else some 0) r a.out_buffer x.1.out_buffer
          a'.out_buffer (buffer_accepts p a x.1 v o small x.0 w) (ap (λ t. t.0) u)
          (ap (λ t. t.1.out_buffer) u)
    | inr t ↦
        let u = sym (ok-injective (rw (t, buffer_rest) at e)) in
        inr (ap (λ t. t.0) u, ap (λ t. t.1.out_buffer) u)
  ]

module _ (p : Bytes) (a a' : AsyncTcpSocket) (v : IsValid a.out_buffer) (o : a.out_buffer.opos ≡ 0)
    (small : length p ≤ max_size) where
  pub send_inside-IsAccepted :
      (env : AsyncEnv) (r : Option ℕ)
      → is_empty a.out_buffer ≡ false
      → send_inside env p a ≡ ok (r, a')
      → IsAccepted p r a.out_buffer a'.out_buffer
  unfolding send_inside
  send_inside-IsAccepted env r full e =
      let (x, w, q) = bind-ok (buffer_rest p (some 0) a) _ (rw (full, send_inside) at e) in
      let (c, g, h) = bind-ok (enable_if_buffered env x.1) _ q in
      let u = sym (ok-injective h) in
      accept_as p x.0 r a.out_buffer x.1.out_buffer a'.out_buffer
        (buffer_rest_lem p a x.1 v o small x.0 w) (ap (λ t. t.0) u)
        (ap (λ t. t.1.out_buffer) u ∙ enable_if_buffered-out env x.1 c g)

  pub send_outside-IsAccepted :
      (env : AsyncEnv) (r : Option ℕ)
      → send_outside env p a ≡ ok (r, a')
      → IsAccepted p r a.out_buffer a'.out_buffer
  unfolding send_outside
  send_outside-IsAccepted env r e =
      let (x, w, q) = bind-ok (buffer p a) _ e in
      elim (buffer_lem p a x.1 v o small x.0 w) [
        | inl (t, i) ↦
            let (y, g, h) = bind-ok (enable env false x.1) _ (rw t at q) in
            let u = sym (ok-injective h) in
            inl (
              ap (λ t. t.0) u,
              subst (IsAppended p a.out_buffer)
                  (sym (ap (λ t. t.1.out_buffer) u ∙ enable-out env false x.1 y.1 y.0 g)) i,
            )
        | inr (t, i) ↦
            let u = sym (ok-injective (rw t at q)) in
            inr (ap (λ t. t.0) u, ap (λ t. t.1.out_buffer) u ∙ i)
      ]

disable-out :
    (env : AsyncEnv) (a a' : AsyncTcpSocket) → disable env a ≡ ok a' → a'.out_buffer ≡ a.out_buffer
unfolding disable
disable-out env a a' e = elim (Option-cases a.handler) [
  | inl h ↦ absurd (fault≢ok (rw (h, disable) at e))
  | inr (k, h) ↦
      let (l, p, q) =
        bind-ok (disable_writing env.loop_env true k a.loop) _ (rw (h, disable) at e) in
      ap (λ t. t.out_buffer) (sym (ok-injective q))
]

same-data : (b : StreamBuffer) → IsValid b → IsSameData b b
same-data b v = record {
  contents_eq = refl;
  valid = v;
  opos_eq = refl;
  wpos_eq = refl;
  limit_eq = refl;
}

drop_sent-IsSameData :
    (sent : Option ℕ) (a : AsyncTcpSocket)
    → IsValid a.out_buffer
    → IsSameData a.out_buffer (drop_sent sent a).out_buffer
drop_sent-IsSameData none a v = same-data a.out_buffer v
drop_sent-IsSameData (some zero) a v = same-data a.out_buffer v
drop_sent-IsSameData (some (suc k)) a v = advance_read-IsSameData (suc k) v

same_as : (b b₁ b' : StreamBuffer) → IsSameData b b₁ → b' ≡ b₁ → IsSameData b b'
same_as b b₁ b' d e = subst (IsSameData b) (sym e) d

module _ (env : AsyncEnv) (a a' : AsyncTcpSocket) (v : IsValid a.out_buffer) where
  send_buffered-IsSameData : send_buffered env a ≡ ok a' → IsSameData a.out_buffer a'.out_buffer
  unfolding send_buffered
  send_buffered-IsSameData e = elim (Bool-cases (readable a.out_buffer == 0)) [
    | inl t ↦
        same_as a.out_buffer a.out_buffer a'.out_buffer (same-data a.out_buffer v)
          (ap (λ t. t.out_buffer) (sym (ok-injective (rw (t, send_buffered) at e))))
    | inr t ↦
        let (p, w, q) = bind-ok (pending a.out_buffer) _ (rw (t, send_buffered) at e) in
        let (x, g, h) = bind-ok (on_socket_silent (send env.tcp_env.msg p 0) a) _ q in
        let same = silent-out (send env.tcp_env.msg p 0) a x.1 x.0 g in
        same_as a.out_buffer (drop_sent x.0 x.1).out_buffer a'.out_buffer
          (subst (λ b. IsSameData b (drop_sent x.0 x.1).out_buffer) same
            (drop_sent-IsSameData x.0 x.1 (subst IsValid (sym same) v)))
          (ap (λ t. t.out_buffer) (sym (ok-injective h)))
  ]

module _ (env : AsyncEnv) (a a' : AsyncTcpSocket) (v : IsValid a.out_buffer) where
  pub on_write-IsSameData : on_write env a ≡ ok a' → IsSameData a.out_buffer a'.out_buffer
  unfolding on_write
  on_write-IsSameData e =
      let (x, w, q) = bind-ok (send_buffered env a) _ e in
      let d = send_buffered-IsSameData env a x v w in
      elim (Bool-cases (readable x.out_buffer == 0)) [
        | inl t ↦
            same_as a.out_buffer x.out_buffer a'.out_buffer d (disable-out env x a' (rw t at q))
        | inr t ↦
            same_as a.out_buffer x.out_buffer a'.out_buffer d
              (ap (λ t. t.out_buffer) (sym (ok-injective (rw t at q))))
      ]
