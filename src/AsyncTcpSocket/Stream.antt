-- ===== src/AsyncTcpSocket/Stream.antt =====
-- The bytes of a connection over many calls of Send and OnWrite.
use mathlib.Core.Path.{subst}
use netb.Prelude.{
  ℕ, suc, ◌+◌, ◌≤◌, ◌<◌, ◌≡◌, inl, inr, List, [], ◌∷◌, ◌++◌, append_assoc, append-nil, take,
  take_all, drop, length, length-append, max_size, replicate, false, Option, none, some, ok, arith,
  refl, ap, sym, ◌∙◌, ◌==◌,
}
use netb.Memory.{Bytes}
use netb.Errors.{eintr}
use netb.Socket.{Reply, failed, done, sys_send, value_or_error}
use netb.Socket.Interrupts.{send_lem, is_final}
use netb.StreamBuffer.{StreamBuffer}
use netb.StreamBuffer.Valid.{IsValid, contents, unread, advanced, unread-advanced}
use netb.StreamBuffer.Read.{pending-eq, readable-eq, advance_read_fits, length-contents}
use netb.StreamBuffer.Unflushed.{IsSameData, is_empty-unflushed}
use netb.AsyncTcpSocket.{
  AsyncTcpSocket, AsyncEnv, send_inside, send_outside, on_write, send_buffered,
}
use netb.AsyncTcpSocket.Outgoing.{
  IsAccepted, send_inside-IsAccepted, send_outside-IsAccepted, on_write-IsSameData,
}

-- The bytes that a result of Send says are sent or buffered.
unfoldable pub taken : Option ℕ → Bytes → Bytes
taken none p = []
taken (some k) p = take k p

-- Calls that return, from one state to another, with all the bytes that they accepted.
pub data Run (env : AsyncEnv) (a : AsyncTcpSocket) : Bytes → AsyncTcpSocket → Type 0 where
  start : Run env a [] a
  sends_inside :
      {more : Bytes} {a' a'' : AsyncTcpSocket} {r : Option ℕ} (p : Bytes)
      → Run env a more a'
      → length p ≤ max_size
      → send_inside env p a' ≡ ok (r, a'')
      → Run env a (more ++ taken r p) a''
  sends_outside :
      {more : Bytes} {a' a'' : AsyncTcpSocket} {r : Option ℕ} (p : Bytes)
      → Run env a more a'
      → length p ≤ max_size
      → send_outside env p a' ≡ ok (r, a'')
      → Run env a (more ++ taken r p) a''
  writes :
      {more : Bytes} {a' a'' : AsyncTcpSocket}
      → Run env a more a'
      → on_write env a' ≡ ok a''
      → Run env a more a''

-- A buffer with data of which nothing was flushed.
pub record IsUnflushed (b : StreamBuffer) : Type 0 where
  pub valid : IsValid b
  pub opos_eq : b.opos ≡ 0
  pub full : 0 < b.wpos

-- The second buffer holds the data of the first and then `more`.
pub record IsGrown (b : StreamBuffer) (more : Bytes) (b' : StreamBuffer) : Type 0 where
  pub unflushed : IsUnflushed b'
  pub contents_eq : contents b' ≡ contents b ++ more
  pub limit_eq : b'.limit ≡ b.limit

taken_all : (p : Bytes) (r : Option ℕ) → r ≡ some (length p) → taken r p ≡ p
unfolding taken
taken_all p r e = ap (λ x. taken x p) e ∙ take_all (length p) p (omega arith)

taken_none : (p : Bytes) (r : Option ℕ) → r ≡ some 0 → taken r p ≡ []
unfolding taken
taken_none p r e = ap (λ x. taken x p) e

grow_accepted :
    (b b' b'' : StreamBuffer) (more p : Bytes) (r : Option ℕ)
    → IsGrown b more b'
    → IsAccepted p r b' b''
    → IsGrown b (more ++ taken r p) b''
grow_accepted b b' b'' more p r g (inl (e, i)) = record {
  unflushed = record {
    valid = i.valid;
    opos_eq = i.opos_eq ∙ g.unflushed.opos_eq;
    full = omega (arith, i.wpos_eq, g.unflushed.full);
  };
  contents_eq =
      i.contents_eq
      ∙ ap (λ t. t ++ p) g.contents_eq
      ∙ append_assoc (contents b) more p
      ∙ ap (λ t. contents b ++ (more ++ t)) (sym (taken_all p r e));
  limit_eq = i.limit_eq ∙ g.limit_eq;
}
grow_accepted b b' b'' more p r g (inr (e, i)) =
    subst (IsGrown b (more ++ taken r p)) (sym i) (
      subst (λ t. IsGrown b t b') (sym (ap (λ t. more ++ t) (taken_none p r e) ∙ append-nil more))
        g)

grow_same :
    (b b' b'' : StreamBuffer) (more : Bytes)
    → IsGrown b more b'
    → IsSameData b' b''
    → IsGrown b more b''
grow_same b b' b'' more g d = record {
  unflushed = record {
    valid = d.valid;
    opos_eq = d.opos_eq ∙ g.unflushed.opos_eq;
    full = omega (arith, d.wpos_eq, g.unflushed.full);
  };
  contents_eq = d.contents_eq ∙ g.contents_eq;
  limit_eq = d.limit_eq ∙ g.limit_eq;
}

-- From a connection whose outgoing buffer is valid, has its origin at 0 and holds data, through
-- any sequence of calls that return, of Send (at most as many bytes as a vector can hold) in the
-- loop or in another thread and of OnWrite: the buffer is still so, its limit is what it was, and
-- its contents are those at the start followed by all the bytes that the results of Send said were
-- taken, in order. In particular the buffer is never empty again, whatever OnWrite has sent.
pub Run-IsGrown :
    (env : AsyncEnv) (a a' : AsyncTcpSocket) (more : Bytes)
    → Run env a more a'
    → IsUnflushed a.out_buffer
    → IsGrown a.out_buffer more a'.out_buffer
Run-IsGrown env a a' more start u = record {
  unflushed = u;
  contents_eq = sym (append-nil (contents a.out_buffer));
  limit_eq = refl;
}
Run-IsGrown env a a' more (sends_inside {more = m} {a' = c} {r = r} p t small e) u =
    let g = Run-IsGrown env a c m t u in
    grow_accepted a.out_buffer c.out_buffer a'.out_buffer m p r g (
      send_inside-IsAccepted p c a' g.unflushed.valid g.unflushed.opos_eq small env r
        (is_empty-unflushed c.out_buffer g.unflushed.opos_eq g.unflushed.full) e)
Run-IsGrown env a a' more (sends_outside {more = m} {a' = c} {r = r} p t small e) u =
    let g = Run-IsGrown env a c m t u in
    grow_accepted a.out_buffer c.out_buffer a'.out_buffer m p r g
      (send_outside-IsAccepted p c a' g.unflushed.valid g.unflushed.opos_eq small env r e)
Run-IsGrown env a a' more (writes {a' = c} t e) u =
    let g = Run-IsGrown env a c more t u in
    grow_same a.out_buffer c.out_buffer a'.out_buffer more g
      (on_write-IsSameData env c a' g.unflushed.valid e)

-- Under the same conditions, and with a limit above 0, the bytes in the buffer at the start and
-- all the bytes that Send took since are together at most the limit: once a byte was buffered, a
-- connection takes no more than its buffer's limit, even where everything has been sent.
pub Run-limit :
    (env : AsyncEnv) (a a' : AsyncTcpSocket) (more : Bytes)
    → Run env a more a'
    → IsUnflushed a.out_buffer
    → 0 < a.out_buffer.limit
    → length (contents a.out_buffer) + length more ≤ a.out_buffer.limit
Run-limit env a a' more t u pos =
    let g = Run-IsGrown env a a' more t u in
    ground (
      arith,
      pos,
      g.limit_eq,
      ap length g.contents_eq,
      length-append (contents a.out_buffer) more,
      length-contents g.unflushed.valid,
      g.unflushed.valid.bounded,
      g.unflushed.valid.wpos_le,
    )

positive : (m n : ℕ) → suc n ≤ m → (m == 0) ≡ false
positive m n le = ground arith

pub send_buffered_lem :
    (env : AsyncEnv) (a : AsyncTcpSocket) (k n : ℕ) (rest : List Reply)
    → IsValid a.out_buffer
    → a.socket.replies ≡ replicate k (failed eintr) ++ done (suc n) ∷ rest
    → suc n ≤ length (unread a.out_buffer)
    → (a' : AsyncTcpSocket) × (send_buffered env a ≡ ok a')
      × (a'.socket.calls
          ≡ a.socket.calls ++ replicate (suc k) (sys_send a.socket.fd (unread a.out_buffer) 0))
      × (unread a'.out_buffer ≡ drop (suc n) (unread a.out_buffer))
      × (a'.socket.error ≡ a.socket.error)
unfolding send_buffered value_or_error is_final
send_buffered_lem env a k n rest v e le =
    let b = a.out_buffer in
    let s = record (a.socket) { error = none } in
    let (s', q, i) = send_lem env.tcp_env.msg k rest s (unread b) 0 (done (suc n)) refl e in
    (
      record a { socket = record s' { error = a.socket.error }; out_buffer = advanced (suc n) b },
      rw
          (
            send_buffered,
            pending-eq v,
            readable-eq v,
            positive (length (unread b)) n le,
            q,
            advance_read_fits v (suc n) le,
          )
          refl,
      i.calls,
      unread-advanced (suc n) b,
      refl,
    )
