-- ===== src/Socket/Descriptors.antt =====
-- Which descriptors a socket opens and closes.
use netb.Prelude.{
  ℕ, ◌≡◌, List, [], ◌∷◌, ◌++◌, append_assoc, Bool, true, false, Option, none, some, ok, refl, ◌∙◌,
}
use netb.Memory.{Bytes}
use netb.Errors.{
  Errno, ErrorClass, Call, classify, set_error, set_error_of, close_call, open_call, sets,
  general_error, logic_error, runtime_error, ebadf, eintr, eio, eafnosupport, einval,
  eprotonosupport, eacces, emfile, enfile, enobufs, enomem,
}
use netb.Socket.{
  State, Reply, failed, done, sys_close, sys_socket, system, report_error, close_socket, close,
  init_socket, create,
}

close_class : (x : Errno) → (cls : ErrorClass) × (classify close_call x ≡ sets cls)
unfolding classify
close_class x = elim x as (λ y. (cls : ErrorClass) × (classify close_call y ≡ sets cls)) [
  | ebadf ↦ (logic_error, refl)
  | eintr ↦ (runtime_error, refl)
  | eio ↦ (runtime_error, refl)
  | _ ↦ (general_error, refl)
]

pub open_class : (x : Errno) → (cls : ErrorClass) × (classify open_call x ≡ sets cls)
unfolding classify
open_class x = elim x as (λ y. (cls : ErrorClass) × (classify open_call y ≡ sets cls)) [
  | eafnosupport ↦ (logic_error, refl)
  | einval ↦ (logic_error, refl)
  | eprotonosupport ↦ (logic_error, refl)
  | eacces ↦ (runtime_error, refl)
  | emfile ↦ (runtime_error, refl)
  | enfile ↦ (runtime_error, refl)
  | enobufs ↦ (runtime_error, refl)
  | enomem ↦ (runtime_error, refl)
  | _ ↦ (general_error, refl)
]

pub report_error_sets :
    (c : Call) (msg : Bytes) (x : Errno) (cls : ErrorClass) (s : State)
    → classify c x ≡ sets cls
    → report_error c msg x s
      ≡ ok (false, record s { error = set_error_of cls msg (some x) s.error })
unfolding report_error set_error
report_error_sets c msg x cls s e = rw (e, report_error, set_error) refl

pub on_some :
    {A : Type 0} (a b : A) (d : ℕ) (o : Option ℕ)
    → o ≡ some d
    → (elim o [ none ↦ a | some x ↦ b ]) ≡ b
on_some a b d none e = absurd cc
on_some a b d (some x) e = refl

module _ (msg : Bytes) (s : State) where
  pub close_socket_lem :
      (r : Reply) (rest : List Reply)
      → s.replies ≡ r ∷ rest
      → (b : Bool) × (s' : State) × (close_socket msg s ≡ ok (b, s'))
        × (s'.fd ≡ none)
        × (s'.calls ≡ s.calls ++ sys_close s.fd ∷ [])
        × (s'.replies ≡ rest)
  unfolding close_socket system
  close_socket_lem (done n) rest e = (
    true,
    record s { fd = none; calls = s.calls ++ sys_close s.fd ∷ []; replies = rest },
    rw (e, close_socket) refl,
    refl,
    refl,
    refl,
  )
  close_socket_lem (failed x) rest e =
      let (cls, c) = close_class x in
      let s₁ = record s {
        fd = none;
        calls = s.calls ++ sys_close s.fd ∷ [];
        replies = rest;
        errno = some x;
      } in
      let p = report_error_sets close_call msg x cls s₁ c in
      (
        false,
        record s₁ { error = set_error_of cls msg (some x) s.error },
        rw (e, close_socket, p) refl,
        refl,
        refl,
        refl,
      )

  close-open : (d : ℕ) → s.fd ≡ some d → close msg s ≡ close_socket msg s
  unfolding close
  close-open d f = on_some (ok (true, s)) (close_socket msg s) d s.fd f

  pub close_lem :
      (d : ℕ) (r : Reply) (rest : List Reply)
      → s.fd ≡ some d
      → s.replies ≡ r ∷ rest
      → (b : Bool) × (s' : State) × (close msg s ≡ ok (b, s'))
        × (s'.fd ≡ none)
        × (s'.calls ≡ s.calls ++ sys_close s.fd ∷ [])
        × (s'.replies ≡ rest)
  close_lem d r rest f e =
      let c = close_socket_lem r rest e in (c.0, c.1, close-open d f ∙ c.2, c.3, c.4, c.5)

module _ (msg : Bytes) (s : State) where
  pub init_socket-open :
      (domain type protocol n : ℕ) (rest : List Reply)
      → s.fd ≡ none
      → s.replies ≡ done n ∷ rest
      → init_socket msg domain type protocol s
        ≡ ok (
          true,
          record s {
            fd = some n;
            calls = s.calls ++ sys_socket domain type protocol ∷ [];
            replies = rest;
          },
        )
  unfolding init_socket system
  init_socket-open domain type protocol n rest f e = rw (f, e, init_socket) refl

module _ (msg : Bytes) (s : State) where
  -- `Create` on an open socket closes the old descriptor, whatever the system answers to that,
  -- then opens the new one, which the socket holds; where opening succeeds the result is true,
  -- exactly these two calls are made, and the error is as before.
  pub create_lem :
      (domain type protocol d : ℕ) (r : Reply) (n : ℕ) (rest : List Reply)
      → s.fd ≡ some d
      → s.replies ≡ r ∷ done n ∷ rest
      → (s' : State) × (create msg domain type protocol s ≡ ok (true, s'))
        × (s'.fd ≡ some n)
        × (s'.calls ≡ s.calls ++ sys_close s.fd ∷ sys_socket domain type protocol ∷ [])
        × (s'.error ≡ s.error)
        × (s'.replies ≡ rest)
  unfolding create
  create_lem domain type protocol d r n rest f e =
      let (b, s₁, p, g, c, q) = close_lem msg (record s { error = none }) d r (done n ∷ rest) f e in
      (
        record s₁ {
          fd = some n;
          error = s.error;
          calls = s₁.calls ++ sys_socket domain type protocol ∷ [];
          replies = rest;
        },
        rw
            (
              create,
              p,
              init_socket-open msg (record s₁ { error = s.error }) domain type protocol n rest g q,
            )
            refl,
        refl,
        rw (c, append_assoc s.calls (sys_close s.fd ∷ []) (sys_socket domain type protocol ∷ []))
            refl,
        refl,
        refl,
      )
