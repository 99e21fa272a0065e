-- ===== src/Socket/Modes.antt =====
-- The blocking mode of a socket, and opening one.
use netb.Prelude.{
  ℕ, ◌≡◌, List, [], ◌∷◌, ◌++◌, Bool, true, not, Option, none, some, ok, refl, append_assoc,
}
use netb.Memory.{Bytes}
use netb.Socket.{
  State, Reply, done, sys_get_flags, sys_set_flags, sys_socket, system, checked, block, create,
  close, close_socket,
}
use netb.Socket.Descriptors.{init_socket-open}

module _ (msg : Bytes) (s : State) where
  pub block_lem :
      (b : Bool) (f z : ℕ) (rest : List Reply)
      → s.replies ≡ done f ∷ done z ∷ rest
      → block msg b s
        ≡ ok (
          true,
          record s {
            calls = s.calls ++ sys_get_flags s.fd ∷ sys_set_flags s.fd (not b) ∷ [];
            replies = rest;
          },
        )
  unfolding block system checked
  block_lem b f z rest e =
      rw
        (e, block, append_assoc s.calls (sys_get_flags s.fd ∷ []) (sys_set_flags s.fd (not b) ∷ []))
        refl

pub closed :
    {A : Type 0} (a b : A) (o : Option ℕ) → o ≡ none → (elim o [ none ↦ a | some x ↦ b ]) ≡ a
closed a b none e = refl
closed a b (some x) e = absurd cc

module _ (msg : Bytes) (s : State) where
  close-closed : s.fd ≡ none → close msg s ≡ ok (true, s)
  unfolding close
  close-closed f = closed (ok (true, s)) (close_socket msg s) s.fd f

module _ (msg : Bytes) (s : State) where
  pub create-closed :
      (domain type protocol n : ℕ) (rest : List Reply)
      → s.fd ≡ none
      → s.replies ≡ done n ∷ rest
      → create msg domain type protocol s
        ≡ ok (
          true,
          record s {
            fd = some n;
            calls = s.calls ++ sys_socket domain type protocol ∷ [];
            replies = rest;
          },
        )
  unfolding create
  create-closed domain type protocol n rest f e =
      rw (create, close-closed msg (record s { error = none }) f)
        (init_socket-open msg s domain type protocol n rest f e)
