-- ===== src/Socket/Checks.antt =====
-- Sequences of system calls, each of which ends the sequence where it fails.
use netb.Prelude.{
  ℕ, ◌≡◌, List, [], ◌∷◌, ◌++◌, append_assoc, append-nil, map, length, Bool, true, some, ok, fault,
  starved, refl, sym, ap, ◌∙◌, arith, Outcome-cases, inl, inr,
}
use netb.Memory.{Bytes}
use netb.SocketAddress.{SocketAddress, inet, inet6, other, IsInternet, address_length, describe}
use netb.Errors.{Call, bind_call, set_error, Errno}
use netb.Socket.{
  State, Action, give, SystemCall, Reply, failed, done, system, report_error, checked, bind,
  sys_bind, report_described,
}
use netb.TcpSocket.{and_then}

-- A system call and what it reports to.
abbrev pub Check : Type 0
Check = Call × SystemCall

-- The calls one after the other, up to the first that fails
unfoldable pub checks : Bytes → List Check → Action Bool
unfolding checked
checks msg [] = give true
checks msg ((c, sys) ∷ rest) = and_then (checked c msg sys) (checks msg rest)

-- The state after some calls that succeed.
abbrev pub after : List SystemCall → List Reply → State → State
after calls rest s = record s { calls = s.calls ++ calls; replies = rest }

-- The address of a checked ::bind is never described with a failing assert.
pub bind-checked :
    (msg : Bytes) (addr : SocketAddress)
    → IsInternet addr
    → bind msg addr ≡ (λ s. checked bind_call msg (sys_bind s.fd addr) s)
unfolding bind address_length describe report_described checked
bind-checked msg (inet port x) i = refl
bind-checked msg (inet6 port flow x scope) i = refl
bind-checked msg (other f x) i = absurd i

-- A failed call is the last one.
report-and_then :
    (c : Call) (msg : Bytes) (x : Errno) (m : Action Bool) (s : State)
    → and_then (report_error c msg x) m s ≡ report_error c msg x s
unfolding report_error
report-and_then c msg x m s = elim (Outcome-cases (set_error c msg x s.error)) [
  | inl (e, p) ↦ rw (p, report_error) refl
  | inr (e, p) ↦ rw (p, report_error) refl
]

module _ (msg : Bytes) (c : Call) (sys : SystemCall) (m : Action Bool) (s : State) where
  checked_done :
      (n : ℕ) (rest : List Reply)
      → s.replies ≡ done n ∷ rest
      → and_then (checked c msg sys) m s ≡ m (after (sys ∷ []) rest s)
  unfolding checked system
  checked_done n rest e = rw (e, checked) refl

  checked_failed :
      (x : Errno) (rest : List Reply)
      → s.replies ≡ failed x ∷ rest
      → and_then (checked c msg sys) m s
        ≡ report_error c msg x (record (after (sys ∷ []) rest s) { errno = some x })
  unfolding checked system
  checked_failed x rest e =
      rw (e, checked)
        (report-and_then c msg x m (record (after (sys ∷ []) rest s) { errno = some x }))

  checked_starved : s.replies ≡ [] → and_then (checked c msg sys) m s ≡ fault starved
  unfolding checked system
  checked_starved e = rw (e, checked) refl

-- What follows a successful call may count on the descriptor.
pub and_then-fd :
    (msg : Bytes) (c : Call) (sys : SystemCall) (m m' : Action Bool) (s : State) (rs : List Reply)
    → s.replies ≡ rs
    → ((s' : State) → s'.fd ≡ s.fd → m s' ≡ m' s')
    → and_then (checked c msg sys) m s ≡ and_then (checked c msg sys) m' s
and_then-fd msg c sys m m' s [] e h =
    checked_starved msg c sys m s e ∙ sym (checked_starved msg c sys m' s e)
and_then-fd msg c sys m m' s (done n ∷ rest) e h =
    checked_done msg c sys m s n rest e
    ∙ h (after (sys ∷ []) rest s) refl
    ∙ sym (checked_done msg c sys m' s n rest e)
and_then-fd msg c sys m m' s (failed x ∷ rest) e h =
    checked_failed msg c sys m s x rest e ∙ sym (checked_failed msg c sys m' s x rest e)

-- A check at the end of a sequence.
pub checked-last :
    (msg : Bytes) (c : Call) (sys : SystemCall) (s : State) (rs : List Reply)
    → s.replies ≡ rs
    → checked c msg sys s ≡ and_then (checked c msg sys) (give true) s
unfolding checked system
checked-last msg c sys s [] e = rw (e, checked) refl
checked-last msg c sys s (done n ∷ rest) e = rw (e, checked) refl
checked-last msg c sys s (failed x ∷ rest) e =
    rw (e, checked)
      (sym
        (report-and_then c msg x (give true) (record (after (sys ∷ []) rest s) { errno = some x })))

abbrev pub call_of : Check → SystemCall
call_of (c, sys) = sys

pub checks_done :
    (msg : Bytes) (ps : List Check) (ns : List ℕ) (rest : List Reply) (s : State)
    → length ns ≡ length ps
    → s.replies ≡ map done ns ++ rest
    → checks msg ps s ≡ ok (true, after (map call_of ps) rest s)
unfolding checks
checks_done msg [] [] rest s l e = rw append-nil (ap (λ rs. ok (true, record s { replies = rs })) e)
checks_done msg [] (n ∷ ns) rest s l e = absurd (omega (arith, l))
checks_done msg (p ∷ ps) [] rest s l e = absurd (omega (arith, l))
checks_done msg ((c, sys) ∷ ps) (n ∷ ns) rest s l e =
    checked_done msg c sys (checks msg ps) s n (map done ns ++ rest) e
    ∙ checks_done msg ps ns rest (after (sys ∷ []) (map done ns ++ rest) s) (omega (arith, l)) refl
    ∙ rw append_assoc refl

pub checks_stop :
    (msg : Bytes) (before : List Check) (c : Call) (sys : SystemCall) (later : List Check)
    (ns : List ℕ) (x : Errno) (rest : List Reply) (s : State)
    → length ns ≡ length before
    → s.replies ≡ map done ns ++ failed x ∷ rest
    → checks msg (before ++ (c, sys) ∷ later) s
      ≡ report_error c msg x
          (record (after (map call_of before ++ sys ∷ []) rest s) { errno = some x })
unfolding checks
checks_stop msg [] c sys later [] x rest s l e =
    checked_failed msg c sys (checks msg later) s x rest e
checks_stop msg [] c sys later (n ∷ ns) x rest s l e = absurd (omega (arith, l))
checks_stop msg (p ∷ ps) c sys later [] x rest s l e = absurd (omega (arith, l))
checks_stop msg ((c', sys') ∷ ps) c sys later (n ∷ ns) x rest s l e =
    checked_done msg c' sys' (checks msg (ps ++ (c, sys) ∷ later)) s n
      (map done ns ++ failed x ∷ rest) e
    ∙ checks_stop msg ps c sys later ns x rest
        (after (sys' ∷ []) (map done ns ++ failed x ∷ rest) s) (omega (arith, l)) refl
    ∙ rw append_assoc refl
