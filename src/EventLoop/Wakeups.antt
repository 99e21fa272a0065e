-- ===== src/EventLoop/Wakeups.antt =====
-- The queue of posted functions and the pipe that wakes the loop (Run, Stop, InvokeLater and Wakeup of
-- netb/EventLoop.cpp), with the loop's thread and others interleaved.
use netb.Prelude.{
  ℕ, suc, ◌+◌, ◌<◌, ◌≡◌, ◌≢◌, ◌⊎◌, inl, inr, List, [], true, false, Outcome, ok, fault, Fault,
  aborted, arith, refl, Bool-cases, ap, sym, ◌∙◌,
}
use netb.EventLoop.{
  EventLoop, Env, Functor, push, wakeup, on_wakeup_read, wake_if_needed, invoke_later, swap_queue,
  stop_loop, end_invoking,
}

-- What the thread of the loop does: it waits in Select, handles events, or invokes functions.
pub data Phase : Type 0 where
  waiting handling invoking : Phase

-- A step from a phase, a loop and the number of other threads that are inside InvokeLater and have
-- released the lock of the queue. InvokeLater of another thread is `invoke_outside`, or the two steps
-- `post` and `notify`, which are its parts before and after that, with steps of others in between.
pub data Step (env : Env) : Phase → EventLoop → ℕ → Phase → EventLoop → ℕ → Type 0 where
  post : {p : Phase} {l : EventLoop} {n : ℕ} (f : Functor) → Step env p l n p (push f l) (suc n)
  notify :
      {p : Phase} {l l' : EventLoop} {n : ℕ}
      → wake_if_needed env false l ≡ ok l'
      → Step env p l (suc n) p l' n
  invoke_outside :
      {p : Phase} {l l' : EventLoop} {n : ℕ} (f : Functor)
      → invoke_later env false f l ≡ ok l'
      → Step env p l n p l' n
  stop_outside :
      {p : Phase} {l l' : EventLoop} {n : ℕ} → stop_loop env false l ≡ ok l' → Step env p l n p l' n
  select_returns : {l : EventLoop} {n : ℕ} → Step env waiting l n handling l n
  wakeup_read :
      {l l' : EventLoop} {n : ℕ} → on_wakeup_read l ≡ ok l' → Step env handling l n handling l' n
  queue_handling :
      {l l' : EventLoop} {n : ℕ} (f : Functor)
      → invoke_later env true f l ≡ ok l'
      → Step env handling l n handling l' n
  start_invoking : {l : EventLoop} {n : ℕ} → Step env handling l n invoking (swap_queue l) n
  queue_invoking :
      {l l' : EventLoop} {n : ℕ} (f : Functor)
      → invoke_later env true f l ≡ ok l'
      → Step env invoking l n invoking l' n
  stop_invoking : {l : EventLoop} {n : ℕ} → Step env invoking l n waiting (end_invoking l) n
  other :
      {p : Phase} {l l' : EventLoop} {n : ℕ}
      → l'.queue ≡ l.queue
      → l'.queue_invoking ≡ l.queue_invoking
      → l'.wakeups ≡ l.wakeups
      → Step env p l n p l' n

-- What is reached from the first time that Run waits, with an empty queue and no thread posting.
pub data Reach (env : Env) : Phase → EventLoop → ℕ → Type 0 where
  started : {l : EventLoop} → l.queue ≡ [] → Reach env waiting l 0
  next :
      {p p' : Phase} {l l' : EventLoop} {n n' : ℕ}
      → Reach env p l n
      → Step env p l n p' l' n'
      → Reach env p' l' n'

-- Outside the handling of events a function in the queue has a byte in the pipe, or a thread that
-- is about to write one; and the flag is set while functions are invoked.
pub IsNoticed : Phase → EventLoop → ℕ → Type 0
IsNoticed waiting l n = (l.queue ≡ []) ⊎ (0 < l.wakeups + n)
IsNoticed handling l n = Unit
IsNoticed invoking l n = ((l.queue ≡ []) ⊎ (0 < l.wakeups + n)) × (l.queue_invoking ≡ true)

from_ok : EventLoop → Outcome EventLoop → EventLoop
from_ok l (ok l') = l'
from_ok l (fault x) = l

ok≢fault : (l : EventLoop) (x : Fault) → ok l ≡ fault x → ⊥
ok≢fault l x e = cc

wakeup_takes :
    (env : Env) (l : EventLoop)
    → env.pipe_takes l.wakeups ≡ true
    → wakeup env l ≡ ok (record l { wakeups = l.wakeups + 1 })
unfolding wakeup
wakeup_takes env l t = rw t refl

wakeup_lem :
    (env : Env) (l l' : EventLoop)
    → wakeup env l ≡ ok l'
    → l' ≡ record l { wakeups = l.wakeups + 1 }
unfolding wakeup from_ok
wakeup_lem env l l' e = elim (Bool-cases (env.pipe_takes l.wakeups)) [
  | inl t ↦ ap (from_ok l) (sym e ∙ wakeup_takes env l t)
  | inr t ↦ absurd (ok≢fault l' aborted (sym e ∙ rw (t, wakeup) refl))
]

wakeup_notices :
    (env : Env) (l l' : EventLoop) (n : ℕ)
    → wakeup env l ≡ ok l'
    → (0 < l'.wakeups + n) × (l'.queue_invoking ≡ l.queue_invoking)
wakeup_notices env l l' n e =
    let p = wakeup_lem env l l' e in (rw p (omega arith), ap (λ k. k.queue_invoking) p)

notify_notices :
    (env : Env) (l l' : EventLoop) (n : ℕ)
    → wake_if_needed env false l ≡ ok l'
    → (0 < l'.wakeups + n) × (l'.queue_invoking ≡ l.queue_invoking)
unfolding wake_if_needed
notify_notices env l l' n e = wakeup_notices env l l' n e

invoke_outside_notices :
    (env : Env) (f : Functor) (l l' : EventLoop) (n : ℕ)
    → invoke_later env false f l ≡ ok l'
    → (0 < l'.wakeups + n) × (l'.queue_invoking ≡ l.queue_invoking)
unfolding invoke_later
invoke_outside_notices env f l l' n e = notify_notices env (push f l) l' n e

invoke_later_notices :
    (env : Env) (f : Functor) (l l' : EventLoop) (n : ℕ)
    → l.queue_invoking ≡ true
    → invoke_later env true f l ≡ ok l'
    → (0 < l'.wakeups + n) × (l'.queue_invoking ≡ true)
unfolding invoke_later
invoke_later_notices env f l l' n b e =
    let r = wakeup_notices env (push f l) l' n (sym (rw (b, invoke_later) refl) ∙ e) in
    (r.0, r.1 ∙ b)

stop_loop_notices :
    (env : Env) (l l' : EventLoop) (n : ℕ)
    → stop_loop env false l ≡ ok l'
    → (0 < l'.wakeups + n) × (l'.queue_invoking ≡ l.queue_invoking)
unfolding stop_loop
stop_loop_notices env l l' n e = wakeup_notices env (record l { stop = true }) l' n e

keep :
    {q q' : List Functor} {w w' : ℕ} (n : ℕ)
    → q' ≡ q
    → w' ≡ w
    → (q ≡ []) ⊎ (0 < w + n)
    → (q' ≡ []) ⊎ (0 < w' + n)
keep n q w (inl e) = inl (q ∙ e)
keep n q w (inr lt) = inr (omega (arith, w))

Step-IsNoticed :
    {env : Env} {p p' : Phase} {l l' : EventLoop} {n n' : ℕ}
    → Step env p l n p' l' n'
    → IsNoticed p l n
    → IsNoticed p' l' n'
unfolding IsNoticed
Step-IsNoticed {p = waiting} (post f) i = inr (omega arith)
Step-IsNoticed {p = handling} (post f) i = tt
Step-IsNoticed {p = invoking} (post f) i = (inr (omega arith), i.1)
Step-IsNoticed {p = waiting} (notify e) i = inr (notify_notices _ _ _ _ e).0
Step-IsNoticed {p = handling} (notify e) i = tt
Step-IsNoticed {p = invoking} (notify e) i =
    (inr (notify_notices _ _ _ _ e).0, (notify_notices _ _ _ 0 e).1 ∙ i.1)
Step-IsNoticed {p = waiting} (invoke_outside f e) i = inr (invoke_outside_notices _ f _ _ _ e).0
Step-IsNoticed {p = handling} (invoke_outside f e) i = tt
Step-IsNoticed {p = invoking} (invoke_outside f e) i =
    (inr (invoke_outside_notices _ f _ _ _ e).0, (invoke_outside_notices _ f _ _ 0 e).1 ∙ i.1)
Step-IsNoticed {p = waiting} (stop_outside e) i = inr (stop_loop_notices _ _ _ _ e).0
Step-IsNoticed {p = handling} (stop_outside e) i = tt
Step-IsNoticed {p = invoking} (stop_outside e) i =
    (inr (stop_loop_notices _ _ _ _ e).0, (stop_loop_notices _ _ _ 0 e).1 ∙ i.1)
Step-IsNoticed select_returns i = tt
Step-IsNoticed (wakeup_read e) i = tt
Step-IsNoticed (queue_handling f e) i = tt
Step-IsNoticed start_invoking i = (inl refl, refl)
Step-IsNoticed (queue_invoking f e) i =
    (inr (invoke_later_notices _ f _ _ _ i.1 e).0, (invoke_later_notices _ f _ _ 0 i.1 e).1)
Step-IsNoticed stop_invoking i = i.0
Step-IsNoticed {p = waiting} (other q b w) i = keep _ q w i
Step-IsNoticed {p = handling} (other q b w) i = tt
Step-IsNoticed {p = invoking} (other q b w) i = (keep _ q w i.0, b ∙ i.1)

Reach-IsNoticed :
    {env : Env} {p : Phase} {l : EventLoop} {n : ℕ} → Reach env p l n → IsNoticed p l n
unfolding IsNoticed
Reach-IsNoticed (started e) = inl e
Reach-IsNoticed (next r s) = Step-IsNoticed s (Reach-IsNoticed r)

-- In every state that the steps of the loop's thread and of other threads, which call InvokeLater
-- and Stop, reach from a first waiting with an empty queue: while the loop waits in Select and a
-- function is queued, there is a byte in the pipe, or another thread inside InvokeLater that has
-- queued a function and has yet to decide on waking the loop.
pub queue-wakeups :
    (env : Env) (l : EventLoop) (n : ℕ) → Reach env waiting l n → l.queue ≢ [] → 0 < l.wakeups + n
unfolding IsNoticed
queue-wakeups env l n r ne = elim (Reach-IsNoticed r) [ inl e ↦ absurd (ne e) | inr lt ↦ lt ]
