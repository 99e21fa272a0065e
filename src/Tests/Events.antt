-- ===== src/Tests/Events.antt =====
-- The theorems on the selector and the event loop at concrete inputs.
use netb.Prelude.{
  ℕ, ◌+◌, ◌≤◌, ◌<◌, ◌≡◌, List, [], ◌∷◌, ◌++◌, replicate, true, false, none, some, ok, ltb, ◌==◌,
  if◌then◌else◌, arith, refl, inl, inr, Bool-cases,
}
use netb.Errors.{eintr}
use netb.SocketSelector.{
  SocketSelector, SocketEvents, set, select_failed, active, events_of, select, no_fds, put,
  empty_selector, has,
}
use netb.SocketSelector.Laws.{IsHeapMaker, IsFrontMax, IsSelector, count, watched, mask, set_lem}
use netb.SocketSelector.Report.{descriptors, IsActive, select_lem}
use netb.EventLoop.{EventLoop, Env, task, push, register_handler, remove_handler}
use netb.EventLoop.Registry.{IsLoop, register_handler_lem}
use netb.EventLoop.Removal.{holds, remove_handler-next}
use netb.EventLoop.Wakeups.{started, next, post, queue-wakeups}

unfoldable pub place : ℕ → List ℕ → List ℕ
place x [] = x ∷ []
place x (y ∷ ys) = if ltb x y then y ∷ x ∷ ys else x ∷ y ∷ ys

-- A make_heap that takes the largest item to the front.
unfoldable pub largest_first : List ℕ → List ℕ
unfolding place
largest_first [] = []
largest_first (x ∷ xs) = place x (largest_first xs)

count-place :
    (z x : ℕ) (ys : List ℕ) → count z (place x ys) ≡ (if z == x then 1 else 0) + count z ys
unfolding place count
count-place z x [] = ground arith
count-place z x (y ∷ ys) = ground arith

count-largest_first : (z : ℕ) (xs : List ℕ) → count z (largest_first xs) ≡ count z xs
unfolding largest_first count
count-largest_first z [] = refl
count-largest_first z (x ∷ xs) =
    omega (arith, count-place z x (largest_first xs), count-largest_first z xs)

front_kept :
    (x y z : ℕ) (ys : List ℕ) → x < y → IsFrontMax (y ∷ ys) → has z (y ∷ x ∷ ys) ≡ true → z ≤ y
unfolding has
front_kept x y z ys lt f h = ground (arith, f z)

front_new :
    (x y z : ℕ) (ys : List ℕ) → y ≤ x → IsFrontMax (y ∷ ys) → has z (x ∷ y ∷ ys) ≡ true → z ≤ x
unfolding has
front_new x y z ys le f h = ground (arith, f z)

place-IsFrontMax : (x : ℕ) (ys : List ℕ) → IsFrontMax ys → IsFrontMax (place x ys)
unfolding place has
place-IsFrontMax x [] f = λ z h. ground arith
place-IsFrontMax x (y ∷ ys) f = elim (Bool-cases (ltb x y)) [
  | inl t ↦ rw t (λ z h. front_kept x y z ys (ground arith) f h)
  | inr t ↦ rw t (λ z h. front_new x y z ys (ground arith) f h)
]

largest_first-IsFrontMax : (xs : List ℕ) → IsFrontMax (largest_first xs)
unfolding largest_first
largest_first-IsFrontMax [] = tt
largest_first-IsFrontMax (x ∷ xs) =
    place-IsFrontMax x (largest_first xs) (largest_first-IsFrontMax xs)

pub largest_first-IsHeapMaker : IsHeapMaker largest_first
largest_first-IsHeapMaker = record { same = count-largest_first; front = largest_first-IsFrontMax }

pub empty_selector-IsSelector : IsSelector empty_selector
unfolding count
empty_selector-IsSelector = record {
  once = λ x. omega arith;
  listed = λ x ne. absurd (ne refl);
  small = λ x lt. absurd (omega arith);
  front = tt;
}

abbrev pub two_sockets : SocketSelector
two_sockets = record {
  sockets = 5 ∷ 3 ∷ [];
  read_set = put 3 true (put 5 true no_fds);
  write_set = no_fds;
  except_set = no_fds;
}

two_sockets-IsSelector : IsSelector two_sockets
unfolding count has
two_sockets-IsSelector = record {
  once = λ x. ground arith;
  listed = λ x ne. elim (Bool-cases (x == 3)) [
    | inl a ↦ ground arith
    | inr a ↦ elim (Bool-cases (x == 5)) [
      | inl b ↦ ground arith
      | inr b ↦ absurd (ne (rw (a, b) refl))
    ]
  ];
  small = λ x lt. ground arith;
  front = λ y h. ground arith;
}

set_lem_example :
    (sel : SocketSelector) × (set largest_first 7 3 two_sockets ≡ ok sel)
    × ((x : ℕ) → watched sel x ≡ (if x == 7 then mask 3 else watched two_sockets x))
    × IsSelector sel
set_lem_example =
    set_lem largest_first-IsHeapMaker 7 3 two_sockets (omega arith) two_sockets-IsSelector

select_lem_example :
    (events : List SocketEvents) × (select two_sockets [] [] none
        (replicate 2 (select_failed eintr) ++ active 0 (put 3 true no_fds) no_fds no_fds ∷ [])
      ≡ ok (record { result = some 1; error = none; events = events; answers = [] }))
    × ((fd : ℕ)
        → count fd (descriptors events) ≡ (
            if events_of (put 3 true no_fds) no_fds no_fds fd == 0
            then 0
            else count fd (5 ∷ 3 ∷ [])))
    × IsActive (events_of (put 3 true no_fds) no_fds no_fds) events
select_lem_example = select_lem two_sockets [] [] none 2 0 (put 3 true no_fds) no_fds no_fds []

-- The handler 1 of the socket 7 wants to read, and no task or callback does anything.
abbrev pub idle : Env
idle = record {
  make_heap = largest_first;
  run_task = λ t l. ok l;
  callback = λ h reading l. ok l;
  pipe_takes = λ n. true;
}

abbrev pub new_loop : EventLoop
new_loop = record {
  selector = empty_selector;
  handlers = [];
  objects = λ h. record {
    socket = 7;
    events = 1;
    detached = true;
    read_callback = true;
    write_callback = false;
  };
  queue = [];
  queue_invoking = false;
  stop = false;
  wakeups = 0;
}

register_handler_lem_example :
    (l : EventLoop) × (register_handler idle 1 new_loop ≡ ok l)
    × ((fd : ℕ) → watched l.selector fd ≡ (if fd == 7 then mask 1 else (false, false, false)))
    × IsLoop l
register_handler_lem_example =
    register_handler_lem idle largest_first-IsHeapMaker 1 new_loop (omega arith)
      (record { selector = empty_selector-IsSelector; registered = λ fd ne. absurd (ne refl) })

abbrev busy_loop : EventLoop
busy_loop = record new_loop { selector = two_sockets; handlers = (3, 30) ∷ (5, 50) ∷ [] }

remove_handler-next_example :
    (l : EventLoop) × (remove_handler idle 30 busy_loop ≡ ok l)
    × (l.handlers ≡ (5, 50) ∷ [])
    × (watched l.selector 3 ≡ (true, false, false))
    × (watched l.selector 5 ≡ (false, false, false))
    × IsSelector l.selector
unfolding holds
remove_handler-next_example =
    remove_handler-next idle 30 3 [] busy_loop refl 5 50 [] largest_first-IsHeapMaker
      two_sockets-IsSelector refl refl (λ e. omega arith) (omega arith)

queue-wakeups_example : 0 < 0 + 1
queue-wakeups_example =
    queue-wakeups idle (push (task 4) new_loop) 1 (next (started refl) (post (task 4))) (λ e. cc)
