-- ===== src/SocketSelector.antt =====
-- `SocketSelector` of netb/SocketSelector.hpp and netb/SocketSelector.cpp. A set of descriptors is
-- its test; a descriptor is not negative. `make_heap` is `std::make_heap`, and the answers of
-- `::select` come as a list, one for each call.
pub mod Laws
pub mod Report
use netb.Memory.{Bytes}
use netb.Errors.{
  Errno, Error, etimedout, interrupted, set_error, set_error_of, select_call, runtime_error,
}
use netb.Prelude.{
  ℕ, suc, ◌+◌, List, [], ◌∷◌, ◌++◌, Bool, true, false, not, ◌||◌, Option, none, some, Outcome, ok,
  fault, undefined, aborted, starved, ◌▹◌, leb, ◌==◌, if◌then◌else◌, bit_and, bit_or,
}

abbrev pub FdSet : Type 0
FdSet = ℕ → Bool

pub record SocketSelector : Type 0 where
  pub sockets : List ℕ
  pub read_set : FdSet
  pub write_set : FdSet
  pub except_set : FdSet

-- SOCKET_EVENT_READ, SOCKET_EVENT_WRITE and SOCKET_EVENT_EXCEPT
abbrev pub event_read : ℕ
event_read = 1

abbrev pub event_write : ℕ
event_write = 2

abbrev pub event_except : ℕ
event_except = 4

-- events & e
unfoldable pub has_event : ℕ → ℕ → Bool
has_event e events = not (bit_and events e == 0)

-- FD_SETSIZE: FD_SET, FD_CLR and FD_ISSET are undefined from there on
abbrev pub fd_setsize : ℕ
fd_setsize = 1024

-- FD_ZERO
abbrev pub no_fds : FdSet
no_fds x = false

-- FD_SET where `b`, FD_CLR where not
abbrev pub put : ℕ → Bool → FdSet → FdSet
put s b set x = if x == s then b else set x

unfoldable pub has : ℕ → List ℕ → Bool
has x [] = false
has x (y ∷ ys) = x == y || has x ys

-- SocketSelector()
abbrev pub empty_selector : SocketSelector
empty_selector = record { sockets = []; read_set = no_fds; write_set = no_fds; except_set = no_fds }

-- The first `s` is erased.
unfoldable pub erase : ℕ → List ℕ → List ℕ
erase s [] = []
erase s (x ∷ xs) = let rest = erase s xs in if x == s then xs else x ∷ rest

-- Remove(s)
unfoldable pub remove : (List ℕ → List ℕ) → ℕ → SocketSelector → Outcome SocketSelector
unfolding has
remove make_heap s sel =
    if leb fd_setsize s
    then fault undefined
    else ok (record {
      sockets = if has s sel.sockets then make_heap (erase s sel.sockets) else sel.sockets;
      read_set = put s false sel.read_set;
      write_set = put s false sel.write_set;
      except_set = put s false sel.except_set;
    })

-- Set(s, events)
unfoldable pub set : (List ℕ → List ℕ) → ℕ → ℕ → SocketSelector → Outcome SocketSelector
unfolding remove has_event has
set make_heap s events sel =
    if events == 0
    then remove make_heap s sel
    else if leb fd_setsize s
    then fault undefined
    else ok (record {
      sockets = if has s sel.sockets then sel.sockets else make_heap (sel.sockets ++ s ∷ []);
      read_set = put s (has_event event_read events) sel.read_set;
      write_set = put s (has_event event_write events) sel.write_set;
      except_set = put s (has_event event_except events) sel.except_set;
    })

-- The first argument of ::select.
unfoldable pub nfds : SocketSelector → ℕ
nfds sel = elim sel.sockets [ [] ↦ 1 | x ∷ xs ↦ x + 1 ]

-- What ::select answers: -1 with errno, a timeout, or some active descriptors with their number.
pub data Answer : Type 0 where
  select_failed : Errno → Answer
  timed_out : Answer
  active : ℕ → FdSet → FdSet → FdSet → Answer

-- SocketEvents: a descriptor and its events
abbrev pub SocketEvents : Type 0
SocketEvents = ℕ × ℕ

-- The events of a descriptor in the active sets.
unfoldable pub events_of : FdSet → FdSet → FdSet → ℕ → ℕ
events_of r w x fd =
    bit_or (bit_or (if r fd then event_read else 0) (if w fd then event_write else 0))
      (if x fd then event_except else 0)

-- The loop over `_sockets` at the end of Select.
unfoldable pub report : (ℕ → ℕ) → List ℕ → List SocketEvents
report events [] = []
report events (fd ∷ fds) =
    let rest = report events fds in if events fd == 0 then rest else (fd, events fd) ∷ rest

-- What Select returns: its result, what stands in `sockets`, which keeps `old` where it is not
-- filled, and what `e` points to.
pub record Selected : Type 0 where
  pub result : Option ℕ
  pub error : Option Error
  pub events : List SocketEvents
  pub answers : List Answer

-- Select(sockets, timeout, e), where `msg` is the text of its errors: the result is none for -1.
-- `assert(ret > 0)` holds.
unfoldable pub select :
    SocketSelector → Bytes → List SocketEvents → Option Error → List Answer → Outcome Selected
unfolding interrupted set_error set_error_of
select sel msg old e [] = fault starved
select sel msg old e (select_failed x ∷ answers) =
    let again = select sel msg old e answers in
    if interrupted x
    then again
    else (set_error select_call msg x e ▹ λ e'.
        ok (record { result = none; error = e'; events = old; answers = answers }))
select sel msg old e (timed_out ∷ answers) = ok (record {
  result = some 0;
  error = set_error_of runtime_error msg (some etimedout) e;
  events = old;
  answers = answers;
})
select sel msg old e (active n r w x ∷ answers) = ok (record {
  result = some (suc n);
  error = e;
  events = report (events_of r w x) sel.sockets;
  answers = answers;
})
