-- ===== src/EventLoop.antt =====
-- `EventLoop` of netb/EventLoop.hpp and netb/EventLoop.cpp, and `EventHandler` of
-- netb/EventHandler.hpp and netb/EventHandler.cpp. A handler is known by a number, which stands for
-- its address; `inside` says whether the calling thread is the loop's.
pub mod Registry
pub mod Disabling
pub mod Removal
pub mod Wakeups
use netb.Prelude.{
  ℕ, zero, suc, ◌+◌, ◌-◌, List, [], ◌∷◌, ◌++◌, Bool, true, false, not, ◌&&◌, ◌||◌, Option, none,
  some, Outcome, ok, fault, undefined, aborted, starved, ◌▹◌, ltb, ◌==◌, if◌then◌else◌, bit_and,
  bit_or,
}
use netb.SocketSelector.{
  SocketSelector, SocketEvents, Answer, Selected, has_event, event_read, event_write, set, remove,
  select,
}

-- `_socket`, `_events` and `_detached` of a handler, and which callbacks are set.
pub record EventHandler : Type 0 where
  pub socket : ℕ
  pub events : ℕ
  pub detached : Bool
  pub read_callback : Bool
  pub write_callback : Bool

-- What is queued: the functions that handlers post, and the application's, each by a number.
pub data Functor : Type 0 where
  attach_in_loop detach_in_loop update_in_loop : ℕ → Functor
  task : ℕ → Functor

-- `handlers` is the map from sockets to handlers, in the order of its keys, `objects` are the
-- handlers themselves, and `wakeups` counts the bytes in the pipe.
pub record EventLoop : Type 0 where
  pub selector : SocketSelector
  pub handlers : List (ℕ × ℕ)
  pub objects : ℕ → EventHandler
  pub queue : List Functor
  pub queue_invoking : Bool
  pub stop : Bool
  pub wakeups : ℕ

-- What the loop calls: `std::make_heap`, the application's functions and callbacks (the latter by
-- the handler and whether it is the reading one), and whether the pipe takes a byte beside those
-- that it holds.
pub record Env : Type 0 where
  pub make_heap : List ℕ → List ℕ
  pub run_task : ℕ → EventLoop → Outcome EventLoop
  pub callback : ℕ → Bool → EventLoop → Outcome EventLoop
  pub pipe_takes : ℕ → Bool

-- `_handlers.find(fd)`
unfoldable pub lookup : ℕ → List (ℕ × ℕ) → Option ℕ
lookup fd [] = none
lookup fd ((k, h) ∷ rest) = let later = lookup fd rest in if fd == k then some h else later

-- `_handlers[fd] = handler` for a new key
unfoldable pub insert : ℕ → ℕ → List (ℕ × ℕ) → List (ℕ × ℕ)
insert fd h [] = (fd, h) ∷ []
insert fd h ((k, g) ∷ rest) =
    let later = insert fd h rest in if ltb fd k then (fd, h) ∷ (k, g) ∷ rest else (k, g) ∷ later

-- `_selector.Set(handler->GetSocket(), handler->GetEvents())`
abbrev pub select_handler : Env → ℕ → EventLoop → Outcome EventLoop
select_handler env h l =
    set env.make_heap (l.objects h).socket (l.objects h).events l.selector ▹ λ sel.
    ok (record l { selector = sel })

-- RegisterHandler(handler), which returns true
unfoldable pub register_handler : Env → ℕ → EventLoop → Outcome EventLoop
register_handler env h l = elim (lookup (l.objects h).socket l.handlers) [
  | none ↦ select_handler env h (record l { handlers = insert (l.objects h).socket h l.handlers })
  | some g ↦ select_handler env h l
]

-- UpdateHandler(handler)
unfoldable pub update_handler : Env → ℕ → EventLoop → Outcome (Bool × EventLoop)
update_handler env h l = elim (lookup (l.objects h).socket l.handlers) [
  | none ↦ ok (false, l)
  | some g ↦ select_handler env h l ▹ λ l'. ok (true, l')
]

-- The loop of RemoveHandler(handler): `it = _handlers.erase(it); _selector.Remove(it->first);`, where
-- `it` is by then the next entry of the map, or its end
unfoldable pub sweep :
    (List ℕ → List ℕ) → ℕ → List (ℕ × ℕ) → SocketSelector → Outcome (List (ℕ × ℕ) × SocketSelector)
sweep make_heap h [] sel = ok ([], sel)
sweep make_heap h ((k, g) ∷ []) sel = if g == h then fault undefined else ok ((k, g) ∷ [], sel)
sweep make_heap h ((k, g) ∷ (k', g') ∷ rest) sel = elim (g == h) [
  | true ↦ remove make_heap k' sel ▹ λ sel'. sweep make_heap h ((k', g') ∷ rest) sel'
  | false ↦ sweep make_heap h ((k', g') ∷ rest) sel ▹ λ (kept, sel'). ok ((k, g) ∷ kept, sel')
]

-- RemoveHandler(handler), which returns true
unfoldable pub remove_handler : Env → ℕ → EventLoop → Outcome EventLoop
remove_handler env h l = sweep env.make_heap h l.handlers l.selector ▹ λ (kept, sel).
    ok (record l { handlers = kept; selector = sel })

abbrev pub put_handler : ℕ → EventHandler → EventLoop → EventLoop
put_handler h o l = record l { objects = λ g. if g == h then o else l.objects g }

abbrev pub set_detached : ℕ → Bool → EventLoop → EventLoop
set_detached h b l = put_handler h (record (l.objects h) { detached = b }) l

-- A queued function: AttachInLoop, DetachInLoop and UpdateInLoop of a handler, or a task
unfoldable pub run_functor : Env → Functor → EventLoop → Outcome EventLoop
run_functor env (attach_in_loop h) l = register_handler env h l ▹ λ l'. ok (set_detached h false l')
run_functor env (detach_in_loop h) l = remove_handler env h l ▹ λ l'. ok (set_detached h true l')
run_functor env (update_in_loop h) l =
    if (l.objects h).detached then fault aborted else (update_handler env h l ▹ λ (done, l'). ok l')
run_functor env (task t) l = env.run_task t l

-- `_queue.push_back(f)`
abbrev pub push : Functor → EventLoop → EventLoop
push f l = record l { queue = l.queue ++ f ∷ [] }

-- Wakeup()
unfoldable pub wakeup : Env → EventLoop → Outcome EventLoop
wakeup env l =
    if env.pipe_takes l.wakeups then ok (record l { wakeups = l.wakeups + 1 }) else fault aborted

-- OnWakeupRead(): without a byte the reading blocks
unfoldable pub on_wakeup_read : EventLoop → Outcome EventLoop
on_wakeup_read l =
    if l.wakeups == 0 then fault starved else ok (record l { wakeups = l.wakeups - 1 })

-- `if(!IsInLoopThread() || _queue_invoking) Wakeup();`, once the lock of the queue is released
unfoldable pub wake_if_needed : Env → Bool → EventLoop → Outcome EventLoop
unfolding wakeup
wake_if_needed env inside l = if not inside || l.queue_invoking then wakeup env l else ok l

-- InvokeLater(f)
unfoldable pub invoke_later : Env → Bool → Functor → EventLoop → Outcome EventLoop
unfolding wake_if_needed
invoke_later env inside f l = wake_if_needed env inside (push f l)

-- Invoke(f)
unfoldable pub invoke : Env → Bool → Functor → EventLoop → Outcome EventLoop
invoke env inside f l = if inside then run_functor env f l else invoke_later env inside f l

-- Stop()
unfoldable pub stop_loop : Env → Bool → EventLoop → Outcome EventLoop
stop_loop env inside l =
    if inside then ok (record l { stop = true }) else wakeup env (record l { stop = true })

-- EventHandler(loop, s), for the handler `h`
unfoldable pub create_handler : Env → Bool → ℕ → ℕ → EventLoop → Outcome EventLoop
create_handler env inside h s l = invoke env inside (attach_in_loop h) (
    put_handler h
      (record {
        socket = s;
        events = 0;
        detached = true;
        read_callback = false;
        write_callback = false;
      })
      l)

-- Update() of a handler
unfoldable pub update : Env → Bool → ℕ → EventLoop → Outcome (Bool × EventLoop)
update env inside h l =
    if inside
    then if (l.objects h).detached then fault aborted else update_handler env h l
    else (invoke env inside (update_in_loop h) l ▹ λ l'. ok (true, l'))

-- `_events |= e`
abbrev pub enable : ℕ → ℕ → EventLoop → EventLoop
enable e h l = put_handler h (record (l.objects h) { events = bit_or (l.objects h).events e }) l

-- `_events &= ~e`
abbrev pub disable : ℕ → ℕ → EventLoop → EventLoop
disable e h l =
    put_handler h
      (record (l.objects h) { events = (l.objects h).events - bit_and (l.objects h).events e }) l

-- EnableReading(), DisableReading(), EnableWriting() and DisableWriting()
unfoldable pub enable_reading : Env → Bool → ℕ → EventLoop → Outcome (Bool × EventLoop)
enable_reading env inside h l = update env inside h (enable event_read h l)

unfoldable pub disable_reading : Env → Bool → ℕ → EventLoop → Outcome EventLoop
disable_reading env inside h l = update env inside h (disable event_read h l) ▹ λ (done, l'). ok l'

unfoldable pub enable_writing : Env → Bool → ℕ → EventLoop → Outcome (Bool × EventLoop)
enable_writing env inside h l = update env inside h (enable event_write h l)

unfoldable pub disable_writing : Env → Bool → ℕ → EventLoop → Outcome EventLoop
disable_writing env inside h l = update env inside h (disable event_write h l) ▹ λ (done, l'). ok l'

-- Detach() of a handler. From outside it posts DetachInLoop and blocks until that is done.
unfoldable pub detach : Env → Bool → ℕ → EventLoop → Outcome EventLoop
detach env inside h l =
    if (l.objects h).detached
    then ok l
    else if inside
    then (remove_handler env h l ▹ λ l'. ok (set_detached h true l'))
    else invoke env inside (detach_in_loop h) l

-- `_wakeup_handler`; its reading callback is OnWakeupRead, and it has no other
abbrev pub wakeup_handler : ℕ
wakeup_handler = 0

abbrev pub call : Env → ℕ → Bool → EventLoop → Outcome EventLoop
call env h reading l =
    if h == wakeup_handler
    then if reading then on_wakeup_read l else ok l
    else if (if reading then (l.objects h).read_callback else (l.objects h).write_callback)
    then env.callback h reading l
    else ok l

-- HandleEvents(events)
unfoldable pub handle_events : Env → ℕ → ℕ → EventLoop → Outcome EventLoop
handle_events env h events l =
    (if has_event event_read events then call env h true l else ok l) ▹ λ l'.
    if has_event event_write events then call env h false l' else ok l'

-- `_current_handler = _handlers[it->fd]; assert(_current_handler);` and HandleEvents
unfoldable pub dispatch : Env → SocketEvents → EventLoop → Outcome EventLoop
dispatch env (fd, events) l = elim (lookup fd l.handlers) [
  | none ↦ fault aborted
  | some h ↦ handle_events env h events l
]

unfoldable pub dispatch_all : Env → List SocketEvents → EventLoop → Outcome EventLoop
dispatch_all env [] l = ok l
dispatch_all env (s ∷ rest) l = dispatch env s l ▹ λ l'. dispatch_all env rest l'

unfoldable pub run_all : Env → List Functor → EventLoop → Outcome EventLoop
run_all env [] l = ok l
run_all env (f ∷ fs) l = run_functor env f l ▹ λ l'. run_all env fs l'

-- `functions.swap(_queue)`, with `_queue_invoking`
abbrev pub swap_queue : EventLoop → EventLoop
swap_queue l = record l { queue = []; queue_invoking = true }

abbrev pub end_invoking : EventLoop → EventLoop
end_invoking l = record l { queue_invoking = false }

-- A turn of the loop of Run(). Without an error argument the text of an error is not seen.
unfoldable pub turn : Env → List Answer → EventLoop → Outcome (List Answer × EventLoop)
turn env answers l = select l.selector [] [] none answers ▹ λ s. dispatch_all env s.events l ▹ λ l₁.
    run_all env l₁.queue (swap_queue l₁) ▹ λ l₂. ok (s.answers, end_invoking l₂)

unfoldable pub turns : ℕ → Env → List Answer → EventLoop → Outcome EventLoop
turns zero env answers l = fault starved
turns (suc fuel) env answers l = elim l.stop [
  | true ↦ ok l
  | false ↦ turn env answers l ▹ λ (answers', l'). turns fuel env answers' l'
]

-- Run(), with at most `fuel` turns
unfoldable pub run : ℕ → Env → List Answer → EventLoop → Outcome EventLoop
run fuel env answers l =
    enable_reading env true wakeup_handler (record l { stop = false }) ▹ λ (done, l').
    turns fuel env answers l'
