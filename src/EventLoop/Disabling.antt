-- ===== src/EventLoop/Disabling.antt =====
-- What DisableReading of a handler leaves in the loop's thread.
use netb.Prelude.{
  ℕ, zero, suc, ◌-◌, ◌<◌, ◌≡◌, ◌≢◌, true, false, none, some, ok, ◌==◌, if◌then◌else◌, bit_and,
  ==_iff, ==_refl, ne→==, arith, refl, sym, ◌∙◌, Bool-cases, inl, inr,
}
use netb.SocketSelector.{
  SocketSelector, set, fd_setsize, has_event, event_read, event_write, event_except,
}
use netb.SocketSelector.Laws.{IsHeapMaker, watched, mask, set_lem}
use netb.EventLoop.{
  EventLoop, EventHandler, Env, lookup, select_handler, update, update_handler, disable,
  disable_reading,
}
use netb.EventLoop.Registry.{IsLoop}

-- What is left of some events without the reading one.
abbrev without_read : ℕ → ℕ
without_read events = events - bit_and events event_read

mask-without_read :
    (events : ℕ)
    → events < 8
    → mask (without_read events)
      ≡ (false, has_event event_write events, has_event event_except events)
unfolding has_event
mask-without_read zero lt = refl
mask-without_read (suc zero) lt = refl
mask-without_read (suc (suc zero)) lt = refl
mask-without_read (suc (suc (suc zero))) lt = refl
mask-without_read (suc (suc (suc (suc zero)))) lt = refl
mask-without_read (suc (suc (suc (suc (suc zero))))) lt = refl
mask-without_read (suc (suc (suc (suc (suc (suc zero)))))) lt = refl
mask-without_read (suc (suc (suc (suc (suc (suc (suc zero))))))) lt = refl
mask-without_read (suc (suc (suc (suc (suc (suc (suc (suc n)))))))) lt = absurd (omega arith)

-- The loop `l'` watches the socket of the handler no longer for reading, and is else what `l` was.
pub record IsSilenced (h : ℕ) (l l' : EventLoop) : Type 0 where
  pub watched_after :
      (fd : ℕ)
      → watched l'.selector fd ≡ (
          if fd == (l.objects h).socket
          then (
            false,
            has_event event_write (l.objects h).events,
            has_event event_except (l.objects h).events,
          )
          else watched l.selector fd)
  pub events : mask (l'.objects h).events ≡ (
    false,
    has_event event_write (l.objects h).events,
    has_event event_except (l.objects h).events,
  )
  pub handler : l'.objects h ≡ record (l.objects h) { events = (l'.objects h).events }
  pub others : (g : ℕ) → g ≢ h → l'.objects g ≡ l.objects g
  pub handlers : l'.handlers ≡ l.handlers
  pub queue : l'.queue ≡ l.queue
  pub queue_invoking : l'.queue_invoking ≡ l.queue_invoking
  pub stop : l'.stop ≡ l.stop
  pub wakeups : l'.wakeups ≡ l.wakeups
  pub loop : IsLoop l'

none≢found : (g : ℕ) → none ≢ some g
none≢found g = λ z. cc

select_changed :
    (env : Env) (h : ℕ) (o : EventHandler) (l : EventLoop) (sel : SocketSelector)
    → l.objects h ≡ o
    → set env.make_heap o.socket o.events l.selector ≡ ok sel
    → select_handler env h l ≡ ok (record l { selector = sel })
select_changed env h o l sel p e = rw (p, e) refl

pub disable_reading_lem :
    (env : Env) (hm : IsHeapMaker env.make_heap) (h g : ℕ) (l : EventLoop)
    → (l.objects h).socket < fd_setsize
    → (l.objects h).events < 8
    → (l.objects h).detached ≡ false
    → lookup (l.objects h).socket l.handlers ≡ some g
    → IsLoop l
    → (l' : EventLoop) × (disable_reading env true h l ≡ ok l') × IsSilenced h l l'
unfolding disable_reading update update_handler
disable_reading_lem env hm h g l small bits there found v =
    let (sel, e, w, v') =
      set_lem hm (l.objects h).socket (without_read (l.objects h).events) l.selector small
        v.selector in
    let watches : (fd : ℕ)
        → watched sel fd ≡ (
            if fd == (l.objects h).socket
            then (
              false,
              has_event event_write (l.objects h).events,
              has_event event_except (l.objects h).events,
            )
            else watched l.selector fd) =
      λ fd. w fd ∙ rw (mask-without_read (l.objects h).events bits) refl in
    (
      record (disable event_read h l) { selector = sel },
      rw
          (
            ==_refl h,
            there,
            update_handler,
            found,
            select_changed env h
                (record (l.objects h) { events = without_read (l.objects h).events })
                (disable event_read h l) sel (rw (==_refl h) refl) e,
          )
          (rw there refl),
      record {
        watched_after = watches;
        events = rw (==_refl h) (mask-without_read (l.objects h).events bits);
        handler = rw (==_refl h) refl;
        others = λ g ne. rw (ne→== g h ne) refl;
        handlers = refl;
        queue = refl;
        queue_invoking = refl;
        stop = refl;
        wakeups = refl;
        loop = record {
          selector = v';
          registered = λ fd ne. elim (Bool-cases (fd == (l.objects h).socket)) [
            | inl t ↦ rw ((==_iff fd (l.objects h).socket).0 t) (λ z. none≢found g (sym z ∙ found))
            | inr t ↦ v.registered fd (λ z. ne (watches fd ∙ rw t z))
          ];
        };
      },
    )
