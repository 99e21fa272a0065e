-- ===== src/EventLoop/Registry.antt =====
-- The handlers of a loop and the selector.
use mathlib.Core.Path.{subst}
use netb.Prelude.{
  Bool-cases, ℕ, ◌<◌, ◌≡◌, ◌≢◌, List, [], ◌∷◌, Bool, true, false, none, some, ok, ◌==◌,
  if◌then◌else◌, ==_iff, ==_refl, arith, refl, ◌∙◌, sym, inl, inr, Option-cases,
}
use netb.SocketSelector.{fd_setsize}
use netb.SocketSelector.Laws.{IsHeapMaker, IsSelector, watched, mask, set_lem}
use netb.EventLoop.{
  EventLoop, Env, lookup, insert, select_handler, register_handler, update_handler, dispatch,
  handle_events,
}

-- The selector is well formed, and what it watches has a handler.
pub record IsLoop (l : EventLoop) : Type 0 where
  pub selector : IsSelector l.selector
  pub registered :
      (fd : ℕ) → watched l.selector fd ≢ (false, false, false) → lookup fd l.handlers ≢ none

none≢some : (g : ℕ) → none ≢ some g
none≢some g = λ z. cc

pub lookup-insert :
    (x fd h : ℕ) (m : List (ℕ × ℕ))
    → lookup fd m ≡ none
    → lookup x (insert fd h m) ≡ (if x == fd then some h else lookup x m)
unfolding lookup insert
lookup-insert x fd h [] e = ground (arith, ==_iff x fd)
lookup-insert x fd h ((k, g) ∷ m) e =
    ground (arith, ==_iff x fd, ==_iff fd k, ==_iff x k, lookup-insert x fd h m)

module _ (env : Env) (hm : IsHeapMaker env.make_heap) (h : ℕ) (l : EventLoop)
    (small : (l.objects h).socket < fd_setsize) where
  select_handler_lem :
      IsSelector l.selector
      → lookup (l.objects h).socket l.handlers ≢ none
      → ((fd : ℕ) → watched l.selector fd ≢ (false, false, false) → lookup fd l.handlers ≢ none)
      → (l' : EventLoop) × (select_handler env h l ≡ ok l')
        × ((fd : ℕ)
            → watched l'.selector fd ≡ (
                if fd == (l.objects h).socket
                then mask (l.objects h).events
                else watched l.selector fd))
        × IsLoop l'
  select_handler_lem v there registered =
      let (sel, e, w, v') =
        set_lem hm (l.objects h).socket (l.objects h).events l.selector small v in
      (
        record l { selector = sel },
        rw (e),
        w,
        record {
          selector = v';
          registered = λ fd ne. elim (Bool-cases (fd == (l.objects h).socket)) [
            | inl e' ↦
                subst (λ x. lookup x l.handlers ≢ none)
                  (sym ((==_iff fd (l.objects h).socket).0 e')) there
            | inr e' ↦ registered fd (λ z. ne (w fd ∙ rw e' z))
          ];
        },
      )

  pub update_handler_lem :
      IsLoop l
      → (done : Bool) × (l' : EventLoop) × (update_handler env h l ≡ ok (done, l')) × IsLoop l'
  unfolding update_handler
  update_handler_lem v = elim (Option-cases (lookup (l.objects h).socket l.handlers)) [
    | inl e ↦ (false, l, rw (e, update_handler) refl, v)
    | inr (g, e) ↦
        let r =
          select_handler_lem v.selector (λ z. absurd (none≢some g (sym z ∙ e))) v.registered in
        (true, r.0, rw (e, update_handler, r.1) refl, r.3)
  ]

lookup-insert-none :
    (x fd h : ℕ) (m : List (ℕ × ℕ))
    → lookup fd m ≡ none
    → lookup x m ≢ none
    → lookup x (insert fd h m) ≢ none
lookup-insert-none x fd h m e ne z = ne (elim (Bool-cases (x == fd)) [
  | inl t ↦ absurd (none≢some h (sym z ∙ lookup-insert x fd h m e ∙ rw t refl))
  | inr t ↦ sym (lookup-insert x fd h m e ∙ rw t refl) ∙ z
])

-- `RegisterHandler` of a handler whose socket is below FD_SETSIZE, in a loop with a well-formed
-- selector in which each watched socket has an entry in the map of handlers: it succeeds, the
-- handler's socket is watched for its events and every other socket as before, and the loop is
-- still such a one.
pub register_handler_lem :
    (env : Env) (hm : IsHeapMaker env.make_heap) (h : ℕ) (l : EventLoop)
    → (l.objects h).socket < fd_setsize
    → IsLoop l
    → (l' : EventLoop) × (register_handler env h l ≡ ok l')
      × ((fd : ℕ)
          → watched l'.selector fd ≡ (
              if fd == (l.objects h).socket
              then mask (l.objects h).events
              else watched l.selector fd))
      × IsLoop l'
unfolding register_handler
register_handler_lem env hm h l small v =
    elim (Option-cases (lookup (l.objects h).socket l.handlers)) [
      | inl e ↦
          let l₁ = record l { handlers = insert (l.objects h).socket h l.handlers } in
          let r =
            select_handler_lem env hm h l₁ small v.selector
              (λ z. none≢some h (
                sym z
                ∙ lookup-insert (l.objects h).socket (l.objects h).socket h l.handlers e
                ∙ rw (==_refl (l.objects h).socket) refl))
              (λ fd ne.
                lookup-insert-none fd (l.objects h).socket h l.handlers e (v.registered fd ne)) in
          (r.0, rw (e, register_handler) r.1, r.2, r.3)
      | inr (g, e) ↦
          let r =
            select_handler_lem env hm h l small v.selector (λ z. absurd (none≢some g (sym z ∙ e)))
              v.registered in
          (r.0, rw (e, register_handler) r.1, r.2, r.3)
    ]

pub dispatch_lem :
    (env : Env) (fd events : ℕ) (l : EventLoop)
    → IsLoop l
    → watched l.selector fd ≢ (false, false, false)
    → (h : ℕ) × (lookup fd l.handlers ≡ some h)
      × (dispatch env (fd, events) l ≡ handle_events env h events l)
unfolding dispatch
dispatch_lem env fd events l v w = elim (Option-cases (lookup fd l.handlers)) [
  | inl e ↦ absurd (v.registered fd w e)
  | inr (g, e) ↦ (g, e, rw (e, dispatch) refl)
]
