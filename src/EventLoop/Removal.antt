-- ===== src/EventLoop/Removal.antt =====
-- RemoveHandler: which entry of the map goes, and which socket the selector forgets.
use netb.Prelude.{
  ℕ, ◌<◌, ◌≡◌, ◌≢◌, List, [], ◌∷◌, ◌++◌, Bool, false, ◌||◌, ok, fault, undefined, Fault, ◌==◌,
  ==_iff, ==_refl, arith, refl, ◌∙◌, Bool-cases, inl, inr,
}
use netb.SocketSelector.{SocketSelector, fd_setsize}
use netb.SocketSelector.Laws.{IsHeapMaker, IsSelector, watched, remove_lem}
use netb.EventLoop.{EventLoop, Env, sweep, remove_handler}

-- Some entry has the handler.
unfoldable pub holds : ℕ → List (ℕ × ℕ) → Bool
holds h [] = false
holds h ((k, g) ∷ m) = g == h || holds h m

module _ (make_heap : List ℕ → List ℕ) (h : ℕ) where
  sweep-ok :
      (m : List (ℕ × ℕ)) (sel : SocketSelector)
      → holds h m ≡ false
      → sweep make_heap h m sel ≡ ok (m, sel)
  unfolding sweep holds
  sweep-ok [] sel e = refl
  sweep-ok ((k, g) ∷ []) sel e = ground arith
  sweep-ok ((k, g) ∷ (k', g') ∷ m) sel e = elim (Bool-cases (g == h)) [
    | inl t ↦ absurd (ground arith)
    | inr t ↦ rw (t, sweep, sweep-ok ((k', g') ∷ m) sel (ground arith)) refl
  ]

  sweep-kept :
      (pre : List (ℕ × ℕ)) (k g : ℕ) (m kept : List (ℕ × ℕ)) (sel sel' : SocketSelector)
      → holds h pre ≡ false
      → sweep make_heap h ((k, g) ∷ m) sel ≡ ok (kept, sel')
      → sweep make_heap h (pre ++ (k, g) ∷ m) sel ≡ ok (pre ++ kept, sel')
  unfolding sweep holds
  sweep-kept [] k g m kept sel sel' n e = e
  sweep-kept ((k₁, g₁) ∷ []) k g m kept sel sel' n e = elim (Bool-cases (g₁ == h)) [
    | inl t ↦ absurd (ground arith)
    | inr t ↦ rw (t, sweep, e) refl
  ]
  sweep-kept ((k₁, g₁) ∷ (k₂, g₂) ∷ pre) k g m kept sel sel' n e = elim (Bool-cases (g₁ == h)) [
    | inl t ↦ absurd (ground arith)
    | inr t ↦ rw (t, sweep, sweep-kept ((k₂, g₂) ∷ pre) k g m kept sel sel' (ground arith) e) refl
  ]

  sweep-fault :
      (pre : List (ℕ × ℕ)) (k g : ℕ) (m : List (ℕ × ℕ)) (sel : SocketSelector) (x : Fault)
      → holds h pre ≡ false
      → sweep make_heap h ((k, g) ∷ m) sel ≡ fault x
      → sweep make_heap h (pre ++ (k, g) ∷ m) sel ≡ fault x
  unfolding sweep holds
  sweep-fault [] k g m sel x n e = e
  sweep-fault ((k₁, g₁) ∷ []) k g m sel x n e = elim (Bool-cases (g₁ == h)) [
    | inl t ↦ absurd (ground arith)
    | inr t ↦ rw (t, sweep, e) refl
  ]
  sweep-fault ((k₁, g₁) ∷ (k₂, g₂) ∷ pre) k g m sel x n e = elim (Bool-cases (g₁ == h)) [
    | inl t ↦ absurd (ground arith)
    | inr t ↦ rw (t, sweep, sweep-fault ((k₂, g₂) ∷ pre) k g m sel x (ground arith) e) refl
  ]

module _ (env : Env) (h k : ℕ) (pre : List (ℕ × ℕ)) (l : EventLoop)
    (first : holds h pre ≡ false) where
  -- `RemoveHandler` of a handler whose only entry is the last one of the map reads through the end
  -- iterator: undefined behaviour.
  pub remove_handler-last :
      l.handlers ≡ pre ++ (k, h) ∷ [] → remove_handler env h l ≡ fault undefined
  unfolding remove_handler sweep
  remove_handler-last e =
      rw
        (
          e,
          remove_handler,
          sweep-fault env.make_heap h pre k h [] l.selector undefined first (rw (==_refl h) refl),
        )
        refl

  -- `RemoveHandler` of a handler that has exactly one entry in the map, which is not the last one:
  -- the entry goes, but the selector goes on watching its socket as before, and forgets the socket
  -- of the next entry, whose handler stays in the map and gets no more events. The selector is
  -- well formed before and after, and the next socket is another one, below FD_SETSIZE.
  pub remove_handler-next :
      (k' h' : ℕ) (rest : List (ℕ × ℕ))
      → IsHeapMaker env.make_heap
      → IsSelector l.selector
      → l.handlers ≡ pre ++ (k, h) ∷ (k', h') ∷ rest
      → holds h ((k', h') ∷ rest) ≡ false
      → k ≢ k'
      → k' < fd_setsize
      → (l' : EventLoop) × (remove_handler env h l ≡ ok l')
        × (l'.handlers ≡ pre ++ (k', h') ∷ rest)
        × (watched l'.selector k ≡ watched l.selector k)
        × (watched l'.selector k' ≡ (false, false, false))
        × IsSelector l'.selector
  unfolding remove_handler sweep
  remove_handler-next k' h' rest hm v e only ne lt =
      let (sel, e', w, v') = remove_lem hm k' l.selector lt v in
      let p =
        sweep-kept env.make_heap h pre k h ((k', h') ∷ rest) ((k', h') ∷ rest) l.selector sel first
          (rw (==_refl h, sweep, e', sweep-ok env.make_heap h ((k', h') ∷ rest) sel only) refl) in
      (
        record l { handlers = pre ++ (k', h') ∷ rest; selector = sel },
        rw (e, remove_handler, p) refl,
        refl,
        w k ∙ ground (arith, ==_iff k k'),
        w k' ∙ rw (==_refl k') refl,
        v',
      )
