-- ===== src/SocketSelector/Laws.antt =====
-- A selector as a map from descriptors to events.
use netb.Prelude.{
  zero, suc, ℕ, ◌+◌, ◌≤◌, ◌<◌, ◌≡◌, ◌≢◌, ◌↔◌, List, [], ◌∷◌, ◌++◌, Bool, true, false, ok, ◌==◌,
  ==_iff, if◌then◌else◌, arith, Bool-cases, inl, inr,
}
use netb.SocketSelector.{
  SocketSelector, has_event, event_read, event_write, event_except, fd_setsize, put, has, erase,
  remove, set, nfds,
}

-- How often a descriptor occurs.
unfoldable pub count : ℕ → List ℕ → ℕ
count x [] = 0
count x (y ∷ ys) = (if x == y then 1 else 0) + count x ys

-- The first item is at least as large as every other.
abbrev pub IsFrontMax : List ℕ → Type 0
IsFrontMax [] = Unit
IsFrontMax (x ∷ xs) = (y : ℕ) → has y (x ∷ xs) ≡ true → y ≤ x

-- What std::make_heap promises: the same items, the largest at the front.
pub record IsHeapMaker (make_heap : List ℕ → List ℕ) : Type 0 where
  pub same : (x : ℕ) (xs : List ℕ) → count x (make_heap xs) ≡ count x xs
  pub front : (xs : List ℕ) → IsFrontMax (make_heap xs)

-- The events that are watched for a descriptor.
abbrev pub watched : SocketSelector → ℕ → Bool × Bool × Bool
watched sel x = (sel.read_set x, sel.write_set x, sel.except_set x)

-- The events of a mask.
abbrev pub mask : ℕ → Bool × Bool × Bool
mask events =
    (has_event event_read events, has_event event_write events, has_event event_except events)

-- No descriptor is listed twice, each that is watched is listed and can be in a set, and the front
-- is the largest.
pub record IsSelector (sel : SocketSelector) : Type 0 where
  pub once : (x : ℕ) → count x sel.sockets ≤ 1
  pub listed : (x : ℕ) → watched sel x ≢ (false, false, false) → 0 < count x sel.sockets
  pub small : (x : ℕ) → 0 < count x sel.sockets → x < fd_setsize
  pub front : IsFrontMax sel.sockets

pub count-has : (x : ℕ) (xs : List ℕ) → (has x xs ≡ true) ↔ (0 < count x xs)
unfolding has count
count-has x [] = ground arith
count-has x (y ∷ ys) = ground (arith, count-has x ys)

pub count-snoc :
    (x s : ℕ) (xs : List ℕ) → count x (xs ++ s ∷ []) ≡ count x xs + (if x == s then 1 else 0)
unfolding count
count-snoc x s [] = omega arith
count-snoc x s (y ∷ ys) = omega (arith, count-snoc x s ys)

pub count-erase :
    (x s : ℕ) (xs : List ℕ)
    → 0 < count s xs
    → count x (erase s xs) + (if x == s then 1 else 0) ≡ count x xs
unfolding count erase
count-erase x s [] h = absurd (omega arith)
count-erase x s (y ∷ ys) h = ground (arith, count-erase x s ys)

module _ {make_heap : List ℕ → List ℕ} (h : IsHeapMaker make_heap) where
  count_removed :
      (x s : ℕ) (xs : List ℕ)
      → count s xs ≤ 1
      → count x (if has s xs then make_heap (erase s xs) else xs)
        ≡ (if x == s then 0 else count x xs)
  count_removed x s xs le =
      ground (arith, h.same x (erase s xs), count-erase x s xs, count-has s xs, ==_iff x s)

  count_added :
      (x s : ℕ) (xs : List ℕ)
      → count s xs ≤ 1
      → count x (if has s xs then xs else make_heap (xs ++ s ∷ []))
        ≡ (if x == s then 1 else count x xs)
  count_added x s xs le =
      ground (arith, h.same x (xs ++ s ∷ []), count-snoc x s xs, count-has s xs, ==_iff x s)

  front_removed :
      (s : ℕ) (xs : List ℕ)
      → IsFrontMax xs
      → IsFrontMax (if has s xs then make_heap (erase s xs) else xs)
  front_removed s xs f = elim (Bool-cases (has s xs)) [
    | inl e ↦ rw e (h.front (erase s xs))
    | inr e ↦ rw e f
  ]

  front_added :
      (s : ℕ) (xs : List ℕ)
      → IsFrontMax xs
      → IsFrontMax (if has s xs then xs else make_heap (xs ++ s ∷ []))
  front_added s xs f = elim (Bool-cases (has s xs)) [
    | inl e ↦ rw e f
    | inr e ↦ rw e (h.front (xs ++ s ∷ []))
  ]

  pub remove_lem :
      (s : ℕ) (sel : SocketSelector)
      → s < fd_setsize
      → IsSelector sel
      → (sel' : SocketSelector) × (remove make_heap s sel ≡ ok sel')
        × ((x : ℕ) → watched sel' x ≡ (if x == s then (false, false, false) else watched sel x))
        × IsSelector sel'
  unfolding remove
  remove_lem s sel lt v = (
    new,
    ground (arith, lt),
    λ x. ground arith,
    record {
      once = λ x. ground (arith, count_removed x s sel.sockets (v.once s), v.once x);
      listed = λ x w. ground (arith, count_removed x s sel.sockets (v.once s), v.listed x);
      small = λ x w. ground (arith, count_removed x s sel.sockets (v.once s), v.small x);
      front = front_removed s sel.sockets v.front;
    },
  )
    where
      new : SocketSelector
      new = record {
        sockets = if has s sel.sockets then make_heap (erase s sel.sockets) else sel.sockets;
        read_set = put s false sel.read_set;
        write_set = put s false sel.write_set;
        except_set = put s false sel.except_set;
      }

  set_some :
      (s events : ℕ) (sel : SocketSelector)
      → s < fd_setsize
      → events ≢ 0
      → IsSelector sel
      → (sel' : SocketSelector) × (set make_heap s events sel ≡ ok sel')
        × ((x : ℕ) → watched sel' x ≡ (if x == s then mask events else watched sel x))
        × IsSelector sel'
  unfolding set
  set_some s events sel lt ne v = (
    new,
    ground (arith, lt, ne),
    λ x. ground arith,
    record {
      once = λ x. ground (arith, count_added x s sel.sockets (v.once s), v.once x);
      listed = λ x w. ground (arith, count_added x s sel.sockets (v.once s), v.listed x);
      small =
          λ x w. ground (arith, lt, count_added x s sel.sockets (v.once s), v.small x, ==_iff x s);
      front = front_added s sel.sockets v.front;
    },
  )
    where
      new : SocketSelector
      new = record {
        sockets = if has s sel.sockets then sel.sockets else make_heap (sel.sockets ++ s ∷ []);
        read_set = put s (has_event event_read events) sel.read_set;
        write_set = put s (has_event event_write events) sel.write_set;
        except_set = put s (has_event event_except events) sel.except_set;
      }

  -- `Set(s, events)` of a selector in which no descriptor is listed twice, all are below
  -- FD_SETSIZE, each that is watched is listed and the front is the largest, with `s` below
  -- FD_SETSIZE and a `make_heap` that keeps the items and puts the largest in front: it succeeds,
  -- watches `s` for the read, write and except bits of `events` and every other descriptor as
  -- before, and leaves a selector of the same kind.
  pub set_lem :
      (s events : ℕ) (sel : SocketSelector)
      → s < fd_setsize
      → IsSelector sel
      → (sel' : SocketSelector) × (set make_heap s events sel ≡ ok sel')
        × ((x : ℕ) → watched sel' x ≡ (if x == s then mask events else watched sel x))
        × IsSelector sel'
  unfolding set has_event
  set_lem s zero sel lt v = remove_lem s sel lt v
  set_lem s (suc n) sel lt v = set_some s (suc n) sel lt (λ e. omega arith) v

-- The first argument of ::select is above every listed descriptor.
pub nfds-above :
    (sel : SocketSelector) (x : ℕ) → IsSelector sel → 0 < count x sel.sockets → x < nfds sel
unfolding nfds count
nfds-above sel x v w = above sel.sockets v.front w
  where
    above : (xs : List ℕ) → IsFrontMax xs → 0 < count x xs → x < nfds (record sel { sockets = xs })
    above [] f w = absurd (omega arith)
    above (y ∷ ys) f w = ground (arith, f x, count-has x (y ∷ ys))
