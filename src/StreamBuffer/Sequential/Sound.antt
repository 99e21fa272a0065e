-- ===== src/StreamBuffer/Sequential/Sound.antt =====
-- The invariant of a buffer with a limit under any calls, and the one write that breaks off.
use netb.Prelude.{
  ℕ, ◌+◌, ◌-◌, ◌≤◌, ◌<◌, ◌≡◌, ◌⊎◌, List, [], ◌∷◌, ◌++◌, length, max_size, true, false, ok, fault,
  undefined, leb, ltb, arith, refl, ap, inl, inr, Bool-cases,
}
use netb.Memory.{Bytes}
use netb.StreamBuffer.{StreamBuffer}
use netb.StreamBuffer.Valid.{IsValid}
use netb.StreamBuffer.Write.{write_overflow}
use netb.StreamBuffer.Reclaim.{NeedsReclaim, moved, write_moves, moved-IsValid, write_undefined}
use netb.StreamBuffer.Sequential.{
  Command, write_command, read_command, peek_command, update_command, flush_command, clear_command,
  readable_command, empty_command, Response, accepted, perform, written, perform_all,
}
use netb.StreamBuffer.Sequential.Calls.{
  IsReady, Refines, write-Refines, read-Refines, peek-Refines, update-Refines, flush-Refines,
  clear-Refines, readable-Refines, empty-Refines,
}

-- A valid buffer with a limit that a vector can reach, read no further back than its origin.
pub record IsSound (b : StreamBuffer) : Type 0 where
  pub valid : IsValid b
  pub ordered : b.opos ≤ b.rpos
  pub limited : 0 < b.limit
  pub small : b.limit ≤ max_size

-- The bytes that a call writes.
abbrev pub size_of : Command → ℕ
size_of (write_command p) = length p
size_of c = 0

-- A write that has to reclaim flushed bytes where they are more than half of what was written.
pub record IsStuck (c : Command) (b : StreamBuffer) : Type 0 where
  pub behind : b.limit < b.wpos + size_of c
  pub front : b.wpos - b.opos + size_of c ≤ b.limit
  pub flushed : b.wpos < b.opos + b.opos

-- A call that returns, and keeps the buffer sound.
abbrev pub Returns : Command → StreamBuffer → Type 0
Returns c b = (r : Response) × (b' : StreamBuffer) × (perform c b ≡ ok (r, b')) × IsSound b'

ready : {b : StreamBuffer} → IsSound b → IsReady 0 b
ready h = record { has_room = ground (arith, h, h.valid); ordered = h.ordered }

refined : {n : ℕ} (c : Command) {b : StreamBuffer} → IsSound b → Refines c n b → Returns c b
refined c h (b', e, v, r, l) = (
  _,
  b',
  e,
  record {
    valid = r.has_room.valid;
    ordered = r.ordered;
    limited = omega (arith, h.limited, l);
    small = omega (arith, h.small, l);
  },
)

module _ (p : Bytes) {b : StreamBuffer} (h : IsSound b) (n : length p ≤ max_size) where
  -- Behind the data, without reclaiming.
  write_behind : b.wpos + length p ≤ b.limit → Returns (write_command p) b
  write_behind le =
      refined {n = 0} (write_command p) h
        (write-Refines p (record { has_room = ground (arith, h, h.valid); ordered = h.ordered }))

  too_long : b.limit < b.wpos - b.opos + length p → Returns (write_command p) b
  unfolding perform
  too_long lt = (accepted false, b, rw (write_overflow p h.valid n h.limited lt) refl, h)

  module _ (lt : b.limit < b.wpos + length p) (le : b.wpos - b.opos + length p ≤ b.limit) where
    needs : NeedsReclaim (length p) b
    needs = record {
      valid = h.valid;
      ordered = h.ordered;
      small = n;
      limit_fits = h.small;
      behind = lt;
      front = le;
      limited = h.limited;
    }

    write_moved : b.opos + b.opos ≤ b.wpos → Returns (write_command p) b
    unfolding perform
    write_moved k = (
      accepted true,
      moved p b,
      rw (write_moves p needs k) refl,
      record {
        valid = moved-IsValid p needs k;
        ordered = omega arith;
        limited = h.limited;
        small = h.small;
      },
    )

    write-IsStuck :
        b.wpos < b.opos + b.opos
        → (perform (write_command p) b ≡ fault undefined) × IsStuck (write_command p) b
    unfolding perform
    write-IsStuck k =
        (rw (write_undefined p needs k) refl, record { behind = lt; front = le; flushed = k })

  write_lem :
      Returns (write_command p) b
      ⊎ ((perform (write_command p) b ≡ fault undefined) × IsStuck (write_command p) b)
  write_lem = elim (Bool-cases (leb (b.wpos + length p) b.limit)) [
    | inl t ↦ inl (write_behind (ground arith))
    | inr t ↦ elim (Bool-cases (ltb b.limit (b.wpos - b.opos + length p))) [
      | inl u ↦ inl (too_long (ground arith))
      | inr u ↦ elim (Bool-cases (leb (b.opos + b.opos) b.wpos)) [
        | inl v ↦ inl (write_moved (ground arith) (ground arith) (ground arith))
        | inr v ↦ inr (write-IsStuck (ground arith) (ground arith) (ground arith))
      ]
    ]
  ]

-- Every call returns and keeps a buffer sound, but for a write that is stuck.
pub perform_lem :
    (c : Command) {b : StreamBuffer}
    → IsSound b
    → size_of c ≤ max_size
    → Returns c b ⊎ ((perform c b ≡ fault undefined) × IsStuck c b)
perform_lem (write_command p) h n = write_lem p h n
perform_lem (read_command k) h n = inl (refined (read_command k) h (read-Refines k (ready h)))
perform_lem (peek_command i k) h n = inl (refined (peek_command i k) h (peek-Refines i k (ready h)))
perform_lem (update_command i p) h n =
    inl (refined (update_command i p) h (update-Refines i p (ready h)))
perform_lem flush_command h n = inl (refined flush_command h (flush-Refines (ready h)))
perform_lem clear_command h n = inl (refined clear_command h (clear-Refines (ready h)))
perform_lem readable_command h n = inl (refined readable_command h (readable-Refines (ready h)))
perform_lem empty_command h n = inl (refined empty_command h (empty-Refines (ready h)))

-- Calls that all return, and keep the buffer sound.
abbrev pub Completes : List Command → StreamBuffer → Type 0
Completes cs b =
    (rs : List Response) × (b' : StreamBuffer) × (perform_all cs b ≡ ok (rs, b')) × IsSound b'

-- Calls that return up to a write that is stuck, which is undefined.
abbrev pub Breaks : List Command → StreamBuffer → Type 0
Breaks cs b =
    (before : List Command) × (c : Command) × (later : List Command) × (cs ≡ before ++ c ∷ later)
    × (rs : List Response) × (b' : StreamBuffer) × (perform_all before b ≡ ok (rs, b'))
    × IsSound b'
    × IsStuck c b'
    × (perform_all cs b ≡ fault undefined)

size-written : (c : Command) (cs : List Command) → written (c ∷ cs) ≡ size_of c + written cs
unfolding written
size-written (write_command p) cs = refl
size-written (read_command k) cs = omega arith
size-written (peek_command i k) cs = omega arith
size-written (update_command i p) cs = omega arith
size-written flush_command cs = omega arith
size-written clear_command cs = omega arith
size-written readable_command cs = omega arith
size-written empty_command cs = omega arith

completes :
    (c : Command) (cs : List Command) (b : StreamBuffer) (r : Response) (b₁ : StreamBuffer)
    → perform c b ≡ ok (r, b₁)
    → Completes cs b₁
    → Completes (c ∷ cs) b
unfolding perform_all
completes c cs b r b₁ e (rs, b', p, h) = (r ∷ rs, b', rw (e, p) refl, h)

breaks :
    (c : Command) (cs : List Command) (b : StreamBuffer) (r : Response) (b₁ : StreamBuffer)
    → perform c b ≡ ok (r, b₁)
    → Breaks cs b₁
    → Breaks (c ∷ cs) b
unfolding perform_all
breaks c cs b r b₁ e (before, d, later, q, rs, b', p, h, k, f) =
    (c ∷ before, d, later, ap (λ ds. c ∷ ds) q, r ∷ rs, b', rw (e, p) refl, h, k, rw (e, f) refl)

-- On a valid buffer with a limit that a vector can reach, whose reading position is not before its
-- origin, a sequence of calls of `Write`, `Read`, `Peek`, `Update`, `Flush`, `Clear`, `Readable`
-- and `Empty` that writes at most as many bytes as a vector can hold either returns from every
-- call and leaves such a buffer, or returns from all calls before a `Write`, leaving such a
-- buffer, and that `Write` is undefined: it would pass the limit behind the data, not once flushed
-- bytes are given up, and these are more than half of what stands in front of the writing
-- position.
pub perform_all_lem :
    (cs : List Command) {b : StreamBuffer}
    → IsSound b
    → written cs ≤ max_size
    → Completes cs b ⊎ Breaks cs b
unfolding perform_all
perform_all_lem [] {b} h n = inl ([], b, refl, h)
perform_all_lem (c ∷ cs) {b} h n = elim (perform_lem c h (omega (arith, n, size-written c cs))) [
  | inl (r, b₁, e, h₁) ↦ elim (perform_all_lem cs h₁ (omega (arith, n, size-written c cs))) [
    | inl x ↦ inl (completes c cs b r b₁ e x)
    | inr x ↦ inr (breaks c cs b r b₁ e x)
  ]
  | inr (f, k) ↦ inr ([], c, cs, refl, [], b, refl, h, k, rw f refl)
]
