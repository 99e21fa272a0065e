-- ===== src/Fields.antt =====
-- Readers that fill an object field by field, `a && b && c`: each returns whether it succeeded, and
-- the object with the fields that were set before a failure.
use netb.Prelude.{ℕ, ◌++◌, Bool, true, false, Option, none, some, if◌then◌else◌}
use netb.Memory.{Bytes}
use netb.StreamBuffer.{M, pure, ◌>>=◌}
use netb.Wire.{Reads, Reads-bind, Reads-pure, Writes, Writes-bind}

-- Reads a number into a field.
abbrev pub field : {A : Type 0} → M (Option ℕ) → (ℕ → A → A) → A → M (Bool × A)
field m set a = m >>= λ r. pure (elim r [ none ↦ (false, a) | some v ↦ (true, set v a) ])

infixr 34 ◌&>◌
-- `a && b`, on the object that `a` leaves.
abbrev pub ◌&>◌ : {A : Type 0} → (A → M (Bool × A)) → (A → M (Bool × A)) → A → M (Bool × A)
◌&>◌ f g a = f a >>= λ r. if r.0 then g r.1 else pure r

-- From the object `a`, `f` succeeds and leaves the object `b`, taking `bs`.
pub record Fills {A : Type 0} (f : A → M (Bool × A)) (a b : A) (bs : Bytes) : Type 0 where
  pub reads : Reads (f a) (true, b) bs

pub field-Fills :
    {A : Type 0} {m : M (Option ℕ)} {v : ℕ} {bs : Bytes} (set : ℕ → A → A) (a : A)
    → Reads m (some v) bs
    → Fills (field m set) a (set v a) bs
field-Fills set a r = record { reads = Reads-pure _ r }

pub and-Fills :
    {A : Type 0} {f g : A → M (Bool × A)} {a b c : A} (xs ys : Bytes)
    → Fills f a b xs
    → Fills g b c ys
    → Fills (f &> g) a c (xs ++ ys)
and-Fills {b} xs ys p q = record { reads = Reads-bind _ (true, b) xs ys p.reads q.reads }

-- From the object `a`, `f` succeeds and leaves the object `b`, appending `bs`.
pub record Emits {A : Type 0} (f : A → M (Bool × A)) (a b : A) (bs : Bytes) : Type 0 where
  pub writes : Writes (f a) (true, b) bs

pub and-Emits :
    {A : Type 0} {f g : A → M (Bool × A)} {a b c : A} (xs ys : Bytes)
    → Emits f a b xs
    → Emits g b c ys
    → Emits (f &> g) a c (xs ++ ys)
and-Emits {b} xs ys p q = record { writes = Writes-bind _ (true, b) xs ys p.writes q.writes }
