-- ===== src/Prelude/Calls.antt =====
-- What a call comes to: a value, or the end of the program.
use mathlib.Core.Path.{◌≡◌, refl, ap}
use mathlib.Core.Logic.{◌⊎◌, inl, inr}

-- `undefined` is a memory access or a library call outside its documented domain, `aborted` a
-- failed `assert`, `thrown` an exception that nothing in the library catches, and `starved` a
-- loop that the fuel of the model cut off.
pub data Fault : Type 0 where
  undefined aborted thrown starved : Fault

pub data Outcome {ℓ} (A : Type ℓ) : Type ℓ where
  ok : A → Outcome A
  fault : Fault → Outcome A

infixl 5 ◌▹◌
-- The next step of a call.
abbrev pub ◌▹◌ {ℓ κ} : {A : Type ℓ} {B : Type κ} → Outcome A → (A → Outcome B) → Outcome B
ok a ▹ f = f a
fault e ▹ f = fault e

pub Outcome-cases {ℓ} :
    {A : Type ℓ} (o : Outcome A) → ((e : Fault) × (o ≡ fault e)) ⊎ ((a : A) × (o ≡ ok a))
Outcome-cases (ok a) = inr (a, refl)
Outcome-cases (fault e) = inl (e, refl)

from_ok : {A : Type 0} → A → Outcome A → A
from_ok a (ok b) = b
from_ok a (fault x) = a

pub ok-injective : {A : Type 0} {a b : A} → ok a ≡ ok b → a ≡ b
unfolding from_ok
ok-injective {a = a} e = ap (from_ok a) e

pub fault≢ok : {A : Type 0} {a : A} {x : Fault} → (fault x ≡ ok a) → ⊥
fault≢ok e = cc

-- A chain that succeeds: its first call did.
pub bind-ok :
    {A B : Type 0} {c : B} (o : Outcome A) (f : A → Outcome B)
    → (o ▹ f) ≡ ok c
    → (a : A) × (o ≡ ok a) × (f a ≡ ok c)
bind-ok (ok a) f e = (a, refl, e)
bind-ok (fault x) f e = absurd (fault≢ok e)
