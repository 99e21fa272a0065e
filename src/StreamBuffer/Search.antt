-- ===== src/StreamBuffer/Search.antt =====
-- What `std::find` and `std::find_first_of` return: the first position at which the test holds.
use netb.Prelude.{
  ℕ, suc, ◌≡◌, List, [], ◌∷◌, ◌++◌, Bool, true, false, none, some, length, refl, arith, Outcome, ok,
  fault, Option, ◌≤◌, sym, ap, ◌∙◌, Bool-cases, Option-cases, inl, inr, zero,
}
use netb.Memory.{Bytes}
use netb.StreamBuffer.{StreamBuffer, find, is_one_of, readable_string}
use netb.StreamBuffer.Valid.{IsValid, unread}
use netb.StreamBuffer.Read.{readable_string-eq}

answer : Outcome (Option ℕ) → Option ℕ
answer (ok r) = r
answer (fault e) = none

ok-injective : {r s : Option ℕ} → ◌≡◌ {A = Outcome (Option ℕ)} (ok r) (ok s) → r ≡ s
unfolding answer
ok-injective e = ap answer e

-- No item passes the test.
abbrev pub AllFail : (ℕ → Bool) → List ℕ → Type 0
AllFail p [] = Unit
AllFail p (x ∷ xs) = (p x ≡ false) × AllFail p xs

-- The search stops at the first item that passes.
pub find-append :
    (p : ℕ → Bool) (xs : List ℕ) (d : ℕ) (ys : List ℕ)
    → AllFail p xs
    → p d ≡ true
    → find p (xs ++ d ∷ ys) ≡ some (length xs)
unfolding find
find-append p [] d ys h hd = ground arith
find-append p (x ∷ xs) d ys h hd = ground (arith, find-append p xs d ys h.1 hd)

-- The item at position `i` passes the test, and none before it does.
abbrev pub FirstAt : (ℕ → Bool) → List ℕ → ℕ → Type 0
FirstAt p [] i = ⊥
FirstAt p (x ∷ xs) zero = p x ≡ true
FirstAt p (x ∷ xs) (suc i) = (p x ≡ false) × FirstAt p xs i

pub find-FirstAt : (p : ℕ → Bool) (bs : List ℕ) (i : ℕ) → find p bs ≡ some i → FirstAt p bs i
unfolding find
find-FirstAt p [] i h = cc
find-FirstAt p (x ∷ xs) zero h = elim (Bool-cases (p x)) [
  | inl e ↦ e
  | inr e ↦ elim (Option-cases (find p xs)) [
    | inl none' ↦ ground arith
    | inr (k, found) ↦ ground arith
  ]
]
find-FirstAt p (x ∷ xs) (suc i) h = elim (Bool-cases (p x)) [
  | inl e ↦ ground arith
  | inr e ↦ (e, find-FirstAt p xs i (ground arith))
]

pub find-none : (p : ℕ → Bool) (xs : List ℕ) → AllFail p xs → find p xs ≡ none
unfolding find
find-none p [] h = refl
find-none p (x ∷ xs) h = ground (arith, find-none p xs h.1)

-- What `Readable(delim)` finds on a valid buffer that holds at least as many unread bytes as the
-- string `delim` is long: a position in the unread bytes at which one of the delimiter's bytes
-- stands, where none stands before it.
pub readable_string-FirstAt :
    (d : Bytes) (i : ℕ) {b : StreamBuffer}
    → IsValid b
    → length d ≤ length (unread b)
    → readable_string d b ≡ ok (some i)
    → FirstAt (is_one_of d) (unread b) i
readable_string-FirstAt d i {b} v h found =
    find-FirstAt (is_one_of d) (unread b) i (ok-injective (sym (readable_string-eq v d h) ∙ found))
