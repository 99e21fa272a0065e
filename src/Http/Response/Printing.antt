-- ===== src/Http/Response/Printing.antt =====
-- Numbers that are printed are read back.
use netb.Prelude.{
  ℕ, zero, suc, ◌+◌, ◌-◌, ◌*◌, ◌/◌, ◌%◌, ◌^◌, ◌<◌, ◌≡◌, [], ◌∷◌, ◌++◌, append_assoc, append-nil,
  Bool, true, false, some, ok, arith, refl, sym, ap, ◌∙◌, ltb, Bool-cases, inl, inr, ne→==, ◌≢◌,
}
use netb.Memory.{Bytes}
use netb.Http.Number.{decimal, is_space, skip_spaces}
use netb.Http.Response.{digits, show_int, as_int, atoi, split_blank}

decimal_digit :
    (m d : ℕ) (seen : Bool) (rest : Bytes)
    → d < 10
    → decimal m seen ((48 + d) ∷ rest) ≡ decimal (m * 10 + d) true rest
unfolding decimal
decimal_digit m d seen rest h = ground arith

decimal-digits :
    (fuel n : ℕ) (rest : Bytes)
    → n < fuel
    → decimal 0 false (digits fuel n ++ rest) ≡ decimal n true rest
unfolding digits
decimal-digits zero n rest h = absurd (omega arith)
decimal-digits (suc fuel) n rest h = elim (Bool-cases (ltb n 10)) [
  | inl t ↦
      rw t
        (decimal_digit 0 n false rest (ground arith) ∙ ap (λ m. decimal m true rest) (omega arith))
  | inr t ↦
      rw (t, append_assoc)
        (decimal-digits fuel (n / 10) ((48 + n % 10) ∷ rest) (ground arith)
          ∙ decimal_digit (n / 10) (n % 10) true rest (omega arith)
          ∙ ap (λ m. decimal m true rest) (omega arith))
]

-- No blank stands in a text.
abbrev pub NoBlank : Bytes → Type 0
NoBlank [] = Unit {0}
NoBlank (c ∷ s) = (c ≢ b' ') × NoBlank s

NoBlank-append : (s t : Bytes) → NoBlank s → NoBlank t → NoBlank (s ++ t)
NoBlank-append [] t h k = k
NoBlank-append (c ∷ s) t (n, h) k = (n, NoBlank-append s t h k)

NoBlank-digits : (fuel n : ℕ) → n < fuel → NoBlank (digits fuel n)
unfolding digits
NoBlank-digits zero n h = absurd (omega arith)
NoBlank-digits (suc fuel) n h = elim (Bool-cases (ltb n 10)) [
  | inl t ↦ rw t (omega arith, tt)
  | inr t ↦ rw t (
      NoBlank-append (digits fuel (n / 10)) ((48 + n % 10) ∷ [])
        (NoBlank-digits fuel (n / 10) (ground arith)) (omega arith, tt))
]

pub NoBlank-show_int : (c : ℕ) → NoBlank (show_int c)
unfolding show_int
NoBlank-show_int c = elim (Bool-cases (ltb c (2 ^ 31))) [
  | inl t ↦ rw t (NoBlank-digits (suc c) c (omega arith))
  | inr t ↦ rw t (omega arith, NoBlank-digits (suc (2 ^ 32 - c)) (2 ^ 32 - c) (omega arith))
]

-- The first blank is where a text without blanks ends.
pub split_blank-append :
    (s rest : Bytes) → NoBlank s → split_blank (s ++ b' ' ∷ rest) ≡ some (s, rest)
unfolding split_blank
split_blank-append [] rest h = refl
split_blank-append (c ∷ s) rest (n, h) = rw (ne→== c b' ' n, split_blank-append s rest h) refl

digits-head :
    (fuel n : ℕ) → n < fuel → (d : ℕ) × (t : Bytes) × (digits fuel n ≡ (48 + d) ∷ t) × (d < 10)
unfolding digits
digits-head zero n h = absurd (omega arith)
digits-head (suc fuel) n h = elim (Bool-cases (ltb n 10)) [
  | inl t ↦ (n, [], rw t refl, ground arith)
  | inr t ↦
      let (d, s, e, lt) = digits-head fuel (n / 10) (ground arith) in
      (d, s ++ (48 + n % 10) ∷ [], rw (t, e) refl, lt)
]

decimal-show : (n : ℕ) → (decimal 0 false (digits (suc n) n)).0 ≡ n
unfolding decimal
decimal-show n =
    ap (λ s. (decimal 0 false s).0) (sym (append-nil (digits (suc n) n)))
    ∙ ap (λ r. r.0) (decimal-digits (suc n) n [] (omega arith))

atoi_digit :
    (d : ℕ) (s : Bytes)
    → d < 10
    → atoi ((48 + d) ∷ s) ≡ as_int false (decimal 0 false ((48 + d) ∷ s)).0
unfolding atoi skip_spaces is_space
atoi_digit d s h = ground arith

as_int_small : (c : ℕ) → ltb c (2 ^ 31) ≡ true → as_int false c ≡ ok c
as_int_small c t = rw t refl

pub atoi-show_int : (c : ℕ) → c < 2 ^ 32 → atoi (show_int c) ≡ ok c
unfolding atoi show_int skip_spaces is_space
atoi-show_int c h = elim (Bool-cases (ltb c (2 ^ 31))) [
  | inl t ↦
      let (d, s, e, lt) = digits-head (suc c) c (omega arith) in
      rw (t, e)
        (atoi_digit d s lt
          ∙ ap (λ b. as_int false (decimal 0 false b).0) (sym e)
          ∙ ap (as_int false) (decimal-show c)
          ∙ as_int_small c t)
  | inr t ↦ rw (t, decimal-show (2 ^ 32 - c)) (ground arith)
]
