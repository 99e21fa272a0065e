-- ===== src/SocketAddress/Order.antt =====
-- The comparisons of addresses as an order of lists of numbers.
use netb.Prelude.{
  ℕ, ◌≡◌, ◌≢◌, List, [], ◌∷◌, ◌++◌, length, Bool, true, false, not, ◌&&◌, ltb, ◌==◌, if◌then◌else◌,
  arith, refl, sym, ◌∙◌,
}
use netb.Memory.{Bytes}
use netb.SocketAddress.{
  SocketAddress, inet, inet6, other, af_inet, af_inet6, family, less_bytes, same_bytes, equal, less,
  less_inside,
}

-- The family and then the fields, in the order of their weight.
unfoldable pub key : SocketAddress → List ℕ
key (inet p x) = af_inet ∷ p ∷ x ∷ []
key (inet6 p f x s) = af_inet6 ∷ p ∷ f ∷ (x ++ s ∷ [])
key (other f x) = f ∷ x

-- The fields have their sizes, and another family is another one.
pub data IsAddress : SocketAddress → Type 0 where
  is_inet : {p x : ℕ} → IsAddress (inet p x)
  is_inet6 : {p f s : ℕ} {x : Bytes} → length x ≡ 16 → IsAddress (inet6 p f x s)
  is_other : {f : ℕ} {x : Bytes} → f ≢ af_inet → f ≢ af_inet6 → IsAddress (other f x)

less_bytes-snoc :
    (xs ys : Bytes) (s t : ℕ)
    → length xs ≡ length ys
    → less_bytes (xs ++ s ∷ []) (ys ++ t ∷ [])
      ≡ (if less_bytes xs ys then true else if same_bytes xs ys then ltb s t else false)
unfolding less_bytes same_bytes
less_bytes-snoc [] [] s t e = ground arith
less_bytes-snoc [] (y ∷ ys) s t e = absurd (omega (arith, e))
less_bytes-snoc (x ∷ xs) [] s t e = absurd (omega (arith, e))
less_bytes-snoc (x ∷ xs) (y ∷ ys) s t e =
    ground (arith, less_bytes-snoc xs ys s t (omega (arith, e)))

same_bytes-snoc :
    (xs ys : Bytes) (s t : ℕ)
    → length xs ≡ length ys
    → same_bytes (xs ++ s ∷ []) (ys ++ t ∷ []) ≡ (same_bytes xs ys && s == t)
unfolding same_bytes
same_bytes-snoc [] [] s t e = ground arith
same_bytes-snoc [] (y ∷ ys) s t e = absurd (omega (arith, e))
same_bytes-snoc (x ∷ xs) [] s t e = absurd (omega (arith, e))
same_bytes-snoc (x ∷ xs) (y ∷ ys) s t e =
    ground (arith, same_bytes-snoc xs ys s t (omega (arith, e)))

pub less-key :
    (a b : SocketAddress) → IsAddress a → IsAddress b → less a b ≡ less_bytes (key a) (key b)
unfolding less family less_inside key less_bytes
less-key (inet p x) (inet q y) is_inet is_inet = ground arith
less-key (inet p x) (inet6 q g y t) is_inet (is_inet6 e) = refl
less-key (inet p x) (other g y) is_inet (is_other m n) = ground (arith, m)
less-key (inet6 p f x s) (inet q y) (is_inet6 d) is_inet = refl
less-key (inet6 p f x s) (inet6 q g y t) (is_inet6 d) (is_inet6 e) =
    ground (arith, less_bytes-snoc x y s t (d ∙ sym e))
less-key (inet6 p f x s) (other g y) (is_inet6 d) (is_other m n) = ground (arith, n)
less-key (other f x) (inet q y) (is_other m n) is_inet = ground (arith, m)
less-key (other f x) (inet6 q g y t) (is_other m n) (is_inet6 e) = ground (arith, n)
less-key (other f x) (other g y) (is_other m n) (is_other m' n') = ground arith

pub equal-key :
    (a b : SocketAddress) → IsAddress a → IsAddress b → equal a b ≡ same_bytes (key a) (key b)
unfolding equal key same_bytes
equal-key (inet p x) (inet q y) is_inet is_inet = ground arith
equal-key (inet p x) (inet6 q g y t) is_inet (is_inet6 e) = refl
equal-key (inet p x) (other g y) is_inet (is_other m n) = ground (arith, m)
equal-key (inet6 p f x s) (inet q y) (is_inet6 d) is_inet = refl
equal-key (inet6 p f x s) (inet6 q g y t) (is_inet6 d) (is_inet6 e) =
    ground (arith, same_bytes-snoc x y s t (d ∙ sym e))
equal-key (inet6 p f x s) (other g y) (is_inet6 d) (is_other m n) = ground (arith, n)
equal-key (other f x) (inet q y) (is_other m n) is_inet = ground (arith, m)
equal-key (other f x) (inet6 q g y t) (is_other m n) (is_inet6 e) = ground (arith, n)
equal-key (other f x) (other g y) (is_other m n) (is_other m' n') = ground arith

less_bytes_trans :
    (xs ys zs : Bytes) → less_bytes xs ys ≡ true → less_bytes ys zs ≡ true → less_bytes xs zs ≡ true
unfolding less_bytes
less_bytes_trans [] (y ∷ ys) (z ∷ zs) e f = refl
less_bytes_trans [] [] zs e f = absurd (ground arith)
less_bytes_trans [] (y ∷ ys) [] e f = absurd (ground arith)
less_bytes_trans (x ∷ xs) [] [] e f = absurd (ground arith)
less_bytes_trans (x ∷ xs) (y ∷ ys) [] e f = absurd (ground arith)
less_bytes_trans (x ∷ xs) [] (z ∷ zs) e f = absurd (ground arith)
less_bytes_trans (x ∷ xs) (y ∷ ys) (z ∷ zs) e f = ground (arith, less_bytes_trans xs ys zs)

-- Exactly one of the three.
unfoldable pub one_of : Bool → Bool → Bool → Bool
one_of true b c = not b && not c
one_of false true c = not c
one_of false false c = c

one_of-less_bytes :
    (xs ys : Bytes) → one_of (less_bytes xs ys) (same_bytes xs ys) (less_bytes ys xs) ≡ true
unfolding one_of less_bytes same_bytes
one_of-less_bytes [] [] = refl
one_of-less_bytes [] (y ∷ ys) = refl
one_of-less_bytes (x ∷ xs) [] = refl
one_of-less_bytes (x ∷ xs) (y ∷ ys) = ground (arith, one_of-less_bytes xs ys)

-- Of two addresses whose fields have their sizes, exactly one of these holds: the first is less
-- than the second, they are equal, or the second is less than the first.
pub one_of-less :
    (a b : SocketAddress)
    → IsAddress a
    → IsAddress b
    → one_of (less a b) (equal a b) (less b a) ≡ true
one_of-less a b i j =
    rw (less-key a b i j, equal-key a b i j, less-key b a j i) (one_of-less_bytes (key a) (key b))

-- The order of addresses whose fields have their sizes is transitive, across families, too.
pub less_trans :
    (a b c : SocketAddress)
    → IsAddress a
    → IsAddress b
    → IsAddress c
    → less a b ≡ true
    → less b c ≡ true
    → less a c ≡ true
less_trans a b c i j k e f =
    less-key a c i k
    ∙ less_bytes_trans (key a) (key b) (key c) (sym (less-key a b i j) ∙ e)
        (sym (less-key b c j k) ∙ f)
