-- ===== src/Http/Headers/Laws.antt =====
-- The headers as a map from keys to values.
use netb.Prelude.{◌≡◌, ◌↔◌, [], ◌∷◌, true, none, some, refl, arith, if◌then◌else◌, ==_refl}
use netb.Memory.{Bytes}
use netb.Http.Headers.{Headers, same, set_header, remove_header, get_header}

pub same_refl : (s : Bytes) → same s s ≡ true
unfolding same
same_refl [] = refl
same_refl (x ∷ s) = rw (==_refl x) (same_refl s)

pub eq-same : (s t : Bytes) → same s t ≡ true → s ≡ t
unfolding same
eq-same [] [] h = refl
eq-same [] (y ∷ t) h = ground arith
eq-same (x ∷ s) [] h = ground arith
eq-same (x ∷ s) (y ∷ t) h = ground (arith, eq-same s t)

pub same_iff : (s t : Bytes) → (same s t ≡ true) ↔ (s ≡ t)
same_iff s t = (eq-same s t, λ e. rw e (same_refl t))

-- After `SetHeader(k, v)`, `GetHeader` of `k` is `v`, and `GetHeader` of another key is what it
-- was.
pub get_header-set_header :
    (j k v : Bytes) (hs : Headers)
    → get_header j (set_header k v hs) ≡ (if same k j then some v else get_header j hs)
unfolding get_header set_header
get_header-set_header j k v [] = refl
get_header-set_header j k v ((i, w) ∷ hs) =
    ground (arith, same_iff i j, same_iff k i, same_iff k j, get_header-set_header j k v hs)

-- After `RemoveHeader(k)`, `GetHeader` of `k` is the null pointer, and `GetHeader` of another key
-- is what it was.
pub get_header-remove_header :
    (j k : Bytes) (hs : Headers)
    → get_header j (remove_header k hs) ≡ (if same k j then none else get_header j hs)
unfolding get_header remove_header
get_header-remove_header j k [] = ground arith
get_header-remove_header j k ((i, w) ∷ hs) =
    ground (arith, same_iff i j, same_iff k i, same_iff k j, get_header-remove_header j k hs)
