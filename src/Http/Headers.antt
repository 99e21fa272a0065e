-- ===== src/Http/Headers.antt =====
-- The headers of an `HttpMessage`, in their order: SetHeader, RemoveHeader and GetHeader.
pub mod Laws
use netb.Prelude.{
  ℕ, List, [], ◌∷◌, Bool, true, false, ◌&&◌, Option, none, some, ◌==◌, if◌then◌else◌,
}
use netb.Memory.{Bytes}

-- The comparison of two strings.
unfoldable pub same : Bytes → Bytes → Bool
same [] [] = true
same [] (y ∷ t) = false
same (x ∷ s) [] = false
same (x ∷ s) (y ∷ t) = x == y && same s t

-- HttpMessage::Header
abbrev pub Header : Type 0
Header = Bytes × Bytes

abbrev pub Headers : Type 0
Headers = List Header

-- SetHeader(key, value): the first header of that key, or a new one at the end
unfoldable pub set_header : Bytes → Bytes → Headers → Headers
set_header key value [] = (key, value) ∷ []
set_header key value ((k, v) ∷ rest) =
    let others = set_header key value rest in
    if same key k then (k, value) ∷ rest else (k, v) ∷ others

-- RemoveHeader(key): every header of that key
unfoldable pub remove_header : Bytes → Headers → Headers
remove_header key [] = []
remove_header key ((k, v) ∷ rest) =
    let others = remove_header key rest in if same key k then others else (k, v) ∷ others

-- GetHeader(key): `none` is the null pointer
unfoldable pub get_header : Bytes → Headers → Option Bytes
get_header key [] = none
get_header key ((k, v) ∷ rest) = if same k key then some v else get_header key rest
