-- ===== src/Host.antt =====
-- The machine: how 16-bit and 32-bit numbers lie in memory, and `htons`, `htonl`, `ntohs` and
-- `ntohl`. A number is its bit pattern, so a signed number is the pattern of its unsigned cast.
use netb.Prelude.{ℕ, ◌+◌, ◌*◌, ◌/◌, ◌%◌, ◌^◌, ◌<◌, ◌≡◌, [], ◌∷◌, arith}
use netb.Memory.{Bytes}

-- The byte order of the machine.
pub data Endian : Type 0 where
  little big : Endian

-- The bytes of a `uint16_t` object.
unfoldable pub bytes16 : Endian → ℕ → Bytes
bytes16 little v = v % 256 ∷ v / 256 % 256 ∷ []
bytes16 big v = v / 256 % 256 ∷ v % 256 ∷ []

-- The bytes of a `uint32_t` object.
unfoldable pub bytes32 : Endian → ℕ → Bytes
bytes32 little v = v % 256 ∷ v / 2 ^ 8 % 256 ∷ v / 2 ^ 16 % 256 ∷ v / 2 ^ 24 % 256 ∷ []
bytes32 big v = v / 2 ^ 24 % 256 ∷ v / 2 ^ 16 % 256 ∷ v / 2 ^ 8 % 256 ∷ v % 256 ∷ []

-- The `uint16_t` whose object has these bytes.
unfoldable pub value16 : Endian → Bytes → ℕ
value16 little (x ∷ y ∷ []) = x + y * 256
value16 big (x ∷ y ∷ []) = x * 256 + y
value16 e bs = 0

-- The `uint32_t` whose object has these bytes.
unfoldable pub value32 : Endian → Bytes → ℕ
value32 little (w ∷ x ∷ y ∷ z ∷ []) = w + x * 2 ^ 8 + y * 2 ^ 16 + z * 2 ^ 24
value32 big (w ∷ x ∷ y ∷ z ∷ []) = w * 2 ^ 24 + x * 2 ^ 16 + y * 2 ^ 8 + z
value32 e bs = 0

-- htons, which is ntohs
unfoldable pub htons : Endian → ℕ → ℕ
htons little v = v % 256 * 256 + v / 256 % 256
htons big v = v

-- htonl, which is ntohl
unfoldable pub htonl : Endian → ℕ → ℕ
htonl little v =
    v % 256 * 2 ^ 24 + v / 2 ^ 8 % 256 * 2 ^ 16 + v / 2 ^ 16 % 256 * 2 ^ 8 + v / 2 ^ 24 % 256
htonl big v = v

-- A 16-bit number on the wire, most significant byte first.
abbrev pub wire16 : ℕ → Bytes
wire16 v = v / 256 ∷ v % 256 ∷ []

-- A 32-bit number on the wire, most significant byte first.
abbrev pub wire32 : ℕ → Bytes
wire32 v = v / 2 ^ 24 ∷ v / 2 ^ 16 % 256 ∷ v / 2 ^ 8 % 256 ∷ v % 256 ∷ []

cons2 : {a b c d : ℕ} → a ≡ c → b ≡ d → ◌≡◌ {A = Bytes} (a ∷ b ∷ []) (c ∷ d ∷ [])
cons2 p q = λ i. p i ∷ q i ∷ []

cons4 :
    {a b c d a' b' c' d' : ℕ}
    → a ≡ a'
    → b ≡ b'
    → c ≡ c'
    → d ≡ d'
    → ◌≡◌ {A = Bytes} (a ∷ b ∷ c ∷ d ∷ []) (a' ∷ b' ∷ c' ∷ d' ∷ [])
cons4 p q r s = λ i. p i ∷ q i ∷ r i ∷ s i ∷ []

pub bytes16-htons : (e : Endian) (v : ℕ) → v < 2 ^ 16 → bytes16 e (htons e v) ≡ wire16 v
unfolding bytes16 htons
bytes16-htons little v h = cons2 (omega arith) (omega arith)
bytes16-htons big v h = cons2 (omega arith) (omega arith)

pub ntohs-value16 : (e : Endian) (v : ℕ) → v < 2 ^ 16 → htons e (value16 e (wire16 v)) ≡ v
unfolding value16 htons
ntohs-value16 little v h = omega arith
ntohs-value16 big v h = omega arith

pub bytes32-htonl : (e : Endian) (v : ℕ) → v < 2 ^ 32 → bytes32 e (htonl e v) ≡ wire32 v
unfolding bytes32 htonl
bytes32-htonl little v h = cons4 (omega arith) (omega arith) (omega arith) (omega arith)
bytes32-htonl big v h = cons4 (omega arith) (omega arith) (omega arith) (omega arith)

pub ntohl-value32 : (e : Endian) (v : ℕ) → v < 2 ^ 32 → htonl e (value32 e (wire32 v)) ≡ v
unfolding value32 htonl
ntohl-value32 little v h = omega arith
ntohl-value32 big v h = omega arith

-- The bytes of the low half of a `uint32_t` in network byte order: which half of the number they
-- are depends on the machine.
unfoldable pub half_wire32 : Endian → ℕ → Bytes
half_wire32 little v = v / 2 ^ 24 ∷ v / 2 ^ 16 % 256 ∷ []
half_wire32 big v = v / 2 ^ 8 % 256 ∷ v % 256 ∷ []

pub bytes16-htonl :
    (e : Endian) (v : ℕ) → v < 2 ^ 32 → bytes16 e (htonl e v % 2 ^ 16) ≡ half_wire32 e v
unfolding bytes16 htonl half_wire32
bytes16-htonl little v h = cons2 (omega arith) (omega arith)
bytes16-htonl big v h = cons2 (omega arith) (omega arith)
