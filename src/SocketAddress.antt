-- ===== src/SocketAddress.antt =====
-- `SocketAddress` of netb/SocketAddress.hpp and netb/SocketAddress.cpp. An address keeps what its
-- family reads: the fields of sockaddr_in or sockaddr_in6 as they lie in memory, or the bytes behind
-- the family. `pton` is ::inet_pton, with the address as it lies in memory.
pub mod Order
use netb.Prelude.{
  ℕ, List, [], ◌∷◌, replicate, Bool, true, false, not, ◌&&◌, ◌||◌, Option, none, some, Outcome, ok,
  fault, undefined, aborted, ◌▹◌, ltb, ◌==◌, if◌then◌else◌, ◌≡◌,
}
use netb.Memory.{Bytes}
use netb.Host.{Endian, htons, htonl}

pub data SocketAddress : Type 0 where
  inet : ℕ → ℕ → SocketAddress
  inet6 : ℕ → ℕ → Bytes → ℕ → SocketAddress
  other : ℕ → Bytes → SocketAddress

-- AF_UNSPEC, AF_INET and AF_INET6
abbrev pub af_unspec : ℕ
af_unspec = 0

abbrev pub af_inet : ℕ
af_inet = 2

abbrev pub af_inet6 : ℕ
af_inet6 = 10

-- Family()
unfoldable pub family : SocketAddress → ℕ
family (inet port addr) = af_inet
family (inet6 port flow addr scope) = af_inet6
family (other f bytes) = f

-- Empty()
unfoldable pub is_unspecified : SocketAddress → Bool
unfolding family
is_unspecified a = family a == af_unspec

-- Reset(family), over all 128 bytes
unfoldable pub reset : ℕ → SocketAddress
reset f =
    if f == af_inet
    then inet 0 0
    else if f == af_inet6
    then inet6 0 0 (replicate 16 0) 0
    else other f (replicate 126 0)

-- Length()
unfoldable pub address_length : SocketAddress → Outcome ℕ
address_length (inet port addr) = ok 16
address_length (inet6 port flow addr scope) = ok 28
address_length (other f bytes) = if f == af_unspec then ok 128 else fault aborted

-- String(), without the text, where ::getnameinfo writes the number of an IPv4 or IPv6 address; it is
-- given Length(), and Port() fails its assert for every other family.
unfoldable pub describe : SocketAddress → Outcome (Unit {0})
describe (inet port addr) = ok tt
describe (inet6 port flow addr scope) = ok tt
describe (other f bytes) = fault aborted

-- Where Length() returns.
abbrev pub HasLength : SocketAddress → Type 0
unfolding address_length
HasLength a = (n : ℕ) × (address_length a ≡ ok n)

-- An address of AF_INET or AF_INET6.
abbrev pub IsInternet : SocketAddress → Type 0
IsInternet (inet port addr) = Unit
IsInternet (inet6 port flow addr scope) = Unit
IsInternet (other f bytes) = ⊥

-- Port(port)
unfoldable pub set_port : Endian → ℕ → SocketAddress → Outcome SocketAddress
unfolding htons
set_port e p (inet port addr) = ok (inet (htons e p) addr)
set_port e p (inet6 port flow addr scope) = ok (inet6 (htons e p) flow addr scope)
set_port e p (other f bytes) = fault aborted

-- Port()
unfoldable pub get_port : Endian → SocketAddress → Outcome ℕ
unfolding htons
get_port e (inet port addr) = ok (htons e port)
get_port e (inet6 port flow addr scope) = ok (htons e port)
get_port e (other f bytes) = fault aborted

-- memcmp(p, q, n) < 0 and == 0 on as many bytes, and the order of numbers one after the other
unfoldable pub less_bytes : Bytes → Bytes → Bool
less_bytes [] [] = false
less_bytes [] (y ∷ ys) = true
less_bytes (x ∷ xs) [] = false
less_bytes (x ∷ xs) (y ∷ ys) =
    let later = less_bytes xs ys in if ltb x y then true else if x == y then later else false

unfoldable pub same_bytes : Bytes → Bytes → Bool
same_bytes [] [] = true
same_bytes [] (y ∷ ys) = false
same_bytes (x ∷ xs) [] = false
same_bytes (x ∷ xs) (y ∷ ys) = x == y && same_bytes xs ys

-- The names that Host(host) knows
abbrev pub loopback : Bytes
loopback = b'l' ∷ b'o' ∷ b'o' ∷ b'p' ∷ b'b' ∷ b'a' ∷ b'c' ∷ b'k' ∷ []

abbrev localhost : Bytes
localhost = b'l' ∷ b'o' ∷ b'c' ∷ b'a' ∷ b'l' ∷ b'h' ∷ b'o' ∷ b's' ∷ b't' ∷ []

abbrev any : Bytes
any = b'a' ∷ b'n' ∷ b'y' ∷ []

abbrev wildcard : Bytes
wildcard = b'w' ∷ b'i' ∷ b'l' ∷ b'd' ∷ b'c' ∷ b'a' ∷ b'r' ∷ b'd' ∷ []

abbrev no_host : Bytes
no_host = b'n' ∷ b'o' ∷ b'n' ∷ b'e' ∷ []

abbrev broadcast : Bytes
broadcast = b'b' ∷ b'r' ∷ b'o' ∷ b'a' ∷ b'd' ∷ b'c' ∷ b'a' ∷ b's' ∷ b't' ∷ []

-- `host.empty() || host == "loopback" || host == "localhost"`
unfoldable pub is_loopback : Bytes → Bool
unfolding same_bytes
is_loopback host = same_bytes host [] || (same_bytes host loopback || same_bytes host localhost)

-- `host == "any" || host == "wildcard"`
unfoldable pub is_any : Bytes → Bool
unfolding same_bytes
is_any host = same_bytes host any || same_bytes host wildcard

-- `host == "none" || host == "broadcast"`
unfoldable pub is_broadcast : Bytes → Bool
unfolding same_bytes
is_broadcast host = same_bytes host no_host || same_bytes host broadcast

-- What ::inet_pton makes of a text: an IPv4 address or the 16 bytes of an IPv6 address.
pub record Parser : Type 0 where
  pub pton4 : Bytes → Option ℕ
  pub pton6 : Bytes → Option Bytes

-- Host(host), which returns true
unfoldable pub set_host : Endian → Parser → Bytes → SocketAddress → Outcome SocketAddress
unfolding is_loopback is_any is_broadcast htonl
set_host e pton host (inet port addr) =
    if is_loopback host
    then ok (inet port (htonl e 2130706433))
    else if is_any host
    then ok (inet port (htonl e 0))
    else if is_broadcast host
    then ok (inet port (htonl e 4294967295))
    else elim (pton.pton4 host) [ none ↦ fault aborted | some v ↦ ok (inet port v) ]
set_host e pton host (inet6 port flow addr scope) =
    if is_loopback host
    then ok
        (inet6 port flow (0 ∷ 0 ∷ 0 ∷ 0 ∷ 0 ∷ 0 ∷ 0 ∷ 0 ∷ 0 ∷ 0 ∷ 0 ∷ 0 ∷ 0 ∷ 0 ∷ 0 ∷ 1 ∷ []) scope)
    else if is_any host
    then ok (inet6 port flow (replicate 16 0) scope)
    else if is_broadcast host
    then fault aborted
    else elim (pton.pton6 host) [ none ↦ fault aborted | some v ↦ ok (inet6 port flow v scope) ]
set_host e pton host (other f bytes) = fault aborted

-- SocketAddress(port, family)
unfoldable pub of_port : Endian → ℕ → ℕ → Outcome SocketAddress
unfolding reset set_port
of_port e port f = if ltb 0 port then set_port e port (reset f) else ok (reset f)

-- SocketAddress(host, port, family): `host != "any" || host != "wildcard"` holds of every host
unfoldable pub of_host : Endian → Parser → Bytes → ℕ → ℕ → Outcome SocketAddress
unfolding reset set_port set_host same_bytes
of_host e pton host port f =
    (if not (same_bytes host any) || not (same_bytes host wildcard)
      then set_host e pton host (reset f)
      else ok (reset f))
    ▹ λ a. if ltb 0 port then set_port e port a else ok a

-- Wildcard(), Any(), AnyPort(), AnyHost(), Localhost(), Loopback(), Broadcast() and Multicast()
unfoldable pub kind_test : SocketAddress → Outcome Bool
kind_test a = fault aborted

-- a == b
unfoldable pub equal : SocketAddress → SocketAddress → Bool
unfolding same_bytes
equal (inet p x) (inet q y) = p == q && x == y
equal (inet6 p f x s) (inet6 q g y t) = p == q && (f == g && (same_bytes x y && s == t))
equal (other f x) (other g y) = f == g && same_bytes x y
equal a b = false

-- a < b for addresses of one family
unfoldable pub less_inside : SocketAddress → SocketAddress → Bool
unfolding less_bytes same_bytes
less_inside (inet p x) (inet q y) = if ltb p q then true else if p == q then ltb x y else false
less_inside (inet6 p f x s) (inet6 q g y t) =
    if ltb p q
    then true
    else if p == q
    then if ltb f g
      then true
      else if f == g
      then if less_bytes x y then true else if same_bytes x y then ltb s t else false
      else false
    else false
less_inside (other f x) (other g y) = less_bytes x y
less_inside a b = false

-- a < b
unfoldable pub less : SocketAddress → SocketAddress → Bool
unfolding family less_inside
less a b =
    if ltb (family a) (family b)
    then true
    else if family a == family b
    then less_inside a b
    else false

-- a != b, a > b, a <= b and a >= b
unfoldable pub not_equal : SocketAddress → SocketAddress → Bool
unfolding equal
not_equal a b = not (equal a b)

unfoldable pub greater : SocketAddress → SocketAddress → Bool
unfolding less
greater a b = less b a

unfoldable pub at_most : SocketAddress → SocketAddress → Bool
unfolding less
at_most a b = not (less b a)

unfoldable pub at_least : SocketAddress → SocketAddress → Bool
unfolding less
at_least a b = not (less a b)
