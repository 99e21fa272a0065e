-- ===== src/Errors/Documented.antt =====
-- The error codes that the comments of netb/SocketError.cpp list for each call.
use netb.Prelude.{ℕ, ◌≡◌, ◌==◌, List, [], ◌∷◌, Bool, arith, true, false, not, ◌||◌, ◌&&◌, refl}
use netb.Errors.{
  Errno, Verdict, Call, classify, eacces, eaddrinuse, eaddrnotavail, eafnosupport, eagain, ealready,
  ebadf, econnrefused, econnreset, edestaddrreq, efault, einprogress, eintr, einval, eio, eisconn,
  emfile, emsgsize, enetunreach, enfile, enobufs, enolck, enomem, enoprotoopt, enotconn, enotsock,
  eopnotsupp, eperm, epipe, eprotonosupport, eprototype, etimedout, other, sets, general_error,
  select_call, open_call, close_call, shutdown_call, bind_call, connect_call, listen_call,
  accept_call, send_call, receive_call, name_call, control_call, option_call,
}

-- The comment above the SetError function of a call; Listen and Accept have none.
unfoldable pub documented : Call → List Errno
documented select_call = ebadf ∷ eintr ∷ einval ∷ enomem ∷ []
documented open_call =
    eacces ∷ eafnosupport ∷ einval ∷ emfile ∷ enfile ∷ enobufs ∷ enomem ∷ eprotonosupport ∷ []
documented close_call = ebadf ∷ eintr ∷ eio ∷ []
documented shutdown_call = ebadf ∷ einval ∷ enotconn ∷ enotsock ∷ []
documented bind_call = eacces ∷ eaddrinuse ∷ ebadf ∷ einval ∷ enotsock ∷ []
documented connect_call =
    eacces ∷ eperm ∷ eaddrinuse ∷ eaddrnotavail ∷ eafnosupport ∷ eagain ∷ ealready ∷ ebadf
    ∷ econnrefused ∷ efault ∷ einprogress ∷ eintr ∷ eisconn ∷ enetunreach ∷ enotsock ∷ eprototype
    ∷ etimedout ∷ []
documented listen_call = []
documented accept_call = []
documented send_call =
    eacces ∷ eagain ∷ ebadf ∷ econnreset ∷ edestaddrreq ∷ efault ∷ eintr ∷ einval ∷ eisconn
    ∷ emsgsize ∷ enobufs ∷ enomem ∷ enotconn ∷ enotsock ∷ eopnotsupp ∷ epipe ∷ []
documented receive_call =
    eagain ∷ ebadf ∷ econnrefused ∷ efault ∷ eintr ∷ einval ∷ enomem ∷ enotconn ∷ enotsock ∷ []
documented name_call = ebadf ∷ efault ∷ einval ∷ enobufs ∷ enotsock ∷ enotconn ∷ []
documented control_call = eacces ∷ eagain ∷ ebadf ∷ efault ∷ einval ∷ enolck ∷ []
documented option_call = ebadf ∷ efault ∷ einval ∷ enoprotoopt ∷ enotsock ∷ []

-- A number of its own for each code that the source names.
abbrev number : Errno → ℕ
number x = elim x [
  | eacces ↦ 0
  | eaddrinuse ↦ 1
  | eaddrnotavail ↦ 2
  | eafnosupport ↦ 3
  | eagain ↦ 4
  | ealready ↦ 5
  | ebadf ↦ 6
  | econnrefused ↦ 7
  | econnreset ↦ 8
  | edestaddrreq ↦ 9
  | efault ↦ 10
  | einprogress ↦ 11
  | eintr ↦ 12
  | einval ↦ 13
  | eio ↦ 14
  | eisconn ↦ 15
  | emfile ↦ 16
  | emsgsize ↦ 17
  | enetunreach ↦ 18
  | enfile ↦ 19
  | enobufs ↦ 20
  | enolck ↦ 21
  | enomem ↦ 22
  | enoprotoopt ↦ 23
  | enotconn ↦ 24
  | enotsock ↦ 25
  | eopnotsupp ↦ 26
  | eperm ↦ 27
  | epipe ↦ 28
  | eprotonosupport ↦ 29
  | eprototype ↦ 30
  | etimedout ↦ 31
  | other n ↦ 32
]

-- The code is in the list.
unfoldable pub lists : List Errno → Errno → Bool
lists [] x = false
lists (y ∷ ys) x = number x == number y || lists ys x

-- The verdict is the one for an unknown code.
unfoldable pub is_general : Verdict → Bool
is_general v = elim v [ sets general_error ↦ true | _ ↦ false ]

-- The calls whose comment and function agree.
unfoldable pub is_matched : Call → Bool
is_matched c = elim c [ select_call ↦ false | listen_call ↦ false | accept_call ↦ false | _ ↦ true ]

abbrev named_codes : List Errno
named_codes =
    eacces ∷ eaddrinuse ∷ eaddrnotavail ∷ eafnosupport ∷ eagain ∷ ealready ∷ ebadf ∷ econnrefused
    ∷ econnreset ∷ edestaddrreq ∷ efault ∷ einprogress ∷ eintr ∷ einval ∷ eio ∷ eisconn ∷ emfile
    ∷ emsgsize ∷ enetunreach ∷ enfile ∷ enobufs ∷ enolck ∷ enomem ∷ enoprotoopt ∷ enotconn
    ∷ enotsock ∷ eopnotsupp ∷ eperm ∷ epipe ∷ eprotonosupport ∷ eprototype ∷ etimedout ∷ []

unfoldable same : Bool → Bool → Bool
same true b = b
same false b = not b

unfoldable all : (Errno → Bool) → List Errno → Bool
all p [] = true
all p (x ∷ xs) = p x && all p xs

AllTrue : (Errno → Bool) → List Errno → Type 0
AllTrue p [] = Unit
AllTrue p (x ∷ xs) = (p x ≡ true) × AllTrue p xs

all-AllTrue : (p : Errno → Bool) (xs : List Errno) → all p xs ≡ true → AllTrue p xs
unfolding all AllTrue
all-AllTrue p [] e = tt
all-AllTrue p (x ∷ xs) e = (ground arith, all-AllTrue p xs (ground arith))

every :
    (p : Errno → Bool)
    → all p named_codes ≡ true
    → ((n : ℕ) → p (other n) ≡ true)
    → (x : Errno) → p x ≡ true
unfolding AllTrue
every p h o x =
    let (
      t0,
      (
        t1,
        (
          t2,
          (
            t3,
            (
              t4,
              (
                t5,
                (
                  t6,
                  (
                    t7,
                    (
                      t8,
                      (
                        t9,
                        (
                          t10,
                          (
                            t11,
                            (
                              t12,
                              (
                                t13,
                                (
                                  t14,
                                  (
                                    t15,
                                    (
                                      t16,
                                      (
                                        t17,
                                        (
                                          t18,
                                          (
                                            t19,
                                            (
                                              t20,
                                              (
                                                t21,
                                                (
                                                  t22,
                                                  (
                                                    t23,
                                                    (
                                                      t24,
                                                      (
                                                        t25,
                                                        (
                                                          t26,
                                                          (t27, (t28, (t29, (t30, (t31, end))))),
                                                        ),
                                                      ),
                                                    ),
                                                  ),
                                                ),
                                              ),
                                            ),
                                          ),
                                        ),
                                      ),
                                    ),
                                  ),
                                ),
                              ),
                            ),
                          ),
                        ),
                      ),
                    ),
                  ),
                ),
              ),
            ),
          ),
        ),
      ),
    ) =
      all-AllTrue p named_codes h in
    elim x as (λ y. p y ≡ true) [
      | eacces ↦ t0
      | eaddrinuse ↦ t1
      | eaddrnotavail ↦ t2
      | eafnosupport ↦ t3
      | eagain ↦ t4
      | ealready ↦ t5
      | ebadf ↦ t6
      | econnrefused ↦ t7
      | econnreset ↦ t8
      | edestaddrreq ↦ t9
      | efault ↦ t10
      | einprogress ↦ t11
      | eintr ↦ t12
      | einval ↦ t13
      | eio ↦ t14
      | eisconn ↦ t15
      | emfile ↦ t16
      | emsgsize ↦ t17
      | enetunreach ↦ t18
      | enfile ↦ t19
      | enobufs ↦ t20
      | enolck ↦ t21
      | enomem ↦ t22
      | enoprotoopt ↦ t23
      | enotconn ↦ t24
      | enotsock ↦ t25
      | eopnotsupp ↦ t26
      | eperm ↦ t27
      | epipe ↦ t28
      | eprotonosupport ↦ t29
      | eprototype ↦ t30
      | etimedout ↦ t31
      | other n ↦ o n
    ]

unfoldable agrees : Call → Errno → Bool
unfolding classify documented lists is_general same
agrees c x = same (is_general (classify c x)) (not (lists (documented c) x))

agrees_named : (c : Call) → is_matched c ≡ true → all (agrees c) named_codes ≡ true
unfolding agrees all is_matched
agrees_named select_call m = absurd cc
agrees_named open_call m = refl
agrees_named close_call m = refl
agrees_named shutdown_call m = refl
agrees_named bind_call m = refl
agrees_named connect_call m = refl
agrees_named listen_call m = absurd cc
agrees_named accept_call m = absurd cc
agrees_named send_call m = refl
agrees_named receive_call m = refl
agrees_named name_call m = refl
agrees_named control_call m = refl
agrees_named option_call m = refl

agrees_other : (c : Call) (n : ℕ) → is_matched c ≡ true → agrees c (other n) ≡ true
unfolding agrees is_matched
agrees_other select_call n m = absurd cc
agrees_other open_call n m = refl
agrees_other close_call n m = refl
agrees_other shutdown_call n m = refl
agrees_other bind_call n m = refl
agrees_other connect_call n m = refl
agrees_other listen_call n m = absurd cc
agrees_other accept_call n m = absurd cc
agrees_other send_call n m = refl
agrees_other receive_call n m = refl
agrees_other name_call n m = refl
agrees_other control_call n m = refl
agrees_other option_call n m = refl

same-eq : (a b : Bool) → same a b ≡ true → a ≡ b
unfolding same
same-eq a b e = ground arith

-- For every call but select, listen and accept, and for every error code, SetError takes the
-- branch for an unknown error exactly where the comment above it does not list the code.
pub classify-documented :
    (c : Call) (x : Errno)
    → is_matched c ≡ true
    → is_general (classify c x) ≡ not (lists (documented c) x)
unfolding agrees
classify-documented c x m =
    same-eq (is_general (classify c x)) (not (lists (documented c) x))
      (every (agrees c) (agrees_named c m) (λ n. agrees_other c n m) x)
